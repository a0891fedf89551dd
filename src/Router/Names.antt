-- ===== src/Router/Names.antt =====
-- What `_flatten` registers: the full names and middleware chains of the tree, and all of them.
use mathlib.Core.List.{Memᴰ}
use mathlib.Core.Path.{subst}
use Prim.Native.String.{◌++◌ as join}
use wire_rpc.Prelude.{
  String, string_eq, ◌≡◌, ◌≢◌, ◌⊎◌, inl, inr, refl, ap, ◌∙◌, none, some, List, [], ◌∷◌, ◌++◌,
  Option-cases, All, All-map, All-of_mem, All-mem,
}
use wire_rpc.Prelude.Dict
use wire_rpc.Prelude.Dict.{
  Dict, All-put, All-update, All-get, put-Has, put-Has_self, update-Has, update-Has_right,
}
use wire_rpc.Router.{
  Router, router, Routers, no_child, child, Entry, add_local, full_prefix, flatten, flatten_all,
}

-- Below a prefix and a chain of middleware, the tree has a handler of this full name: the prefixes
-- on the way down joined by dots, and the middleware on the way down from the top.
mutual
  pub data Registers {H M : Type 0}
      : Router H M → String → List M → String → Entry H M → Type 0 where
    here :
        {own prefix : String} {handlers : Dict String H} {middleware parent : List M}
        {children : Routers H M} (name : String) (h : H)
        → Memᴰ (name, h) handlers
        → Registers
            (router own handlers middleware children)
            prefix
            parent
            (join (full_prefix prefix own) name)
            (record { handler = h; middleware = parent ++ middleware })
    below :
        {own prefix : String} {handlers : Dict String H} {middleware parent : List M}
        {children : Routers H M} {n : String} {e : Entry H M}
        → RegistersAll children (full_prefix prefix own) (parent ++ middleware) n e
        → Registers (router own handlers middleware children) prefix parent n e

  pub data RegistersAll {H M : Type 0}
      : Routers H M → String → List M → String → Entry H M → Type 0 where
    first :
        {r : Router H M} {rest : Routers H M} {prefix : String} {chain : List M} {n : String}
        {e : Entry H M}
        → Registers r prefix chain n e
        → RegistersAll (child r rest) prefix chain n e
    later :
        {r : Router H M} {rest : Routers H M} {prefix : String} {chain : List M} {n : String}
        {e : Entry H M}
        → RegistersAll rest prefix chain n e
        → RegistersAll (child r rest) prefix chain n e

-- The two ways in which a name comes about.
abbrev pub Origin : {H M : Type 0} → Router H M → String → List M → String → Entry H M → Type 0
Origin {H} (router own handlers middleware children) prefix parent n e =
    ((name : String) × (h : H) × Memᴰ (name, h) handlers
      × (e ≡ record { handler = h; middleware = parent ++ middleware }))
    ⊎ RegistersAll children (full_prefix prefix own) (parent ++ middleware) n e

pub Registers-Origin :
    {H M : Type 0} {r : Router H M} {prefix : String} {parent : List M} {n : String} {e : Entry H M}
    → Registers r prefix parent n e
    → Origin r prefix parent n e
Registers-Origin (here name h m) = inl (name, h, m, refl)
Registers-Origin (below m) = inr m

module _ {H M : Type 0} where
  All-add_local :
      (P : String × Entry H M → Type 0) (full : String) (chain : List M) (handlers : Dict String H)
      (entries : Dict String (Entry H M))
      → ((name : String) (h : H)
          → Memᴰ (name, h) handlers
          → P (join full name, record { handler = h; middleware = chain }))
      → All P entries
      → All P (add_local full chain handlers entries)
  unfolding add_local
  All-add_local P full chain [] entries p h = h
  All-add_local P full chain ((name, f) ∷ rest) entries p h =
      All-add_local P full chain rest _ (λ n g m. p n g (Memᴰ.tail m))
        (All-put P _ _ entries (p name f (Memᴰ.head refl)) h)

-- An entry that was there, or one of the children.
abbrev Merged :
    {H M : Type 0}
    → Routers H M
    → String
    → List M
    → Dict String (Entry H M)
    → String × Entry H M
    → Type 0
Merged rs prefix chain entries x = Memᴰ x entries ⊎ RegistersAll rs prefix chain x.0 x.1

Merged-child :
    {H M : Type 0} (r : Router H M) (rest : Routers H M) (prefix : String) (chain : List M)
    (entries : Dict String (Entry H M)) (x : String × Entry H M)
    → All (λ (y : String × Entry H M). Registers r prefix chain y.0 y.1) (flatten r prefix chain)
    → Merged rest prefix chain (Dict.update entries (flatten r prefix chain)) x
    → Merged (child r rest) prefix chain entries x
Merged-child r rest prefix chain entries x h (inl m) =
    All-mem (Merged (child r rest) prefix chain entries) x _
      (All-update (Merged (child r rest) prefix chain entries) entries (flatten r prefix chain)
        (All-of_mem _ entries (λ y old. inl old))
        (All-map _ _ (flatten r prefix chain) (λ y new. inr (first new)) h))
      m
Merged-child r rest prefix chain entries x h (inr m) = inr (later m)

mutual
  unfolding flatten flatten_all

  flatten-All :
      {H M : Type 0} (r : Router H M) (prefix : String) (parent : List M)
      → All
          (λ (x : String × Entry H M). Registers r prefix parent x.0 x.1)
          (flatten r prefix parent)
  flatten-All (router own handlers middleware children) prefix parent =
      let full = full_prefix prefix own in
      let chain = parent ++ middleware in
      let mine = λ (x : String × _).
        Registers (router own handlers middleware children) prefix parent x.0 x.1 in
      let locals = All-add_local mine full chain handlers [] (λ name h m. here name h m) tt in
      All-map _ mine _ (λ x. elim [ inl m ↦ All-mem mine x _ locals m | inr m ↦ below m ])
        (flatten_all-All children full chain (add_local full chain handlers []))

  flatten_all-All :
      {H M : Type 0} (rs : Routers H M) (prefix : String) (chain : List M)
      (entries : Dict String (Entry H M))
      → All (Merged rs prefix chain entries) (flatten_all rs prefix chain entries)
  flatten_all-All no_child prefix chain entries = All-of_mem _ entries (λ y m. inl m)
  flatten_all-All (child r rest) prefix chain entries =
      All-map _ _ _ (λ x. Merged-child r rest prefix chain entries x (flatten-All r prefix chain))
        (flatten_all-All rest prefix chain (Dict.update entries (flatten r prefix chain)))

-- Every entry of the flattened dict is a handler of the tree under its full name, with the middleware
-- on the way down to it, the parent's first.
pub flatten_sound :
    {H M : Type 0} (r : Router H M) (prefix : String) (parent : List M) (n : String) (e : Entry H M)
    → Dict.get n (flatten r prefix parent) ≡ some e
    → Registers r prefix parent n e
flatten_sound r prefix parent n e h =
    All-get (λ x. Registers r prefix parent x.0 x.1) n e (flatten r prefix parent)
      (flatten-All r prefix parent) h

module _ {H M : Type 0} where
  add_local-Has :
      (full : String) (chain : List M) (handlers : Dict String H)
      (entries : Dict String (Entry H M)) (n : String)
      → Dict.get n entries ≢ none
      → Dict.get n (add_local full chain handlers entries) ≢ none
  unfolding add_local
  add_local-Has full chain [] entries n h = h
  add_local-Has full chain ((name, f) ∷ rest) entries n h =
      add_local-Has full chain rest _ n (put-Has _ n _ entries h)

  add_local-Has_new :
      (full : String) (chain : List M) (handlers : Dict String H)
      (entries : Dict String (Entry H M)) (name : String) (f : H)
      → Memᴰ (name, f) handlers
      → Dict.get (join full name) (add_local full chain handlers entries) ≢ none
  unfolding add_local
  add_local-Has_new full chain [] entries name f m = elim m [ ]
  add_local-Has_new full chain ((k, g) ∷ rest) entries name f (Memᴰ.head e) =
      add_local-Has full chain rest _ (join full name) (
        subst
          (λ (m : String).
            Dict.get (join full name)
              (Dict.put (join full m) (record { handler = g; middleware = chain }) entries)
            ≢ none)
          (ap (λ (p : String × H). p.0) e) (put-Has_self (join full name) _ entries))
  add_local-Has_new full chain ((k, g) ∷ rest) entries name f (Memᴰ.tail m) =
      add_local-Has_new full chain rest _ name f m

flatten_all-Has :
    {H M : Type 0} (rs : Routers H M) (prefix : String) (chain : List M)
    (entries : Dict String (Entry H M)) (n : String)
    → Dict.get n entries ≢ none
    → Dict.get n (flatten_all rs prefix chain entries) ≢ none
unfolding flatten_all
flatten_all-Has no_child prefix chain entries n h = h
flatten_all-Has (child r rest) prefix chain entries n h =
    flatten_all-Has rest prefix chain _ n (update-Has n entries (flatten r prefix chain) h)

mutual
  unfolding flatten flatten_all

  flatten-Has :
      {H M : Type 0} {r : Router H M} {prefix : String} {parent : List M} {n : String}
      {e : Entry H M}
      → Registers r prefix parent n e
      → Dict.get n (flatten r prefix parent) ≢ none
  flatten-Has
        (here {own = own} {prefix = prefix} {handlers = handlers} {middleware = mws}
          {parent = parent} {children = cs} name h m) =
      flatten_all-Has cs (full_prefix prefix own) (parent ++ mws) _ _
        (add_local-Has_new (full_prefix prefix own) (parent ++ mws) handlers [] name h m)
  flatten-Has
        (below {own = own} {prefix = prefix} {handlers = handlers} {middleware = mws}
          {parent = parent} {children = cs} m) =
      flatten_all-Has_new m _

  flatten_all-Has_new :
      {H M : Type 0} {rs : Routers H M} {prefix : String} {chain : List M} {n : String}
      {e : Entry H M}
      → RegistersAll rs prefix chain n e
      → (entries : Dict String (Entry H M))
      → Dict.get n (flatten_all rs prefix chain entries) ≢ none
  flatten_all-Has_new (first {r = r} {rest = rest} {prefix = prefix} {chain = chain} m) entries =
      flatten_all-Has rest prefix chain _ _
        (update-Has_right _ entries (flatten r prefix chain) (flatten-Has m))
  flatten_all-Has_new (later {r = r} {rest = rest} {prefix = prefix} {chain = chain} m) entries =
      flatten_all-Has_new m (Dict.update entries (flatten r prefix chain))

-- A handler of the tree whose full name no other handler of the tree has is what the flattened dict
-- has under that name, with its middleware.
pub flatten_complete :
    {H M : Type 0} (r : Router H M) (prefix : String) (parent : List M) (n : String) (e : Entry H M)
    → Registers r prefix parent n e
    → ((e' : Entry H M) → Registers r prefix parent n e' → e' ≡ e)
    → Dict.get n (flatten r prefix parent) ≡ some e
flatten_complete r prefix parent n e m unique =
    elim (Option-cases (Dict.get n (flatten r prefix parent))) [
      | inl missing ↦ absurd (flatten-Has m missing)
      | inr (e', found) ↦ found ∙ ap some (unique e' (flatten_sound r prefix parent n e' found))
    ]
