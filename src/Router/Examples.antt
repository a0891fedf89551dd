-- ===== src/Router/Examples.antt =====
-- A small tree of routers, flattened.
use mathlib.Core.List.{Memᴰ}
use wire_rpc.Prelude.{ℕ, String, string_eq, inl, inr, ◌≡◌, refl, some, [], ◌∷◌, ap, arith}
use wire_rpc.Prelude.Dict
use wire_rpc.Router.{Router, router, no_child, child, Entry, flatten, add_local}
use wire_rpc.Router.Names.{here, flatten_complete, Origin, Registers-Origin}

-- Handlers and middleware are numbers here.
abbrev tags : Router ℕ ℕ
tags = router "tags" (("list", 2) ∷ []) (20 ∷ []) no_child

abbrev notes : Router ℕ ℕ
notes = router "notes" (("create", 1) ∷ []) (10 ∷ []) (child tags no_child)

abbrev deep : Entry ℕ ℕ
deep = record { handler = 2; middleware = 10 ∷ 20 ∷ [] }

found_deep : Dict.get "notes.tags.list" (flatten notes "" []) ≡ some deep
unfolding flatten add_local Dict.get Dict.put Dict.update
found_deep = refl

abbrev shallow : Entry ℕ ℕ
shallow = record { handler = 2; middleware = 5 ∷ 20 ∷ [] }

only_one : (e : Entry ℕ ℕ) → Origin tags "" (5 ∷ []) "tags.list" e → e ≡ shallow
only_one e (inl (name, h, Memᴰ.head p, same)) = ground (arith, ap (λ (x : String × ℕ). x.1) p)
only_one e (inl (name, h, Memᴰ.tail m, same)) = elim m [ ]
only_one e (inr m) = elim m [ ]

flatten_complete_example : Dict.get "tags.list" (flatten tags "" (5 ∷ [])) ≡ some shallow
flatten_complete_example =
    flatten_complete tags "" (5 ∷ []) "tags.list" shallow (here "list" 2 (Memᴰ.head refl))
      (λ e m. only_one e (Registers-Origin m))
