-- ===== src/Auth/Sessions/Revoke.antt =====
-- `revoke`: the sessions of one principal, and only those, are gone.
use wire_rpc.Prelude.{
  ℕ, ◌≤◌, ◌≡◌, ◌⊎◌, refl, ap, ◌∙◌, String, string_eq, Bool, true, false, Option, none, some,
  option_eq, List, [], ◌∷◌, length, count_by, arith, nat_eq, ◌==◌, if◌then◌else◌, Option-cases, inl,
  inr,
}
use wire_rpc.Prelude.Dict
use wire_rpc.Prelude.Dict.{Dict, get-pop, UniqueKeys}
use wire_rpc.Auth.Sessions.{
  Session, Store, Result, ok, err, corrupt, prune, select, keys_of, pop_all, drop_keys, revoke,
}
use wire_rpc.Auth.Sessions.Prune.{live, IsKept, prune-IsKept}
use wire_rpc.Auth.Sessions.Invariant.{IsValid, pop_all-IsKept}
use wire_rpc.Auth.Sessions.View.{view, view-prune}

abbrev has : String → List String → Bool
has j [] = false
has j (k ∷ ks) = if k == j then true else has j ks

get-pop_all :
    (ks : List String) (j : String) (d : Dict String Session)
    → Dict.get j (pop_all ks d) ≡ (if has j ks then none else Dict.get j d)
unfolding pop_all
get-pop_all [] j d = refl
get-pop_all (k ∷ ks) j d = ground (arith, get-pop_all ks j (Dict.pop k d), get-pop k j d)

module _ (principal_of : String → Option String) (user : String) where
  -- The record of the session names the principal.
  abbrev pub is_of : Session → Bool
  is_of (value, expiry) = principal_of value == some user

  abbrev belongs : Option Session → Bool
  belongs none = false
  belongs (some x) = is_of x

  abbrev pub without : Option Session → Option Session
  without none = none
  without (some x) = if is_of x then none else some x

  -- What a successful `select` says of its arguments.
  abbrev Selected : Option String → String → List String → Option (List String) → Type 0
  Selected found key keys rest =
      (p : String) × (keys' : List String) × (found ≡ some p)
      × (rest ≡ some keys')
      × (keys ≡ (if p == user then key ∷ keys' else keys'))

  select-some :
      (found : Option String) (key : String) (keys : List String) (rest : Option (List String))
      → select found key user rest ≡ some keys
      → Selected found key keys rest
  select-some none key keys rest e = ground arith
  select-some (some p) key keys none e = ground arith
  select-some (some p) key keys (some keys') e = (p, keys', refl, refl, ground (arith, e))

  keys_of-has :
      (d : Dict String Session) (keys : List String) (j : String)
      → UniqueKeys d
      → keys_of principal_of user d ≡ some keys
      → has j keys ≡ belongs (Dict.get j d)
  unfolding keys_of Dict.get
  keys_of-has [] keys j u e = ground (arith, e)
  keys_of-has ((key, (v, t)) ∷ d) keys j u e =
      let (p, keys', a, b, c) =
        select-some (principal_of v) key keys (keys_of principal_of user d) e in
      ground (arith, u.0, a, c, string_eq.beq_iff key j, keys_of-has d keys' j u.1 b)

  length-keys_of :
      (d : Dict String Session) (keys : List String)
      → keys_of principal_of user d ≡ some keys
      → length keys ≡ count_by (λ (x : String × Session). is_of x.1) d
  unfolding keys_of
  length-keys_of [] keys e = ground (arith, e)
  length-keys_of ((key, (v, t)) ∷ d) keys e =
      let (p, keys', a, b, c) =
        select-some (principal_of v) key keys (keys_of principal_of user d) e in
      ground (arith, a, c, length-keys_of d keys' b)

  get-revoked :
      (d : Dict String Session) (keys : List String) (j : String)
      → UniqueKeys d
      → keys_of principal_of user d ≡ some keys
      → Dict.get j (pop_all keys d) ≡ without (Dict.get j d)
  get-revoked d keys j u e = elim (Option-cases (Dict.get j d)) [
    | inl gone ↦ ground (arith, gone, get-pop_all keys j d, keys_of-has d keys j u e)
    | inr (x, found) ↦ ground (arith, found, get-pop_all keys j d, keys_of-has d keys j u e)
  ]

  without-live : (t : ℕ) (x : Option Session) → live t (without x) ≡ without (live t x)
  without-live t none = refl
  without-live t (some (v, e)) = ground arith

  -- What `revoke` promises of its outcome.
  abbrev pub Revoked : ℕ → ℕ → Store → Result ℕ × Store → Type 0
  Revoked t0 t1 s r =
      ((n : ℕ) × (r.0 ≡ ok n)
        × (n ≡ count_by (λ (x : String × Session). is_of x.1) (prune t0 s).sessions)
        × ((t : ℕ) (k : String) → t1 ≤ t → view t r.1 k ≡ without (view t s k)))
      ⊎ ((r.0 ≡ err corrupt) × ((t : ℕ) (k : String) → t1 ≤ t → view t r.1 k ≡ view t s k))

  drop_keys-Revoked :
      (t0 t1 : ℕ) (s : Store) (keys : Option (List String))
      → IsKept s
      → t0 ≤ t1
      → keys_of principal_of user (prune t0 s).sessions ≡ keys
      → Revoked t0 t1 s (drop_keys keys t1 (prune t0 s))
  unfolding drop_keys
  drop_keys-Revoked t0 t1 s none h le e =
      inr (refl, λ t k le'. view-prune t0 t s k h (omega (arith, le, le')))
  drop_keys-Revoked t0 t1 s (some keys) h le e =
      let kept = prune-IsKept t0 s h in
      let s' = prune t0 s in
      inl (
        length keys,
        refl,
        length-keys_of s'.sessions keys e,
        λ t k le'.
            view-prune t1 t (record s' { sessions = pop_all keys s'.sessions }) k
              (pop_all-IsKept keys s' kept) le'
            ∙ (ap (live t) (get-revoked s'.sessions keys k kept.unique e)
                ∙ (without-live t (Dict.get k s'.sessions)
                    ∙ ap without (view-prune t0 t s k h (omega (arith, le, le'))))),
      )

  -- `revoke` ends every session of the principal and no other, and returns how many of the sessions
  -- that were left by the first prune were of it; or some record could not be read, and then every
  -- session is seen as before.
  pub revoke-view :
      (t0 t1 : ℕ) (s : Store)
      → IsValid s
      → t0 ≤ t1
      → Revoked t0 t1 s (revoke principal_of user t0 t1 s)
  unfolding revoke
  revoke-view t0 t1 s h le = drop_keys-Revoked t0 t1 s _ h.0 le refl
