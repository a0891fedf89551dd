-- ===== src/Prelude/Dict.antt =====
-- Python's `dict`: an association list in order of insertion, each key at most once. A write to a
-- key that is there keeps its place, and `pop` of a key that is not there changes nothing.
use mathlib.Core.Path.{◌≡◌, refl, subst}
use mathlib.Core.Logic.{◌≢◌, inl, inr}
use mathlib.Core.Option.{Option, none, some}
use mathlib.Core.List.{List, [], ◌∷◌}
use native.Mathlib.Omega.{arith}
use Prim.Native.Nat.{◌+◌, ◌≤◌}
use wire_rpc.Prelude.Tests.{PyEq, ◌==◌, if◌then◌else◌, if_both, Bool-cases, beq_refl}
use wire_rpc.Prelude.Lists.{All, length}

abbrev pub Dict {ℓ κ} : Type ℓ → Type κ → Type (ℓ ⊔ κ)
Dict K V = List (K × V)

module _ {ℓ κ} {K : Type ℓ} {V : Type κ} ⦃key : PyEq K⦄ where
  -- d.get(k)
  unfoldable pub get : K → Dict K V → Option V
  get k [] = none
  get k ((j, v) ∷ d) = if j == k then some v else get k d

  -- d[k] = v
  unfoldable pub put : K → V → Dict K V → Dict K V
  put k v [] = (k, v) ∷ []
  put k v ((j, w) ∷ d) = if j == k then (k, v) ∷ d else (j, w) ∷ put k v d

  -- d.pop(k, None), del d[k]
  unfoldable pub pop : K → Dict K V → Dict K V
  pop k [] = []
  pop k ((j, v) ∷ d) = let rest = pop k d in if j == k then rest else (j, v) ∷ rest

  -- d.update(f)
  unfoldable pub update : Dict K V → Dict K V → Dict K V
  update d [] = d
  update d ((k, v) ∷ f) = update (put k v d) f

  pub get-put :
      (k j : K) (v : V) (d : Dict K V) → get j (put k v d) ≡ (if k == j then some v else get j d)
  unfolding get put
  get-put k j v [] = refl
  get-put k j v ((i, w) ∷ d) =
      ground (arith, key.beq_iff i k, key.beq_iff i j, key.beq_iff k j, get-put k j v d)

  pub get-pop : (k j : K) (d : Dict K V) → get j (pop k d) ≡ (if k == j then none else get j d)
  unfolding get pop
  get-pop k j [] = ground arith
  get-pop k j ((i, w) ∷ d) =
      ground (arith, key.beq_iff i k, key.beq_iff i j, key.beq_iff k j, get-pop k j d)

  -- A predicate on entries survives writes that satisfy it, and holds of what `get` finds.
  module _ {ι} (P : K × V → Type ι) where
    pub All-put : (k : K) (v : V) (d : Dict K V) → P (k, v) → All P d → All P (put k v d)
    unfolding put
    All-put k v [] p h = (p, tt)
    All-put k v ((j, w) ∷ d) p h =
        if_both (All P) (j == k) (λ _. (p, h.1)) (λ _. (h.0, All-put k v d p h.1))

    pub All-update : (d f : Dict K V) → All P d → All P f → All P (update d f)
    unfolding update
    All-update d [] h p = h
    All-update d ((k, v) ∷ f) h p = All-update (put k v d) f (All-put k v d p.0 h) p.1

    pub All-get : (k : K) (v : V) (d : Dict K V) → All P d → get k d ≡ some v → P (k, v)
    unfolding get
    All-get k v [] h e = cc
    All-get k v ((j, w) ∷ d) h e = elim (Bool-cases (j == k)) [
      | inl same ↦ subst P (ground (arith, (key.beq_iff j k).0 same)) h.0
      | inr other ↦ All-get k v d h.1 (ground arith)
    ]

  -- A key that is there stays there.
  pub put-Has : (k j : K) (v : V) (d : Dict K V) → get j d ≢ none → get j (put k v d) ≢ none
  put-Has k j v d h = ground (arith, get-put k j v d)

  pub put-Has_self : (k : K) (v : V) (d : Dict K V) → get k (put k v d) ≢ none
  put-Has_self k v d = ground (arith, get-put k k v d, beq_refl k)

  pub update-Has : (k : K) (d f : Dict K V) → get k d ≢ none → get k (update d f) ≢ none
  unfolding update
  update-Has k d [] h = h
  update-Has k d ((j, v) ∷ f) h = update-Has k (put j v d) f (put-Has j k v d h)

  pub update-Has_right : (k : K) (d f : Dict K V) → get k f ≢ none → get k (update d f) ≢ none
  unfolding update get
  update-Has_right k d [] h = absurd (h refl)
  update-Has_right k d ((j, v) ∷ f) h = elim (Bool-cases (j == k)) [
    | inl same ↦ update-Has k (put j v d) f (ground (arith, get-put j k v d))
    | inr other ↦ update-Has_right k (put j v d) f (ground arith)
  ]

  -- Each key once, as in every dict.
  abbrev pub UniqueKeys : Dict K V → Type κ
  UniqueKeys [] = Unit
  UniqueKeys ((k, v) ∷ d) = (get k d ≡ none) × UniqueKeys d

  pub put-UniqueKeys : (k : K) (v : V) (d : Dict K V) → UniqueKeys d → UniqueKeys (put k v d)
  unfolding put get
  put-UniqueKeys k v [] u = (refl, tt)
  put-UniqueKeys k v ((j, w) ∷ d) u =
      if_both UniqueKeys (j == k) (λ same. (ground (arith, (key.beq_iff j k).0 same), u.1))
        (λ other. (
          ground (arith, get-put k j v d, key.beq_iff k j, key.beq_iff j k),
          put-UniqueKeys k v d u.1,
        ))

  pub pop-UniqueKeys : (k : K) (d : Dict K V) → UniqueKeys d → UniqueKeys (pop k d)
  unfolding pop get
  pop-UniqueKeys k [] u = tt
  pop-UniqueKeys k ((j, w) ∷ d) u =
      if_both UniqueKeys (j == k) (λ same. pop-UniqueKeys k d u.1)
        (λ other. (ground (arith, get-pop k j d), pop-UniqueKeys k d u.1))

  pub length-put : (k : K) (v : V) (d : Dict K V) → length (put k v d) ≤ length d + 1
  unfolding put
  length-put k v [] = omega arith
  length-put k v ((j, w) ∷ d) = ground (arith, length-put k v d)

  pub length-pop : (k : K) (d : Dict K V) → length (pop k d) ≤ length d
  unfolding pop
  length-pop k [] = omega arith
  length-pop k ((j, w) ∷ d) = ground (arith, length-pop k d)

  pub length-pop_there : (k : K) (d : Dict K V) → get k d ≢ none → length (pop k d) + 1 ≤ length d
  unfolding pop get
  length-pop_there k [] h = absurd (h refl)
  length-pop_there k ((j, w) ∷ d) h = elim (Bool-cases (j == k)) [
    | inl same ↦ ground (arith, length-pop k d)
    | inr other ↦ ground (arith, length-pop_there k d (ground arith))
  ]
