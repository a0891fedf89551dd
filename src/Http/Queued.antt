-- ===== src/Http/Queued.antt =====
-- The queue of `HttpServerTransport` as a list: each request once, and its bytes.
use mathlib.Core.Path.{subst}
use wire_rpc.Prelude.{
  ℕ, ◌+◌, ◌≤◌, ◌≡◌, ◌≢◌, sym, String, false, Option, none, List, [], ◌∷◌, ◌++◌, length, sum_by, All,
  All-map, All-append, arith, ◌==◌, nat_eq, nat_beq_iff, if_both, Bool-cases, inl, inr,
}
use wire_rpc.Prelude.Dict
use wire_rpc.Prelude.Dict.{Dict, get-put, get-pop, put-Has}
use wire_rpc.Envelope.{Bytes}
use wire_rpc.Http.{Outcome, Server, discard, remove}

abbrev pub Entry : Type 0
Entry = ℕ × Bytes

abbrev pub size : Entry → ℕ
size e = length e.1

abbrev pub IsOther : ℕ → Entry → Type 0
IsOther id e = (e.0 == id) ≡ false

abbrev pub IsDistinct : List Entry → Type 0
IsDistinct [] = Unit
IsDistinct (e ∷ queue) = All (IsOther e.0) queue × IsDistinct queue

abbrev pub IsOwned : Dict ℕ (Option String) → Entry → Type 0
IsOwned principals e = Dict.get e.0 principals ≢ none

pub record Account (max_pending_requests max_queue_bytes : ℕ) (pending : List ℕ)
    (principals : Dict ℕ (Option String)) (queue : List Entry) (queued_bytes : ℕ) : Type 0 where
  pub few_pending : length pending ≤ max_pending_requests
  pub bytes_exact : queued_bytes ≡ sum_by size queue
  pub bytes_fit : queued_bytes ≤ max_queue_bytes
  pub queued_once : IsDistinct queue
  pub all_owned : All (IsOwned principals) queue

abbrev pub IsAccounted : Server → Type 0
IsAccounted s =
    Account s.max_pending_requests s.max_queue_bytes s.pending s.principals s.queue s.queued_bytes

abbrev pub IsAccountedNext : Outcome × Server → Type 0
IsAccountedNext r = IsAccounted r.1

pub sum_by-remove :
    (id : ℕ) (queue : List Entry)
    → sum_by size (remove id queue).0 + (remove id queue).1 ≡ sum_by size queue
unfolding remove
sum_by-remove id [] = omega arith
sum_by-remove id (e ∷ queue) = ground (arith, sum_by-remove id queue)

pub remove-All {ℓ} :
    (P : Entry → Type ℓ) (id : ℕ) (queue : List Entry) → All P queue → All P (remove id queue).0
unfolding remove
remove-All P id [] h = tt
remove-All P id (e ∷ queue) h =
    if_both (λ (r : List Entry × ℕ). All P r.0) (e.0 == id) (λ _. h.1)
      (λ _. (h.0, remove-All P id queue h.1))

pub remove-IsDistinct :
    (id : ℕ) (queue : List Entry) → IsDistinct queue → IsDistinct (remove id queue).0
unfolding remove
remove-IsDistinct id [] d = tt
remove-IsDistinct id (e ∷ queue) d =
    if_both (λ (r : List Entry × ℕ). IsDistinct r.0) (e.0 == id) (λ _. d.1)
      (λ _. (remove-All (IsOther e.0) id queue d.0, remove-IsDistinct id queue d.1))

-- An entry that is in the queue once is gone after it.
pub remove-IsOther :
    (id : ℕ) (queue : List Entry) → IsDistinct queue → All (IsOther id) (remove id queue).0
unfolding remove
remove-IsOther id [] d = tt
remove-IsOther id (e ∷ queue) d =
    if_both (λ (r : List Entry × ℕ). All (IsOther id) r.0) (e.0 == id)
      (λ same. subst (λ j. All (IsOther j) queue) ((nat_beq_iff e.0 id).0 same) d.0)
      (λ other. (other, remove-IsOther id queue d.1))

pub All-both {ℓ κ} :
    {A : Type 0} (P : A → Type ℓ) (Q : A → Type κ) (xs : List A)
    → All P xs
    → All Q xs
    → All (λ x. P x × Q x) xs
All-both P Q [] p q = tt
All-both P Q (x ∷ xs) p q = ((p.0, q.0), All-both P Q xs p.1 q.1)

pub length-discard : (id : ℕ) (ids : List ℕ) → length (discard id ids) ≤ length ids
unfolding discard
length-discard id [] = omega arith
length-discard id (j ∷ ids) = ground (arith, length-discard id ids)

pub IsOther-put :
    (id : ℕ) (user_id : Option String) (principals : Dict ℕ (Option String)) (queue : List Entry)
    → Dict.get id principals ≡ none
    → All (IsOwned principals) queue
    → All (IsOther id) queue
IsOther-put id user_id principals queue unknown owned =
    All-map (IsOwned principals) (IsOther id) queue
      (λ e has. elim (Bool-cases (e.0 == id)) [
        | inl same ↦ absurd (
            has (
              subst (λ j. Dict.get j principals ≡ none) (sym ((nat_beq_iff e.0 id).0 same))
                unknown))
        | inr other ↦ other
      ])
      owned

pub IsDistinct-append :
    (queue : List Entry) (e : Entry)
    → IsDistinct queue
    → All (IsOther e.0) queue
    → IsDistinct (queue ++ e ∷ [])
IsDistinct-append [] e d h = (tt, tt)
IsDistinct-append (x ∷ queue) e d h = (
  All-append (IsOther x.0) queue (e ∷ []) d.0
      (ground (arith, h.0, nat_beq_iff x.0 e.0, nat_beq_iff e.0 x.0), tt),
  IsDistinct-append queue e d.1 h.1,
)
