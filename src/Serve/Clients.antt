-- ===== src/Serve/Clients.antt =====
-- The entries of `_peer_locks` of `MulticastApp`, and whose locks they have.
use mathlib.Core.Path.{subst}
use wire_rpc.Prelude.{
  ℕ, ◌+◌, ◌-◌, ◌<◌, ◌≤◌, ◌≡◌, sym, ap, String, string_eq, Bool, true, false, ◌&&◌, not, Option,
  none, some, List, [], ◌∷◌, ◌==◌, nat_eq, count_by, All, arith, if◌then◌else◌, if_both, Bool-cases,
  inl, inr,
}
use wire_rpc.Prelude.Dict
use wire_rpc.Prelude.Dict.{Dict, get-put, get-pop}
use wire_rpc.Serve.{Task, Stage, receiving, lock_and_count}

abbrev pub of_client : String → Task → Bool
of_client client_id t = t.client_id == client_id

abbrev pub is_dispatching : String → Task → Bool
is_dispatching client_id t = t.client_id == client_id && not t.busy

-- A task of this client has this lock.
abbrev pub HasLock : String → ℕ → Task → Type 0
HasLock client_id lock t = t.client_id ≡ client_id → t.lock ≡ lock

-- What the entry of a client in `_peer_locks` says of its tasks.
abbrev pub IsEntry : Option (ℕ × ℕ) → String → List Task → Type 0
IsEntry none client_id tasks = count_by (of_client client_id) tasks ≡ 0
IsEntry (some (lock, count)) client_id tasks =
    (0 < count)
    × (count_by (of_client client_id) tasks ≡ count)
    × (count_by (is_dispatching client_id) tasks ≤ 1)
    × All (HasLock client_id lock) tasks

abbrev pub is_held : Stage → ℕ
is_held receiving = 1
is_held _ = 0

-- Every lock was made, and two clients do not share one.
abbrev pub IsMade : ℕ → Option (ℕ × ℕ) → Type 0
IsMade made none = Unit
IsMade made (some (lock, count)) = lock < made

abbrev pub lock_of : Option (ℕ × ℕ) → Option ℕ
lock_of none = none
lock_of (some (lock, count)) = some lock

-- A task in its lock was not refused.
abbrev pub IsHonest : Task → Type 0
IsHonest t = t.inside ≡ true → t.busy ≡ false

abbrev pub IsUnshared : Dict String (ℕ × ℕ) → Type 0
IsUnshared peer_locks =
    (p q : String) (lock : ℕ)
    → lock_of (Dict.get p peer_locks) ≡ some lock
    → lock_of (Dict.get q peer_locks) ≡ some lock
    → p ≡ q

pub put-IsUnshared :
    (c : String) (lock count : ℕ) (d : Dict String (ℕ × ℕ))
    → ((q : String) → lock_of (Dict.get q d) ≡ some lock → c ≡ q)
    → IsUnshared d
    → IsUnshared (Dict.put c (lock, count) d)
put-IsUnshared c lock count d own u p q l h k = elim (Bool-cases (c == p)) [
  | inl at_p ↦ elim (Bool-cases (c == q)) [
    | inl at_q ↦ ground (arith, (string_eq.beq_iff c p).0 at_p, (string_eq.beq_iff c q).0 at_q)
    | inr off_q ↦ ground (
      arith,
      (string_eq.beq_iff c p).0 at_p,
      get-put c p (lock, count) d,
      get-put c q (lock, count) d,
      own q,
    )
  ]
  | inr off_p ↦ elim (Bool-cases (c == q)) [
    | inl at_q ↦ ground (
      arith,
      (string_eq.beq_iff c q).0 at_q,
      get-put c p (lock, count) d,
      get-put c q (lock, count) d,
      own p,
    )
    | inr off_q ↦ ground (arith, get-put c p (lock, count) d, get-put c q (lock, count) d, u p q l)
  ]
]

pub pop-IsUnshared :
    (c : String) (d : Dict String (ℕ × ℕ)) → IsUnshared d → IsUnshared (Dict.pop c d)
pop-IsUnshared c d u p q l h k = ground (arith, get-pop c p d, get-pop c q d, u p q l)

pub IsMade-mono : (made : ℕ) (o : Option (ℕ × ℕ)) → IsMade made o → IsMade (made + 1) o
IsMade-mono made none h = tt
IsMade-mono made (some (lock, count)) h = omega (arith, h)

pub lock_of-made :
    (made lock : ℕ) (o : Option (ℕ × ℕ)) → IsMade made o → lock_of o ≡ some lock → lock < made
lock_of-made made lock none h e = absurd (ground (arith, e))
lock_of-made made lock (some (l, count)) h e = ground (arith, e, h)

pub found-IsOld :
    (made : ℕ) (o : Option (ℕ × ℕ)) → IsMade made o → (lock_and_count o made).0 < made + 1
found-IsOld made none h = omega arith
found-IsOld made (some (lock, count)) h = omega (arith, h)

-- The lock that `_listen` finds or makes is no other client's.
pub found-own :
    (made : ℕ) (d : Dict String (ℕ × ℕ)) (c : String) (o : Option (ℕ × ℕ))
    → Dict.get c d ≡ o
    → ((p : String) → IsMade made (Dict.get p d))
    → IsUnshared d
    → (q : String) → lock_of (Dict.get q d) ≡ some (lock_and_count o made).0
    → c ≡ q
found-own made d c none found h u q e =
    absurd (omega (arith, lock_of-made made made (Dict.get q d) (h q) e))
found-own made d c (some (lock, count)) found h u q e = u c q lock (ap lock_of found) e

-- The entry of a client after the `finally` of one of its tasks.
pub get-forgotten :
    (c p : String) (lock count : ℕ) (d : Dict String (ℕ × ℕ))
    → Dict.get p (if count == 1 then Dict.pop c d else Dict.put c (lock, count - 1) d)
      ≡ (if c == p then (if count == 1 then none else some (lock, count - 1)) else Dict.get p d)
get-forgotten c p lock count d =
    if_both
      (λ e.
        Dict.get p e
        ≡ (if c == p then (if count == 1 then none else some (lock, count - 1)) else Dict.get p d))
      (count == 1) (λ last. ground (arith, last, get-pop c p d))
      (λ more. ground (arith, more, get-put c p (lock, count - 1) d))

-- An entry that is written, with a lock that was made.
pub put-IsMade :
    (made' : ℕ) (c : String) (lock count : ℕ) (d : Dict String (ℕ × ℕ)) (p : String)
    → lock < made'
    → IsMade made' (Dict.get p d)
    → IsMade made' (Dict.get p (Dict.put c (lock, count) d))
put-IsMade made' c lock count d p old h =
    subst (IsMade made') (sym (get-put c p (lock, count) d))
      (if_both (IsMade made') (c == p) (λ _. old) (λ _. h))

pub none-HasLock :
    (p : String) (lock : ℕ) (tasks : List Task)
    → count_by (of_client p) tasks ≡ 0
    → All (HasLock p lock) tasks
none-HasLock p lock [] e = tt
none-HasLock p lock (t ∷ tasks) e = (
  λ same. absurd (ground (arith, e, (string_eq.beq_iff t.client_id p).1 same)),
  none-HasLock p lock tasks (ground (arith, e)),
)

pub dispatching-of_client :
    (p : String) (tasks : List Task)
    → count_by (is_dispatching p) tasks ≤ count_by (of_client p) tasks
dispatching-of_client p [] = omega arith
dispatching-of_client p (t ∷ tasks) = ground (arith, dispatching-of_client p tasks)

pub cons-IsEntry :
    (o : Option (ℕ × ℕ)) (p : String) (t : Task) (tasks : List Task)
    → (t.client_id == p) ≡ false
    → IsEntry o p tasks
    → IsEntry o p (t ∷ tasks)
cons-IsEntry none p t tasks other h = ground (arith, other, h)
cons-IsEntry (some (lock, count)) p t tasks other (some_there, all_there, at_most_one, shared) = (
  some_there,
  ground (arith, other, all_there),
  ground (arith, other, at_most_one),
  (λ same. absurd (ground (arith, other, (string_eq.beq_iff t.client_id p).1 same)), shared),
)
