-- ===== src/Http/Given.antt =====
-- What `recv` has given out, and the answers that the futures have.
use wire_rpc.Prelude.{
  ℕ, suc, ◌≤◌, ◌<◌, ◌≡◌, ◌≢◌, refl, ap, String, Bool, true, false, Option, none, some, List, [],
  ◌∷◌, ◌++◌, All, arith, ◌==◌, nat_eq, nat_beq_iff, if◌then◌else◌, if_both, Bool-cases, inl, inr,
  ◌⊎◌,
}
use wire_rpc.Prelude.Dict
use wire_rpc.Prelude.Dict.{Dict, get-put, get-pop, put-Has}
use wire_rpc.Execution.{is_some}
use wire_rpc.Http.{
  Outcome, Answer, replied, no_content, unavailable, cancelled, Event, got, said, quiet, Server,
  set_if_open, discard, fail_all,
}
use wire_rpc.Http.Steps.{has}
use wire_rpc.Http.Queued.{Entry, IsOther}

abbrev pub count_got : ℕ → List Event → ℕ
count_got id [] = 0
count_got id (got j ∷ log) = let rest = count_got id log in if j == id then suc rest else rest
count_got id (said body ∷ log) = count_got id log
count_got id (quiet ∷ log) = count_got id log

-- The call that answers a request with this.
abbrev pub event_of : Answer → Option Event
event_of (replied body) = some (said body)
event_of no_content = some quiet
event_of unavailable = none
event_of cancelled = none

abbrev pub IsDelivered : ℕ → Event → List Event → Type 0
IsDelivered id event log = (later earlier : List Event) × (log ≡ later ++ event ∷ got id ∷ earlier)

abbrev pub AllDelivered : Dict ℕ Answer → List Event → Type 0
AllDelivered futures log =
    (id : ℕ) (answer : Answer) (event : Event)
    → Dict.get id futures ≡ some answer
    → event_of answer ≡ some event
    → IsDelivered id event log

-- A request that `recv` has given out is not queued, and while it is pending it has a principal.
abbrev pub IsSettled : ℕ → List ℕ → Dict ℕ (Option String) → List Entry → ℕ → Type 0
IsSettled created pending principals queue id =
    (id < created)
    × All (IsOther id) queue
    × (has id pending ≡ true → Dict.get id principals ≢ none)

pub record Ownership (created : ℕ) (pending : List ℕ) (principals : Dict ℕ (Option String))
    (futures : Dict ℕ Answer) (queue : List Entry) (active : Option ℕ) (receiving : Bool)
    (log : List Event) : Type 0 where
  pub pending_old : All (λ (id : ℕ). id < created) pending
  pub queue_old : All (λ (e : Entry). e.0 < created) queue
  pub got_settled : (id : ℕ) → 0 < count_got id log → IsSettled created pending principals queue id
  pub got_once : (id : ℕ) → count_got id log ≤ 1
  pub active_last : (id : ℕ) → active ≡ some id → (earlier : List Event) × (log ≡ got id ∷ earlier)
  pub idle : receiving ≡ true → active ≡ none
  pub delivered : AllDelivered futures log

abbrev pub HasOwners : Server → Type 0
HasOwners s =
    Ownership s.created s.pending s.principals s.futures s.queue s.active s.receiving s.log

abbrev pub HasOwnersNext : Outcome × Server → Type 0
HasOwnersNext r = HasOwners r.1

pub has-old :
    (created id : ℕ) (pending : List ℕ)
    → All (λ (j : ℕ). j < created) pending
    → has id pending ≡ true
    → id < created
has-old created id [] h there = cc
has-old created id (j ∷ pending) h there = elim (Bool-cases (j == id)) [
  | inl same ↦ ground (arith, h.0, nat_beq_iff j id)
  | inr other ↦ has-old created id pending h.1 (ground arith)
]

pub discard-All :
    (P : ℕ → Type 0) (id : ℕ) (pending : List ℕ) → All P pending → All P (discard id pending)
unfolding discard
discard-All P id [] h = tt
discard-All P id (j ∷ pending) h =
    if_both (All P) (j == id) (λ _. discard-All P id pending h.1)
      (λ _. (h.0, discard-All P id pending h.1))

pub has-discard :
    (id j : ℕ) (pending : List ℕ)
    → has j (discard id pending) ≡ (if id == j then false else has j pending)
unfolding discard
has-discard id j [] = ground arith
has-discard id j (i ∷ pending) =
    ground (arith, has-discard id j pending, nat_beq_iff i id, nat_beq_iff i j, nat_beq_iff id j)

-- What a future has after a write was there before, or is what was written.
pub set_if_open-source :
    (id j : ℕ) (answer x : Answer) (futures : Dict ℕ Answer)
    → Dict.get j (set_if_open id answer futures) ≡ some x
    → (Dict.get j futures ≡ some x) ⊎ ((id ≡ j) × (answer ≡ x))
set_if_open-source id j answer x futures =
    if_both (λ d. Dict.get j d ≡ some x → (Dict.get j futures ≡ some x) ⊎ ((id ≡ j) × (answer ≡ x)))
      (is_some (Dict.get id futures)) (λ _ h. inl h)
      (λ _ h. elim (Bool-cases (id == j)) [
        | inl same ↦ inr ((nat_beq_iff id j).0 same, ground (arith, get-put id j answer futures))
        | inr other ↦ inl (ground (arith, get-put id j answer futures))
      ])

pub IsDelivered-later :
    (id : ℕ) (event e : Event) (log : List Event)
    → IsDelivered id event log
    → IsDelivered id event (e ∷ log)
IsDelivered-later id event e log (later, earlier, h) = (e ∷ later, earlier, ap (λ l. e ∷ l) h)

-- A write of no reply, and a call that is recorded, keep what was delivered.
pub set_if_open-AllDelivered :
    (id : ℕ) (answer : Answer) (futures : Dict ℕ Answer) (log : List Event)
    → event_of answer ≡ none
    → AllDelivered futures log
    → AllDelivered (set_if_open id answer futures) log
set_if_open-AllDelivered id answer futures log none_said d j x event there said_so =
    elim (set_if_open-source id j answer x futures there) [
      | inl before ↦ d j x event before said_so
      | inr (same, written) ↦ absurd (ground (arith, ap event_of written))
    ]

pub fail_all-AllDelivered :
    (ids : List ℕ) (futures : Dict ℕ Answer) (log : List Event)
    → AllDelivered futures log
    → AllDelivered (fail_all ids futures) log
unfolding fail_all
fail_all-AllDelivered [] futures log d = d
fail_all-AllDelivered (id ∷ ids) futures log d =
    fail_all-AllDelivered ids (set_if_open id unavailable futures) log
      (set_if_open-AllDelivered id unavailable futures log refl d)

pub AllDelivered-later :
    (event : Event) (futures : Dict ℕ Answer) (log : List Event)
    → AllDelivered futures log
    → AllDelivered futures (event ∷ log)
AllDelivered-later event futures log d j x e there said_so =
    IsDelivered-later j e event log (d j x e there said_so)
