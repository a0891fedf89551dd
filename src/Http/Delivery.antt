-- ===== src/Http/Delivery.antt =====
-- `recv` gives each request out once, and every answer is that of the call which came directly after.
use mathlib.Core.Path.{subst}
use wire_rpc.Prelude.{
  ℕ, ◌||◌, ◌-◌, ◌≤◌, ◌<◌, ◌≡◌, refl, String, true, false, Option, none, some, List, [], ◌∷◌, length,
  All, arith, ltb, ◌==◌, nat_eq, nat_beq_iff, beq_refl, if_both, Bool-cases, inl, inr,
}
use wire_rpc.Prelude.Dict
use wire_rpc.Prelude.Dict.{Dict, get-put, get-pop, put-Has}
use wire_rpc.Execution.{is_some}
use wire_rpc.Http.{got, Server, new, is_done, activate, take_live, recv_attempt, recv}
use wire_rpc.Http.Steps.{Step, Reach, here, next}
use wire_rpc.Http.Accounts.{popped, step-IsAccounted, new-IsAccounted}
use wire_rpc.Http.Queued.{Entry, IsOther, IsDistinct, IsOwned, IsAccounted}
use wire_rpc.Http.Owners.{
  admit-HasOwners, enqueue-HasOwners, finish-HasOwners, abort-HasOwners, close-HasOwners,
  finish_notification-HasOwners, send-HasOwners,
}
use wire_rpc.Http.Given.{
  count_got, AllDelivered, IsSettled, Ownership, HasOwners, HasOwnersNext, AllDelivered-later,
}

-- A `recv` that has ended leaves no active request to a second one.
stop_receiving : (s : Server) → HasOwners s → HasOwners (record s { receiving = false })
stop_receiving s o = record {
  pending_old = o.pending_old;
  queue_old = o.queue_old;
  got_settled = o.got_settled;
  got_once = o.got_once;
  active_last = o.active_last;
  idle = ground arith;
  delivered = o.delivered;
}

start_receiving :
    (s : Server) → HasOwners s → s.active ≡ none → HasOwners (record s { receiving = true })
start_receiving s o free = record {
  pending_old = o.pending_old;
  queue_old = o.queue_old;
  got_settled = o.got_settled;
  got_once = o.got_once;
  active_last = o.active_last;
  idle = λ _. free;
  delivered = o.delivered;
}

module _ (e : Entry) (rest : List Entry) (s : Server) (v : IsAccounted s) (o : HasOwners s)
    (q : s.queue ≡ e ∷ rest) where
  popped-HasOwners :
      HasOwners (record s { queue = rest; queued_bytes = s.queued_bytes - length e.1 })
  popped-HasOwners = record {
    pending_old = o.pending_old;
    queue_old = (subst (All (λ (e : Entry). e.0 < s.created)) q o.queue_old).1;
    got_settled = λ id g.
        let (old, absent, settled) = o.got_settled id g in
        (old, (subst (All (IsOther id)) q absent).1, settled);
    got_once = o.got_once;
    active_last = o.active_last;
    idle = o.idle;
    delivered = o.delivered;
  }

  -- What is in the queue has not been given out.
  count_got-queued : count_got e.0 s.log ≡ 0
  count_got-queued = elim (Bool-cases (ltb 0 (count_got e.0 s.log))) [
    | inl some_got ↦
        let (old, absent, settled) = o.got_settled e.0 (ground (arith, some_got)) in
        absurd (ground (arith, (subst (All (IsOther e.0)) q absent).0, beq_refl e.0))
    | inr none_got ↦ ground (arith, none_got)
  ]

  activate-HasOwners :
      (principal : Option (Option String))
      → Dict.get e.0 s.principals ≡ principal
      → HasOwners
          (activate principal e.0 e.1
            (record s { queue = rest; queued_bytes = s.queued_bytes - length e.1 })).1
  activate-HasOwners none has_none =
      absurd ((subst (All (IsOwned s.principals)) q v.all_owned).0 has_none)
  activate-HasOwners (some user_id) has_one = record {
    pending_old = o.pending_old;
    queue_old = popped-HasOwners.queue_old;
    got_settled = λ id g. elim (Bool-cases (e.0 == id)) [
      | inl same ↦
          subst (IsSettled s.created s.pending s.principals rest) ((nat_beq_iff e.0 id).0 same) (
            (subst (All (λ (e : Entry). e.0 < s.created)) q o.queue_old).0,
            (subst IsDistinct q v.queued_once).0,
            λ there unknown. cc,
          )
      | inr other ↦ popped-HasOwners.got_settled id (ground (arith, g, other))
    ];
    got_once = λ id. ground (arith, o.got_once id, count_got-queued, nat_beq_iff e.0 id);
    active_last = λ id is_active. (s.log, cc);
    idle = ground arith;
    delivered = AllDelivered-later (got e.0) s.futures s.log o.delivered;
  }

take_live-HasOwners :
    (queue : List Entry) (s : Server)
    → IsAccounted s
    → HasOwners s
    → s.queue ≡ queue
    → HasOwners (take_live queue s).1
unfolding take_live
take_live-HasOwners [] s v o q =
    subst
      (λ queue.
        Ownership s.created s.pending s.principals s.futures queue s.active s.receiving s.log)
      q o
take_live-HasOwners (e ∷ rest) s v o q =
    if_both HasOwnersNext (is_done e.0 s)
      (λ _.
        take_live-HasOwners rest
          (record s { queue = rest; queued_bytes = s.queued_bytes - length e.1 })
          (popped e rest s v q) (popped-HasOwners e rest s v o q) refl)
      (λ _. activate-HasOwners e rest s v o q (Dict.get e.0 s.principals) refl)

recv_attempt-HasOwners : (s : Server) → IsAccounted s → HasOwners s → HasOwners (recv_attempt s).1
unfolding recv_attempt
recv_attempt-HasOwners s v o =
    if_both HasOwnersNext s.closing (λ _. stop_receiving s o)
      (λ _. take_live-HasOwners s.queue s v o refl)

recv-HasOwners : (s : Server) → IsAccounted s → HasOwners s → HasOwners (recv s).1
unfolding recv
recv-HasOwners s v o =
    if_both HasOwnersNext (s.receiving || is_some s.active) (λ _. o)
      (λ free.
        recv_attempt-HasOwners (record s { receiving = true }) v
          (start_receiving s o (ground (arith, free))))

step-HasOwners : {s t : Server} → Step s t → IsAccounted s → HasOwners s → HasOwners t
step-HasOwners (Step.admits s origin_allowed) v o = admit-HasOwners s o origin_allowed
step-HasOwners (Step.enqueues s id user_id body reading) v o =
    enqueue-HasOwners s o id user_id body (reading.0, reading.1)
step-HasOwners (Step.aborts s id) v o = abort-HasOwners s o id
step-HasOwners (Step.finishes s id pending) v o = finish-HasOwners s o id
step-HasOwners (Step.receives s) v o = recv-HasOwners s v o
step-HasOwners (Step.resumes s receiving) v o = recv_attempt-HasOwners s v o
step-HasOwners (Step.gives_up s) v o = stop_receiving s o
step-HasOwners (Step.sends s payload) v o = send-HasOwners s payload o
step-HasOwners (Step.notifies s) v o = finish_notification-HasOwners s o
step-HasOwners (Step.closes s) v o = close-HasOwners s o

new-HasOwners : (pending body bytes : ℕ) → HasOwners (new pending body bytes)
unfolding Dict.get
new-HasOwners pending body bytes = record {
  pending_old = tt;
  queue_old = tt;
  got_settled = λ id g. absurd (omega (arith, g));
  got_once = λ id. omega arith;
  active_last = λ id e. absurd (ground (arith, e));
  idle = λ _. refl;
  delivered = λ id answer event there said_so. absurd (ground (arith, there));
}

Reach-HasOwners :
    {start s : Server}
    → Reach start s
    → IsAccounted start
    → HasOwners start
    → IsAccounted s × HasOwners s
Reach-HasOwners here v o = (v, o)
Reach-HasOwners (next r step) v o =
    let (w, p) = Reach-HasOwners r v o in (step-IsAccounted step w, step-HasOwners step w p)

-- In every state that a new transport reaches, a request whose answer is a body was answered by the
-- `send` of that body which came directly after the `recv` that returned this request, one whose answer
-- is no content by such a `finish_notification`, and `recv` has returned each request at most once.
pub Reach-AllDelivered :
    (pending body bytes : ℕ) {s : Server}
    → Reach (new pending body bytes) s
    → AllDelivered s.futures s.log × ((id : ℕ) → count_got id s.log ≤ 1)
Reach-AllDelivered pending body bytes r =
    let (v, o) =
      Reach-HasOwners r (new-IsAccounted pending body bytes) (new-HasOwners pending body bytes) in
    (o.delivered, o.got_once)
