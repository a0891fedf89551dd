-- ===== src/Http/Accounts.antt =====
-- The limits of `HttpServerTransport`, and what its queue has an account of.
use mathlib.Core.Path.{subst}
use wire_rpc.Prelude.{
  ℕ, ◌||◌, not, ◌+◌, ◌-◌, ◌≡◌, ◌≢◌, refl, String, Bool, true, Option, none, some, List, [], ◌∷◌,
  length, sum_by-append, All, All-map, All-append, arith, ltb, leb, nat_eq, nat_beq_iff, if_both,
}
use wire_rpc.Prelude.Dict
use wire_rpc.Prelude.Dict.{Dict, get-put, get-pop, put-Has}
use wire_rpc.Envelope.{Bytes}
use wire_rpc.Execution.{is_some}
use wire_rpc.Http.{
  Outcome, key_error, replied, no_content, said, quiet, Answer, Event, Server, new, is_done, admit,
  enqueue, remove, finish, activate, take_live, recv_attempt, recv, release, finish_notification,
  send, close,
}
use wire_rpc.Http.Steps.{Step, Reach, here, next}
use wire_rpc.Http.Queued.{
  Entry, size, IsOther, IsOwned, Account, IsAccounted, IsAccountedNext, sum_by-remove, remove-All,
  remove-IsDistinct, remove-IsOther, All-both, length-discard, IsOther-put, IsDistinct-append,
}

module _ (s : Server) (v : IsAccounted s) where
  admit-IsAccounted : (origin_allowed : Bool) → IsAccounted (admit origin_allowed s).1
  unfolding admit
  admit-IsAccounted origin_allowed =
      if_both IsAccountedNext (s.closing || leb s.max_pending_requests (length s.pending)) (λ _. v)
        (λ room.
          if_both IsAccountedNext (not origin_allowed) (λ _. v)
            (λ _. record {
              few_pending = ground (arith, room);
              bytes_exact = v.bytes_exact;
              bytes_fit = v.bytes_fit;
              queued_once = v.queued_once;
              all_owned = v.all_owned;
            }))

  enqueue-IsAccounted :
      (id : ℕ) (user_id : Option String) (body : Bytes)
      → Dict.get id s.principals ≡ none
      → IsAccounted (enqueue id user_id body s).1
  unfolding enqueue
  enqueue-IsAccounted id user_id body unknown =
      if_both IsAccountedNext s.closing (λ _. v)
        (λ _.
          if_both IsAccountedNext (ltb s.max_body_size (length body)) (λ _. v)
            (λ _.
              if_both IsAccountedNext (ltb s.max_queue_bytes (s.queued_bytes + length body))
                (λ _. v)
                (λ room. record {
                  few_pending = v.few_pending;
                  bytes_exact =
                      omega (arith, v.bytes_exact, sum_by-append size s.queue ((id, body) ∷ []));
                  bytes_fit = ground (arith, room);
                  queued_once =
                      IsDistinct-append s.queue (id, body) v.queued_once
                        (IsOther-put id user_id s.principals s.queue unknown v.all_owned);
                  all_owned =
                      All-append (IsOwned (Dict.put id user_id s.principals)) s.queue
                        ((id, body) ∷ [])
                        (All-map (IsOwned s.principals) (IsOwned (Dict.put id user_id s.principals))
                          s.queue (λ e has. put-Has id e.0 user_id s.principals has) v.all_owned)
                        (Dict.put-Has_self id user_id s.principals, tt);
                })))

  finish-IsAccounted : (id : ℕ) → IsAccounted (finish id s)
  unfolding finish
  finish-IsAccounted id = record {
    few_pending = omega (arith, v.few_pending, length-discard id s.pending);
    bytes_exact = omega (arith, v.bytes_exact, sum_by-remove id s.queue);
    bytes_fit = omega (arith, v.bytes_fit);
    queued_once = remove-IsDistinct id s.queue v.queued_once;
    all_owned =
        All-map (λ e. IsOwned s.principals e × IsOther id e) (IsOwned (Dict.pop id s.principals))
          (remove id s.queue).0
          (λ e h.
            ground (
              arith,
              h.0,
              h.1,
              get-pop id e.0 s.principals,
              nat_beq_iff id e.0,
              nat_beq_iff e.0 id,
            ))
          (All-both (IsOwned s.principals) (IsOther id) (remove id s.queue).0
            (remove-All (IsOwned s.principals) id s.queue v.all_owned)
            (remove-IsOther id s.queue v.queued_once));
  }

  release-IsAccounted :
      (active : Option ℕ) (answer : Answer) (event : Event)
      → IsAccounted (release active answer event s)
  release-IsAccounted none answer event = v
  release-IsAccounted (some id) answer event = v

  finish_notification-IsAccounted : IsAccounted (finish_notification s)
  unfolding finish_notification
  finish_notification-IsAccounted = release-IsAccounted s.active no_content quiet

  send-IsAccounted : (payload : Bytes) → IsAccounted (send payload s).1
  unfolding send
  send-IsAccounted payload =
      if_both IsAccountedNext (ltb s.max_body_size (length payload)) (λ _. v)
        (λ _.
          if_both IsAccountedNext s.closing (λ _. v)
            (λ _.
              if_both IsAccountedNext (not (is_some s.active)) (λ _. v)
                (λ _. release-IsAccounted s.active (replied payload) (said payload))))

  close-IsAccounted : IsAccounted (close s)
  unfolding close
  close-IsAccounted = record {
    few_pending = v.few_pending;
    bytes_exact = refl;
    bytes_fit = omega arith;
    queued_once = tt;
    all_owned = tt;
  }

activate-IsAccounted :
    (principal : Option (Option String)) (id : ℕ) (body : Bytes) (s : Server)
    → IsAccounted s
    → IsAccounted (activate principal id body s).1
activate-IsAccounted none id body s v = v
activate-IsAccounted (some user_id) id body s v = v

activate_owned :
    (principal : Option (Option String)) (id : ℕ) (body : Bytes) (s : Server)
    → principal ≢ none
    → (activate principal id body s).0 ≢ key_error
activate_owned none id body s owned = absurd (owned refl)
activate_owned (some user_id) id body s owned = ground arith

pub popped :
    (e : Entry) (rest : List Entry) (s : Server)
    → IsAccounted s
    → s.queue ≡ e ∷ rest
    → IsAccounted (record s { queue = rest; queued_bytes = s.queued_bytes - size e })
popped e rest s v q =
    let u : Account s.max_pending_requests s.max_queue_bytes s.pending s.principals (e ∷ rest)
        s.queued_bytes =
      subst
        (λ queue.
          Account s.max_pending_requests s.max_queue_bytes s.pending s.principals queue
            s.queued_bytes)
        q v in
    record {
      few_pending = u.few_pending;
      bytes_exact = omega (arith, u.bytes_exact);
      bytes_fit = omega (arith, u.bytes_fit);
      queued_once = u.queued_once.1;
      all_owned = u.all_owned.1;
    }

-- An entry that is taken has its principal, and the accounts stay exact.
take_live-IsAccounted :
    (queue : List Entry) (s : Server)
    → IsAccounted s
    → s.queue ≡ queue
    → IsAccounted (take_live queue s).1 × ((take_live queue s).0 ≢ key_error)
unfolding take_live
take_live-IsAccounted [] s v q = (
  subst
      (λ queue.
        Account s.max_pending_requests s.max_queue_bytes s.pending s.principals queue
          s.queued_bytes)
      q v,
  ground arith,
)
take_live-IsAccounted (e ∷ rest) s v q =
    let u = popped e rest s v q in
    let owned : IsOwned s.principals e = (subst (All (IsOwned s.principals)) q v.all_owned).0 in
    if_both (λ (r : Outcome × Server). IsAccounted r.1 × (r.0 ≢ key_error)) (is_done e.0 s)
      (λ _.
        take_live-IsAccounted rest
          (record s { queue = rest; queued_bytes = s.queued_bytes - size e }) u refl)
      (λ _. (
        activate-IsAccounted (Dict.get e.0 s.principals) e.0 e.1
            (record s { queue = rest; queued_bytes = s.queued_bytes - size e }) u,
        activate_owned (Dict.get e.0 s.principals) e.0 e.1
            (record s { queue = rest; queued_bytes = s.queued_bytes - size e }) owned,
      ))

recv_attempt-IsAccounted :
    (s : Server) → IsAccounted s → IsAccounted (recv_attempt s).1 × ((recv_attempt s).0 ≢ key_error)
unfolding recv_attempt
recv_attempt-IsAccounted s v =
    if_both (λ (r : Outcome × Server). IsAccounted r.1 × (r.0 ≢ key_error)) s.closing
      (λ _. (v, ground arith)) (λ _. take_live-IsAccounted s.queue s v refl)

recv-IsAccounted : (s : Server) → IsAccounted s → IsAccounted (recv s).1 × ((recv s).0 ≢ key_error)
unfolding recv
recv-IsAccounted s v =
    if_both (λ (r : Outcome × Server). IsAccounted r.1 × (r.0 ≢ key_error))
      (s.receiving || is_some s.active) (λ _. (v, ground arith))
      (λ _. recv_attempt-IsAccounted (record s { receiving = true }) v)

pub step-IsAccounted : {s t : Server} → Step s t → IsAccounted s → IsAccounted t
step-IsAccounted (Step.admits s origin_allowed) v = admit-IsAccounted s v origin_allowed
step-IsAccounted (Step.enqueues s id user_id body reading) v =
    enqueue-IsAccounted s v id user_id body reading.1
step-IsAccounted (Step.aborts s id) v = v
step-IsAccounted (Step.finishes s id pending) v = finish-IsAccounted s v id
step-IsAccounted (Step.receives s) v = (recv-IsAccounted s v).0
step-IsAccounted (Step.resumes s receiving) v = (recv_attempt-IsAccounted s v).0
step-IsAccounted (Step.gives_up s) v = v
step-IsAccounted (Step.sends s payload) v = send-IsAccounted s v payload
step-IsAccounted (Step.notifies s) v = finish_notification-IsAccounted s v
step-IsAccounted (Step.closes s) v = close-IsAccounted s v

pub new-IsAccounted : (pending body bytes : ℕ) → IsAccounted (new pending body bytes)
new-IsAccounted pending body bytes = record {
  few_pending = omega arith;
  bytes_exact = refl;
  bytes_fit = omega arith;
  queued_once = tt;
  all_owned = tt;
}

pub Reach-IsAccounted_state : {start s : Server} → Reach start s → IsAccounted start → IsAccounted s
Reach-IsAccounted_state here v = v
Reach-IsAccounted_state (next r step) v = step-IsAccounted step (Reach-IsAccounted_state r v)

-- In every state that a new transport reaches, at most `max_pending_requests` requests are pending,
-- `queued_bytes` is the sum of the lengths of the queued bodies and at most `max_queue_bytes`, a
-- request is in the queue at most once and has a principal there, and `recv` ends with no `KeyError`.
pub Reach-IsAccounted :
    (pending body bytes : ℕ) {s : Server}
    → Reach (new pending body bytes) s
    → IsAccounted s × ((recv s).0 ≢ key_error)
Reach-IsAccounted pending body bytes r =
    let v = Reach-IsAccounted_state r (new-IsAccounted pending body bytes) in
    (v, (recv-IsAccounted _ v).1)
