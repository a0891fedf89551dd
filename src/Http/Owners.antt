-- ===== src/Http/Owners.antt =====
-- Who gets which answer: a request is given to `recv` once, and the answer that its future has is that
-- of the `send` or `finish_notification` that came directly after it.
use mathlib.Core.Path.{subst}
use wire_rpc.Prelude.{
  ℕ, ◌||◌, not, ◌+◌, ◌<◌, ◌≡◌, ◌≢◌, refl, sym, String, Bool, true, Option, none, some, [], ◌∷◌,
  length, All-map, All-append, arith, ltb, leb, ◌==◌, nat_eq, nat_beq_iff, if_both, Bool-cases, inl,
  inr,
}
use wire_rpc.Prelude.Dict
use wire_rpc.Prelude.Dict.{Dict, get-put, get-pop, put-Has}
use wire_rpc.Envelope.{Bytes}
use wire_rpc.Execution.{is_some}
use wire_rpc.Http.{
  Answer, replied, no_content, cancelled, Event, said, quiet, Server, admit, enqueue, finish,
  release, finish_notification, send, close, abort,
}
use wire_rpc.Http.Steps.{has, IsReading}
use wire_rpc.Http.Queued.{Entry, IsOther, remove-All}
use wire_rpc.Http.Given.{
  count_got, event_of, HasOwners, HasOwnersNext, has-old, discard-All, has-discard,
  set_if_open-source, IsDelivered-later, set_if_open-AllDelivered, fail_all-AllDelivered,
}

module _ (s : Server) (o : HasOwners s) where
  pub admit-HasOwners : (origin_allowed : Bool) → HasOwners (admit origin_allowed s).1
  unfolding admit
  admit-HasOwners origin_allowed =
      if_both HasOwnersNext (s.closing || leb s.max_pending_requests (length s.pending)) (λ _. o)
        (λ _.
          if_both HasOwnersNext (not origin_allowed) (λ _. o)
            (λ _. record {
              pending_old = (
                omega arith,
                All-map (λ (id : ℕ). id < s.created) (λ (id : ℕ). id < s.created + 1) s.pending
                    (λ id h. omega (arith, h)) o.pending_old,
              );
              queue_old =
                  All-map (λ (e : Entry). e.0 < s.created) (λ (e : Entry). e.0 < s.created + 1)
                    s.queue (λ e h. omega (arith, h)) o.queue_old;
              got_settled = λ id g.
                  let (old, absent, settled) = o.got_settled id g in
                  (
                    omega (arith, old),
                    absent,
                    λ there. settled (ground (arith, nat_beq_iff s.created id)),
                  );
              got_once = o.got_once;
              active_last = o.active_last;
              idle = o.idle;
              delivered = o.delivered;
            }))

  pub enqueue-HasOwners :
      (id : ℕ) (user_id : Option String) (body : Bytes)
      → IsReading id s
      → HasOwners (enqueue id user_id body s).1
  unfolding enqueue
  enqueue-HasOwners id user_id body (there, unknown) =
      if_both HasOwnersNext s.closing (λ _. o)
        (λ _.
          if_both HasOwnersNext (ltb s.max_body_size (length body)) (λ _. o)
            (λ _.
              if_both HasOwnersNext (ltb s.max_queue_bytes (s.queued_bytes + length body)) (λ _. o)
                (λ _. record {
                  pending_old = o.pending_old;
                  queue_old =
                      All-append (λ (e : Entry). e.0 < s.created) s.queue ((id, body) ∷ [])
                        o.queue_old (has-old s.created id s.pending o.pending_old there, tt);
                  got_settled = λ j g.
                      let (old, absent, settled) = o.got_settled j g in
                      (
                        old,
                        All-append (IsOther j) s.queue ((id, body) ∷ []) absent (
                          elim (Bool-cases (id == j)) [
                            | inl same ↦ absurd (
                                subst
                                  (λ i. (has i s.pending ≡ true → Dict.get i s.principals ≢ none))
                                  (sym ((nat_beq_iff id j).0 same)) settled there unknown)
                            | inr other ↦ other
                          ],
                          tt,
                        ),
                        λ pending. put-Has id j user_id s.principals (settled pending),
                      );
                  got_once = o.got_once;
                  active_last = o.active_last;
                  idle = o.idle;
                  delivered = o.delivered;
                })))

  pub finish-HasOwners : (id : ℕ) → HasOwners (finish id s)
  unfolding finish
  finish-HasOwners id = record {
    pending_old = discard-All (λ (j : ℕ). j < s.created) id s.pending o.pending_old;
    queue_old = remove-All (λ (e : Entry). e.0 < s.created) id s.queue o.queue_old;
    got_settled = λ j g.
        let (old, absent, settled) = o.got_settled j g in
        (
          old,
          remove-All (IsOther j) id s.queue absent,
          λ there. ground (arith, has-discard id j s.pending, get-pop id j s.principals, settled),
        );
    got_once = o.got_once;
    active_last = o.active_last;
    idle = o.idle;
    delivered = set_if_open-AllDelivered id cancelled s.futures s.log refl o.delivered;
  }

  pub abort-HasOwners : (id : ℕ) → HasOwners (abort id s)
  abort-HasOwners id = record {
    pending_old = o.pending_old;
    queue_old = o.queue_old;
    got_settled = o.got_settled;
    got_once = o.got_once;
    active_last = o.active_last;
    idle = o.idle;
    delivered = set_if_open-AllDelivered id cancelled s.futures s.log refl o.delivered;
  }

  pub close-HasOwners : HasOwners (close s)
  unfolding close
  close-HasOwners = record {
    pending_old = o.pending_old;
    queue_old = tt;
    got_settled = λ id g. let (old, absent, settled) = o.got_settled id g in (old, tt, settled);
    got_once = o.got_once;
    active_last = λ id e. absurd (ground (arith, e));
    idle = λ _. refl;
    delivered = fail_all-AllDelivered s.pending s.futures s.log o.delivered;
  }

-- The call that answers the request that `recv` gave out last.
release-HasOwners :
    (active : Option ℕ) (answer : Answer) (event : Event) (s : Server)
    → HasOwners s
    → s.active ≡ active
    → event_of answer ≡ some event
    → ((id : ℕ) → count_got id (event ∷ s.log) ≡ count_got id s.log)
    → HasOwners (release active answer event s)
release-HasOwners none answer event s o is_active said_so same_count = record {
  pending_old = o.pending_old;
  queue_old = o.queue_old;
  got_settled = o.got_settled;
  got_once = o.got_once;
  active_last = λ id e. absurd (ground (arith, e));
  idle = λ _. refl;
  delivered = o.delivered;
}
release-HasOwners (some id) answer event s o is_active said_so same_count = record {
  pending_old = o.pending_old;
  queue_old = o.queue_old;
  got_settled = λ j g. o.got_settled j (omega (arith, g, same_count j));
  got_once = λ j. omega (arith, same_count j, o.got_once j);
  active_last = λ id e. absurd (ground (arith, e));
  idle = λ _. refl;
  delivered = λ j x e there x_said. elim (set_if_open-source id j answer x s.futures there) [
    | inl before ↦ IsDelivered-later j e event s.log (o.delivered j x e before x_said)
    | inr (same, written) ↦ let (earlier, last) = o.active_last id is_active in ([], earlier, cc)
  ];
}

pub finish_notification-HasOwners : (s : Server) → HasOwners s → HasOwners (finish_notification s)
unfolding finish_notification
finish_notification-HasOwners s o =
    release-HasOwners s.active no_content quiet s o refl refl (λ id. refl)

pub send-HasOwners : (s : Server) (payload : Bytes) → HasOwners s → HasOwners (send payload s).1
unfolding send
send-HasOwners s payload o =
    if_both HasOwnersNext (ltb s.max_body_size (length payload)) (λ _. o)
      (λ _.
        if_both HasOwnersNext s.closing (λ _. o)
          (λ _.
            if_both HasOwnersNext (not (is_some s.active)) (λ _. o)
              (λ _.
                release-HasOwners s.active (replied payload) (said payload) s o refl refl
                  (λ id. refl))))
