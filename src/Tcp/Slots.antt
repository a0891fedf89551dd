-- ===== src/Tcp/Slots.antt =====
-- The readers of `TcpMulticastServerTransport`, from the slot that they take to their `finally`.
use mathlib.Core.Path.{subst}
use wire_rpc.Prelude.{
  suc, ◌≤◌, ◌≡◌, ◌≢◌, refl, sym, ap, String, string_eq, Bool, true, false, ◌||◌, not, Option, none,
  some, List, ◌∷◌, ◌++◌, length, All, arith, ◌==◌, nat_eq, if_both, Bool-cases, inl, inr, beq_refl,
  ℕ, ◌<◌, ◌+◌, ◌&&◌,
}
use wire_rpc.Prelude.Dict
use wire_rpc.Prelude.Dict.{Dict, get-put, get-pop}
use wire_rpc.Queue.{
  Bytes, Queue, tagged, Attempt, finished, raised, waiting, put, put_attempt, drop_peer,
}
use wire_rpc.Queue.Invariant.{
  IsValid, put-IsValid, put_attempt-IsValid, drop_peer-IsValid, items-drop_peer,
}
use wire_rpc.Queue.Items.{put_attempt-All, put-All, closed-put_attempt, closed-put}
use wire_rpc.Tcp.{
  Connection, Reader, Limiter, Server, reserve, add_reader, handle_client, give_back, leave, let_go,
  register, after_put, offer, offer_again,
}
use wire_rpc.Tcp.Readers.{
  is_registered, is_registered-split, IsTagged, replace-IsTagged, add-IsTagged, leave-IsTagged,
  drop-IsTagged, length-split,
}

-- Each of `_clients` is a registered reader.
abbrev pub IsKnown : Dict String Connection → List Reader → Type 0
IsKnown clients readers =
    (id : String) → Dict.get id clients ≢ none → is_registered id readers ≡ true

pub record Served (limiter : Limiter) (clients : Dict String Connection) (queue : Queue)
    (readers : List Reader) (leaving : ℕ) (closing : Bool) : Type 0 where
  pub slots : limiter.active ≡ length readers + leaving
  pub slots_fit : limiter.active ≤ limiter.limit
  pub valid : IsValid queue
  pub closed : closing ≡ true → queue.closed ≡ true
  pub owned : All (IsTagged readers) queue.items
  pub known : closing ≡ false → IsKnown clients readers

abbrev pub IsServed : Server → Type 0
IsServed s = Served s.limiter s.clients s.queue s.readers s.leaving s.closing

abbrev pub IsServedNext : {A : Type 0} → A × Server → Type 0
IsServedNext r = IsServed r.1

pub add_reader-IsServed :
    (o : Option Limiter) (client_id : String) (s : Server)
    → IsServed s
    → reserve s.limiter ≡ o
    → IsServed (add_reader o client_id s).1
add_reader-IsServed none client_id s v e = v
add_reader-IsServed (some l) client_id s v e = record {
  slots = ground (arith, e, v.slots);
  slots_fit = ground (arith, e);
  valid = v.valid;
  closed = v.closed;
  owned =
      add-IsTagged (record { client_id = client_id; registered = false; held = none }) s.readers
        s.queue.items v.owned;
  known = v.known;
}

-- Another queue of the same readers.
pub queue-IsServed :
    (s : Server) (queue : Queue)
    → IsServed s
    → IsValid queue
    → queue.closed ≡ s.queue.closed
    → All (IsTagged s.readers) queue.items
    → IsServed (record s { queue = queue })
queue-IsServed s queue v valid same_closed owned = record {
  slots = v.slots;
  slots_fit = v.slots_fit;
  valid = valid;
  closed = λ c. ground (arith, v.closed c, same_closed);
  owned = owned;
  known = v.known;
}

module _ (s : Server) (v : IsServed s) where
  pub handle_client-IsServed : (client_id : String) → IsServed (handle_client client_id s).1
  unfolding handle_client
  handle_client-IsServed client_id =
      if_both (λ (r : Bool × Server). IsServed r.1) s.closing (λ _. v)
        (λ _. add_reader-IsServed (reserve s.limiter) client_id s v refl)

  pub let_go-IsServed : 0 < s.leaving → IsServed (let_go s)
  let_go-IsServed one = record {
    slots = omega (arith, v.slots);
    slots_fit = omega (arith, v.slots_fit);
    valid = v.valid;
    closed = v.closed;
    owned = v.owned;
    known = v.known;
  }

  module _ (before : List Reader) (r : Reader) (after : List Reader)
      (e : s.readers ≡ before ++ r ∷ after) where
    pub IsTagged-here : All (IsTagged (before ++ r ∷ after)) s.queue.items
    IsTagged-here = subst (λ readers. All (IsTagged readers) s.queue.items) e v.owned

    pub IsKnown-here : s.closing ≡ false → IsKnown s.clients (before ++ r ∷ after)
    IsKnown-here open_ = subst (IsKnown s.clients) e (v.known open_)

    pub shorter : s.limiter.active ≡ suc (length (before ++ after)) + s.leaving
    shorter = omega (arith, v.slots, ap length e, length-split before r after)

    -- The reader has not registered, or `close` owns its connection.
    without-Served :
        (limiter : Limiter) (leaving : ℕ)
        → limiter.active ≡ length (before ++ after) + leaving
        → limiter.active ≤ limiter.limit
        → (not r.registered || s.closing) ≡ true
        → Served limiter s.clients s.queue (before ++ after) leaving s.closing
    without-Served limiter leaving slots fit stays = record {
      slots = slots;
      slots_fit = fit;
      valid = v.valid;
      closed = v.closed;
      owned = elim (Bool-cases r.registered) [
        | inl was ↦
            subst (All (IsTagged (before ++ after)))
              (sym (v.valid.closed_empty (v.closed (ground (arith, stays, was))))) tt
        | inr never ↦ leave-IsTagged before r after s.queue.items never IsTagged-here
      ];
      known = λ open_ id h.
          ground
            (arith, stays, open_, IsKnown-here open_ id h, is_registered-split id before r after);
    }

    dropped-Served :
        (not r.registered || s.closing) ≡ false
        → Served s.limiter
            (Dict.pop r.client_id s.clients)
            (drop_peer (some r.client_id) s.queue)
            (before ++ after)
            (s.leaving + 1)
            s.closing
    dropped-Served goes = record {
      slots = omega (arith, shorter);
      slots_fit = v.slots_fit;
      valid = drop_peer-IsValid (some r.client_id) s.queue v.valid;
      closed = λ c. absurd (ground (arith, goes, c));
      owned =
          subst (All (IsTagged (before ++ after)))
            (sym (items-drop_peer (some r.client_id) s.queue v.valid))
            (drop-IsTagged before r after s.queue.items IsTagged-here);
      known = λ open_ id h. elim (Bool-cases (r.client_id == id)) [
        | inl same ↦ absurd (h (ground (arith, same, get-pop r.client_id id s.clients)))
        | inr other ↦ ground (
          arith,
          other,
          IsKnown-here open_ id
              (λ absent. h (ground (arith, absent, get-pop r.client_id id s.clients))),
          is_registered-split id before r after,
        )
      ];
    }

    pub leave-IsServed : IsServed (leave before r after s)
    unfolding leave
    leave-IsServed =
        if_both IsServed (r.registered && s.closing)
          (λ owned.
            without-Served (give_back s.limiter) s.leaving (omega (arith, shorter))
              (omega (arith, v.slots_fit)) (ground (arith, owned)))
          (λ free.
            if_both IsServed r.registered
              (λ registered. dropped-Served (ground (arith, free, registered)))
              (λ never.
                without-Served s.limiter (s.leaving + 1) (omega (arith, shorter)) v.slots_fit
                  (ground (arith, never))))

    -- The reader in another state, with a queue that has the same or one item more.
    pub stay-IsServed :
        (t : Reader) (clients : Dict String Connection) (queue : Queue)
        → r.client_id ≡ t.client_id
        → (r.registered ≡ true → t.registered ≡ true)
        → IsValid queue
        → queue.closed ≡ s.queue.closed
        → All (IsTagged (before ++ r ∷ after)) queue.items
        → (s.closing ≡ false → IsKnown clients (before ++ t ∷ after))
        → Served s.limiter clients queue (before ++ t ∷ after) s.leaving s.closing
    stay-IsServed t clients queue same still valid same_closed owned known = record {
      slots =
          omega
            (arith, v.slots, ap length e, length-split before r after, length-split before t after);
      slots_fit = v.slots_fit;
      valid = valid;
      closed = λ c. ground (arith, v.closed c, same_closed);
      owned = replace-IsTagged before r t after queue.items same still owned;
      known = known;
    }

    pub register-IsServed :
        (verified : Option (Option String))
        → r.registered ≡ false
        → IsServed (register verified before r after s)
    unfolding register
    register-IsServed none never = leave-IsServed
    register-IsServed (some principal) never =
        if_both IsServed s.closing (λ _. leave-IsServed)
          (λ _.
            stay-IsServed (record r { registered = true; held = none })
              (Dict.put r.client_id (record { principal = principal; is_closing = false })
                s.clients)
              s.queue refl (λ _. refl) v.valid refl IsTagged-here
              (λ open_ id h. elim (Bool-cases (r.client_id == id)) [
                | inl same ↦ ground (
                  arith,
                  same,
                  is_registered-split id before (record r { registered = true; held = none }) after,
                )
                | inr other ↦ ground (
                  arith,
                  other,
                  IsKnown-here open_ id (λ absent. h (
                      ground (
                        arith,
                        absent,
                        other,
                        get-put r.client_id id
                            (record { principal = principal; is_closing = false }) s.clients,
                      ))),
                  is_registered-split id before r after,
                  is_registered-split id before (record r { registered = true; held = none }) after,
                )
              ]))

    pub IsKnown-after :
        (held : Option Bytes)
        → s.closing ≡ false
        → IsKnown s.clients (before ++ record r { held = held } ∷ after)
    IsKnown-after held open_ id h = ground (
      arith,
      IsKnown-here open_ id h,
      is_registered-split id before r after,
      is_registered-split id before (record r { held = held }) after,
    )

-- A reader that has tried to put a frame.
pub after_put-IsServed :
    (payload : Bytes) (s : Server) (before : List Reader) (r : Reader) (after : List Reader)
    (a : Attempt Unit × Queue)
    → IsServed s
    → s.readers ≡ before ++ r ∷ after
    → IsValid a.1
    → a.1.closed ≡ s.queue.closed
    → All (IsTagged (before ++ r ∷ after)) a.1.items
    → IsServed (after_put payload before r after s a)
after_put-IsServed payload s before r after (finished ok, queue) v e valid same_closed owned =
    stay-IsServed s v before r after e (record r { held = none }) s.clients queue refl (λ h. h)
      valid same_closed owned (IsKnown-after s v before r after e none)
after_put-IsServed payload s before r after (raised error, queue) v e valid same_closed owned =
    leave-IsServed (record s { queue = queue })
      (queue-IsServed s queue v valid same_closed
        (subst (λ readers. All (IsTagged readers) queue.items) (sym e) owned))
      before r after e
after_put-IsServed payload s before r after (waiting, queue) v e valid same_closed owned =
    stay-IsServed s v before r after e (record r { held = some payload }) s.clients queue refl
      (λ h. h) valid same_closed owned (IsKnown-after s v before r after e (some payload))

module _ (s : Server) (v : IsServed s) where
  module _ (payload : Bytes) (before : List Reader) (r : Reader) (after : List Reader)
      (e : s.readers ≡ before ++ r ∷ after) (registered : r.registered ≡ true) where
    pub own_tag : IsTagged (before ++ r ∷ after) (tagged r.client_id payload)
    own_tag = (
      r.client_id,
      refl,
      ground
          (arith, registered, beq_refl r.client_id, is_registered-split r.client_id before r after),
    )

    pub offer-IsServed : IsServed (offer payload before r after s)
    unfolding offer
    offer-IsServed =
        if_both IsServed s.closing (λ _. leave-IsServed s v before r after e)
          (λ _.
            after_put-IsServed payload s before r after (put (tagged r.client_id payload) s.queue) v
              e (put-IsValid (tagged r.client_id payload) s.queue v.valid)
              (closed-put (tagged r.client_id payload) s.queue)
              (put-All (IsTagged (before ++ r ∷ after)) (tagged r.client_id payload) s.queue own_tag
                (IsTagged-here s v before r after e)))

    pub offer_again-IsServed : IsServed (offer_again payload before r after s)
    unfolding offer_again
    offer_again-IsServed =
        after_put-IsServed payload s before r after
          (put_attempt (tagged r.client_id payload) s.queue) v e
          (put_attempt-IsValid (tagged r.client_id payload) s.queue v.valid)
          (closed-put_attempt (tagged r.client_id payload) s.queue)
          (put_attempt-All (IsTagged (before ++ r ∷ after)) (tagged r.client_id payload) s.queue
            own_tag (IsTagged-here s v before r after e))
