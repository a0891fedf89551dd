-- ===== src/Tcp/Serving.antt =====
-- The accounts of `TcpMulticastServerTransport`: slots, clients, and whose frames are queued.
use mathlib.Core.Path.{subst}
use wire_rpc.Prelude.{
  ℕ, ◌≡◌, refl, sym, String, string_eq, Bool, true, ◌||◌, Option, none, some, [], length, All,
  arith, ltb, ◌==◌, nat_eq, if_both,
}
use wire_rpc.Prelude.Dict
use wire_rpc.Prelude.Dict.{Dict, get-put, get-pop}
use wire_rpc.Queue.{
  Bytes, Queue, Item, tagged, peer_of, Attempt, finished, raised, waiting, put, put_attempt, get,
  drop_peer,
}
use wire_rpc.Queue.Invariant.{
  IsValid, new-IsValid, get-IsValid, drop_peer-IsValid, close-IsValid, items-drop_peer,
}
use wire_rpc.Queue.Items.{others-All, get-All, closed-get, closed-drop_peer}
use wire_rpc.Tcp.{
  Connection, Server, new, Result, received, result_of, recv, recv_again, send_to, send, forget,
  send_failed, close_connection, break_connection, is_revoked, tell, principal_after, close,
  close_all, Step, Reach, here, next,
}
use wire_rpc.Tcp.Readers.{IsTagged}
use wire_rpc.Tcp.Slots.{
  Served, IsServed, IsServedNext, queue-IsServed, handle_client-IsServed, leave-IsServed,
  let_go-IsServed, register-IsServed, offer-IsServed, offer_again-IsServed,
}

module _ (s : Server) (v : IsServed s) where
  -- Fewer clients.
  pop-IsServed :
      (client_id : String)
      → Served s.limiter (Dict.pop client_id s.clients) s.queue s.readers s.leaving s.closing
  pop-IsServed client_id = record {
    slots = v.slots;
    slots_fit = v.slots_fit;
    valid = v.valid;
    closed = v.closed;
    owned = v.owned;
    known = λ open_ id h.
        v.known open_ id (λ absent. h (ground (arith, absent, get-pop client_id id s.clients)));
  }

  send_to-IsServed :
      (o : Option Connection) (is_idle : Bool) (client_id : String) (payload : Bytes)
      → IsServed (send_to o is_idle client_id payload s).1
  send_to-IsServed none is_idle client_id payload = v
  send_to-IsServed (some c) is_idle client_id payload =
      if_both IsServedNext (length payload == 0 || ltb s.max_frame_size (length payload)) (λ _. v)
        (λ _. if_both IsServedNext is_idle (λ _. pop-IsServed client_id) (λ _. v))

  send-IsServed :
      (is_idle : Bool) (client_id : String) (payload : Bytes)
      → IsServed (send is_idle client_id payload s).1
  unfolding send
  send-IsServed is_idle client_id payload =
      if_both IsServedNext s.closing (λ _. v)
        (λ _. send_to-IsServed (Dict.get client_id s.clients) is_idle client_id payload)

  forget-IsServed : (o : Option Connection) (client_id : String) → IsServed (forget o client_id s)
  forget-IsServed none client_id = v
  forget-IsServed (some c) client_id =
      queue-IsServed (record s { clients = Dict.pop client_id s.clients })
        (drop_peer (some client_id) s.queue) (pop-IsServed client_id)
        (drop_peer-IsValid (some client_id) s.queue v.valid)
        (closed-drop_peer (some client_id) s.queue)
        (subst (All (IsTagged s.readers)) (sym (items-drop_peer (some client_id) s.queue v.valid))
          (others-All (IsTagged s.readers) (some client_id) s.queue.items v.owned))

  send_failed-IsServed : (client_id : String) → IsServed (send_failed client_id s)
  unfolding send_failed
  send_failed-IsServed client_id = forget-IsServed (Dict.get client_id s.clients) client_id

  close_connection-IsServed :
      (o : Option Connection) (client_id : String)
      → Dict.get client_id s.clients ≡ o
      → Served s.limiter
          (close_connection o client_id s.clients)
          s.queue
          s.readers
          s.leaving
          s.closing
  close_connection-IsServed none client_id e = v
  close_connection-IsServed (some c) client_id e = record {
    slots = v.slots;
    slots_fit = v.slots_fit;
    valid = v.valid;
    closed = v.closed;
    owned = v.owned;
    known = λ open_ id h. v.known open_ id (λ absent. h (
        ground (
          arith,
          absent,
          e,
          string_eq.beq_iff client_id id,
          get-put client_id id (record c { is_closing = true }) s.clients,
        )));
  }

  break_connection-IsServed : (client_id : String) → IsServed (break_connection client_id s)
  unfolding break_connection
  break_connection-IsServed client_id =
      close_connection-IsServed (Dict.get client_id s.clients) client_id refl

  tell-IsServed :
      (o : Option Connection) (checked : Option (Option String)) (client_id : String)
      → Dict.get client_id s.clients ≡ o
      → IsServed (tell o checked client_id s).1
  tell-IsServed none checked client_id e = v
  tell-IsServed (some c) checked client_id e =
      if_both IsServedNext (is_revoked checked c)
        (λ _. close_connection-IsServed (some c) client_id e) (λ _. v)

  principal_after-IsServed :
      (checked : Option (Option String)) (client_id : String)
      → IsServed (principal_after checked client_id s).1
  unfolding principal_after
  principal_after-IsServed checked client_id =
      tell-IsServed (Dict.get client_id s.clients) checked client_id refl

  close-IsServed : IsServed (close s)
  unfolding close wire_rpc.Queue.close
  close-IsServed = record {
    slots = v.slots;
    slots_fit = v.slots_fit;
    valid = close-IsValid s.queue v.valid;
    closed = λ _. refl;
    owned = tt;
    known = λ open_. absurd (ground (arith, open_));
  }

  close_all-IsServed : s.closing ≡ true → IsServed (close_all s)
  close_all-IsServed c = record {
    slots = v.slots;
    slots_fit = v.slots_fit;
    valid = v.valid;
    closed = v.closed;
    owned = v.owned;
    known = λ open_. absurd (ground (arith, open_, c));
  }

-- What `recv` gives is of a registered reader.
abbrev pub GivesTagged : Server → Result × Server → Type 0
GivesTagged s r = (item : Item) → r.0 ≡ received item → IsTagged s.readers item

result_of-IsServed :
    (s : Server) (a : Attempt Item × Queue)
    → IsServed s
    → IsValid a.1
    → a.1.closed ≡ s.queue.closed
    → All (IsTagged s.readers) a.1.items
      × ((item : Item) → a.0 ≡ finished item → IsTagged s.readers item)
    → IsServed (result_of a s).1 × GivesTagged s (result_of a s)
result_of-IsServed s (finished item, queue) v valid same_closed (owned, from) =
    (queue-IsServed s queue v valid same_closed owned, λ i e. from i (ground (arith, e)))
result_of-IsServed s (raised error, queue) v valid same_closed (owned, from) =
    (queue-IsServed s queue v valid same_closed owned, λ i e. absurd (ground (arith, e)))
result_of-IsServed s (waiting, queue) v valid same_closed (owned, from) =
    (queue-IsServed s queue v valid same_closed owned, λ i e. absurd (ground (arith, e)))

recv_again-IsServed :
    (s : Server) → IsServed s → IsServed (recv_again s).1 × GivesTagged s (recv_again s)
recv_again-IsServed s v =
    result_of-IsServed s (get s.queue) v (get-IsValid s.queue v.valid) (closed-get s.queue)
      (get-All (IsTagged s.readers) s.queue v.owned)

recv-IsServed : (s : Server) → IsServed s → IsServed (recv s).1 × GivesTagged s (recv s)
unfolding recv
recv-IsServed s v =
    if_both (λ (r : Result × Server). IsServed r.1 × GivesTagged s r) s.closing
      (λ _. (v, λ i e. absurd (ground (arith, e)))) (λ _. recv_again-IsServed s v)

step-IsServed : {s t : Server} → Step s t → IsServed s → IsServed t
step-IsServed (Step.handles s client_id) v = handle_client-IsServed s v client_id
step-IsServed (Step.registers s verified before r after e never) v =
    register-IsServed s v before r after e verified never
step-IsServed (Step.offers s payload before r after e registered held) v =
    offer-IsServed s v payload before r after e registered
step-IsServed (Step.offers_again s payload before r after e registered held) v =
    offer_again-IsServed s v payload before r after e registered
step-IsServed (Step.leaves s before r after e) v = leave-IsServed s v before r after e
step-IsServed (Step.lets_go s one) v = let_go-IsServed s v one
step-IsServed (Step.receives s) v = (recv-IsServed s v).0
step-IsServed (Step.receives_again s) v = (recv_again-IsServed s v).0
step-IsServed (Step.sends s is_idle client_id payload) v =
    send-IsServed s v is_idle client_id payload
step-IsServed (Step.fails s client_id) v = send_failed-IsServed s v client_id
step-IsServed (Step.asks s checked client_id) v = principal_after-IsServed s v checked client_id
step-IsServed (Step.breaks s client_id) v = break_connection-IsServed s v client_id
step-IsServed (Step.closes s) v = close-IsServed s v
step-IsServed (Step.ends s closing none_left gone) v = close_all-IsServed s v closing

new-IsServed :
    (max_connections max_frame_size maxsize max_bytes per_peer : ℕ) (queue : Queue)
    → wire_rpc.Queue.new maxsize max_bytes per_peer ≡ some queue
    → IsServed (new max_connections max_frame_size queue)
unfolding wire_rpc.Queue.new Dict.get
new-IsServed max_connections max_frame_size maxsize max_bytes per_peer queue e = record {
  slots = refl;
  slots_fit = omega arith;
  valid = new-IsValid maxsize max_bytes per_peer e;
  closed = λ c. absurd (ground (arith, c));
  owned =
      let none_yet : queue.items ≡ [] = ground arith in subst (All (IsTagged [])) (sym none_yet) tt;
  known = λ open_ id h. absurd (h refl);
}

Reach-valid : {start s : Server} → Reach start s → IsServed start → IsServed s
Reach-valid here v = v
Reach-valid (next r step) v = step-IsServed step (Reach-valid r v)

-- In every state that a new server reaches, the slots that are taken are its readers and the connections
-- that readers are still closing, and at most `max_connections`; the accounts of its queue are exact and
-- within its limits; every queued frame is tagged with a registered reader, and so is what `recv`
-- returns; and until `close` every one of `_clients` is a registered reader.
pub Reach-IsServed :
    (max_connections max_frame_size maxsize max_bytes per_peer : ℕ) (queue : Queue) {s : Server}
    → wire_rpc.Queue.new maxsize max_bytes per_peer ≡ some queue
    → Reach (new max_connections max_frame_size queue) s
    → IsServed s × GivesTagged s (recv s)
Reach-IsServed max_connections max_frame_size maxsize max_bytes per_peer queue {s} e r =
    let v =
      Reach-valid r
        (new-IsServed max_connections max_frame_size maxsize max_bytes per_peer queue e) in
    (v, (recv-IsServed s v).1)
