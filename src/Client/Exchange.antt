-- ===== src/Client/Exchange.antt =====
-- `_locked_exchange` of wire_rpc/client.py, for the task that holds the call lock. What the transport
-- receives before the deadline is a list of arrivals: where it ends, the deadline passes, and the
-- cancellation of the wait closes the client like any other failure. `decode` is the codec, whose
-- `none` is a CodecError. `_deliver` calls the handler of the caller, whose exceptions are caught;
-- the notifications that are handed to it are recorded in order.
use wire_rpc.Prelude.{
  ◌≡◌, refl, sym, ◌∙◌, append_assoc, append-nil, Bool, true, false, Option, none, some, List, [],
  ◌∷◌, ◌++◌, arith, if◌then◌else◌, if_both,
}
use wire_rpc.Envelope.{Bytes, Value, object}
use wire_rpc.Client.{
  Error, Result, ok, err, connection_error, timeout_error, transport_error, Notification,
  is_notification, notification,
}

pub data Arrival : Type 0 where
  frame : Bytes → Arrival
  -- EOFError and any other exception of `recv`
  eof broken : Arrival

pub record Channel : Type 0 where
  pub closed : Bool
  pub delivered : List Notification

-- A decoded message: one to deliver, an error, or a candidate for the reply.
pub data Kind : Type 0 where
  push : Notification → Kind
  malformed : Error → Kind
  candidate : Value → Kind

abbrev pub kind_of_push : Result Notification → Kind
kind_of_push (ok n) = push n
kind_of_push (err e) = malformed e

abbrev pub kind_of : Option Value → Kind
kind_of none = malformed connection_error
kind_of (some (object m)) =
    if is_notification m then kind_of_push (notification m) else candidate (object m)
kind_of (some v) = candidate v

-- `_abort`: whatever `close` raises, the client is closed.
abbrev pub abort : Channel → Channel
abort c = record c { closed = true }

module _ {T : Type 0} where
  -- return accept(message), or its exception after `_abort`
  abbrev pub conclude : Result T → Channel → Result T × Channel
  conclude (ok x) c = (ok x, c)
  conclude (err e) c = (err e, abort c)

  module _ (decode : Bytes → Option Value) (accept : Value → Result T) where
    after : Kind → (Channel → Result T × Channel) → Channel → Result T × Channel
    after (push n) go c = go (record c { delivered = c.delivered ++ n ∷ [] })
    after (malformed e) go c = (err e, abort c)
    after (candidate v) go c = conclude (accept v) c

    -- while True
    unfoldable pub receive : List Arrival → Channel → Result T × Channel
    unfolding after
    receive [] c = (err timeout_error, abort c)
    receive (frame b ∷ rest) c = after (kind_of (decode b)) (receive rest) c
    receive (eof ∷ rest) c = (err connection_error, abort c)
    receive (broken ∷ rest) c = (err transport_error, abort c)

    -- With an `accept`; `sent` is false where `send` raises.
    unfoldable pub exchange : Bool → List Arrival → Channel → Result T × Channel
    unfolding receive
    exchange sent arrivals c =
        if c.closed
        then (err connection_error, c)
        else if sent
        then receive arrivals c
        else (err transport_error, abort c)

    -- The frames up to the reply: notifications, to deliver, then the first other message, which is
    -- accepted.
    pub data Heard : List Arrival → List Notification → T → Type 0 where
      reply :
          (b : Bytes) (v : Value) (x : T) (rest : List Arrival)
          → kind_of (decode b) ≡ candidate v
          → accept v ≡ ok x
          → Heard (frame b ∷ rest) [] x
      pushed :
          (b : Bytes) (n : Notification) (rest : List Arrival) (ns : List Notification) (x : T)
          → kind_of (decode b) ≡ push n
          → Heard rest ns x
          → Heard (frame b ∷ rest) (n ∷ ns) x

    -- An outcome that is right: the value, on a channel that is still open, of the first message that
    -- is no notification, with the notifications before it delivered in order; or an error, with the
    -- client closed.
    abbrev pub Ends : List Arrival → Channel → Result T × Channel → Type 0
    Ends arrivals c (ok x, c') =
        (c'.closed ≡ false)
        × ((ns : List Notification) × (Heard arrivals ns x) × (c'.delivered ≡ c.delivered ++ ns))
    Ends arrivals c (err e, c') = c'.closed ≡ true

    conclude-Ends :
        (b : Bytes) (v : Value) (rest : List Arrival) (c : Channel) (r : Result T)
        → kind_of (decode b) ≡ candidate v
        → accept v ≡ r
        → c.closed ≡ false
        → Ends (frame b ∷ rest) c (conclude r c)
    conclude-Ends b v rest c (ok x) k e alive =
        (alive, ([], reply b v x rest k e, sym (append-nil c.delivered)))
    conclude-Ends b v rest c (err f) k e alive = refl

    push-Ends :
        (b : Bytes) (n : Notification) (rest : List Arrival) (c : Channel) (r : Result T × Channel)
        → kind_of (decode b) ≡ push n
        → Ends rest (record c { delivered = c.delivered ++ n ∷ [] }) r
        → Ends (frame b ∷ rest) c r
    push-Ends b n rest c (ok x, c') k (alive, (ns, heard, said)) =
        (alive, (n ∷ ns, pushed b n rest ns x k heard, said ∙ append_assoc c.delivered (n ∷ []) ns))
    push-Ends b n rest c (err e, c') k h = h

    after-Ends :
        (b : Bytes) (k : Kind) (rest : List Arrival) (c : Channel)
        → kind_of (decode b) ≡ k
        → c.closed ≡ false
        → ((d : Channel) → d.closed ≡ false → Ends rest d (receive rest d))
        → Ends (frame b ∷ rest) c (after k (receive rest) c)
    unfolding after
    after-Ends b (push n) rest c e alive go = push-Ends b n rest c _ e (go _ alive)
    after-Ends b (malformed f) rest c e alive go = refl
    after-Ends b (candidate v) rest c e alive go = conclude-Ends b v rest c (accept v) e refl alive

    receive-Ends :
        (arrivals : List Arrival) (c : Channel)
        → c.closed ≡ false
        → Ends arrivals c (receive arrivals c)
    unfolding receive
    receive-Ends [] c alive = refl
    receive-Ends (frame b ∷ rest) c alive =
        after-Ends b (kind_of (decode b)) rest c refl alive (receive-Ends rest)
    receive-Ends (eof ∷ rest) c alive = refl
    receive-Ends (broken ∷ rest) c alive = refl

    -- An exchange of a client that is open ends with the accepted value of the first message that is
    -- no notification, the notifications before it delivered in order and the client still open, or
    -- with an error and the client closed.
    pub exchange-Ends :
        (sent : Bool) (arrivals : List Arrival) (c : Channel)
        → c.closed ≡ false
        → Ends arrivals c (exchange sent arrivals c)
    unfolding exchange
    exchange-Ends sent arrivals c alive =
        if_both (Ends arrivals c) c.closed (λ shut. absurd (ground (arith, alive, shut)))
          (λ _. if_both (Ends arrivals c) sent (λ _. receive-Ends arrivals c alive) (λ _. refl))

-- With no `accept`: send, and nothing is awaited.
abbrev pub send_only : Bool → Channel → Result Unit × Channel
send_only sent c =
    if c.closed
    then (err connection_error, c)
    else if sent
    then (ok tt, c)
    else (err transport_error, abort c)
