-- ===== src/Client/Connect.antt =====
-- `connect`, `close` and `receive_notification` of wire_rpc/client.py. The transport is outside code;
-- how its calls end is an argument. `close` of the transport is counted.
use wire_rpc.Prelude.{
  ℕ, ◌+◌, ◌≡◌, refl, Bool, true, false, not, Option, none, some, arith, if◌then◌else◌, if_both,
  Bool-cases, inl, inr,
}
use wire_rpc.Envelope.{Bytes, Value, null, bool, int, float, text, blob, array, object, Members}
use wire_rpc.Client.{
  Result, ok, err, connection_error, timeout_error, transport_error, Notification, is_notification,
  notification,
}
use wire_rpc.Client.Exchange.{Arrival, frame, eof, broken}

pub record State : Type 0 where
  pub closed : Bool
  pub closes : ℕ

-- How `connect` and `close` of the transport end.
pub data Ended : Type 0 where
  fine late raised : Ended

abbrev pub result_of : Ended → Result (Unit {0})
result_of fine = ok tt
result_of late = err timeout_error
result_of raised = err transport_error

-- `close`
unfoldable pub close : Ended → State → Result (Unit {0}) × State
close e s = (result_of e, record s { closed = true; closes = s.closes + 1 })

-- `_abort`, which drops what `close` raises
unfoldable pub abort : Ended → State → State
unfolding close
abort e s = (close e (record s { closed = true })).1

abbrev pub after_connect : Ended → Ended → State → Result (Unit {0}) × State
after_connect fine on_close s = (ok tt, s)
after_connect late on_close s = (err timeout_error, abort on_close s)
after_connect raised on_close s = (err transport_error, abort on_close s)

-- `connect`
unfoldable pub connect : Ended → Ended → State → Result (Unit {0}) × State
unfolding abort
connect e on_close s = if s.closed then (err connection_error, s) else after_connect e on_close s

module _ (decode : Bytes → Option Value) where
  abbrev pub notification_in : Option Value → Result Notification
  notification_in (some (object m)) =
      if is_notification m then notification m else err connection_error
  notification_in _ = err connection_error

  abbrev pub heard : Option Arrival → Result Notification
  heard none = err transport_error
  heard (some eof) = err connection_error
  heard (some broken) = err transport_error
  heard (some (frame data_)) = notification_in (decode data_)

  abbrev pub or_abort : Result Notification → Ended → State → Result Notification × State
  or_abort (ok n) on_close s = (ok n, s)
  or_abort (err e) on_close s = (err e, abort on_close s)

  -- `receive_notification`, for the task that holds the call lock: no arrival is its cancellation, and
  -- no result is RuntimeError.
  unfoldable pub receive_notification :
      Bool → Option Arrival → Ended → State → Option (Result Notification) × State
  unfolding abort
  receive_notification has_push arrival on_close s =
      if not has_push
      then (none, s)
      else if s.closed
      then (some (err connection_error), s)
      else let (result, s') = or_abort (heard arrival) on_close s in (some result, s')

  -- How a wait for a notification ends: with a message that has the form of one and the client as it was,
  -- or with an error and the client closed.
  abbrev pub EndsWell : Option Arrival → State → Option (Result Notification) × State → Type 0
  EndsWell arrival s (none, s') = s' ≡ s
  EndsWell arrival s (some (err e), s') = s'.closed ≡ true
  EndsWell arrival s (some (ok n), s') =
      (s' ≡ s)
      × (s.closed ≡ false)
      × (data_ : Bytes) × (m : Members) × (arrival ≡ some (frame data_))
      × (decode data_ ≡ some (object m))
      × (is_notification m ≡ true)
      × (notification m ≡ ok n)

  notification_in-ok :
      (o : Option Value) (n : Notification)
      → notification_in o ≡ ok n
      → (m : Members) × (o ≡ some (object m)) × (is_notification m ≡ true) × (notification m ≡ ok n)
  notification_in-ok (some (object m)) n e = elim (Bool-cases (is_notification m)) [
    | inl it_is ↦ (m, refl, it_is, ground (arith, e, it_is))
    | inr it_is_not ↦ absurd (ground (arith, e, it_is_not))
  ]
  notification_in-ok none n e = absurd (ground (arith, e))
  notification_in-ok (some null) n e = absurd (ground (arith, e))
  notification_in-ok (some (bool b)) n e = absurd (ground (arith, e))
  notification_in-ok (some (int i)) n e = absurd (ground (arith, e))
  notification_in-ok (some (float f)) n e = absurd (ground (arith, e))
  notification_in-ok (some (text s)) n e = absurd (ground (arith, e))
  notification_in-ok (some (blob b)) n e = absurd (ground (arith, e))
  notification_in-ok (some (array vs)) n e = absurd (ground (arith, e))

  or_abort-EndsWell :
      (arrival : Option Arrival) (r : Result Notification) (on_close : Ended) (s : State)
      → heard arrival ≡ r
      → s.closed ≡ false
      → EndsWell arrival s (some (or_abort r on_close s).0, (or_abort r on_close s).1)
  unfolding abort close
  or_abort-EndsWell arrival (err e) on_close s h open_ = refl
  or_abort-EndsWell (some (frame data_)) (ok n) on_close s h open_ =
      let (m, decoded, is, read) = notification_in-ok (decode data_) n h in
      (refl, open_, data_, m, refl, decoded, is, read)
  or_abort-EndsWell none (ok n) on_close s h open_ = absurd (ground (arith, h))
  or_abort-EndsWell (some eof) (ok n) on_close s h open_ = absurd (ground (arith, h))
  or_abort-EndsWell (some broken) (ok n) on_close s h open_ = absurd (ground (arith, h))

  pub receive_notification-EndsWell :
      (has_push : Bool) (arrival : Option Arrival) (on_close : Ended) (s : State)
      → EndsWell arrival s (receive_notification has_push arrival on_close s)
  unfolding receive_notification
  receive_notification-EndsWell has_push arrival on_close s =
      if_both (EndsWell arrival s) (not has_push) (λ _. refl)
        (λ _.
          if_both (EndsWell arrival s) s.closed (λ closed. closed)
            (λ open_. or_abort-EndsWell arrival (heard arrival) on_close s refl open_))
