-- ===== src/Thread.antt =====
-- wire_rpc/transports/thread.py: one direction of a pair of `ThreadTransport` ends. The sender's
-- thread schedules what it sends on the event loop of the receiver, `call_soon_threadsafe`, and the
-- loop puts it in the inbox later: the callbacks that have not run yet are `scheduled`. `None` marks
-- the end. `sent` and `received` record the messages of the calls that returned.
pub mod Order
pub mod Delivery
mod Examples
use wire_rpc.Prelude.{
  ℕ, Bool, true, false, ◌&&◌, ◌||◌, not, Option, none, some, List, [], ◌∷◌, ◌++◌, length, ltb, leb,
  ◌==◌, nat_eq, if◌then◌else◌,
}
use wire_rpc.Envelope.{Bytes}

pub data Error : Type 0 where
  connection_error invalid_frame_size runtime_error : Error

pub data Outcome : Type 0 where
  raised : Error → Outcome
  returned : Outcome
  got : Bytes → Outcome
  waits : Outcome

pub record Channel : Type 0 where
  pub max_message_size : ℕ
  pub max_queued : ℕ
  pub sender_closed : Bool
  pub closed : Bool
  -- `connect` has run, and the receiver has a loop and an inbox.
  pub connected : Bool
  -- That loop is closed: it runs nothing more, and `call_soon_threadsafe` raises.
  pub loop_closed : Bool
  pub inbox : List (Option Bytes)
  pub scheduled : List (Option Bytes)
  pub sent : List Bytes
  pub received : List Bytes

-- `connect` of the receiver
unfoldable pub connect : Channel → Outcome × Channel
connect c =
    if c.connected || c.closed
    then (raised runtime_error, c)
    else (returned, record c { connected = true })

-- `send`, after its wait for the receiver, with whether that was ready in time.
unfoldable pub send : Bytes → Bool → Channel → Outcome × Channel
send payload in_time c =
    if c.sender_closed
    then (raised connection_error, c)
    else if length payload == 0 || ltb c.max_message_size (length payload)
    then (raised invalid_frame_size, c)
    else if not in_time
    then (raised connection_error, c)
    else if c.closed || not c.connected
    then (raised connection_error, c)
    else if leb c.max_queued (length c.inbox)
    then (raised connection_error, c)
    else if c.loop_closed
    then (raised connection_error, c)
    else (
      returned,
      record c { scheduled = c.scheduled ++ some payload ∷ []; sent = c.sent ++ payload ∷ [] },
    )

-- One turn of the receiver's loop.
run_first : List (Option Bytes) → Channel → Channel
run_first [] c = c
run_first (x ∷ rest) c = record c { inbox = c.inbox ++ x ∷ []; scheduled = rest }

unfoldable pub run_callback : Channel → Channel
unfolding run_first
run_callback c = run_first c.scheduled c

take_first : List (Option Bytes) → Channel → Outcome × Channel
take_first [] c = (waits, c)
take_first (none ∷ rest) c = (raised connection_error, record c { inbox = rest })
take_first (some payload ∷ rest) c =
    (got payload, record c { inbox = rest; received = c.received ++ payload ∷ [] })

-- `recv`
unfoldable pub recv : Channel → Outcome × Channel
unfolding take_first
recv c = if c.closed || not c.connected then (raised connection_error, c) else take_first c.inbox c

-- A `recv` that has waited goes on without another test.
unfoldable pub resume : Channel → Outcome × Channel
unfolding take_first
resume c = take_first c.inbox c

-- `close` of the receiver puts the mark in its own inbox.
unfoldable pub close : Channel → Channel
close c =
    if c.closed
    then c
    else record c { closed = true; inbox = if c.connected then c.inbox ++ none ∷ [] else c.inbox }

-- `close` of the sender schedules the mark on the receiver's loop, if that is not closed.
unfoldable pub close_sender : Channel → Channel
close_sender c = if c.sender_closed then c else record c {
  sender_closed = true;
  scheduled = if c.connected && not c.loop_closed then c.scheduled ++ none ∷ [] else c.scheduled;
}

abbrev pub close_loop : Channel → Channel
close_loop c = record c { loop_closed = true }

pub data Action : Type 0 where
  connects turns receives resumes closes sender_closes loop_closes : Action
  sends : Bytes → Bool → Action

-- What the receiver does, on its loop.
abbrev pub on_loop : Channel → Channel → Channel
on_loop c c' = if c.loop_closed then c else c'

unfoldable pub act : Action → Channel → Channel
unfolding connect send run_callback recv resume close close_sender
act connects c = on_loop c (connect c).1
act turns c = on_loop c (run_callback c)
act receives c = on_loop c (recv c).1
act resumes c = on_loop c (resume c).1
act closes c = on_loop c (close c)
act loop_closes c = close_loop c
act sender_closes c = close_sender c
act (sends payload in_time) c = (send payload in_time c).1

unfoldable pub act_all : List Action → Channel → Channel
unfolding act
act_all [] c = c
act_all (a ∷ rest) c = act_all rest (act a c)
