-- ===== src/Serve/Unicast.antt =====
-- wire_rpc/app.py: `_listen`, which serves one request at a time. A turn has what the loop waits for;
-- `send` and `finish_notification` are the transport's, which may have no `finish_notification`.
use wire_rpc.Prelude.{
  ◌≡◌, refl, if_both, Bool, true, false, Option, none, some, List, [], ◌∷◌, if◌then◌else◌,
}
use wire_rpc.Envelope.{Bytes}
use wire_rpc.Execution.{Codec, Config, Host, State, Exit, returned, raised, stopped}
use wire_rpc.Execution.Message.{process}

-- How a call of the transport ends; `lost` is ConnectionError or TimeoutError.
pub data Sent : Type 0 where
  fine lost broken aborted : Sent

-- `stopping` is the test at the head of the loop, `message` what `_next` gives, `none` for an error or
-- `stop`, and `late` that the request was not done in `shutdown_timeout` after `stop`.
pub record Turn : Type 0 where
  pub stopping : Bool
  pub message : Option Bytes
  pub late : Bool

pub data Call : Type 0 where
  took : Bytes → Call
  sent : Bytes → Call
  finished : Call

pub data Ended : Type 0 where
  left failed cancelled : Ended

module _ {W : Type 0} (codec : Codec) (config : Config) (host : Host W)
    (send : Bytes → W → Sent × W) (finish_notification : Option (W → Sent × W)) where
  abbrev pub Listened : Type 0
  Listened = Ended × State W × List Call

  abbrev pub on : Call → Listened → Listened
  on call (ended, s, calls) = (ended, s, call ∷ calls)

  -- except (ConnectionError, TimeoutError): break
  abbrev pub after_send : (State W → Listened) → State W → Sent × W → Listened
  after_send go_on s (fine, w) = go_on (record s { world = w })
  after_send go_on s (lost, w) = (left, record s { world = w }, [])
  after_send go_on s (broken, w) = (failed, record s { world = w }, [])
  after_send go_on s (aborted, w) = (cancelled, record s { world = w }, [])

  abbrev pub notify : Option (W → Sent × W) → (State W → Listened) → State W → Listened
  notify none go_on s = go_on s
  notify (some finish) go_on s = on finished (after_send go_on s (finish s.world))

  -- response = task.result(), and what is done with it
  abbrev pub answer : (State W → Listened) → Exit (Option Bytes) × State W → Listened
  answer go_on (returned (some response), s) =
      on (sent response) (after_send go_on s (send response s.world))
  answer go_on (returned none, s) = notify finish_notification go_on s
  answer go_on (raised, s) = (failed, s, [])
  answer go_on (stopped, s) = (cancelled, s, [])

  abbrev pub on_message : Option Bytes → Bool → (State W → Listened) → State W → Listened
  on_message none late go_on s = (left, s, [])
  on_message (some data_) late go_on s =
      let result = process codec config host none data_ s in
      on (took data_) (if late then (left, result.1, []) else answer go_on result)

  unfoldable pub listen : List Turn → State W → Listened
  listen [] s = (left, s, [])
  listen (turn ∷ turns) s =
      if turn.stopping
      then (left, s, [])
      else on_message turn.message turn.late (λ s'. listen turns s') s

  -- Every message is answered by one call before the next one is taken, but for the last.
  pub data IsAlternating : List Call → Type 0 where
    nothing : IsAlternating []
    unanswered : (data_ : Bytes) → IsAlternating (took data_ ∷ [])
    replied :
        (data_ response : Bytes) (calls : List Call)
        → IsAlternating calls
        → IsAlternating (took data_ ∷ sent response ∷ calls)
    noted :
        (data_ : Bytes) (calls : List Call)
        → IsAlternating calls
        → IsAlternating (took data_ ∷ finished ∷ calls)
    skipped :
        (data_ : Bytes) (calls : List Call)
        → finish_notification ≡ none
        → IsAlternating calls
        → IsAlternating (took data_ ∷ calls)

  abbrev CallsAlternate : Listened → Type 0
  CallsAlternate r = IsAlternating r.2

  -- What is taken first is answered by one call.
  after_send-IsAlternating :
      (first call : Call) (go_on : State W → Listened) (s : State W) (r : Sent × W)
      → ((s : State W) → CallsAlternate (go_on s))
      → ((calls : List Call) → IsAlternating calls → IsAlternating (first ∷ call ∷ calls))
      → CallsAlternate (on first (on call (after_send go_on s r)))
  after_send-IsAlternating first call go_on s (fine, w) h f =
      f (go_on (record s { world = w })).2 (h (record s { world = w }))
  after_send-IsAlternating first call go_on s (lost, w) h f = f [] IsAlternating.nothing
  after_send-IsAlternating first call go_on s (broken, w) h f = f [] IsAlternating.nothing
  after_send-IsAlternating first call go_on s (aborted, w) h f = f [] IsAlternating.nothing

  notify-IsAlternating :
      (data_ : Bytes) (finish : Option (W → Sent × W)) (go_on : State W → Listened) (s : State W)
      → finish_notification ≡ finish
      → ((s : State W) → CallsAlternate (go_on s))
      → CallsAlternate (on (took data_) (notify finish go_on s))
  notify-IsAlternating data_ none go_on s e h = IsAlternating.skipped data_ (go_on s).2 e (h s)
  notify-IsAlternating data_ (some finish) go_on s e h =
      after_send-IsAlternating (took data_) finished go_on s (finish s.world) h
        (IsAlternating.noted data_)

  answer-IsAlternating :
      (data_ : Bytes) (go_on : State W → Listened) (r : Exit (Option Bytes) × State W)
      → ((s : State W) → CallsAlternate (go_on s))
      → CallsAlternate (on (took data_) (answer go_on r))
  answer-IsAlternating data_ go_on (returned (some response), s) h =
      after_send-IsAlternating (took data_) (sent response) go_on s (send response s.world) h
        (IsAlternating.replied data_ response)
  answer-IsAlternating data_ go_on (returned none, s) h =
      notify-IsAlternating data_ finish_notification go_on s refl h
  answer-IsAlternating data_ go_on (raised, s) h = IsAlternating.unanswered data_
  answer-IsAlternating data_ go_on (stopped, s) h = IsAlternating.unanswered data_

  on_message-IsAlternating :
      (message : Option Bytes) (late : Bool) (go_on : State W → Listened) (s : State W)
      → ((s : State W) → CallsAlternate (go_on s))
      → CallsAlternate (on_message message late go_on s)
  on_message-IsAlternating none late go_on s h = IsAlternating.nothing
  on_message-IsAlternating (some data_) true go_on s h = IsAlternating.unanswered data_
  on_message-IsAlternating (some data_) false go_on s h =
      answer-IsAlternating data_ go_on (process codec config host none data_ s) h

  -- The loop answers each message that it takes, by one `send` or `finish_notification`, before it takes
  -- another, but for a message without a reply on a transport without `finish_notification`; only the
  -- last message may stay without an answer.
  pub listen-IsAlternating : (turns : List Turn) (s : State W) → IsAlternating (listen turns s).2
  unfolding listen
  listen-IsAlternating [] s = IsAlternating.nothing
  listen-IsAlternating (turn ∷ turns) s =
      if_both CallsAlternate turn.stopping (λ _. IsAlternating.nothing)
        (λ _.
          on_message-IsAlternating turn.message turn.late (λ s'. listen turns s') s
            (λ s'. listen-IsAlternating turns s'))
