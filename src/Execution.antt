-- ===== src/Execution.antt =====
-- wire_rpc/_execution.py: the failure boundary around one message, shared by `App` and
-- `MulticastApp`. The codec is third-party code behind wire_rpc/codecs and a parameter, and so is
-- what runs inside the deadline, the transport's `get_principal` and the `dispatch` of the app. A
-- call of either is a function of a world `W`; its result is a value, one of the exceptions that
-- `_process_one` tells apart, or a cancellation. Times are not modelled: whether the deadline
-- passes is one of the results.
pub mod Message
pub mod Laws
pub mod Single
pub mod Batch
pub mod Accounts
pub mod Admission
pub mod Answers
mod Examples
use wire_rpc.Prelude.{
  ℕ, zero, suc, ◌+◌, ◌-◌, ◌≡◌, String, Bool, true, false, ◌&&◌, ◌||◌, not, Option, none, some, List,
  [], ◌∷◌, ◌++◌, map, length, ltb, leb, nat_beq, ◌==◌, if◌then◌else◌, PyEq, string_eq, nat_eq,
}
use wire_rpc.Envelope.{
  ℤ, neg, Bytes, Value, bool, int, text, array, object, Members, member, Values, to_list, get,
  ResponseId, no_id, text_id, int_id, RequestId, Request, response_id, is_unset, WireError,
  parse_error, invalid_request, internal_error, server_error, code, Response, success, failure,
  RequestContext,
}

-- wire_rpc/codecs/protocol.py, the calls that this file makes; `none` stands for a `CodecError`.
pub record Codec : Type 0 where
  -- codec.decode(data, Any)
  pub decode : Bytes → Option Value
  -- codec.convert(item, RawWireRequest)
  pub convert_request : Value → Option Request
  -- codec.encode(response)
  pub encode : Response → Option Bytes
  -- codec.encode([...]) of decoded replies
  pub encode_batch : List Value → Option Bytes

-- The exceptions that `_process_one` tells apart.
pub data Failure : Type 0 where
  timeout peer_busy permission other : Failure

-- How an awaited call ends.
pub data Awaited (A : Type 0) : Type 0 where
  done : A → Awaited A
  failed : Failure → Awaited A
  cancelled : Awaited A

-- How a coroutine of this file ends for its caller: `raised` is an exception of the codec.
pub data Exit (A : Type 0) : Type 0 where
  returned : A → Exit A
  raised : Exit A
  stopped : Exit A

pub record Stats : Type 0 where
  pub requests : ℕ
  pub active : ℕ
  pub completed : ℕ
  pub failures : ℕ
  pub timed_out : ℕ
  pub invalid : ℕ

-- The outcome field of an access-log line.
pub data Logged : Type 0 where
  ok notification interrupted : Logged
  error_code : ℤ → Logged

-- The first field: a method, `<invalid>`, `<batch>` or `<unparseable>`.
pub data Subject : Type 0 where
  called : String → Subject
  invalid_item whole_batch unparseable : Subject

pub record Line : Type 0 where
  pub subject : Subject
  pub outcome : Logged
  pub peer : Option String

pub record Config : Type 0 where
  pub max_response_size : ℕ
  pub max_batch_size : ℕ

pub record State (W : Type 0) : Type 0 where
  pub stats : Stats
  pub log : List Line
  pub world : W

-- `transport.get_principal`, where the transport has it, and `dispatch`.
pub record Host (W : Type 0) : Type 0 where
  pub get_principal : Option (Option String → W → Awaited (Option String) × W)
  pub dispatch : Request → RequestContext → W → Awaited Response × W

-- isinstance(envelope, dict) and envelope.get('jsonrpc') == '2.0'
abbrev pub is_version : Option Value → Bool
is_version (some (text v)) = v == "2.0"
is_version _ = false

abbrev pub is_protocol : Value → Bool
is_protocol (object m) = is_version (get "jsonrpc" m)
is_protocol _ = false

abbrev pub is_some {ℓ} : {A : Type ℓ} → Option A → Bool
is_some none = false
is_some (some _) = true

-- isinstance(item, dict) and 'id' not in item
abbrev pub lacks_id : Value → Bool
lacks_id (object m) = not (is_some (get "id" m))
lacks_id _ = false

-- The id that `_fallback` echoes: a str or an int that is no bool, else None.
abbrev pub echo : Option Value → ResponseId
echo (some (text s)) = text_id s
echo (some (int n)) = int_id n
echo _ = no_id

abbrev pub item_id : Value → ResponseId
item_id (object m) = echo (get "id" m)
item_id _ = no_id

abbrev pub internal : WireError
internal = internal_error "Internal server error" none

abbrev pub invalid_error : WireError
invalid_error = invalid_request "Invalid request" none

abbrev pub unparseable_error : WireError
unparseable_error = parse_error "Invalid encoded request" none

abbrev pub error_of : Failure → WireError
error_of timeout = server_error "Request deadline exceeded" (neg 32000) none
error_of peer_busy = server_error "Peer already has an active request" (neg 32002) none
error_of permission = server_error "Access denied" (neg 32001) none
error_of other = internal

abbrev pub exit_of : Option Bytes → Exit (Option Bytes)
exit_of none = raised
exit_of (some b) = returned (some b)

abbrev pub outcome_of : Response → Logged
outcome_of (success v i) = ok
outcome_of (failure e i) = error_code (code e)

abbrev pub is_timeout : Failure → ℕ
is_timeout timeout = 1
is_timeout _ = 0

module _ {W : Type 0} where
  abbrev pub log_line : Line → State W → State W
  log_line line s = record s { log = s.log ++ line ∷ [] }

  -- stats.invalid += 1, one log line, and the error without an id
  unfoldable pub refuse :
      Codec → Subject → WireError → Option String → State W → Exit (Option Bytes) × State W
  refuse codec subject error peer s = (
    exit_of (codec.encode (failure error no_id)),
    log_line (record { subject = subject; outcome = error_code (code error); peer = peer })
        (record s { stats = record s.stats { invalid = s.stats.invalid + 1 } }),
  )

  -- `await principal_getter(client_id) if principal_getter else None`
  abbrev ask :
      Option (Option String → W → Awaited (Option String) × W)
      → Option String
      → W
      → Awaited (Option String) × W
  ask none peer w = (done none, w)
  ask (some getter) peer w = getter peer w

  -- The context variable is set once the principal is known and reset in `finally`: the dispatch
  -- reads it, so it is an argument here.
  run_dispatch :
      Host W → Request → Option String → Awaited (Option String) × W → Awaited Response × W
  run_dispatch host request peer (done principal, w) =
      host.dispatch request
        (record {
          request_id = response_id request;
          method = request.method;
          principal = principal;
          connection_id = peer;
        })
        w
  run_dispatch host request peer (failed f, w) = (failed f, w)
  run_dispatch host request peer (cancelled, w) = (cancelled, w)

  -- The body of `async with asyncio.timeout_at(deadline)`.
  unfoldable pub guarded : Host W → Request → Option String → W → Awaited Response × W
  unfolding run_dispatch
  guarded host request peer w = run_dispatch host request peer (ask host.get_principal peer w)

-- What the rest of the `try` and its handlers do with that: the exit, the logged outcome and the
-- counters.
abbrev pub Concluded : Type 0
Concluded = Exit (Option Bytes) × Logged × Stats

-- except Exception
unfoldable pub fail : Codec → Request → Failure → Stats → Concluded
fail codec request f stats =
    let counted = record stats {
      failures = stats.failures + 1;
      timed_out = stats.timed_out + is_timeout f;
    } in
    let exit =
      if is_unset request.id
      then returned none
      else exit_of (codec.encode (failure (error_of f) (response_id request))) in
    (exit, error_code (code (error_of f)), counted)

-- encoded = codec.encode(response), the test of its size, and the return
unfoldable pub deliver : Codec → ℕ → Request → Response → Option Bytes → Stats → Concluded
unfolding fail
deliver codec limit request response none stats = fail codec request other stats
deliver codec limit request response (some encoded) stats =
    if ltb limit (length encoded) then fail codec request other stats else (
      returned (some encoded),
      outcome_of response,
      record stats { completed = stats.completed + 1 },
    )

unfoldable pub conclude : Codec → ℕ → Request → Awaited Response → Stats → Concluded
unfolding deliver fail
conclude codec limit request (done response) stats =
    if is_unset request.id
    then (returned none, notification, stats)
    else deliver codec limit request response (codec.encode response) stats
conclude codec limit request (failed f) stats = fail codec request f stats
conclude codec limit request cancelled stats = (stopped, interrupted, stats)

module _ {W : Type 0} (codec : Codec) (config : Config) (host : Host W) (peer : Option String) where
  -- A valid request: `active` goes up before and down in `finally`, which also writes the log line.
  unfoldable pub run_request : Request → State W → Exit (Option Bytes) × State W
  unfolding conclude guarded
  run_request request s =
      let started = record s.stats { active = s.stats.active + 1 } in
      let (response, w) = guarded host request peer s.world in
      let (exit, outcome, stats) =
        conclude codec config.max_response_size request response started in
      (
        exit,
        record s {
          stats = record stats { active = stats.active - 1 };
          log =
              s.log
              ++ record { subject = called request.method; outcome = outcome; peer = peer } ∷ [];
          world = w;
        },
      )

  unfoldable pub run_valid : Option Request → State W → Exit (Option Bytes) × State W
  unfolding refuse run_request
  run_valid none s = refuse codec invalid_item invalid_error peer s
  run_valid (some request) s = run_request request s

  -- `_process_one`
  unfoldable pub process_one : Value → State W → Exit (Option Bytes) × State W
  unfolding run_valid
  process_one envelope s =
      run_valid (if is_protocol envelope then codec.convert_request envelope else none) s
