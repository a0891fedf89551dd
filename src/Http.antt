-- ===== src/Http.antt =====
-- wire_rpc/transports/http.py: `HttpServerTransport`, which gives one request at a time to `recv` and
-- answers it by `send`. The future of a request is the number of its creation; `futures` has the ones
-- that are done. A coroutine is modelled by the code between two waits: `_handle` is `admit`, then
-- `enqueue` once the request is authenticated and read, then `finish`, its `finally`, however it ends.
-- `log` records what `recv`, `send` and `finish_notification` did, the latest first.
pub mod Steps
pub mod Client
pub mod Queued
pub mod Accounts
pub mod Given
pub mod Owners
pub mod Delivery
mod Examples
use wire_rpc.Prelude.{
  ℕ, ◌+◌, ◌-◌, String, string_eq, Bool, true, false, ◌||◌, not, Option, none, some, List, [], ◌∷◌,
  ◌++◌, length, ltb, leb, ◌==◌, nat_eq, option_eq, if◌then◌else◌,
}
use wire_rpc.Prelude.Dict
use wire_rpc.Prelude.Dict.{Dict}
use wire_rpc.Envelope.{Bytes}
use wire_rpc.Execution.{is_some}

-- What a future is done with: `set_result`, `set_exception` or `cancel`.
pub data Answer : Type 0 where
  replied : Bytes → Answer
  no_content unavailable cancelled : Answer

pub data Event : Type 0 where
  got : ℕ → Event
  said : Bytes → Event
  quiet : Event

-- How a call ends: an HTTP status that is raised, an exception, a value, or a wait.
pub data Outcome : Type 0 where
  status : ℕ → Outcome
  connection_error runtime_error value_error key_error permission_error : Outcome
  returned waits : Outcome
  received : Bytes → Outcome
  principal : Option String → Outcome

pub record Server : Type 0 where
  pub max_pending_requests : ℕ
  pub max_body_size : ℕ
  pub max_queue_bytes : ℕ
  pub closing : Bool
  pub created : ℕ
  pub pending : List ℕ
  pub principals : Dict ℕ (Option String)
  pub futures : Dict ℕ Answer
  pub queue : List (ℕ × Bytes)
  pub queued_bytes : ℕ
  pub active : Option ℕ
  pub active_principal : Option String
  pub receiving : Bool
  pub log : List Event

-- `__init__`, after its checks
abbrev pub new : ℕ → ℕ → ℕ → Server
new max_pending_requests max_body_size max_queue_bytes = record {
  max_pending_requests = max_pending_requests;
  max_body_size = max_body_size;
  max_queue_bytes = max_queue_bytes;
  closing = false;
  created = 0;
  pending = [];
  principals = [];
  futures = [];
  queue = [];
  queued_bytes = 0;
  active = none;
  active_principal = none;
  receiving = false;
  log = [];
}

-- response.done()
abbrev pub is_done : ℕ → Server → Bool
is_done id s = is_some (Dict.get id s.futures)

abbrev pub set_if_open : ℕ → Answer → Dict ℕ Answer → Dict ℕ Answer
set_if_open id answer futures =
    if is_some (Dict.get id futures) then futures else Dict.put id answer futures

-- `_handle`, up to `self._pending.add(response)`
unfoldable pub admit : Bool → Server → Outcome × Server
admit origin_allowed s =
    if s.closing || leb s.max_pending_requests (length s.pending)
    then (status 503, s)
    else if not origin_allowed
    then (status 403, s)
    else (returned, record s { pending = s.created ∷ s.pending; created = s.created + 1 })

-- `_handle`, from the end of `request.read()` to the wait for the answer
unfoldable pub enqueue : ℕ → Option String → Bytes → Server → Outcome × Server
enqueue id user_id body s =
    if s.closing
    then (status 503, s)
    else if ltb s.max_body_size (length body)
    then (status 413, s)
    else if ltb s.max_queue_bytes (s.queued_bytes + length body)
    then (status 503, s)
    else (
      waits,
      record s {
        principals = Dict.put id user_id s.principals;
        queued_bytes = s.queued_bytes + length body;
        queue = s.queue ++ (id, body) ∷ [];
      },
    )

-- self._pending.discard(response)
unfoldable pub discard : ℕ → List ℕ → List ℕ
discard id [] = []
discard id (j ∷ ids) = let rest = discard id ids in if j == id then rest else j ∷ rest

-- self._queue.remove(entry), and the length of its body, 0 where it is not there
unfoldable pub remove : ℕ → List (ℕ × Bytes) → List (ℕ × Bytes) × ℕ
remove id [] = ([], 0)
remove id ((j, body) ∷ queue) =
    let (rest, size) = remove id queue in
    if j == id then (queue, length body) else ((j, body) ∷ rest, size)

-- The `finally` of `_handle`; for a request that was never queued `remove` changes nothing.
unfoldable pub finish : ℕ → Server → Server
unfolding remove discard
finish id s =
    let (queue, size) = remove id s.queue in
    record s {
      pending = discard id s.pending;
      principals = Dict.pop id s.principals;
      futures = set_if_open id cancelled s.futures;
      queue = queue;
      queued_bytes = s.queued_bytes - size;
    }

-- self._active = response, and the pair that `_principals` has for it
abbrev pub activate : Option (Option String) → ℕ → Bytes → Server → Outcome × Server
activate none id body s = (key_error, record s { active = some id; receiving = false })
activate (some user_id) id body s = (
  received body,
  record s {
    active = some id;
    active_principal = user_id;
    receiving = false;
    log = got id ∷ s.log;
  },
)

-- `while self._queue` in `recv`, over the queue
unfoldable pub take_live : List (ℕ × Bytes) → Server → Outcome × Server
take_live [] s = (waits, record s { queue = [] })
take_live ((id, body) ∷ rest) s =
    let popped = record s { queue = rest; queued_bytes = s.queued_bytes - length body } in
    let next = take_live rest popped in
    if is_done id s then next else activate (Dict.get id s.principals) id body popped

-- `while True` in `recv`, up to its wait; it starts again when `_ready` is set.
unfoldable pub recv_attempt : Server → Outcome × Server
unfolding take_live
recv_attempt s =
    if s.closing then (connection_error, record s { receiving = false }) else take_live s.queue s

unfoldable pub recv : Server → Outcome × Server
unfolding recv_attempt
recv s =
    if s.receiving || is_some s.active
    then (runtime_error, s)
    else recv_attempt (record s { receiving = true })

-- A `recv` that is cancelled while it waits.
abbrev pub cancel_recv : Server → Server
cancel_recv s = record s { receiving = false }

-- `get_principal` before and after it verifies the request again; `verified` is what that returns.
unfoldable pub principal_before : Server → Outcome
principal_before s = elim s.active [
  | none ↦ permission_error
  | some id ↦ if is_done id s then permission_error else waits
]

unfoldable pub principal_after : Option (Option String) → Server → Outcome
principal_after verified s =
    let is_same : Bool = elim verified [
      | none ↦ true
      | some none ↦ false
      | some (some p) ↦ some p == s.active_principal
    ] in
    if not is_same then permission_error else elim s.active [
      | none ↦ permission_error
      | some id ↦
          if is_done id s || s.closing then permission_error else principal s.active_principal
    ]

-- The active request is let go, and answered unless its future is done.
abbrev pub release : Option ℕ → Answer → Event → Server → Server
release none answer event s = record s { active = none; active_principal = none }
release (some id) answer event s = record s {
  active = none;
  active_principal = none;
  futures = set_if_open id answer s.futures;
  log = event ∷ s.log;
}

unfoldable pub finish_notification : Server → Server
finish_notification s = release s.active no_content quiet s

unfoldable pub send : Bytes → Server → Outcome × Server
send payload s =
    if ltb s.max_body_size (length payload)
    then (value_error, s)
    else if s.closing
    then (connection_error, s)
    else if not (is_some s.active)
    then (runtime_error, s)
    else (returned, release s.active (replied payload) (said payload) s)

-- for response in self._pending, in `close`
unfoldable pub fail_all : List ℕ → Dict ℕ Answer → Dict ℕ Answer
fail_all [] futures = futures
fail_all (id ∷ ids) futures = fail_all ids (set_if_open id unavailable futures)

unfoldable pub close : Server → Server
unfolding fail_all
close s = record s {
  closing = true;
  futures = fail_all s.pending s.futures;
  queue = [];
  queued_bytes = 0;
  active = none;
  active_principal = none;
}

-- A handler that is cancelled, or whose time is up, cancels the future that it waits for.
abbrev pub abort : ℕ → Server → Server
abort id s = record s { futures = set_if_open id cancelled s.futures }

-- What `_handle` makes of the answer that it has waited for.
abbrev pub response_of : Answer → Outcome × Bytes
response_of (replied body) = (status 200, body)
response_of no_content = (status 204, [])
response_of unavailable = (status 503, [])
response_of cancelled = (status 504, [])
