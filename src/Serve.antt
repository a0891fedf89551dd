-- ===== src/Serve.antt =====
-- wire_rpc/multicast_app.py: `_listen`, `_serve_request` and the locks, slots and tasks that they
-- share. A task is in `tasks` from its creation to the end of its `finally`; `self._tasks` also keeps
-- those that are done until they are reaped. A lock is the number of its creation.
-- Serve.Unicast is the `_listen` of wire_rpc/app.py.
pub mod Clients
pub mod Entries
pub mod Locks
pub mod Unicast
mod Examples
use wire_rpc.Prelude.{
  ℕ, ◌+◌, ◌-◌, ◌<◌, ◌≡◌, String, string_eq, Bool, true, false, ◌&&◌, ◌||◌, not, Option, none, some,
  List, [], ◌∷◌, ◌++◌, ◌==◌, nat_eq, if◌then◌else◌,
}
use wire_rpc.Prelude.Dict
use wire_rpc.Prelude.Dict.{Dict}
use wire_rpc.Envelope.{Bytes, Request, Response, RequestContext}
use wire_rpc.Execution.{
  Codec, Config, Host, Stats, State, Awaited, done, failed, cancelled, peer_busy, Exit, returned,
  raised, stopped,
}
use wire_rpc.Execution.Message.{process}

-- A task of `_serve_request`; `inside` is whether it holds its lock.
pub record Task : Type 0 where
  pub client_id : String
  pub lock : ℕ
  pub busy : Bool
  pub inside : Bool

-- Where the loop of `_listen` waits: for a slot, for a message with the slot in hand, or, after its
-- end, for the tasks.
pub data Stage : Type 0 where
  acquiring receiving draining : Stage

pub record Serve : Type 0 where
  pub max_concurrency : ℕ
  pub free : ℕ
  pub peer_locks : Dict String (ℕ × ℕ)
  pub locks_made : ℕ
  pub tasks : List Task
  pub stopping : Bool
  pub stage : Stage

abbrev pub new : ℕ → Serve
new max_concurrency = record {
  max_concurrency = max_concurrency;
  free = max_concurrency;
  peer_locks = [];
  locks_made = 0;
  tasks = [];
  stopping = false;
  stage = acquiring;
}

abbrev pub stop : Serve → Serve
stop s = record s { stopping = true }

-- The end of `await self._await_or_stop(slots.acquire())`: whether there is a slot, and whether the
-- wait saw `stop`. With both, the slot is taken and not given back.
unfoldable pub acquired : Bool → Bool → Serve → Serve
acquired has_slot sees_stop s =
    let taken = if has_slot then s.free - 1 else s.free in
    if sees_stop
    then record s { free = taken; stage = draining }
    else if has_slot
    then record s { free = taken; stage = receiving }
    else s

-- lock, count = self._peer_locks.get(client_id, (asyncio.Lock(), 0))
abbrev pub lock_and_count : Option (ℕ × ℕ) → ℕ → ℕ × ℕ
lock_and_count none fresh = (fresh, 0)
lock_and_count (some entry) fresh = entry

-- `client_id, data = await self._next(t)` and what follows; `none` is one of the two
-- errors that end the loop, or `stop`.
unfoldable pub received : Option String → Serve → Serve
received none s = record s { free = s.free + 1; stage = draining }
received (some client_id) s =
    let (lock, count) = lock_and_count (Dict.get client_id s.peer_locks) s.locks_made in
    record s {
      peer_locks = Dict.put client_id (lock, count + 1) s.peer_locks;
      locks_made = s.locks_made + 1;
      tasks =
          record { client_id = client_id; lock = lock; busy = not (count == 0); inside = false }
          ∷ s.tasks;
      stage = if s.stopping then draining else acquiring;
    }

-- The loop ends by an exception: of `_next`, with the slot in hand, or of a task that is reaped after a
-- message was received.
abbrev pub break_off : Serve → Serve
break_off s = record s { stage = draining }

-- Whether a task holds this lock.
abbrev pub is_locked : ℕ → List Task → Bool
is_locked lock [] = false
is_locked lock (t ∷ tasks) = t.inside && t.lock == lock || is_locked lock tasks

-- `async with lock`, by the task that is between these two lists
abbrev pub enter : List Task → Task → List Task → Serve → Serve
enter before t after s = record s { tasks = before ++ record t { inside = true } ∷ after }

-- How the `finally` of `_serve_request` ends.
pub data Ended : Type 0 where
  fine key_error : Ended

abbrev pub forget : Option (ℕ × ℕ) → Task → List Task → Serve → Ended × Serve
forget none t others s = (key_error, record s { tasks = others })
forget (some (lock, count)) t others s = (
  fine,
  record s {
    peer_locks =
        if count == 1
        then Dict.pop t.client_id s.peer_locks
        else Dict.put t.client_id (t.lock, count - 1) s.peer_locks;
    free = s.free + 1;
    tasks = others;
  },
)

-- The `finally` of `_serve_request`.
unfoldable pub finish : List Task → Task → List Task → Serve → Ended × Serve
finish before t after s = forget (Dict.get t.client_id s.peer_locks) t (before ++ after) s

pub data Step : Serve → Serve → Type 0 where
  stops : (s : Serve) → Step s (stop s)
  acquires :
      (s : Serve) (has_slot sees_stop : Bool)
      → s.stage ≡ acquiring
      → (has_slot ≡ true → 0 < s.free)
      → (sees_stop ≡ true → s.stopping ≡ true)
      → Step s (acquired has_slot sees_stop s)
  receives :
      (s : Serve) (client_id : Option String) → s.stage ≡ receiving → Step s (received client_id s)
  breaks_off : (s : Serve) → Step s (break_off s)
  enters :
      (s : Serve) (before : List Task) (t : Task) (after : List Task)
      → s.tasks ≡ before ++ t ∷ after
      → t.busy ≡ false
      → is_locked t.lock s.tasks ≡ false
      → Step s (enter before t after s)
  finishes :
      (s : Serve) (before : List Task) (t : Task) (after : List Task)
      → s.tasks ≡ before ++ t ∷ after
      → Step s (finish before t after s).1

pub data Reach (start : Serve) : Serve → Type 0 where
  here : Reach start start
  next : {s t : Serve} → Reach start s → Step s t → Reach start t

-- The `try` of `_serve_request`.
module _ {W : Type 0} (codec : Codec) (config : Config) (host : Host W)
    (send : String → Bytes → W → Awaited (Unit {0}) × W) where
  abbrev pub reject : Request → RequestContext → W → Awaited Response × W
  reject request context w = (failed peer_busy, w)

  -- raise PeerBusyError, or self._dispatch
  abbrev pub host_of : Bool → Host W
  host_of busy = if busy then record host { dispatch = reject } else host

  abbrev pub count_failure : Awaited (Unit {0}) → Stats → Stats
  count_failure (failed f) stats = record stats { failures = stats.failures + 1 }
  count_failure _ stats = stats

  abbrev pub exit_after : Awaited (Unit {0}) → Exit (Unit {0})
  exit_after cancelled = stopped
  exit_after _ = returned tt

  abbrev pub respond : String → Exit (Option Bytes) × State W → Exit (Unit {0}) × State W
  respond client_id (returned (some response), s) =
      let (sent, w) = send client_id response s.world in
      (exit_after sent, record s { stats = count_failure sent s.stats; world = w })
  respond client_id (returned none, s) = (returned tt, s)
  respond client_id (raised, s) = (raised, s)
  respond client_id (stopped, s) = (stopped, s)

  unfoldable pub serve_request : Bool → String → Bytes → State W → Exit (Unit {0}) × State W
  unfolding process
  serve_request busy client_id data_ s =
      respond client_id (process codec config (host_of busy) (some client_id) data_ s)
