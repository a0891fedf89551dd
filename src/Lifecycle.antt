-- ===== src/Lifecycle.antt =====
-- The order in which things start and stop: `DependencyLifecycle` of wire_rpc/auth/_util.py. What a
-- dependency does is its own; here each call ends well, raises or is cancelled, and the calls are
-- recorded in their order.
pub mod Reversed
pub mod Run
mod Examples
use wire_rpc.Prelude.{
  ℕ, Bool, true, false, Option, none, some, List, [], ◌∷◌, ◌++◌, ◌==◌, nat_eq, if◌then◌else◌,
}
use mathlib.Core.List.{reverse}
use wire_rpc.Execution.{Awaited, done, failed, cancelled, other}

-- A dependency, by `id(dependency)`; those that have no startup are left out.
pub record Dependency : Type 0 where
  pub identifier : ℕ
  pub startup : Awaited Unit
  pub shutdown : Awaited Unit

pub data Event : Type 0 where
  starts stops : ℕ → Event

pub record State : Type 0 where
  pub startup_called : Bool
  pub started : List Dependency
  pub log : List Event

abbrev pub is_seen : ℕ → List ℕ → Bool
is_seen i [] = false
is_seen i (j ∷ seen) = if j == i then true else is_seen i seen

abbrev pub log_event : Event → State → State
log_event e s = record s { log = s.log ++ e ∷ [] }

stop_one :
    Awaited Unit
    → (Awaited Unit → State → Awaited Unit × State)
    → Awaited Unit
    → State
    → Awaited Unit × State
stop_one cancelled go failure s = (cancelled, s)
stop_one (done x) go failure s = go failure s
stop_one (failed f) go failure s = go (failed f) s

-- The loop of `shutdown`, over the started ones in reverse.
unfoldable pub stop_all : List Dependency → Awaited Unit → State → Awaited Unit × State
unfolding stop_one
stop_all [] failure s = (failure, s)
stop_all (d ∷ ds) failure s =
    stop_one d.shutdown (stop_all ds) failure (log_event (stops d.identifier) s)

unfoldable pub shutdown : State → Awaited Unit × State
unfolding stop_all
shutdown s = stop_all (reverse s.started) (done tt) (record s { started = [] })

start_one :
    Dependency → Awaited Unit → (State → Awaited Unit × State) → State → Awaited Unit × State
start_one d (done x) go s = go (record s { started = s.started ++ d ∷ [] })
start_one d (failed f) go s = (failed f, s)
start_one d cancelled go s = (cancelled, s)

-- The loop of `startup`.
unfoldable pub start_all : List Dependency → List ℕ → State → Awaited Unit × State
unfolding start_one
start_all [] seen s = (done tt, s)
start_all (d ∷ ds) seen s =
    if is_seen d.identifier seen
    then start_all ds seen s
    else start_one d d.startup (start_all ds (d.identifier ∷ seen))
        (log_event (starts d.identifier) s)

-- `raise`, after a `shutdown` that may raise itself.
abbrev pub raise_after : Awaited Unit → Awaited Unit × State → Awaited Unit × State
raise_after r (done x, s) = (r, s)
raise_after r (failed f, s) = (failed f, s)
raise_after r (cancelled, s) = (cancelled, s)

abbrev pub or_shut_down : Awaited Unit × State → Awaited Unit × State
or_shut_down (done x, s) = (done x, s)
or_shut_down (failed f, s) = raise_after (failed f) (shutdown s)
or_shut_down (cancelled, s) = raise_after cancelled (shutdown s)

unfoldable pub startup : List Dependency → State → Awaited Unit × State
unfolding start_all shutdown
startup dependencies s =
    if s.startup_called
    then (failed other, s)
    else or_shut_down (start_all dependencies [] (record s { startup_called = true }))
