-- ===== src/Lifecycle/Examples.antt =====
-- Two dependencies, the second of which fails to start, and an app whose startup hook does.
use wire_rpc.Lifecycle.Run
use wire_rpc.Lifecycle.Run.{run}
use wire_rpc.Lifecycle.Run.Ordered.{Through, run-Through}
use wire_rpc.Prelude.{some, Bool, true, refl, List, [], ◌∷◌, false}
use wire_rpc.Execution.{done, failed, other}
use wire_rpc.Lifecycle.{Dependency, State, startup}
use wire_rpc.Lifecycle.Reversed.{StartedUp, startup-StartedUp}

abbrev dependencies : List Dependency
dependencies =
    record { identifier = 1; startup = done tt; shutdown = done tt }
    ∷ record { identifier = 2; startup = failed other; shutdown = done tt }
    ∷ []

abbrev fresh : State
fresh = record { startup_called = false; started = []; log = [] }

startup-StartedUp_example : StartedUp dependencies [] (startup dependencies fresh)
startup-StartedUp_example = startup-StartedUp dependencies fresh (tt, (tt, tt)) refl refl

abbrev calls : Run.Calls Bool
calls = record {
  internal_startup = done tt;
  on_startup = some (failed other);
  listen = done tt;
  on_shutdown = some (done tt);
  internal_shutdown = done tt;
}

abbrev idle : Run.State Bool
idle = record { running = false; stopping = false; context = true; log = [] }

run-Through_example : Through calls idle (run calls idle)
run-Through_example = run-Through calls idle refl refl
