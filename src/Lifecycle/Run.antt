-- ===== src/Lifecycle/Run.antt =====
-- `_run` of wire_rpc/app.py, which wire_rpc/multicast_app.py has as well. How each call of the
-- transport, of a hook and of the serve loop ends is given; the calls are recorded in their order. A
-- timeout of a call is one of its failures.
pub mod Ordered
use wire_rpc.Prelude.{
  Bool, true, false, ◌||◌, Option, none, some, List, [], ◌∷◌, ◌++◌, if◌then◌else◌,
}
use wire_rpc.Execution.{Awaited, done, failed, cancelled, other}

pub data Event (C : Type 0) : Type 0 where
  starts_transport starts_app serves stops_transport : Event C
  stops_app : C → Event C

pub record Calls (C : Type 0) : Type 0 where
  pub internal_startup : Awaited Unit
  pub on_startup : Option (Awaited C)
  pub listen : Awaited Unit
  pub on_shutdown : Option (Awaited Unit)
  pub internal_shutdown : Awaited Unit

pub record State (C : Type 0) : Type 0 where
  pub running : Bool
  pub stopping : Bool
  pub context : C
  pub log : List (Event C)

-- An exception in a `finally` replaces the one before it.
abbrev pub after_finally : Awaited Unit → Awaited Unit → Awaited Unit
after_finally r (done x) = r
after_finally r (failed f) = failed f
after_finally r cancelled = cancelled

module _ {C : Type 0} where
  abbrev pub note : Event C → State C → State C
  note e s = record s { log = s.log ++ e ∷ [] }

  -- self._ctx = await self._on_startup()
  abbrev pub start_app : Option (Awaited C) → State C → Awaited Unit × State C
  start_app none s = (done tt, s)
  start_app (some (done c)) s = (done tt, record (note starts_app s) { context = c })
  start_app (some (failed f)) s = (failed f, note starts_app s)
  start_app (some cancelled) s = (cancelled, note starts_app s)

  -- await self._on_shutdown(self._ctx)
  abbrev pub stop_app : Option (Awaited Unit) → State C → Awaited Unit × State C
  stop_app none s = (done tt, s)
  stop_app (some r) s = (r, note (stops_app s.context) s)

  -- The `finally` of `_run`, from what the body has started and how it ended.
  unfoldable pub wind_up : Calls C → Bool → Bool → Awaited Unit × State C → Awaited Unit × State C
  wind_up calls dependencies_started application_started (r, s) =
      let (r', s') =
        stop_app (if application_started then calls.on_shutdown else none)
          (record s { stopping = true }) in
      let first = after_finally r r' in
      if dependencies_started
      then (
        after_finally first calls.internal_shutdown,
        record (note stops_transport s') { running = false },
      )
      else (first, record s' { running = false })

  after_start_app : Calls C → Awaited Unit × State C → Awaited Unit × State C
  after_start_app calls (done x, s) = wind_up calls true true (calls.listen, note serves s)
  after_start_app calls (failed f, s) = wind_up calls true false (failed f, s)
  after_start_app calls (cancelled, s) = wind_up calls true false (cancelled, s)

  after_startup : Calls C → Awaited Unit → State C → Awaited Unit × State C
  after_startup calls (done x) s = after_start_app calls (start_app calls.on_startup s)
  after_startup calls (failed f) s = wind_up calls false false (failed f, s)
  after_startup calls cancelled s = wind_up calls false false (cancelled, s)

  -- `_run`
  unfoldable pub run : Calls C → State C → Awaited Unit × State C
  unfolding after_startup after_start_app wind_up
  run calls s =
      if s.running || s.stopping
      then (failed other, s)
      else after_startup calls calls.internal_startup
          (note starts_transport (record s { running = true }))
