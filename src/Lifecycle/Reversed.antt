-- ===== src/Lifecycle/Reversed.antt =====
-- Dependencies stop in the reverse of the order in which they started.
use mathlib.Core.Path.{subst}
use mathlib.Core.List.{reverse, reverse_aux}
use wire_rpc.Prelude.{
  ℕ, ◌≡◌, ◌≢◌, refl, sym, ap, ◌∙◌, arith, true, false, List, [], ◌∷◌, ◌++◌, map, append_assoc,
  append-nil, All, if_both, if◌then◌else◌, Bool-cases, inl, inr,
}
use wire_rpc.Execution.{Awaited, done, failed, cancelled}
use wire_rpc.Lifecycle.{
  Dependency, Event, starts, stops, State, is_seen, log_event, stop_one, stop_all, shutdown,
  start_one, start_all, raise_after, or_shut_down, startup,
}
use wire_rpc.Lifecycle.Run.{after_finally}

abbrev pub IsNotCancelled : Awaited Unit → Type 0
IsNotCancelled (done x) = Unit
IsNotCancelled (failed f) = Unit
IsNotCancelled cancelled = ⊥

-- No one cancels the shutdown of the dependency.
abbrev pub Stops : Dependency → Type 0
Stops d = IsNotCancelled d.shutdown

abbrev pub stop_events : List Dependency → List Event
stop_events ds = map (λ (d : Dependency). stops d.identifier) ds

abbrev pub start_events : List Dependency → List Event
start_events ds = map (λ (d : Dependency). starts d.identifier) ds

-- The dependencies with a startup, each at its first place.
abbrev pub distinct : List Dependency → List ℕ → List Dependency
distinct [] seen = []
distinct (d ∷ ds) seen =
    if is_seen d.identifier seen then distinct ds seen else d ∷ distinct ds (d.identifier ∷ seen)

-- The exception of the last of these stops that raises, or else the result before them.
abbrev pub last_failure : Awaited Unit → List Dependency → Awaited Unit
last_failure before [] = before
last_failure before (d ∷ ds) = last_failure (after_finally before d.shutdown) ds

stop_one_lem :
    (r : Awaited Unit) (go : Awaited Unit → State → Awaited Unit × State) (failure : Awaited Unit)
    (s t : State) (result : Awaited Unit → Awaited Unit)
    → IsNotCancelled r
    → ((x : Awaited Unit) → go x s ≡ (result x, t))
    → stop_one r go failure s ≡ (result (after_finally failure r), t)
unfolding stop_one
stop_one_lem (done x) go failure s t result h k = k failure
stop_one_lem (failed f) go failure s t result h k = k (failed f)
stop_one_lem cancelled go failure s t result h k = absurd h

stop_all_lem :
    (ds : List Dependency) (failure : Awaited Unit) (s : State)
    → All Stops ds
    → stop_all ds failure s ≡ (last_failure failure ds, record s { log = s.log ++ stop_events ds })
unfolding stop_all
stop_all_lem [] failure s h =
    ap (λ (l : List Event). (failure, record s { log = l })) (sym (append-nil s.log))
stop_all_lem (d ∷ ds) failure s h =
    stop_one_lem d.shutdown (stop_all ds) failure _ _ (λ x. last_failure x ds) h.0
      (λ x.
        stop_all_lem ds x (log_event (stops d.identifier) s) h.1
        ∙ ap (λ (l : List Event). (last_failure x ds, record s { log = l }))
            (append_assoc s.log (stops d.identifier ∷ []) (stop_events ds)))

-- One of the dependencies does not start.
abbrev pub FirstFails : List Dependency → Awaited Unit → List Dependency → Dependency → Type 0
FirstFails all r ds d =
    (rest : List Dependency) × (all ≡ ds ++ d ∷ rest) × (d.startup ≡ r) × (r ≢ done tt)

-- What the loop of `startup` has done for these dependencies, after it has started some of them.
abbrev Logged : List Dependency → List Event → List Event → List Dependency → Awaited Unit → Type 0
Logged all before l ds (done x) = (all ≡ ds) × (l ≡ before ++ start_events ds)
Logged all before l ds (failed f) =
    (d : Dependency) × FirstFails all (failed f) ds d
    × (l ≡ before ++ (start_events ds ++ starts d.identifier ∷ []))
Logged all before l ds cancelled =
    (d : Dependency) × FirstFails all cancelled ds d
    × (l ≡ before ++ (start_events ds ++ starts d.identifier ∷ []))

abbrev pub Starts : Dependency → Type 0
Starts d = d.startup ≡ done tt

abbrev Grown : List Dependency → State → Awaited Unit × State → Type 0
Grown all s (r, t) =
    (ds : List Dependency) × (t.started ≡ s.started ++ ds)
    × All Stops ds
    × All Starts ds
    × Logged all s.log t.log ds r

FirstFails-cons :
    (first : Dependency) (all : List Dependency) (r : Awaited Unit) (ds : List Dependency)
    (d : Dependency)
    → FirstFails all r ds d
    → FirstFails (first ∷ all) r (first ∷ ds) d
FirstFails-cons first all r ds d (rest, e, same, fails) =
    (rest, ap (λ (l : List Dependency). first ∷ l) e, same, fails)

Logged-cons :
    (d : Dependency) (all ds : List Dependency) (before l : List Event) (r : Awaited Unit)
    → Logged all (before ++ starts d.identifier ∷ []) l ds r
    → Logged (d ∷ all) before l (d ∷ ds) r
Logged-cons d all ds before l (done x) (same, e) = (
  ap (λ (l : List Dependency). d ∷ l) same,
  e ∙ append_assoc before (starts d.identifier ∷ []) (start_events ds),
)
Logged-cons d all ds before l (failed f) (i, fails, e) = (
  i,
  FirstFails-cons d all (failed f) ds i fails,
  e ∙ append_assoc before (starts d.identifier ∷ []) (start_events ds ++ starts i.identifier ∷ []),
)
Logged-cons d all ds before l cancelled (i, fails, e) = (
  i,
  FirstFails-cons d all cancelled ds i fails,
  e ∙ append_assoc before (starts d.identifier ∷ []) (start_events ds ++ starts i.identifier ∷ []),
)

Grown-cons :
    (d : Dependency) (all : List Dependency) (s : State) (out : Awaited Unit × State)
    → Stops d
    → Starts d
    → Grown all
        (record s { started = s.started ++ d ∷ []; log = s.log ++ starts d.identifier ∷ [] })
        out
    → Grown (d ∷ all) s out
Grown-cons d all s (r, t) h k (ds, e, every, begun, l) = (
  d ∷ ds,
  e ∙ append_assoc s.started (d ∷ []) ds,
  (h, every),
  (k, begun),
  Logged-cons d all ds s.log t.log r l,
)

start_one-Grown :
    (d : Dependency) (all : List Dependency) (r : Awaited Unit) (go : State → Awaited Unit × State)
    (s : State)
    → d.startup ≡ r
    → Stops d
    → ((t : State) → Grown all t (go t))
    → Grown (d ∷ all) s (start_one d r go (log_event (starts d.identifier) s))
unfolding start_one
start_one-Grown d all (done x) go s e h k =
    let next = record s {
      started = s.started ++ d ∷ [];
      log = s.log ++ starts d.identifier ∷ [];
    } in
    Grown-cons d all s (go next) h e (k next)
start_one-Grown d all (failed f) go s e h k = (
  [],
  sym (append-nil s.started),
  tt,
  tt,
  (d, (all, refl, e, λ p. absurd (ground (arith, p))), refl),
)
start_one-Grown d all cancelled go s e h k = (
  [],
  sym (append-nil s.started),
  tt,
  tt,
  (d, (all, refl, e, λ p. absurd (ground (arith, p))), refl),
)

start_all-Grown :
    (ds : List Dependency) (seen : List ℕ) (s : State)
    → All Stops ds
    → Grown (distinct ds seen) s (start_all ds seen s)
unfolding start_all
start_all-Grown [] seen s h =
    ([], sym (append-nil s.started), tt, tt, (refl, sym (append-nil s.log)))
start_all-Grown (d ∷ ds) seen s h = elim (Bool-cases (is_seen d.identifier seen)) [
  | inl old ↦ rw old (start_all-Grown ds seen s h.1)
  | inr fresh ↦ rw fresh (
      start_one-Grown d (distinct ds (d.identifier ∷ seen)) d.startup
        (start_all ds (d.identifier ∷ seen)) s refl h.0
        (λ t. start_all-Grown ds (d.identifier ∷ seen) t h.1))
]

reverse_aux-All :
    (ds acc : List Dependency) → All Stops ds → All Stops acc → All Stops (reverse_aux ds acc)
reverse_aux-All [] acc h k = k
reverse_aux-All (d ∷ ds) acc h k = reverse_aux-All ds (d ∷ acc) h.1 (h.0, k)

-- `shutdown` calls every dependency that has started, the last one first, whichever of them raise.
shutdown_lem :
    (s : State)
    → All Stops s.started
    → shutdown s ≡ (
      last_failure (done tt) (reverse s.started),
      record s { started = []; log = s.log ++ stop_events (reverse s.started) },
    )
unfolding shutdown
shutdown_lem s h =
    stop_all_lem (reverse s.started) (done tt) (record s { started = [] })
      (reverse_aux-All s.started [] h tt)

-- What a `startup` that fails leaves, and how it ends: as the last of the stops that raised, or as the
-- dependency that did not start.
abbrev pub Undone : List Dependency → List Event → Awaited Unit × State → Type 0
Undone all before (r, t) =
    (ds : List Dependency) × (d : Dependency) × FirstFails all d.startup ds d
    × All Starts ds
    × (r ≡ after_finally d.startup (last_failure (done tt) (reverse ds)))
    × (t.started ≡ [])
    × (t.log
        ≡ (before ++ (start_events ds ++ starts d.identifier ∷ [])) ++ stop_events (reverse ds))

-- How `startup` ends: with all of them started, or with those that had started stopped again.
abbrev pub StartedUp : List Dependency → List Event → Awaited Unit × State → Type 0
StartedUp all before (done x, t) =
    (t.started ≡ all) × All Starts all × (t.log ≡ before ++ start_events all)
StartedUp all before (failed f, t) = Undone all before (failed f, t)
StartedUp all before (cancelled, t) = Undone all before (cancelled, t)

raise_after_lem :
    (r : Awaited Unit) (out : Awaited Unit × State)
    → raise_after r out ≡ (after_finally r out.0, out.1)
raise_after_lem r (done x, s) = refl
raise_after_lem r (failed f, s) = refl
raise_after_lem r (cancelled, s) = refl

after_finally-raises : (r x : Awaited Unit) → r ≢ done tt → after_finally r x ≢ done tt
after_finally-raises r (done x) n = n
after_finally-raises r (failed f) n = λ p. absurd (ground (arith, p))
after_finally-raises r cancelled n = λ p. absurd (ground (arith, p))

StartedUp-raised :
    (all : List Dependency) (before : List Event) (r : Awaited Unit) (t : State)
    → r ≢ done tt
    → Undone all before (r, t)
    → StartedUp all before (r, t)
StartedUp-raised all before (done x) t n u = absurd (n refl)
StartedUp-raised all before (failed f) t n u = u
StartedUp-raised all before cancelled t n u = u

-- `shutdown` and `raise`, after a dependency did not start.
shutdown-StartedUp :
    (all ds : List Dependency) (before : List Event) (r : Awaited Unit) (t : State) (d : Dependency)
    → FirstFails all r ds d
    → t.started ≡ ds
    → All Stops ds
    → All Starts ds
    → t.log ≡ before ++ (start_events ds ++ starts d.identifier ∷ [])
    → StartedUp all before (raise_after r (shutdown t))
shutdown-StartedUp all ds before r t d (rest, split, fails, n) e h begun l =
    let stopped = shutdown_lem t (subst (All Stops) (sym e) h) in
    let result = last_failure (done tt) (reverse t.started) in
    let left = record t { started = []; log = t.log ++ stop_events (reverse t.started) } in
    subst (StartedUp all before)
      (sym (ap (raise_after r) stopped ∙ raise_after_lem r (result, left)))
      (StartedUp-raised all before (after_finally r result) left (after_finally-raises r result n) (
        ds,
        d,
        (rest, split, refl, λ p. n (sym fails ∙ p)),
        begun,
        ap (λ (x : Awaited Unit). after_finally x result) (sym fails)
            ∙ ap
                (λ (x : List Dependency).
                  after_finally d.startup (last_failure (done tt) (reverse x)))
                e,
        refl,
        ap (λ (x : List Event). x ++ stop_events (reverse t.started)) l
            ∙ ap
                (λ (x : List Dependency).
                  (before ++ (start_events ds ++ starts d.identifier ∷ []))
                  ++ stop_events (reverse x))
                e,
      ))

or_shut_down-StartedUp :
    (all : List Dependency) (s : State) (out : Awaited Unit × State)
    → s.started ≡ []
    → Grown all s out
    → StartedUp all s.log (or_shut_down out)
or_shut_down-StartedUp all s (done x, t) none_yet (ds, e, h, begun, (same, l)) = (
  e ∙ ap (λ (xs : List Dependency). xs ++ ds) none_yet ∙ sym same,
  subst (All Starts) (sym same) begun,
  l ∙ ap (λ (xs : List Dependency). s.log ++ start_events xs) (sym same),
)
or_shut_down-StartedUp all s (failed f, t) none_yet (ds, e, h, begun, (d, fails, l)) =
    shutdown-StartedUp all ds s.log (failed f) t d fails
      (e ∙ ap (λ (xs : List Dependency). xs ++ ds) none_yet) h begun l
or_shut_down-StartedUp all s (cancelled, t) none_yet (ds, e, h, begun, (d, fails, l)) =
    shutdown-StartedUp all ds s.log cancelled t d fails
      (e ∙ ap (λ (xs : List Dependency). xs ++ ds) none_yet) h begun l

-- A first `startup` whose shutdowns nobody cancels goes through the distinct dependencies in order. Either
-- all of them start, and it remembers all of them; or it calls them up to the first whose startup fails,
-- stops exactly those before it, which had started, in the reverse order whichever of these stops raise,
-- remembers none, and ends with the exception of the last of these stops that raised, or of that startup
-- if none did.
pub startup-StartedUp :
    (dependencies : List Dependency) (s : State)
    → All Stops dependencies
    → s.startup_called ≡ false
    → s.started ≡ []
    → StartedUp (distinct dependencies []) s.log (startup dependencies s)
unfolding startup
startup-StartedUp dependencies s h fresh none_yet =
    if_both (StartedUp (distinct dependencies []) s.log) s.startup_called
      (λ called. absurd (ground (arith, called, fresh)))
      (λ _.
        or_shut_down-StartedUp (distinct dependencies []) (record s { startup_called = true }) _
          none_yet (start_all-Grown dependencies [] (record s { startup_called = true }) h))
