-- ===== src/Lifecycle/Run/Ordered.antt =====
-- An app stops what it has started, in the reverse order.
use mathlib.Core.Path.{subst}
use wire_rpc.Prelude.{
  ◌≡◌, ◌≢◌, refl, sym, ap, ◌∙◌, arith, true, false, ◌||◌, Option, none, some, List, [], ◌∷◌, ◌++◌,
  append_assoc, append-nil, if_both,
}
use wire_rpc.Execution.{Awaited, done, failed, cancelled}
use wire_rpc.Lifecycle.Run.{
  Event, starts_transport, starts_app, serves, stops_transport, stops_app, Calls, State, note,
  start_app, stop_app, after_finally, wind_up, after_start_app, after_startup, run,
}

-- How the shutdown hook ends, where there is one.
abbrev pub hook_ends : Option (Awaited Unit) → Awaited Unit
hook_ends none = done tt
hook_ends (some r) = r

module _ {C : Type 0} where
  -- The calls that the startup hook is for, and the shutdown hook.
  abbrev pub hooked : Option (Awaited C) → List (Event C)
  hooked none = []
  hooked (some r) = starts_app ∷ []

  abbrev pub unhooked : Option (Awaited Unit) → C → List (Event C)
  unhooked none c = []
  unhooked (some r) c = stops_app c ∷ []

  -- The context that the app serves with.
  abbrev pub Serves : Option (Awaited C) → C → C → Type 0
  Serves none before c = c ≡ before
  Serves (some r) before c = r ≡ done c

  -- An exception of the startup hook.
  abbrev pub without_value : Awaited C → Awaited Unit
  without_value (done c) = done tt
  without_value (failed f) = failed f
  without_value cancelled = cancelled

  -- How a run ends and its calls, in order: the transport does not start, and nothing else is called;
  -- or it starts and the startup hook fails, and the transport is shut down; or both have succeeded,
  -- the app serves, and stops with the context that it has served with.
  pub data Ordered (calls : Calls C) (before : C) : Awaited Unit → List (Event C) → Type 0 where
    no_transport :
        calls.internal_startup ≢ done tt
        → Ordered calls before calls.internal_startup (starts_transport ∷ [])
    no_app :
        (r : Awaited C)
        → calls.internal_startup ≡ done tt
        → calls.on_startup ≡ some r
        → without_value r ≢ done tt
        → Ordered calls before
            (after_finally (without_value r) calls.internal_shutdown)
            (starts_transport ∷ starts_app ∷ stops_transport ∷ [])
    served :
        (c : C)
        → calls.internal_startup ≡ done tt
        → Serves calls.on_startup before c
        → Ordered calls before
            (after_finally
              (after_finally calls.listen (hook_ends calls.on_shutdown))
              calls.internal_shutdown)
            (starts_transport
              ∷ (hooked calls.on_startup
                  ++ serves ∷ (unhooked calls.on_shutdown c ++ stops_transport ∷ [])))

  -- The app is through: it has stopped, and it has ended and called in order.
  abbrev pub Through : Calls C → State C → Awaited Unit × State C → Type 0
  Through calls s (r, t) =
      (t.running ≡ false)
      × (t.stopping ≡ true)
      × ((es : List (Event C)) × Ordered calls s.context r es × (t.log ≡ s.log ++ es))

  stop_app-log :
      (o : Option (Awaited Unit)) (u : State C)
      → (stop_app o u).1.log ≡ u.log ++ unhooked o u.context
  stop_app-log none u = sym (append-nil u.log)
  stop_app-log (some r) u = refl

  stop_app-stopping :
      (o : Option (Awaited Unit)) (u : State C) → (stop_app o u).1.stopping ≡ u.stopping
  stop_app-stopping none u = refl
  stop_app-stopping (some r) u = refl

  stop_app-result : (o : Option (Awaited Unit)) (u : State C) → (stop_app o u).0 ≡ hook_ends o
  stop_app-result none u = refl
  stop_app-result (some r) u = refl

  module _ (calls : Calls C) (s : State C) where
    no_transport-Through :
        (r : Awaited Unit)
        → calls.internal_startup ≡ r
        → r ≢ done tt
        → Through calls s
            (wind_up calls false false (r, note starts_transport (record s { running = true })))
    unfolding wind_up
    no_transport-Through r e n = (
      refl,
      refl,
      (
        starts_transport ∷ [],
        subst (λ (x : Awaited Unit). Ordered calls s.context x (starts_transport ∷ [])) e
            (no_transport (λ p. n (sym e ∙ p))),
        refl,
      ),
    )

    no_app-Through :
        (r : Awaited C)
        → calls.internal_startup ≡ done tt
        → calls.on_startup ≡ some r
        → without_value r ≢ done tt
        → Through calls s (
            wind_up calls true false (
              without_value r,
              note starts_app (note starts_transport (record s { running = true })),
            ))
    unfolding wind_up
    no_app-Through r started e n = (
      refl,
      refl,
      (
        _,
        no_app r started e n,
        append_assoc (s.log ++ starts_transport ∷ []) (starts_app ∷ []) (stops_transport ∷ [])
            ∙ append_assoc s.log (starts_transport ∷ []) (starts_app ∷ stops_transport ∷ []),
      ),
    )

    served-Through :
        (t : State C)
        → calls.internal_startup ≡ done tt
        → t.log ≡ s.log ++ starts_transport ∷ hooked calls.on_startup
        → Serves calls.on_startup s.context t.context
        → Through calls s (wind_up calls true true (calls.listen, note serves t))
    unfolding wind_up
    served-Through t started e c =
        let u = record (note serves t) { stopping = true } in
        let ends = unhooked calls.on_shutdown t.context ++ stops_transport ∷ [] in
        let es = starts_transport ∷ (hooked calls.on_startup ++ serves ∷ ends) in
        (
          refl,
          stop_app-stopping calls.on_shutdown u,
          (
            es,
            subst
                (λ (x : Awaited Unit).
                  Ordered calls s.context
                    (after_finally (after_finally calls.listen x) calls.internal_shutdown) es)
                (sym (stop_app-result calls.on_shutdown u)) (served t.context started c),
            ap (λ (l : List (Event C)). l ++ stops_transport ∷ [])
                  (stop_app-log calls.on_shutdown u)
                ∙ (append_assoc (t.log ++ serves ∷ []) (unhooked calls.on_shutdown t.context)
                      (stops_transport ∷ [])
                    ∙ (append_assoc t.log (serves ∷ []) ends
                        ∙ (ap (λ (l : List (Event C)). l ++ serves ∷ ends) e
                            ∙ append_assoc s.log (starts_transport ∷ hooked calls.on_startup)
                                (serves ∷ ends)))),
          ),
        )

    start_app-Through :
        (o : Option (Awaited C))
        → calls.internal_startup ≡ done tt
        → calls.on_startup ≡ o
        → Through calls s (
            after_start_app calls
              (start_app o (note starts_transport (record s { running = true }))))
    unfolding after_start_app
    start_app-Through none started e =
        served-Through _ started
          (ap (λ (x : Option (Awaited C)). s.log ++ starts_transport ∷ hooked x) (sym e))
          (subst (λ (x : Option (Awaited C)). Serves x s.context s.context) (sym e) refl)
    start_app-Through (some (done c)) started e =
        served-Through _ started
          (append_assoc s.log (starts_transport ∷ []) (starts_app ∷ [])
            ∙ ap (λ (x : Option (Awaited C)). s.log ++ starts_transport ∷ hooked x) (sym e))
          (subst (λ (x : Option (Awaited C)). Serves x s.context c) (sym e) refl)
    start_app-Through (some (failed f)) started e =
        no_app-Through (failed f) started e (λ p. absurd (ground (arith, p)))
    start_app-Through (some cancelled) started e =
        no_app-Through cancelled started e (λ p. absurd (ground (arith, p)))

    startup-Through :
        (r : Awaited Unit)
        → calls.internal_startup ≡ r
        → Through calls s
            (after_startup calls r (note starts_transport (record s { running = true })))
    unfolding after_startup
    startup-Through (done x) e = start_app-Through calls.on_startup e refl
    startup-Through (failed f) e =
        no_transport-Through (failed f) e (λ p. absurd (ground (arith, p)))
    startup-Through cancelled e = no_transport-Through cancelled e (λ p. absurd (ground (arith, p)))

    -- An app that has not run yet, however its calls end, is through afterwards, so that it cannot run
    -- again. If the startup of the transport fails, nothing else is called and the run ends like it. If
    -- that has succeeded and the startup hook fails, the transport is shut down and nothing is served.
    -- If both have succeeded, the app serves with the context from the hook, the shutdown hook is called
    -- with it however serving ends, and then the transport is shut down; the run ends with the exception
    -- of the last of these that raised, or well.
    pub run-Through : s.running ≡ false → s.stopping ≡ false → Through calls s (run calls s)
    unfolding run
    run-Through idle fresh =
        if_both (Through calls s) (s.running || s.stopping)
          (λ ran. absurd (ground (arith, ran, idle, fresh)))
          (λ _. startup-Through calls.internal_startup refl)
