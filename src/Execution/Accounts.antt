-- ===== src/Execution/Accounts.antt =====
-- The counters of `ExecutionStats` and the access log against one another.
use wire_rpc.Prelude.{
  ℕ, suc, ◌+◌, ◌-◌, ◌≤◌, ◌≡◌, refl, String, Bool, true, false, Option, none, some, List, [], ◌∷◌,
  length, length-append, count_by, count_by-append, arith, ltb, nat_eq, if◌then◌else◌, if_both,
}
use wire_rpc.Envelope.{Bytes, Value, Request, Response, is_unset, WireError, code}
use wire_rpc.Execution.{
  Codec, Failure, other, Awaited, done, failed, cancelled, Exit, returned, raised, stopped, Stats,
  Logged, ok, notification, interrupted, error_code, Line, Subject, called, invalid_item, Config,
  State, Host, invalid_error, guarded, Concluded, fail, deliver, conclude, refuse, run_request,
  run_valid, process_one,
}
use wire_rpc.Execution.Message.{size_of, chosen, more, after_item, batch_loop}

-- An outcome that no counter records: a notification that went through, or a cancellation.
abbrev pub is_quiet : Logged → Bool
is_quiet ok = false
is_quiet notification = true
is_quiet interrupted = true
is_quiet (error_code c) = false

abbrev pub quiet : List Line → ℕ
quiet = count_by (λ (line : Line). is_quiet line.outcome)

abbrev pub handled : Stats → ℕ
handled stats = stats.completed + stats.failures + stats.invalid

module _ {W : Type 0} where
  -- From one state to a later one: each new log line is one count or a quiet one, every time-out is
  -- counted as a failure, and what was active before is active after.
  pub record Accounted (s t : State W) : Type 0 where
    pub requests_same : t.stats.requests ≡ s.stats.requests
    pub active_same : t.stats.active ≡ s.stats.active
    pub balance :
        handled t.stats + quiet t.log + length s.log ≡ handled s.stats + quiet s.log + length t.log
    pub timeouts : t.stats.timed_out + s.stats.failures ≤ s.stats.timed_out + t.stats.failures

  Accounted-trans : (s t u : State W) → Accounted s t → Accounted t u → Accounted s u
  Accounted-trans s t u h k = omega arith

-- What `conclude` does to the counters agrees with the outcome that it logs.
record Counted (stats : Stats) (c : Concluded) : Type 0 where
  counted : handled c.2 + (if is_quiet c.1 then 1 else 0) ≡ handled stats + 1
  active_kept : c.2.active ≡ stats.active
  requests_kept : c.2.requests ≡ stats.requests
  timeouts_kept : c.2.timed_out + stats.failures ≤ stats.timed_out + c.2.failures

module _ (codec : Codec) (limit : ℕ) (request : Request) (stats : Stats) where
  fail-Counted : (f : Failure) → Counted stats (fail codec request f stats)
  unfolding fail
  fail-Counted f = ground arith

  deliver-Counted :
      (response : Response) (encoded : Option Bytes)
      → Counted stats (deliver codec limit request response encoded stats)
  unfolding deliver
  deliver-Counted response none = fail-Counted other
  deliver-Counted response (some b) =
      if_both (Counted stats) (ltb limit (length b)) (λ _. fail-Counted other) (λ _. ground arith)

  conclude-Counted :
      (response : Awaited Response) → Counted stats (conclude codec limit request response stats)
  unfolding conclude
  conclude-Counted (done response) =
      if_both (Counted stats) (is_unset request.id) (λ _. omega arith)
        (λ _. deliver-Counted response (codec.encode response))
  conclude-Counted (failed f) = fail-Counted f
  conclude-Counted cancelled = omega arith

-- One more line in the log.
abbrev pub OneLine : {W : Type 0} → State W → State W → Type 0
OneLine s t = length t.log ≡ length s.log + 1

module _ {W : Type 0} where
  -- How far a loop over so many items came: all of them, unless it was cut off.
  abbrev pub Came : ℕ → State W → Exit (List Bytes) × State W → Type 0
  Came n s (returned replies, t) = Accounted s t × (length t.log ≡ length s.log + n)
  Came n s (raised, t) = Accounted s t × (length t.log ≤ length s.log + n)
  Came n s (stopped, t) = Accounted s t × (length t.log ≤ length s.log + n)

  Came-more :
      (n : ℕ) (s : State W) (reply : Bytes) (exit : Exit (List Bytes)) (t : State W)
      → Came n s (exit, t)
      → Came n s (more reply exit, t)
  Came-more n s reply (returned replies) t h = h
  Came-more n s reply raised t h = h
  Came-more n s reply stopped t h = h

  Came-trans :
      (n : ℕ) (s t : State W) (r : Exit (List Bytes) × State W)
      → Accounted s t
      → OneLine s t
      → Came n t r
      → Came (suc n) s r
  Came-trans n s t (returned replies, u) h one k = (Accounted-trans s t u h k.0, omega arith)
  Came-trans n s t (raised, u) h one k = (Accounted-trans s t u h k.0, omega arith)
  Came-trans n s t (stopped, u) h one k = (Accounted-trans s t u h k.0, omega arith)

module _ {W : Type 0} (codec : Codec) (config : Config) (host : Host W) (peer : Option String) where
  pub refuse-Accounted :
      (subject : Subject) (e : WireError) (s : State W)
      → Accounted s (refuse codec subject e peer s).1 × OneLine s (refuse codec subject e peer s).1
  unfolding refuse
  refuse-Accounted subject e s =
      let line : Line = record { subject = subject; outcome = error_code (code e); peer = peer } in
      (
        record {
          requests_same = refl;
          active_same = refl;
          balance = omega (
            arith,
            count_by-append (λ (l : Line). is_quiet l.outcome) s.log (line ∷ []),
            length-append s.log (line ∷ []),
          );
          timeouts = omega arith;
        },
        omega (arith, length-append s.log (line ∷ [])),
      )

  run_request-Accounted :
      (request : Request) (s : State W)
      → Accounted s (run_request codec config host peer request s).1
        × OneLine s (run_request codec config host peer request s).1
  unfolding run_request
  run_request-Accounted request s =
      let started : Stats = record s.stats { active = s.stats.active + 1 } in
      let response = (guarded host request peer s.world).0 in
      let c = conclude codec config.max_response_size request response started in
      let counts = conclude-Counted codec config.max_response_size request started response in
      let line : Line = record { subject = called request.method; outcome = c.1; peer = peer } in
      (
        record {
          requests_same = counts.requests_kept;
          active_same = omega (arith, counts.active_kept);
          balance = ground (
            arith,
            counts.counted,
            count_by-append (λ (l : Line). is_quiet l.outcome) s.log (line ∷ []),
            length-append s.log (line ∷ []),
          );
          timeouts = omega (arith, counts.timeouts_kept);
        },
        omega (arith, length-append s.log (line ∷ [])),
      )

  run_valid-Accounted :
      (request : Option Request) (s : State W)
      → Accounted s (run_valid codec config host peer request s).1
        × OneLine s (run_valid codec config host peer request s).1
  unfolding run_valid
  run_valid-Accounted none s = refuse-Accounted invalid_item invalid_error s
  run_valid-Accounted (some request) s = run_request-Accounted request s

  -- One item, however it ends, a cancellation included, is one line in the log and one count, unless
  -- the line says that a notification went through or that the call was cancelled; `active` is what
  -- it was.
  pub process_one-Accounted :
      (item : Value) (s : State W)
      → Accounted s (process_one codec config host peer item s).1
        × OneLine s (process_one codec config host peer item s).1
  unfolding process_one
  process_one-Accounted item s = run_valid-Accounted _ s

  after_item-Came :
      (f : Option Bytes) (room spent reserved n : ℕ)
      (go_on : ℕ → State W → Exit (List Bytes) × State W) (s : State W)
      → ((spent' : ℕ) (t : State W) → Came n t (go_on spent' t))
      → (r : Exit (Option Bytes) × State W) → Accounted s r.1
      → OneLine s r.1
      → Came (suc n) s (after_item f room spent reserved go_on r)
  unfolding after_item
  after_item-Came f room spent reserved n go_on s go (returned none, t) h one =
      Came-trans n s t _ h one (go spent t)
  after_item-Came f room spent reserved n go_on s go (returned (some reply), t) h one =
      let taken = chosen f reply room spent reserved in
      let (exit, u) = go_on (spent + length taken) t in
      Came-more (suc n) s taken exit u
        (Came-trans n s t (exit, u) h one (go (spent + length taken) t))
  after_item-Came f room spent reserved n go_on s go (raised, t) h one = (h, omega arith)
  after_item-Came f room spent reserved n go_on s go (stopped, t) h one = (h, omega arith)

  pub batch_loop-Came :
      (room : ℕ) (paired : List (Value × Option Bytes)) (spent reserved : ℕ) (s : State W)
      → Came (length paired) s (batch_loop codec config host peer room paired spent reserved s)
  unfolding batch_loop
  batch_loop-Came room [] spent reserved s = (omega arith, omega arith)
  batch_loop-Came room ((item, f) ∷ rest) spent reserved s =
      let (accounted, one) = process_one-Accounted item s in
      after_item-Came f room spent (reserved - size_of f) (length rest) _ s
        (λ spent' t. batch_loop-Came room rest spent' (reserved - size_of f) t) _ accounted one
