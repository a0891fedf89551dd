-- ===== src/Execution/Admission.antt =====
-- A message as a whole: a batch is refused before anything of it runs, or all of it runs; and the
-- counters and the log agree at its end.
use mathlib.Core.Path.{subst}
use wire_rpc.Prelude.{
  ℕ, ◌+◌, ◌-◌, ◌≤◌, ◌≡◌, ◌⊎◌, refl, ap, sym, String, Bool, true, false, Option, none, some, List,
  [], ◌∷◌, length, length-append, arith, ltb, nat_eq, ◌==◌, if_both, inl, inr,
}
use wire_rpc.Envelope.{Bytes, Value, array, to_list, code}
use wire_rpc.Execution.{
  Codec, Exit, returned, raised, stopped, error_code, Line, whole_batch, unparseable, Config, State,
  Host, invalid_error, unparseable_error, refuse,
}
use wire_rpc.Execution.Message.{
  reserved_for, batch_loop, join, run_batch, refuse_batch, admit, process_batch, process_decoded,
  process,
}
use wire_rpc.Execution.Batch.{fallbacks-Paired}
use wire_rpc.Execution.Accounts.{
  Accounted, Came, refuse-Accounted, process_one-Accounted, batch_loop-Came,
}

abbrev pub is_returned : Exit (Option Bytes) → Bool
is_returned (returned b) = true
is_returned raised = false
is_returned stopped = false

module _ {W : Type 0} where
  -- No handler ran: the world is what it was, one message is counted invalid, and one line logged.
  pub record Refused (s t : State W) : Type 0 where
    pub world_same : t.world ≡ s.world
    pub counted : t.stats ≡ record s.stats { invalid = s.stats.invalid + 1 }
    pub accounted : Accounted s t
    pub one_line : length t.log ≡ length s.log + 1

  -- The handlers of all the items ran, up to a cancellation or an exception of the codec.
  pub record Ran (items : List Value) (limit : ℕ) (s : State W) (r : Exit (Option Bytes) × State W)
      : Type 0 where
    pub within : length items ≤ limit
    pub accounted : Accounted s r.1
    pub some_lines : length r.1.log ≤ length s.log + length items
    pub all_lines : is_returned r.0 ≡ true → length r.1.log ≡ length s.log + length items

  abbrev pub AllOrNothing : List Value → ℕ → State W → Exit (Option Bytes) × State W → Type 0
  AllOrNothing items limit s r = Refused s r.1 ⊎ ((r ≡ (raised, s)) ⊎ Ran items limit s r)

module _ {W : Type 0} (codec : Codec) (config : Config) (host : Host W) (peer : Option String) where
  refuse_batch-Refused : (s : State W) → Refused s (refuse_batch codec config host peer s).1
  unfolding refuse_batch refuse
  refuse_batch-Refused s = record {
    world_same = refl;
    counted = refl;
    accounted = (refuse-Accounted codec config host peer whole_batch invalid_error s).0;
    one_line = omega (arith, length-append s.log (line ∷ []));
  }
    where
      line : Line
      line = record {
        subject = whole_batch;
        outcome = error_code (code invalid_error);
        peer = peer;
      }

  join-Ran :
      (items : List Value) (limit : ℕ) (s : State W) (r : Exit (List Bytes) × State W)
      → length items ≤ limit
      → Came (length items) s r
      → Ran items limit s (join codec r.0, r.1)
  join-Ran items limit s (returned replies, t) h c = record {
    within = h;
    accounted = c.0;
    some_lines = omega (arith, c.1);
    all_lines = λ _. c.1;
  }
  join-Ran items limit s (raised, t) h c = record {
    within = h;
    accounted = c.0;
    some_lines = c.1;
    all_lines = λ e. cc;
  }
  join-Ran items limit s (stopped, t) h c = record {
    within = h;
    accounted = c.0;
    some_lines = c.1;
    all_lines = λ e. cc;
  }

  run_batch-Ran :
      (items : List Value) (paired : List (Value × Option Bytes)) (limit : ℕ) (s : State W)
      → length items ≤ limit
      → length paired ≡ length items
      → Ran items limit s (run_batch codec config host peer paired s)
  unfolding run_batch
  run_batch-Ran items paired limit s h e =
      let loop =
        batch_loop codec config host peer (config.max_response_size - length paired - 8) paired 0
          (reserved_for paired) s in
      join-Ran items limit s loop h (
        subst (λ n. Came n s loop) e
          (batch_loop-Came codec config host peer _ paired 0 (reserved_for paired) s))

  admit-AllOrNothing :
      (items : List Value) (found : Option (List (Value × Option Bytes))) (s : State W)
      → length items ≤ config.max_batch_size
      → ((paired : List (Value × Option Bytes))
          → found ≡ some paired
          → length paired ≡ length items)
      → AllOrNothing items config.max_batch_size s (admit codec config host peer found s)
  unfolding admit
  admit-AllOrNothing items none s h e = inr (inl refl)
  admit-AllOrNothing items (some paired) s h e =
      if_both (AllOrNothing items config.max_batch_size s)
        (ltb config.max_response_size (reserved_for paired + length paired + 8))
        (λ _. inl (refuse_batch-Refused s))
        (λ _. inr (inr (run_batch-Ran items paired config.max_batch_size s h (e paired refl))))

  -- A batch is refused before any handler runs, as one invalid message; or the codec raises before
  -- that and nothing changes; or it holds at most `max_batch_size` items and every one of them is
  -- handled, with a line in the log for each, up to the first cancellation or exception of the codec.
  pub process_batch-AllOrNothing :
      (items : List Value) (s : State W)
      → AllOrNothing items config.max_batch_size s (process_batch codec config host peer items s)
  unfolding process_batch
  process_batch-AllOrNothing items s =
      if_both (AllOrNothing items config.max_batch_size s) (length items == 0)
        (λ _. inl (refuse_batch-Refused s))
        (λ _.
          if_both (AllOrNothing items config.max_batch_size s)
            (ltb config.max_batch_size (length items)) (λ _. inl (refuse_batch-Refused s))
            (λ small.
              admit-AllOrNothing items _ s (ground (arith, small))
                (λ paired e. (fallbacks-Paired codec items paired e).1)))

  abbrev pub bump : State W → State W
  bump s = record s { stats = record s.stats { requests = s.stats.requests + 1 } }

  AllOrNothing-Accounted :
      (items : List Value) (limit : ℕ) (s : State W) (r : Exit (Option Bytes) × State W)
      → AllOrNothing items limit s r
      → Accounted s r.1
  AllOrNothing-Accounted items limit s r (inl h) = h.accounted
  AllOrNothing-Accounted items limit s r (inr (inl e)) =
      subst (λ (t : State W). Accounted s t)
        (sym (ap (λ (q : Exit (Option Bytes) × State W). q.1) e)) (omega arith)
  AllOrNothing-Accounted items limit s r (inr (inr h)) = h.accounted

  process_decoded-Accounted :
      (envelope : Option Value) (s : State W)
      → Accounted s (process_decoded codec config host peer envelope s).1
  unfolding process_decoded
  process_decoded-Accounted none s =
      (refuse-Accounted codec config host peer unparseable unparseable_error s).0
  process_decoded-Accounted (some (array items)) s =
      AllOrNothing-Accounted (to_list items) config.max_batch_size s _
        (process_batch-AllOrNothing (to_list items) s)
  process_decoded-Accounted (some item) s = (process_one-Accounted codec config host peer item s).0

  -- Over one message, whatever it holds and however it ends: `requests` goes up by one, `active` is
  -- what it was, the log grows by one line for each call counted as completed, failed or invalid and
  -- for each quiet outcome, and no more calls are counted as timed out than as failed.
  pub process-Accounted :
      (payload : Bytes) (s : State W)
      → Accounted (bump s) (process codec config host peer payload s).1
  unfolding process
  process-Accounted payload s = process_decoded-Accounted (codec.decode payload) (bump s)
