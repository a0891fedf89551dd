-- ===== src/Execution/Single.antt =====
-- `_process_one`: every exit but a cancellation is a reply within the budget or no reply at all.
use wire_rpc.Prelude.{
  ℕ, ◌≤◌, ◌≡◌, refl, String, true, ◌&&◌, Option, none, some, length, arith, ltb, if_both,
  Bool-cases, inl, inr,
}
use wire_rpc.Envelope.{
  Bytes, Value, ResponseId, no_id, unset, Request, response_id, is_unset, WireError, Response,
  failure,
}
use wire_rpc.Execution.{
  Codec, Failure, other, Awaited, done, failed, cancelled, Exit, returned, raised, stopped, Stats,
  Config, State, Host, Subject, invalid_item, is_protocol, is_some, lacks_id, error_of,
  invalid_error, exit_of, refuse, guarded, Concluded, fail, deliver, conclude, run_request,
  run_valid, process_one,
}
use wire_rpc.Execution.Laws.{
  IsBoundedId, IsLibraryError, of_failure, of_invalid, IsEncoded, CodecLaws, IsBudget,
}

-- A coroutine ended without an exception of its own: with no reply, with an encoded reply of at
-- most so many bytes, or by a cancellation.
abbrev pub IsReply : Codec → ℕ → Exit (Option Bytes) → Type 0
IsReply codec limit (returned none) = Unit
IsReply codec limit (returned (some b)) = IsEncoded codec b × (length b ≤ limit)
IsReply codec limit raised = ⊥
IsReply codec limit stopped = Unit

-- No reply: none is sent, or the coroutine was cancelled.
abbrev pub IsSilent : Exit (Option Bytes) → Type 0
IsSilent (returned none) = Unit
IsSilent (returned (some b)) = ⊥
IsSilent raised = ⊥
IsSilent stopped = Unit

module _ (codec : Codec) (laws : CodecLaws codec) (limit : ℕ) (budget : 2048 ≤ limit) where
  error_IsReply :
      (e : WireError) (i : ResponseId)
      → IsLibraryError e
      → IsBoundedId i
      → IsReply codec limit (exit_of (codec.encode (failure e i)))
  error_IsReply e i l h =
      let (b, found) = laws.error_total e i in
      rw found ((failure e i, found), omega (arith, laws.error_short e i b l h found, budget))

  pub refuse-IsReply :
      {W : Type 0} (subject : Subject) (e : WireError) (peer : Option String) (s : State W)
      → IsLibraryError e
      → IsReply codec limit (refuse codec subject e peer s).0
  unfolding refuse
  refuse-IsReply subject e peer s l = error_IsReply e no_id l tt

  module _ (request : Request) (h : IsBoundedId (response_id request)) (stats : Stats) where
    fail-IsReply : (f : Failure) → IsReply codec limit (fail codec request f stats).0
    unfolding fail
    fail-IsReply f =
        if_both (IsReply codec limit) (is_unset request.id) (λ _. tt)
          (λ _. error_IsReply (error_of f) (response_id request) (of_failure f) h)

    deliver-IsReply :
        (response : Response) (encoded : Option Bytes)
        → codec.encode response ≡ encoded
        → IsReply codec limit (deliver codec limit request response encoded stats).0
    unfolding deliver
    deliver-IsReply response none e = fail-IsReply other
    deliver-IsReply response (some b) e =
        if_both (λ (c : Concluded). IsReply codec limit c.0) (ltb limit (length b))
          (λ _. fail-IsReply other) (λ small. ((response, e), ground (arith, small)))

    conclude-IsReply :
        (response : Awaited Response)
        → IsReply codec limit (conclude codec limit request response stats).0
    unfolding conclude
    conclude-IsReply (done response) =
        if_both (λ (c : Concluded). IsReply codec limit c.0) (is_unset request.id) (λ _. tt)
          (λ _. deliver-IsReply response (codec.encode response) refl)
    conclude-IsReply (failed f) = fail-IsReply f
    conclude-IsReply cancelled = tt

module _ {W : Type 0} (codec : Codec) (config : Config) (host : Host W) (peer : Option String) where
  module _ (laws : CodecLaws codec) (budget : IsBudget config) where
    run_valid-IsReply :
        (request : Option Request) (s : State W)
        → ((r : Request) → request ≡ some r → IsBoundedId (response_id r))
        → IsReply codec config.max_response_size (run_valid codec config host peer request s).0
    unfolding run_valid run_request
    run_valid-IsReply none s h =
        refuse-IsReply codec laws config.max_response_size budget invalid_item invalid_error peer s
          of_invalid
    run_valid-IsReply (some r) s h =
        conclude-IsReply codec laws config.max_response_size budget r (h r refl) _
          (guarded host r peer s.world).0

    -- One request, whatever it holds and however its handler ends: unless it is cancelled, no
    -- exception leaves `_process_one`, and its reply, if there is one, is an encoded response within
    -- `max_response_size`.
    pub process_one-IsReply :
        (item : Value) (s : State W)
        → IsReply codec config.max_response_size (process_one codec config host peer item s).0
    unfolding process_one
    process_one-IsReply item s = run_valid-IsReply _ s (λ r e.
        elim (Bool-cases (is_protocol item)) [
          | inl p ↦ laws.convert_bounded item r (ground arith)
          | inr p ↦ absurd (ground arith)
        ])

    conclude-IsSilent :
        (r : Request) (stats : Stats) (response : Awaited Response)
        → r.id ≡ unset
        → IsSilent (conclude codec config.max_response_size r response stats).0
    unfolding conclude fail
    conclude-IsSilent r stats (done response) e = ground arith
    conclude-IsSilent r stats (failed f) e = ground arith
    conclude-IsSilent r stats cancelled e = tt

    run_valid-IsSilent :
        (request : Option Request) (s : State W)
        → is_some request ≡ true
        → ((r : Request) → request ≡ some r → r.id ≡ unset)
        → IsSilent (run_valid codec config host peer request s).0
    unfolding run_valid run_request
    run_valid-IsSilent none s h k = cc
    run_valid-IsSilent (some r) s h k =
        conclude-IsSilent r _ (guarded host r peer s.world).0 (k r refl)

    -- A valid request without an id gets no reply, whatever its handler does.
    pub notification-IsSilent :
        (item : Value) (s : State W)
        → (lacks_id item && is_protocol item && is_some (codec.convert_request item)) ≡ true
        → IsSilent (process_one codec config host peer item s).0
    unfolding process_one
    notification-IsSilent item s h =
        run_valid-IsSilent _ s (ground arith)
          (λ r e. (laws.convert_unset item r (ground arith)).0 (ground arith))
