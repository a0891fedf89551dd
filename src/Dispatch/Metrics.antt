-- ===== src/Dispatch/Metrics.antt =====
-- wire_rpc/middleware/metrics.py: `metrics_middleware`. The exporter is outside code, a function of the
-- world whose exceptions are caught; durations are not modelled, and the principal that
-- `current_request` has is an argument.
use wire_rpc.Prelude.{◌≡◌, refl, String, Option, none, some, List, [], ◌∷◌, ◌++◌}
use wire_rpc.Envelope.{ℤ, Request, Response, success, failure, code}
use wire_rpc.Execution.{Awaited, done, failed, cancelled}
use wire_rpc.Dispatch.{Next, Middleware}

-- `exception` and `interrupted` are the outcomes "exception" and "cancelled".
pub data Outcome : Type 0 where
  ok error exception interrupted : Outcome

pub record CallRecord : Type 0 where
  pub method : String
  pub outcome : Outcome
  pub error_code : Option ℤ
  pub principal : Option String

-- The record of a call that ended like this.
abbrev pub record_of : Request → Option String → Awaited Response → CallRecord
record_of request principal (done (success v i)) = record {
  method = request.method;
  outcome = ok;
  error_code = none;
  principal = principal;
}
record_of request principal (done (failure e i)) = record {
  method = request.method;
  outcome = error;
  error_code = some (code e);
  principal = principal;
}
record_of request principal (failed f) = record {
  method = request.method;
  outcome = exception;
  error_code = none;
  principal = principal;
}
record_of request principal cancelled = record {
  method = request.method;
  outcome = interrupted;
  error_code = none;
  principal = principal;
}

-- `emit`, with the outcome that each branch of `middleware` gives it
abbrev pub emit :
    {W : Type 0}
    → (CallRecord → W → W)
    → Option String
    → Request
    → Awaited Response × W
    → Awaited Response × W
emit export principal request (response, w) =
    (response, export (record_of request principal response) w)

-- `middleware`
unfoldable pub metrics_middleware :
    {W C : Type 0} → (CallRecord → W → W) → Option String → Middleware W C
metrics_middleware export principal request ctx call_next w =
    emit export principal request (call_next request ctx w)

-- With an exporter that appends to a list beside the world, the middleware ends as what it wraps does,
-- leaves the world as that does, and adds one record, of how that ended.
pub metrics_middleware_lem :
    {W C : Type 0} (principal : Option String) (inner : Next W C) (request : Request) (ctx : C)
    (w : W) (records : List CallRecord)
    → metrics_middleware
        (λ call (state : W × List CallRecord). (state.0, state.1 ++ call ∷ []))
        principal
        request
        ctx
        (λ req c (state : W × List CallRecord).
          ((inner req c state.0).0, ((inner req c state.0).1, state.1)))
        (w, records)
      ≡ (
        (inner request ctx w).0,
        (
          (inner request ctx w).1,
          records ++ record_of request principal (inner request ctx w).0 ∷ [],
        ),
      )
unfolding metrics_middleware
metrics_middleware_lem principal inner request ctx w records = refl
