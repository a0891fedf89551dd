-- ===== src/Dispatch.antt =====
-- `method`, `include_router`, `middleware` and `_dispatch` of wire_rpc/app.py and of
-- wire_rpc/multicast_app.py, which differ in the client's id that a handler may get. Handlers and
-- middleware are functions of a world, as in Execution; a codec's `convert` to a type hint is a
-- parameter. A handler gets its arguments as a list.
pub mod Chain
pub mod Ids
pub mod Unicast
pub mod Metrics
mod Examples
use mathlib.Core.List.{reverse}
use wire_rpc.Prelude.{
  ℕ, ◌≡◌, String, string_eq, Bool, true, false, ◌&&◌, Option, none, some, List, [], ◌∷◌, ◌++◌,
  if◌then◌else◌,
}
use wire_rpc.Prelude.Dict
use wire_rpc.Prelude.Dict.{Dict}
use wire_rpc.Envelope.{
  Value, Request, response_id, Response, success, failure, method_not_found, invalid_params,
}
use wire_rpc.Execution.{Awaited, done, failed, cancelled, other}
use wire_rpc.Handler.{HandlerSpec, Argument, call_arguments}
use wire_rpc.Router.{Router, Entry, flatten}

-- `W` is the world, `C` the app's context, `P` what stands for the client, `Hint` a type hint.
abbrev pub Handler : Type 0 → Type 0 → Type 0 → Type 0
Handler W C P = List (Argument Value C P) → W → Awaited Value × W

-- `next` of a middleware, and the chain as a whole.
abbrev pub Next : Type 0 → Type 0 → Type 0
Next W C = Request → C → W → Awaited Response × W

abbrev pub Middleware : Type 0 → Type 0 → Type 0
Middleware W C = Request → C → Next W C → W → Awaited Response × W

-- The result of a handler, converted to the return hint if there is one.
abbrev pub converted : {W : Type 0} → Option Value → Request → W → Awaited Response × W
converted none request w = (failed other, w)
converted (some v) request w = (done (success v (response_id request)), w)

abbrev pub apply_hint :
    {Hint : Type 0} → (Value → Hint → Option Value) → Option Hint → Value → Option Value
apply_hint convert none v = some v
apply_hint convert (some t) v = convert v t

-- The hint that the params are converted to, if any.
abbrev pub params_hint : {Hint : Type 0} → HandlerSpec Hint → Option Hint
params_hint spec = if spec.has_params then spec.params_type else none

-- for mw in reversed(middleware): chain = lambda req, ctx, n=chain, m=mw: m(req, ctx, n)
unfoldable pub wrap_loop : {W C : Type 0} → Next W C → List (Middleware W C) → Next W C
wrap_loop chain [] = chain
wrap_loop chain (m ∷ ms) = wrap_loop (λ request ctx. m request ctx chain) ms

module _ (W C P Hint : Type 0) where
  -- A handler with its spec, as both registries have it.
  pub record Registered : Type 0 where
    pub call : Handler W C P
    pub spec : HandlerSpec Hint

  pub record App : Type 0 where
    pub registry : Dict String (Entry Registered (Middleware W C))
    pub app_middleware : List (Middleware W C)
    pub context : C
    -- codec.convert(value, hint); `none` stands for CodecConversionError.
    pub convert : Value → Hint → Option Value

module _ {W C P Hint : Type 0} where
  -- @app.method(name), once the signature is inspected
  unfoldable pub add_method : String → Registered W C P Hint → App W C P Hint → App W C P Hint
  add_method name h app = record app {
    registry = Dict.put name (record { handler = h; middleware = [] }) app.registry;
  }

  unfoldable pub include_router :
      Router (Registered W C P Hint) (Middleware W C) → App W C P Hint → App W C P Hint
  include_router r app = record app { registry = Dict.update app.registry (flatten r "" []) }

  unfoldable pub add_middleware : Middleware W C → App W C P Hint → App W C P Hint
  add_middleware m app = record app { app_middleware = app.app_middleware ++ m ∷ [] }

  respond : App W C P Hint → HandlerSpec Hint → Request → Awaited Value × W → Awaited Response × W
  respond app spec request (done v, w) =
      converted (apply_hint app.convert spec.return_type v) request w
  respond app spec request (failed f, w) = (failed f, w)
  respond app spec request (cancelled, w) = (cancelled, w)

  unfoldable pub call_handler : App W C P Hint → Registered W C P Hint → P → Next W C
  unfolding respond
  call_handler app h client request ctx w =
      respond app h.spec request (h.call (call_arguments h.spec request.params ctx client) w)

  unfoldable pub build_chain :
      App W C P Hint → Entry (Registered W C P Hint) (Middleware W C) → P → Next W C
  unfolding wrap_loop
  build_chain app entry client =
      wrap_loop (wrap_loop (call_handler app entry.handler client) (reverse entry.middleware))
        (reverse app.app_middleware)

  abbrev run_chain :
      App W C P Hint
      → Entry (Registered W C P Hint) (Middleware W C)
      → P
      → Request
      → Option Value
      → W
      → Awaited Response × W
  run_chain app entry client request none w =
      (done (failure (invalid_params "Invalid params" none) (response_id request)), w)
  run_chain app entry client request (some params) w =
      build_chain app entry client (record request { params = params }) app.context w

  abbrev dispatch_entry :
      App W C P Hint
      → Option (Entry (Registered W C P Hint) (Middleware W C))
      → P
      → Request
      → W
      → Awaited Response × W
  dispatch_entry app none client request w =
      (done (failure (method_not_found "Method not found" none) (response_id request)), w)
  dispatch_entry app (some entry) client request w =
      run_chain app entry client request
        (apply_hint app.convert (params_hint entry.handler.spec) request.params) w

  -- `_dispatch`
  unfoldable pub dispatch : App W C P Hint → P → Request → W → Awaited Response × W
  dispatch app client request w =
      dispatch_entry app (Dict.get request.method app.registry) client request w
