-- ===== src/Dispatch/Unicast.antt =====
-- `_dispatch` of wire_rpc/app.py, for one peer: the code of wire_rpc/multicast_app.py without a
-- client id.
use mathlib.Core.List.{reverse}
use wire_rpc.Prelude.{
  arith, ◌≡◌, refl, ap, String, string_eq, Bool, true, false, Option, none, some, List, [], ◌∷◌,
}
use wire_rpc.Prelude.Dict
use wire_rpc.Envelope.{
  Value, Request, Response, failure, method_not_found, invalid_params, response_id,
}
use wire_rpc.Execution.{Awaited, done}
use wire_rpc.Handler.{Argument, params_arg, ctx_arg, arguments}
use wire_rpc.Router.{Entry}
use wire_rpc.Dispatch.{
  Next, Middleware, Registered, App, apply_hint, params_hint, wrap_loop, respond, call_handler,
  build_chain, dispatch, dispatch_entry, run_chain,
}

abbrev pub arguments_one : {C P : Type 0} → Bool → Value → C → List (Argument Value C P)
arguments_one true v c = params_arg v ∷ ctx_arg c ∷ []
arguments_one false v c = ctx_arg c ∷ []

arguments_one-arguments :
    {C P : Type 0} (has_params receives : Bool) (v : Value) (c : C) (p : P)
    → receives ≡ false
    → arguments_one has_params v c ≡ arguments has_params receives v c p
arguments_one-arguments true true v c p e = absurd (ground (arith, e))
arguments_one-arguments true false v c p e = refl
arguments_one-arguments false true v c p e = absurd (ground (arith, e))
arguments_one-arguments false false v c p e = refl

module _ {W C P Hint : Type 0} where
  unfoldable pub call_one : App W C P Hint → Registered W C P Hint → Next W C
  unfolding respond
  call_one app h request ctx w =
      respond app h.spec request (h.call (arguments_one h.spec.has_params request.params ctx) w)

  unfoldable pub build_one :
      App W C P Hint → Entry (Registered W C P Hint) (Middleware W C) → Next W C
  unfolding wrap_loop call_one
  build_one app entry =
      wrap_loop (wrap_loop (call_one app entry.handler) (reverse entry.middleware))
        (reverse app.app_middleware)

  abbrev run_one :
      App W C P Hint
      → Entry (Registered W C P Hint) (Middleware W C)
      → Request
      → Option Value
      → W
      → Awaited Response × W
  run_one app entry request none w =
      (done (failure (invalid_params "Invalid params" none) (response_id request)), w)
  run_one app entry request (some v) w =
      build_one app entry (record request { params = v }) app.context w

  abbrev entry_one :
      App W C P Hint
      → Option (Entry (Registered W C P Hint) (Middleware W C))
      → Request
      → W
      → Awaited Response × W
  entry_one app none request w =
      (done (failure (method_not_found "Method not found" none) (response_id request)), w)
  entry_one app (some entry) request w =
      run_one app entry request
        (apply_hint app.convert (params_hint entry.handler.spec) request.params) w

  -- `App._dispatch`
  unfoldable pub dispatch_one : App W C P Hint → Request → W → Awaited Response × W
  unfolding build_one
  dispatch_one app request w = entry_one app (Dict.get request.method app.registry) request w

  -- No handler of the app takes a client id, as `inspect_handler` sees to for `App`.
  abbrev pub IsUnicast : App W C P Hint → Type 0
  IsUnicast app =
      (name : String) (e : Entry (Registered W C P Hint) (Middleware W C))
      → Dict.get name app.registry ≡ some e
      → e.handler.spec.receives_client_id ≡ false

  call_one-call_handler :
      (app : App W C P Hint) (h : Registered W C P Hint) (client : P)
      → h.spec.receives_client_id ≡ false
      → call_one app h ≡ call_handler app h client
  unfolding call_one call_handler
  call_one-call_handler app h client e = λ i. λ request ctx w. respond app h.spec request (
      h.call
        (arguments_one-arguments h.spec.has_params h.spec.receives_client_id request.params ctx
          client e i)
        w)

  run_one-run_chain :
      (app : App W C P Hint) (client : P) (e : Entry (Registered W C P Hint) (Middleware W C))
      (request : Request) (o : Option Value) (w : W)
      → e.handler.spec.receives_client_id ≡ false
      → run_one app e request o w ≡ run_chain app e client request o w
  unfolding build_one build_chain
  run_one-run_chain app client e request none w h = refl
  run_one-run_chain app client e request (some v) w h =
      ap
        (λ (next : Next W C).
          wrap_loop (wrap_loop next (reverse e.middleware)) (reverse app.app_middleware)
            (record request { params = v }) app.context w)
        (call_one-call_handler app e.handler client h)

  entry_one-dispatch_entry :
      (app : App W C P Hint) (client : P)
      (o : Option (Entry (Registered W C P Hint) (Middleware W C))) (request : Request) (w : W)
      → ((e : Entry (Registered W C P Hint) (Middleware W C))
          → o ≡ some e
          → e.handler.spec.receives_client_id ≡ false)
      → entry_one app o request w ≡ dispatch_entry app o client request w
  entry_one-dispatch_entry app client none request w h = refl
  entry_one-dispatch_entry app client (some e) request w h =
      run_one-run_chain app client e request
        (apply_hint app.convert (params_hint e.handler.spec) request.params) w (h e refl)

  -- An app whose handlers take no client id answers every request as it would in a multicast app,
  -- whoever the client is.
  pub dispatch_one-dispatch :
      (app : App W C P Hint) (client : P) (request : Request) (w : W)
      → IsUnicast app
      → dispatch_one app request w ≡ dispatch app client request w
  unfolding dispatch_one dispatch
  dispatch_one-dispatch app client request w h =
      entry_one-dispatch_entry app client (Dict.get request.method app.registry) request w
        (h request.method)
