-- ===== src/Dispatch/Chain.antt =====
-- The order of the middleware, and what a dispatch that is turned down leaves alone.
use mathlib.Core.List.{reverse, reverse-cons, foldl}
use wire_rpc.Prelude.{
  ◌≡◌, ◌⊎◌, inl, inr, refl, sym, ap, ◌∙◌, string_eq, Option, none, some, List, [], ◌∷◌, ◌++◌, map,
}
use wire_rpc.Prelude.Dict
use wire_rpc.Envelope.{
  neg, Value, Request, response_id, Response, failure, WireError, code, method_not_found,
  invalid_params,
}
use wire_rpc.Execution.{Awaited, done}
use wire_rpc.Router.{Entry}
use wire_rpc.Dispatch.{
  Next, Middleware, Registered, App, apply_hint, params_hint, call_handler, wrap_loop, build_chain,
  run_chain, dispatch_entry, dispatch,
}

-- The first middleware of the list is the outermost.
abbrev pub nest : {W C : Type 0} → List (Middleware W C) → Next W C → Next W C
nest [] next = next
nest (m ∷ ms) next = λ request ctx. m request ctx (nest ms next)

module _ {W C : Type 0} where
  wrap_loop-append :
      (next : Next W C) (xs ys : List (Middleware W C))
      → wrap_loop next (xs ++ ys) ≡ wrap_loop (wrap_loop next xs) ys
  unfolding wrap_loop
  wrap_loop-append next [] ys = refl
  wrap_loop-append next (x ∷ xs) ys = wrap_loop-append (λ request ctx. x request ctx next) xs ys

  wrap_loop-reverse :
      (next : Next W C) (ms : List (Middleware W C)) → wrap_loop next (reverse ms) ≡ nest ms next
  unfolding wrap_loop
  wrap_loop-reverse next [] = refl
  wrap_loop-reverse next (m ∷ ms) =
      ap (wrap_loop next) (reverse-cons m ms)
      ∙ wrap_loop-append next (reverse ms) (m ∷ [])
      ∙ ap {B = Next W C} (λ (inner : Next W C) request ctx. m request ctx inner)
          (wrap_loop-reverse next ms)

  nest-append :
      (next : Next W C) (xs ys : List (Middleware W C))
      → nest (xs ++ ys) next ≡ nest xs (nest ys next)
  nest-append next [] ys = refl
  nest-append next (x ∷ xs) ys =
      ap {B = Next W C} (λ (inner : Next W C) request ctx. x request ctx inner)
        (nest-append next xs ys)

  -- A middleware that makes a note in the world and goes on.
  abbrev pub noting : {N : Type 0} → (W → N → W) → N → Middleware W C
  noting note n = λ request ctx next w. next request ctx (note w n)

  pub nest-noting :
      {N : Type 0} (note : W → N → W) (ns : List N) (next : Next W C) (request : Request) (ctx : C)
      (w : W)
      → nest (map (noting note) ns) next request ctx w ≡ next request ctx (foldl note w ns)
  nest-noting note [] next request ctx w = refl
  nest-noting note (n ∷ ns) next request ctx w = nest-noting note ns next request ctx (note w n)

module _ {W C P Hint : Type 0} (app : App W C P Hint) (client : P) where
  pub build_chain-nest :
      (entry : Entry (Registered W C P Hint) (Middleware W C))
      → build_chain app entry client
        ≡ nest (app.app_middleware ++ entry.middleware) (call_handler app entry.handler client)
  unfolding build_chain
  build_chain-nest entry =
      let call = call_handler app entry.handler client in
      wrap_loop-reverse _ app.app_middleware
      ∙ ap (nest app.app_middleware) (wrap_loop-reverse call entry.middleware)
      ∙ sym (nest-append call app.app_middleware entry.middleware)

  -- An answer that is given before any middleware or handler runs.
  abbrev pub TurnedDown : Request → W → Awaited Response × W → Type 0
  TurnedDown request w r =
      (e : WireError) × (r ≡ (done (failure e (response_id request)), w))
      × ((code e ≡ neg 32601) × (Dict.get request.method app.registry ≡ none)
          ⊎ (code e ≡ neg 32602)
            × ((entry : Entry (Registered W C P Hint) (Middleware W C)) × (Dict.get request.method
                    app.registry
                  ≡ some entry)
                × (apply_hint app.convert (params_hint entry.handler.spec) request.params ≡ none)))

  -- The handler of the method runs on the converted params inside all the middleware, that of the app
  -- outside that of its routers, each in the order of registration.
  abbrev pub Runs : Request → W → Awaited Response × W → Type 0
  Runs request w r =
      (entry : Entry (Registered W C P Hint) (Middleware W C)) × (params : Value) × (Dict.get
          request.method app.registry
        ≡ some entry)
      × (apply_hint app.convert (params_hint entry.handler.spec) request.params ≡ some params)
      × (r
          ≡ nest (app.app_middleware ++ entry.middleware) (call_handler app entry.handler client)
              (record request { params = params }) app.context w)

  run_chain-cases :
      (entry : Entry (Registered W C P Hint) (Middleware W C)) (request : Request)
      (params : Option Value) (w : W)
      → Dict.get request.method app.registry ≡ some entry
      → apply_hint app.convert (params_hint entry.handler.spec) request.params ≡ params
      → TurnedDown request w (run_chain app entry client request params w)
        ⊎ Runs request w (run_chain app entry client request params w)
  run_chain-cases entry request none w found e =
      inl (invalid_params "Invalid params" none, refl, inr (refl, (entry, found, e)))
  run_chain-cases entry request (some params) w found e = inr (
    entry,
    params,
    found,
    e,
    ap (λ (chain : Next W C). chain (record request { params = params }) app.context w)
        (build_chain-nest entry),
  )

  dispatch_entry-cases :
      (entry : Option (Entry (Registered W C P Hint) (Middleware W C))) (request : Request) (w : W)
      → Dict.get request.method app.registry ≡ entry
      → TurnedDown request w (dispatch_entry app entry client request w)
        ⊎ Runs request w (dispatch_entry app entry client request w)
  dispatch_entry-cases none request w found =
      inl (method_not_found "Method not found" none, refl, inl (refl, found))
  dispatch_entry-cases (some entry) request w found = run_chain-cases entry request _ w found refl

  -- A dispatch of any request is one of two: an unknown method, or params that do not convert, is
  -- answered with -32601 or -32602 and the request's id, and the world is as it was; or the handler
  -- runs on the converted params inside the app's middleware and, within that, its routers', each in
  -- the order of registration.
  pub dispatch_cases :
      (request : Request) (w : W)
      → TurnedDown request w (dispatch app client request w)
        ⊎ Runs request w (dispatch app client request w)
  unfolding dispatch
  dispatch_cases request w = dispatch_entry-cases _ request w refl
