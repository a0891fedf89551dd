-- ===== src/Dispatch/Ids.antt =====
-- The ids of responses: a dispatch answers with the id of its request, if the middleware does.
use wire_rpc.Prelude.{
  ◌≡◌, refl, sym, ap, ◌∙◌, Option, none, some, List, [], ◌∷◌, ◌++◌, String, All, All-append, arith,
  inl, inr,
}
use wire_rpc.Prelude.{string_eq}
use wire_rpc.Prelude.Dict
use wire_rpc.Envelope.{Value, ResponseId, Request, response_id, Response, id_of}
use wire_rpc.Execution.{Awaited, done, failed, cancelled}
use wire_rpc.Execution.Answers.{KeepsId}
use wire_rpc.Router.{Entry}
use wire_rpc.Dispatch.{
  Next, Middleware, Registered, App, converted, respond, call_handler, dispatch,
}
use wire_rpc.Dispatch.Chain.{nest, dispatch_cases}

module _ {W C : Type 0} where
  -- A request with this id is answered with it.
  abbrev pub Answers : ResponseId → Next W C → Type 0
  Answers i next =
      (request : Request) (ctx : C) (w w' : W) (response : Response)
      → response_id request ≡ i
      → next request ctx w ≡ (done response, w')
      → id_of response ≡ i

  -- A middleware answers with the id of its request where the rest of the chain does.
  abbrev pub IsFaithful : Middleware W C → Type 0
  IsFaithful m =
      (i : ResponseId) (next : Next W C)
      → Answers i next
      → Answers i (λ request ctx. m request ctx next)

  nest-Answers :
      (ms : List (Middleware W C)) (next : Next W C) (i : ResponseId)
      → All IsFaithful ms
      → Answers i next
      → Answers i (nest ms next)
  nest-Answers [] next i h a = a
  nest-Answers (m ∷ ms) next i h a = h.0 i (nest ms next) (nest-Answers ms next i h.1 a)

converted-id :
    {W : Type 0} (v : Option Value) (request : Request) (w w' : W) (response : Response)
    → converted v request w ≡ (done response, w')
    → id_of response ≡ response_id request
converted-id none request w w' response h = cc (ap (λ (r : Awaited Response × _). r.0) h)
converted-id (some v) request w w' response h = ground arith

module _ {W C P Hint : Type 0} (app : App W C P Hint) (client : P) where
  respond-id :
      (h : Registered W C P Hint) (request : Request) (r : Awaited Value × W) (w' : W)
      (response : Response)
      → respond app h.spec request r ≡ (done response, w')
      → id_of response ≡ response_id request
  unfolding respond
  respond-id h request (done v, w) w' response e = converted-id _ request w w' response e
  respond-id h request (failed f, w) w' response e = ground arith
  respond-id h request (cancelled, w) w' response e = ground arith

  call_handler-Answers :
      (h : Registered W C P Hint) (i : ResponseId) → Answers i (call_handler app h client)
  unfolding call_handler
  call_handler-Answers h i request ctx w w' response same e =
      respond-id h request _ w' response e ∙ same

  -- The middleware of the app and of each entry is faithful.
  pub record HasFaithful : Type 0 where
    pub of_app : All IsFaithful app.app_middleware
    pub of_entry :
        (n : String) (e : Entry (Registered W C P Hint) (Middleware W C))
        → Dict.get n app.registry ≡ some e
        → All IsFaithful e.middleware

  -- An app whose middleware answers with the ids of its requests gives `process` a dispatch that does,
  -- whatever its handlers return.
  pub dispatch-KeepsId :
      (getter : Option (Option String → W → Awaited (Option String) × W))
      → HasFaithful
      → KeepsId (record {
        get_principal = getter;
        dispatch = λ request c w. dispatch app client request w;
      })
  dispatch-KeepsId getter f request c w w' response e = elim (dispatch_cases app client request w) [
    | inl (err, same, why) ↦ ground arith
    | inr (entry, params, found, converts, same) ↦
        nest-Answers (app.app_middleware ++ entry.middleware)
          (call_handler app entry.handler client) (response_id request)
          (All-append _ app.app_middleware entry.middleware f.of_app
            (f.of_entry request.method entry found))
          (call_handler-Answers entry.handler (response_id request))
          (record request { params = params }) app.context w w' response refl (sym same ∙ e)
  ]
