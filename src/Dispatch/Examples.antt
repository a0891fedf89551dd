-- ===== src/Dispatch/Examples.antt =====
-- An app with one handler and three middleware that leave a note each.
use wire_rpc.Prelude.{
  ℕ, ◌≡◌, ◌⊎◌, refl, String, string_eq, false, none, some, List, [], ◌∷◌, ◌++◌, All,
}
use wire_rpc.Prelude.Dict
use wire_rpc.Envelope.{null, text, Request, given, text_id, success}
use wire_rpc.Execution.{done}
use wire_rpc.Execution.Answers.{KeepsId}
use wire_rpc.Router.{Entry}
use wire_rpc.Dispatch.{App, Registered, Middleware, dispatch, call_handler, wrap_loop, build_chain}
use wire_rpc.Dispatch.Chain.{noting, TurnedDown, Runs, dispatch_cases}
use wire_rpc.Dispatch.Unicast.{IsUnicast, dispatch_one, dispatch_one-dispatch}
use wire_rpc.Dispatch.Ids.{IsFaithful, HasFaithful, dispatch-KeepsId}

abbrev World : Type 0
World = List ℕ

abbrev note : ℕ → Middleware World Unit
note = noting (λ w n. w ++ n ∷ [])

abbrev greet : Registered World Unit Unit Unit
greet = record {
  call = λ args w. (done (text "hello"), w);
  spec = record {
    params_type = none;
    return_type = none;
    has_params = false;
    receives_client_id = false;
  };
}

abbrev entry : Entry (Registered World Unit Unit Unit) (Middleware World Unit)
entry = record { handler = greet; middleware = note 3 ∷ [] }

abbrev app : App World Unit Unit Unit
app = record {
  registry = ("greet", entry) ∷ [];
  app_middleware = note 1 ∷ note 2 ∷ [];
  context = tt;
  convert = λ v h. some v;
}

abbrev request : Request
request = record { method = "greet"; id = given (text_id "7"); params = null }

-- The app's middleware ran first, in order, then the router's.
noted : dispatch app tt request [] ≡ (done (success (text "hello") (text_id "7")), 1 ∷ 2 ∷ 3 ∷ [])
unfolding dispatch Dict.get wrap_loop call_handler build_chain
noted = refl

dispatch_cases_example :
    TurnedDown app tt request [] (dispatch app tt request [])
    ⊎ Runs app tt request [] (dispatch app tt request [])
dispatch_cases_example = dispatch_cases app tt request []

note-IsFaithful : (n : ℕ) → IsFaithful (note n)
note-IsFaithful n i next a r c w w' response same e = a r c (w ++ n ∷ []) w' response same e

entry-IsFaithful :
    (n : String) (e : Entry (Registered World Unit Unit Unit) (Middleware World Unit))
    → Dict.get n app.registry ≡ some e
    → All IsFaithful e.middleware
entry-IsFaithful n e found =
    Dict.All-get (λ x. All IsFaithful x.1.middleware) n e app.registry ((note-IsFaithful 3, tt), tt)
      found

app-HasFaithful : HasFaithful app tt
app-HasFaithful = record {
  of_app = (note-IsFaithful 1, (note-IsFaithful 2, tt));
  of_entry = entry-IsFaithful;
}

dispatch-KeepsId_example :
    KeepsId (record { get_principal = none; dispatch = λ r c w. dispatch app tt r w })
dispatch-KeepsId_example = dispatch-KeepsId app tt none app-HasFaithful

app-IsUnicast : IsUnicast app
app-IsUnicast n e found =
    Dict.All-get (λ x. x.1.handler.spec.receives_client_id ≡ false) n e app.registry (refl, tt)
      found

dispatch_one-dispatch_example : dispatch_one app request [] ≡ dispatch app tt request []
dispatch_one-dispatch_example = dispatch_one-dispatch app tt request [] app-IsUnicast
