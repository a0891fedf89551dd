-- ===== src/Handler/Examples.antt =====
-- Signatures of handlers.
use wire_rpc.Prelude.{◌≡◌, refl, String, true, false, none, some, [], ◌∷◌}
use wire_rpc.Prelude.Dict
use wire_rpc.Handler.{
  Function, HandlerSpec, inspect_handler, all_positional, describe, shape, CallsWell,
  inspect_handler-CallsWell,
}

abbrev chat : Function String
chat = record {
  parameters =
      record { name = "params"; positional = true }
      ∷ record { name = "ctx"; positional = true }
      ∷ record { name = "client_id"; positional = true }
      ∷ [];
  hints = ("params", "Message") ∷ ("return", "int") ∷ [];
}

abbrev chat_spec : HandlerSpec String
chat_spec = record {
  params_type = some "Message";
  return_type = some "int";
  has_params = true;
  receives_client_id = true;
}

inspect_chat : inspect_handler true chat ≡ some chat_spec
unfolding inspect_handler Dict.get all_positional describe shape
inspect_chat = refl

chat_unicast : inspect_handler false chat ≡ none
unfolding inspect_handler all_positional describe shape
chat_unicast = refl

inspect_handler-CallsWell_example : CallsWell true chat chat_spec
inspect_handler-CallsWell_example = inspect_handler-CallsWell true chat chat_spec inspect_chat
