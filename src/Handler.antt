-- ===== src/Handler.antt =====
-- wire_rpc/_handler.py: which signatures a handler may have, and what a call of it passes. A
-- function is what `inspect` and `get_type_hints` say of it: its parameters and its hints.
mod Examples
use wire_rpc.Prelude.{
  ℕ, ◌≡◌, ◌≢◌, refl, String, Bool, true, false, ◌&&◌, not, Option, none, some, List, [], ◌∷◌,
  length, arith, ◌==◌, ltb, if◌then◌else◌, PyEq, string_eq, beq_refl,
}
use wire_rpc.Prelude.Dict
use wire_rpc.Prelude.Dict.{Dict}

pub record Parameter : Type 0 where
  pub name : String
  -- POSITIONAL_ONLY or POSITIONAL_OR_KEYWORD
  pub positional : Bool

module _ (Hint : Type 0) where
  pub record Function : Type 0 where
    pub parameters : List Parameter
    pub hints : Dict String Hint

  pub record HandlerSpec : Type 0 where
    pub params_type : Option Hint
    pub return_type : Option Hint
    pub has_params : Bool
    pub receives_client_id : Bool

-- `_parameters` refuses any other kind.
unfoldable pub all_positional : List Parameter → Bool
all_positional [] = true
all_positional (p ∷ ps) = p.positional && all_positional ps

-- (has_params, receives_client_id) of a supported shape; `none` stands for the TypeError.
unfoldable pub shape : Bool → List Parameter → Option (Bool × Bool)
shape true (a ∷ []) = some (false, false)
shape true (a ∷ b ∷ []) = some (not (b.name == "client_id"), b.name == "client_id")
shape true (a ∷ b ∷ c ∷ []) = if c.name == "client_id" then some (true, true) else none
shape false (a ∷ []) = some (false, false)
shape false (a ∷ b ∷ []) = some (true, false)
shape _ _ = none

-- params[0].name
abbrev pub first_name : List Parameter → String
first_name [] = ""
first_name (p ∷ ps) = p.name

module _ {Hint : Type 0} where
  unfoldable pub describe : Function Hint → Option (Bool × Bool) → Option (HandlerSpec Hint)
  describe f none = none
  describe f (some (has_params, receives)) = some (record {
    params_type = if has_params then Dict.get (first_name f.parameters) f.hints else none;
    return_type = Dict.get "return" f.hints;
    has_params = has_params;
    receives_client_id = receives;
  })

  unfoldable pub inspect_handler : Bool → Function Hint → Option (HandlerSpec Hint)
  inspect_handler multicast f =
      if all_positional f.parameters then describe f (shape multicast f.parameters) else none

-- What a call passes, in order.
pub data Argument (V C P : Type 0) : Type 0 where
  params_arg : V → Argument V C P
  ctx_arg : C → Argument V C P
  client_arg : P → Argument V C P

module _ {V C P : Type 0} where
  -- The four calls of `call_handler`; those of `App` never pass a client.
  abbrev pub arguments : Bool → Bool → V → C → P → List (Argument V C P)
  arguments true true v c p = params_arg v ∷ ctx_arg c ∷ client_arg p ∷ []
  arguments true false v c p = params_arg v ∷ ctx_arg c ∷ []
  arguments false true v c p = ctx_arg c ∷ client_arg p ∷ []
  arguments false false v c p = ctx_arg c ∷ []

  -- call_handler
  abbrev pub call_arguments : {Hint : Type 0} → HandlerSpec Hint → V → C → P → List (Argument V C P)
  call_arguments spec = arguments spec.has_params spec.receives_client_id

-- The last of two or three parameters has the name by which a handler asks for the client's id.
abbrev pub ends_with_client : List Parameter → Bool
ends_with_client (a ∷ b ∷ []) = b.name == "client_id"
ends_with_client (a ∷ b ∷ c ∷ []) = c.name == "client_id"
ends_with_client _ = false

-- A call passes an argument for each parameter. The client's id is the last of them exactly if the
-- app is multicast and the last parameter asks for it, and the params come first exactly if more
-- than the context is left.
pub record CallsWell {Hint : Type 0} (multicast : Bool) (f : Function Hint)
    (spec : HandlerSpec Hint) : Type 1 where
  pub arity :
      {V C P : Type 0} (v : V) (c : C) (p : P)
      → length (call_arguments spec v c p) ≡ length f.parameters
  pub client : spec.receives_client_id ≡ (multicast && ends_with_client f.parameters)
  pub params :
      spec.has_params ≡ ltb (if spec.receives_client_id then 2 else 1) (length f.parameters)

shape-lem :
    (multicast : Bool) (ps : List Parameter) (has_params receives : Bool)
    → shape multicast ps ≡ some (has_params, receives)
    → (receives ≡ (multicast && ends_with_client ps))
      × (has_params ≡ ltb (if receives then 2 else 1) (length ps))
unfolding shape
shape-lem true [] hp r h = cc
shape-lem true (a ∷ []) hp r h = ground arith
shape-lem true (a ∷ b ∷ []) hp r h = ground arith
shape-lem true (a ∷ b ∷ c ∷ []) hp r h = ground arith
shape-lem true (a ∷ b ∷ c ∷ d ∷ ps) hp r h = cc
shape-lem false [] hp r h = cc
shape-lem false (a ∷ []) hp r h = ground arith
shape-lem false (a ∷ b ∷ []) hp r h = ground arith
shape-lem false (a ∷ b ∷ c ∷ ps) hp r h = cc

length-arguments :
    {V C P : Type 0} (multicast : Bool) (ps : List Parameter) (has_params receives : Bool) (v : V)
    (c : C) (p : P)
    → shape multicast ps ≡ some (has_params, receives)
    → length (arguments has_params receives v c p) ≡ length ps
unfolding shape
length-arguments true [] hp r v c p h = cc
length-arguments true (a ∷ []) hp r v c p h = ground arith
length-arguments true (a ∷ b ∷ []) hp r v c p h = ground arith
length-arguments true (a ∷ b ∷ d ∷ []) hp r v c p h = ground arith
length-arguments true (a ∷ b ∷ d ∷ e ∷ ps) hp r v c p h = cc
length-arguments false [] hp r v c p h = cc
length-arguments false (a ∷ []) hp r v c p h = ground arith
length-arguments false (a ∷ b ∷ []) hp r v c p h = ground arith
length-arguments false (a ∷ b ∷ d ∷ ps) hp r v c p h = cc

shape_of_spec :
    {Hint : Type 0} (f : Function Hint) (o : Option (Bool × Bool)) (spec : HandlerSpec Hint)
    → describe f o ≡ some spec
    → o ≡ some (spec.has_params, spec.receives_client_id)
unfolding describe
shape_of_spec f none spec h = cc
shape_of_spec f (some (a, b)) spec h = ground arith

pub inspect_handler-CallsWell :
    {Hint : Type 0} (multicast : Bool) (f : Function Hint) (spec : HandlerSpec Hint)
    → inspect_handler multicast f ≡ some spec
    → CallsWell multicast f spec
unfolding inspect_handler
inspect_handler-CallsWell multicast f spec h =
    let shaped = shape_of_spec f (shape multicast f.parameters) spec (ground arith) in
    let flags = shape-lem multicast f.parameters _ _ shaped in
    record {
      arity = λ v c p. length-arguments multicast f.parameters _ _ v c p shaped;
      client = flags.0;
      params = flags.1;
    }
