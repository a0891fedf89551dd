-- ===== src/Envelope.antt =====
-- wire_rpc/request.py, response.py, errors.py and context.py: the JSON-RPC envelopes, and the
-- decoded values that the codecs hand over as `Any`.
use wire_rpc.Prelude.{
  ℕ, ◌-◌, String, Bool, true, false, Option, none, some, List, [], ◌∷◌, if◌then◌else◌, ◌==◌,
  string_eq,
}

-- A Python int; `negsuc n` is -(n + 1).
pub data ℤ : Type 0 where
  pos : ℕ → ℤ
  negsuc : ℕ → ℤ

-- -n, for a positive n.
abbrev pub neg : ℕ → ℤ
neg n = negsuc (n - 1)

abbrev pub Bytes : Type 0
Bytes = List ℕ

-- What `codec.decode(data, Any)` returns. A float is kept as its bit pattern, and `blob` is the
-- `bytes` of MessagePack. A bool is an int to `isinstance`; here it is a constructor of its own.
mutual
  pub data Value : Type 0 where
    null : Value
    bool : Bool → Value
    int : ℤ → Value
    float : ℕ → Value
    text : String → Value
    blob : Bytes → Value
    array : Values → Value
    object : Members → Value

  pub data Values : Type 0 where
    nil : Values
    cons : Value → Values → Values

  pub data Members : Type 0 where
    end : Members
    member : String → Value → Members → Members

abbrev pub to_list : Values → List Value
to_list nil = []
to_list (cons v vs) = v ∷ to_list vs

-- item.get(key) on a decoded dict
abbrev pub get : String → Members → Option Value
get k end = none
get k (member j v m) = if j == k then some v else get k m

-- `Optional[str | int]`
pub data ResponseId : Type 0 where
  no_id : ResponseId
  text_id : String → ResponseId
  int_id : ℤ → ResponseId

-- `id: str | int | None | UnsetType`
pub data RequestId : Type 0 where
  unset : RequestId
  given : ResponseId → RequestId

-- RawWireRequest; `jsonrpc` has one value.
pub record Request : Type 0 where
  pub method : String
  pub id : RequestId
  pub params : Value

abbrev pub response_id_of : RequestId → ResponseId
response_id_of unset = no_id
response_id_of (given i) = i

-- `RawWireRequest.response_id`
abbrev pub response_id : Request → ResponseId
response_id r = response_id_of r.id

-- `request.id is UNSET`
abbrev pub is_unset : RequestId → Bool
is_unset unset = true
is_unset (given i) = false

-- errors.py: a class for each reserved code, with its message and data.
pub data WireError : Type 0 where
  parse_error : String → Option Value → WireError
  invalid_request : String → Option Value → WireError
  method_not_found : String → Option Value → WireError
  invalid_params : String → Option Value → WireError
  internal_error : String → Option Value → WireError
  server_error : String → ℤ → Option Value → WireError

abbrev pub code : WireError → ℤ
code (parse_error m d) = neg 32700
code (invalid_request m d) = neg 32600
code (method_not_found m d) = neg 32601
code (invalid_params m d) = neg 32602
code (internal_error m d) = neg 32603
code (server_error m c d) = c

pub data Response : Type 0 where
  success : Value → ResponseId → Response
  failure : WireError → ResponseId → Response

abbrev pub id_of : Response → ResponseId
id_of (success v i) = i
id_of (failure e i) = i

-- context.py
pub record RequestContext : Type 0 where
  pub request_id : ResponseId
  pub method : String
  pub principal : Option String
  pub connection_id : Option String
