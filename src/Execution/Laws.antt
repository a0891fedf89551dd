-- ===== src/Execution/Laws.antt =====
-- What `process` relies on in a codec and in the configuration that the apps accept.
use Prim.Native.String.{count}
use wire_rpc.Prelude.{ℕ, ◌+◌, ◌≤◌, ◌<◌, ◌^◌, ◌≡◌, ◌↔◌, false, true, some, List, length, sum_by}
use wire_rpc.Envelope.{
  pos, negsuc, Bytes, Value, ResponseId, no_id, text_id, int_id, unset, Request, response_id,
  WireError, Response, failure,
}
use wire_rpc.Execution.{
  Codec, Config, Failure, error_of, invalid_error, unparseable_error, lacks_id, item_id,
}

-- `Meta(max_length=255)` and `Meta(ge=-(2**63), le=2**63-1)` on the id of a request.
abbrev pub IsBoundedId : ResponseId → Type 0
IsBoundedId no_id = Unit
IsBoundedId (text_id s) = count s ≤ 255
IsBoundedId (int_id (pos n)) = n < 2 ^ 63
IsBoundedId (int_id (negsuc n)) = n < 2 ^ 63

-- The errors that this file builds itself.
pub data IsLibraryError : WireError → Type 0 where
  of_failure : (f : Failure) → IsLibraryError (error_of f)
  of_invalid : IsLibraryError invalid_error
  of_unparseable : IsLibraryError unparseable_error

abbrev pub IsEncoded : Codec → Bytes → Type 0
IsEncoded codec b = (r : Response) × (codec.encode r ≡ some b)

pub record CodecLaws (codec : Codec) : Type 0 where
  -- The bytes that a decoded value takes inside an array.
  pub weight : Value → ℕ
  -- A request is decoded from a dict with no id if and only if its id is unset.
  pub convert_unset :
      (item : Value) (r : Request)
      → codec.convert_request item ≡ some r
      → (lacks_id item ≡ true) ↔ (r.id ≡ unset)
  -- An id that is there is the id of the request.
  pub convert_id :
      (item : Value) (r : Request)
      → codec.convert_request item ≡ some r
      → lacks_id item ≡ false
      → response_id r ≡ item_id item
  pub convert_bounded :
      (item : Value) (r : Request)
      → codec.convert_request item ≡ some r
      → IsBoundedId (response_id r)
  -- An error envelope has an encoding, whatever integer its id is; a codec that encodes 64-bit integers
  -- only decodes no other ids. It is a short one if the error is one of this file and the id
  -- bounded.
  pub error_total :
      (e : WireError) (i : ResponseId) → (b : Bytes) × (codec.encode (failure e i) ≡ some b)
  pub error_short :
      (e : WireError) (i : ResponseId) (b : Bytes)
      → IsLibraryError e
      → IsBoundedId i
      → codec.encode (failure e i) ≡ some b
      → length b ≤ 2048
  -- What was encoded can be decoded, and the value is encoded in no more bytes.
  pub decode_total : (b : Bytes) → IsEncoded codec b → (v : Value) × (codec.decode b ≡ some v)
  pub decode_weight :
      (b : Bytes) (v : Value) → IsEncoded codec b → codec.decode b ≡ some v → weight v ≤ length b
  -- An array has an encoding: its elements, a separator for each, and at most eight bytes more.
  pub batch_total : (vs : List Value) → (b : Bytes) × (codec.encode_batch vs ≡ some b)
  pub batch_weight :
      (vs : List Value) (b : Bytes)
      → codec.encode_batch vs ≡ some b
      → length b ≤ sum_by weight vs + length vs + 8

-- The constructors of the apps refuse a smaller response budget.
abbrev pub IsBudget : Config → Type 0
IsBudget config = 2048 ≤ config.max_response_size
