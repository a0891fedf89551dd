-- ===== src/Client.antt =====
-- wire_rpc/client.py: what the client accepts from a server. Messages are decoded values; the
-- errors are those that the checks raise. A reply whose id cannot be hashed, a list or a dict, makes
-- `in` on a set of ids raise TypeError.
pub mod Exchange
pub mod Connect
pub mod Batch
pub mod Matching
pub mod Results
mod Examples
use wire_rpc.Prelude.{
  String, string_eq, Bool, true, false, ◌&&◌, not, Option, none, some, List, [], ◌∷◌, if◌then◌else◌,
  ◌==◌,
}
use wire_rpc.Envelope.{ℤ, Value, null, int, text, array, object, Values, nil, cons, Members, get}
use wire_rpc.Execution.{is_some, is_version}

pub data Error : Type 0 where
  connection_error type_error value_error key_error conversion_error timeout_error transport_error :
      Error
  -- WireRpcError(code, message, data)
  wire_rpc_error : ℤ → String → Value → Error

pub data Result (T : Type 0) : Type 0 where
  err : Error → Result T
  ok : T → Result T

pub record Notification : Type 0 where
  pub method : String
  pub params : Value

abbrev pub has_key : String → Members → Bool
has_key k m = is_some (get k m)

-- message.get(key) where a missing value is None
abbrev pub or_null : Option Value → Value
or_null none = null
or_null (some v) = v

-- `_is_notification`
abbrev pub is_notification : Members → Bool
is_notification m = has_key "method" m && not (has_key "id" m)

-- `_notification`, from the method and the params
abbrev pub notification_of : Option Value → Value → Result Notification
notification_of (some (text method)) params = ok (record { method = method; params = params })
notification_of _ params = err connection_error

abbrev pub notification : Members → Result Notification
notification m =
    if is_version (get "jsonrpc" m)
    then notification_of (get "method" m) (or_null (get "params" m))
    else err connection_error

-- type(v) is int; a bool is another constructor
abbrev pub is_int : Option Value → Bool
is_int (some (int n)) = true
is_int _ = false

abbrev pub is_text : Option Value → Bool
is_text (some (text s)) = true
is_text _ = false

-- `_validate_error` on envelope["error"]
unfoldable pub validate_error : Option Value → Bool
validate_error (some (object e)) = is_int (get "code" e) && is_text (get "message" e)
validate_error _ = false

-- type(id) is str and id == request_id
abbrev pub is_id : Option Value → String → Bool
is_id (some (text i)) request_id = i == request_id
is_id _ request_id = false

abbrev pub differs : Bool → Bool → Bool
differs true b = not b
differs false b = b

-- `_validate_response`
unfoldable pub validate_response : Members → String → Bool
unfolding validate_error
validate_response m request_id =
    is_version (get "jsonrpc" m)
    && is_id (get "id" m) request_id
    && differs (has_key "result" m) (has_key "error" m)
    && (if has_key "error" m then validate_error (get "error" m) else true)

-- `_response`
unfoldable pub response : String → Value → Result Members
unfolding validate_response
response request_id (object m) =
    if validate_response m request_id then ok m else err connection_error
response request_id _ = err connection_error

pub data Reply : Type 0 where
  refusal : Members → Reply
  replies : List Members → Reply

-- i in ids
abbrev pub has : String → List String → Bool
has i [] = false
has i (j ∷ ids) = if j == i then true else has i ids

-- Every id of the first is one of the second.
abbrev pub all_in : List String → List String → Bool
all_in [] ids = true
all_in (i ∷ more) ids = has i ids && all_in more ids

-- The tests on one envelope of a batch reply, by its id.
unfoldable pub check_id :
    List String → List String → Members → Option Value → Result (String × Members)
unfolding validate_response
check_id expected seen m (some (text i)) =
    if has i expected && not (has i seen) && validate_response m i
    then ok (i, m)
    else err connection_error
check_id expected seen m (some (array v)) = err type_error
check_id expected seen m (some (object v)) = err type_error
check_id expected seen m _ = err connection_error

unfoldable pub check_one : List String → List String → Value → Result (String × Members)
unfolding check_id
check_one expected seen (object m) = check_id expected seen m (get "id" m)
check_one expected seen _ = err connection_error

abbrev pub prepend : Members → Result (List Members) → Result (List Members)
prepend m (err e) = err e
prepend m (ok ms) = ok (m ∷ ms)

abbrev pub check_step :
    (String → Result (List Members)) → Result (String × Members) → Result (List Members)
check_step go (err e) = err e
check_step go (ok (i, m)) = prepend m (go i)

-- The loop of `_batch_response` and the test after it, `seen != expected`.
unfoldable pub check_all : List String → List String → Values → Result (List Members)
unfolding check_one
check_all expected seen nil =
    if all_in expected seen && all_in seen expected then ok [] else err connection_error
check_all expected seen (cons v vs) =
    check_step (λ i. check_all expected (i ∷ seen) vs) (check_one expected seen v)

abbrev pub as_replies : Result (List Members) → Result Reply
as_replies (err e) = err e
as_replies (ok ms) = ok (replies ms)

abbrev pub is_null : Option Value → Bool
is_null none = true
is_null (some null) = true
is_null _ = false

-- `_batch_response`
unfoldable pub batch_response : List String → Value → Result Reply
unfolding check_all validate_error
batch_response expected (object m) =
    if is_null (get "id" m) && has_key "error" m && validate_error (get "error" m)
    then ok (refusal m)
    else err connection_error
batch_response expected (array vs) = as_replies (check_all expected [] vs)
batch_response expected _ = err connection_error
