-- ===== src/Client/Batch.antt =====
-- `call` and `batch` of wire_rpc/client.py, around the exchange. The ids that `uuid.uuid4` gives are
-- a parameter, and `convert` is that of the codec, whose `none` is a CodecConversionError.
use wire_rpc.Prelude.{
  ℕ, ◌+◌, String, string_eq, Bool, Option, none, some, List, [], ◌∷◌, map, if◌then◌else◌,
}
use wire_rpc.Prelude.Dict
use wire_rpc.Prelude.Dict.{Dict}
use wire_rpc.Envelope.{Bytes, Value, int, text, object, Members, get}
use wire_rpc.Client.{
  Error, Result, ok, err, value_error, key_error, conversion_error, type_error, wire_rpc_error,
  has_key, or_null, response, batch_response, Reply, refusal, replies,
}
use wire_rpc.Client.Exchange.{Arrival, Channel, exchange, send_only}

pub data Item (Hint : Type 0) : Type 0 where
  call_item : String → Hint → Value → Item Hint
  notify_item : String → Value → Item Hint

-- An entry of the list that `batch` returns.
pub data Entry (T : Type 0) : Type 0 where
  silence : Entry T
  failing : Error → Entry T
  value : T → Entry T

-- error["code"] and error["message"], as they are after `_validate_error`
abbrev pub error_of : Option Value → Option Value → Value → Error
error_of (some (int c)) (some (text m)) data_value = wire_rpc_error c m data_value
error_of _ _ data_value = type_error

abbrev pub error_in : Option Value → Error
error_in (some (object e)) = error_of (get "code" e) (get "message" e) (or_null (get "data" e))
error_in _ = type_error

abbrev pub text_of : Option Value → Option String
text_of (some (text s)) = some s
text_of _ = none

-- by_id[envelope["id"]] = envelope
abbrev pub put_id : Option String → Members → Dict String Members → Dict String Members
put_id none m d = d
put_id (some i) m d = Dict.put i m d

unfoldable pub by_id_from : Dict String Members → List Members → Dict String Members
by_id_from d [] = d
by_id_from d (m ∷ ms) = by_id_from (put_id (text_of (get "id" m)) m d) ms

abbrev pub by_id : List Members → Dict String Members
by_id = by_id_from []

-- expected = {request_id for request_id in ids if request_id is not None}
abbrev pub expected_of : List (Option String) → List String
expected_of [] = []
expected_of (none ∷ ids) = expected_of ids
expected_of (some i ∷ ids) = i ∷ expected_of ids

module _ {Hint T : Type 0} (convert : Value → Hint → Option T) where
  abbrev pub as_value : Option T → Result (Entry T)
  as_value none = err conversion_error
  as_value (some x) = ok (value x)

  -- One turn of the loop over the items, from what `by_id` has.
  unfoldable pub entry_of : Hint → Option Members → Result (Entry T)
  entry_of hint none = err key_error
  entry_of hint (some m) =
      if has_key "error" m
      then ok (failing (error_in (get "error" m)))
      else as_value (convert (or_null (get "result" m)) hint)

  abbrev pub cons_entry : Result (Entry T) → Result (List (Entry T)) → Result (List (Entry T))
  cons_entry (err e) rest = err e
  cons_entry (ok x) (err e) = err e
  cons_entry (ok x) (ok xs) = ok (x ∷ xs)

  unfoldable pub collect :
      Dict String Members → List (Item Hint × Option String) → Result (List (Entry T))
  unfolding entry_of
  collect d [] = ok []
  collect d ((notify_item method params, i) ∷ rest) = cons_entry (ok silence) (collect d rest)
  collect d ((call_item method hint params, none) ∷ rest) = cons_entry (ok silence) (collect d rest)
  collect d ((call_item method hint params, some i) ∷ rest) =
      cons_entry (entry_of hint (Dict.get i d)) (collect d rest)

  abbrev pub collect_reply : List (Item Hint × Option String) → Reply → Result (List (Entry T))
  collect_reply sent (refusal m) = err (error_in (get "error" m))
  collect_reply sent (replies ms) = collect (by_id ms) sent

  -- The reply to `call`.
  abbrev pub finish_call : Hint → Members → Result T
  finish_call hint m =
      if has_key "error" m
      then err (error_in (get "error" m))
      else elim (convert (or_null (get "result" m)) hint) [
        | none ↦ err conversion_error
        | some x ↦ ok x
      ]

abbrev pub then_on : {A B : Type 0} → (A → Result B) → Result A × Channel → Result B × Channel
then_on f (err e, c) = (err e, c)
then_on f (ok x, c) = (f x, c)

-- An id for each call: the nth that `uuid4` gives.
unfoldable pub with_ids :
    {Hint : Type 0} → (ℕ → String) → ℕ → List (Item Hint) → List (Item Hint × Option String)
with_ids uuid n [] = []
with_ids uuid n (call_item method hint params ∷ rest) =
    (call_item method hint params, some (uuid n)) ∷ with_ids uuid (n + 1) rest
with_ids uuid n (notify_item method params ∷ rest) =
    (notify_item method params, none) ∷ with_ids uuid n rest

module _ {Hint T : Type 0} (convert : Value → Hint → Option T) (decode : Bytes → Option Value) where
  -- `call`, with the id that it made
  unfoldable pub call : Hint → String → Bool → List Arrival → Channel → Result T × Channel
  call hint request_id sent arrivals c =
      then_on (finish_call convert hint) (exchange decode (response request_id) sent arrivals c)

  silences : List (Item Hint × Option String) → List (Entry T)
  silences [] = []
  silences (x ∷ xs) = silence ∷ silences xs

  -- The rest of `batch`, by the ids that are expected.
  unfoldable pub batch_of :
      List String
      → List (Item Hint × Option String)
      → Bool
      → List Arrival
      → Channel
      → Result (List (Entry T)) × Channel
  unfolding silences collect
  batch_of [] paired sent arrivals c = then_on (λ _. ok (silences paired)) (send_only sent c)
  batch_of (i ∷ ids) paired sent arrivals c =
      then_on (collect_reply convert paired)
        (exchange decode (batch_response (i ∷ ids)) sent arrivals c)

  unfoldable pub batch :
      (ℕ → String)
      → ℕ
      → List (Item Hint)
      → Bool
      → List Arrival
      → Channel
      → Result (List (Entry T)) × Channel
  unfolding batch_of with_ids
  batch uuid n [] sent arrivals c = (err value_error, c)
  batch uuid n (item ∷ items) sent arrivals c =
      let paired = with_ids uuid n (item ∷ items) in
      batch_of (expected_of (map (λ (p : Item Hint × Option String). p.1) paired)) paired sent
        arrivals c
