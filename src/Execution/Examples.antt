-- ===== src/Execution/Examples.antt =====
-- `process` on small messages, with a codec of a few bytes, and the theorems about it there.
use Prim.Native.String.{count}
use wire_rpc.Prelude.{
  ℕ, ◌+◌, ◌≤◌, ◌≡◌, ◌↔◌, refl, String, true, false, Option, none, some, List, [], ◌∷◌, length,
  sum_by, arith, leb, if◌then◌else◌, All,
}
use wire_rpc.Envelope.{
  Bytes, Value, null, text, array, object, nil, cons, end, member, get, ResponseId, no_id, text_id,
  unset, given, Request, response_id, WireError, Response, success, failure,
}
use wire_rpc.Execution.{
  Codec, done, Exit, returned, Config, State, Host, lacks_id, item_id, process_one,
}
use wire_rpc.Execution.Laws.{IsBoundedId, IsLibraryError, IsEncoded, CodecLaws}
use wire_rpc.Execution.Message.{fallback, after_item, batch_loop, process_batch, process}
use wire_rpc.Execution.Single.{IsReply, process_one-IsReply}
use wire_rpc.Execution.Batch.{Fits, process-Fits, Paired}
use wire_rpc.Execution.Accounts.{Accounted}
use wire_rpc.Execution.Admission.{AllOrNothing, bump, process_batch-AllOrNothing, process-Accounted}
use wire_rpc.Execution.Answers.{Answers, KeepsId, batch_loop-Answers}

abbrev call_add : Value
call_add =
    object
      (member "jsonrpc" (text "2.0") (member "method" (text "add") (member "id" (text "1") end)))

abbrev notify_log : Value
notify_log = object (member "jsonrpc" (text "2.0") (member "method" (text "log") end))

abbrev items : List Value
items = call_add ∷ notify_log ∷ null ∷ []

-- A batch is the byte 7, and `call_add` alone the byte 5; 9 is no message.
toy_decode : Bytes → Option Value
toy_decode [] = none
toy_decode (b ∷ rest) =
    if leb 9 b
    then none
    else if leb 7 b
    then some (array (cons call_add (cons notify_log (cons null nil))))
    else if leb 5 b
    then some call_add
    else some null

abbrev bounded : String → Option Value → Option Request
bounded name none = some (record { method = name; id = unset; params = null })
bounded name (some null) = some (record { method = name; id = given no_id; params = null })
bounded name (some (text s)) =
    if leb (count s) 255
    then some (record { method = name; id = given (text_id s); params = null })
    else none
bounded name _ = none

abbrev named : Option Value → Option Value → Option Request
named (some (text name)) id = bounded name id
named _ id = none

toy_convert : Value → Option Request
toy_convert (object m) = named (get "method" m) (get "id" m)
toy_convert _ = none

toy_encode : Response → Option Bytes
toy_encode (success v i) = some (0 ∷ 0 ∷ [])
toy_encode (failure e i) = some (1 ∷ [])

abbrev toy : Codec
toy = record {
  decode = toy_decode;
  convert_request = toy_convert;
  encode = toy_encode;
  encode_batch = λ vs. some (2 ∷ []);
}

toy_unset :
    (item : Value) (r : Request)
    → toy_convert item ≡ some r
    → (lacks_id item ≡ true) ↔ (r.id ≡ unset)
unfolding toy_convert
toy_unset (object m) r h = ground arith
toy_unset item r h = ground arith

toy_id :
    (item : Value) (r : Request)
    → toy_convert item ≡ some r
    → lacks_id item ≡ false
    → response_id r ≡ item_id item
unfolding toy_convert
toy_id (object m) r h k = ground arith
toy_id item r h k = ground arith

toy_bounded : (item : Value) (r : Request) → toy_convert item ≡ some r → IsBoundedId (response_id r)
unfolding toy_convert
toy_bounded (object m) r h = ground arith
toy_bounded item r h = ground arith

toy_decode_total : (b : Bytes) → IsEncoded toy b → (v : Value) × (toy_decode b ≡ some v)
unfolding toy_encode toy_decode
toy_decode_total b (success v i, e) = (null, ground arith)
toy_decode_total b (failure w i, e) = (null, ground arith)

toy_short :
    (e : WireError) (i : ResponseId) (b : Bytes)
    → IsLibraryError e
    → IsBoundedId i
    → toy_encode (failure e i) ≡ some b
    → length b ≤ 2048
unfolding toy_encode
toy_short e i b l h k = ground arith

toy_batch :
    (vs : List Value) (b : Bytes)
    → toy.encode_batch vs ≡ some b
    → length b ≤ sum_by (λ (v : Value). 0) vs + length vs + 8
toy_batch vs b h = ground arith

toy-CodecLaws : CodecLaws toy
unfolding toy_encode
toy-CodecLaws = record {
  weight = λ v. 0;
  convert_unset = toy_unset;
  convert_id = toy_id;
  convert_bounded = toy_bounded;
  error_total = λ e i. (1 ∷ [], refl);
  error_short = toy_short;
  decode_total = toy_decode_total;
  decode_weight = λ b v e h. omega arith;
  batch_total = λ vs. (2 ∷ [], refl);
  batch_weight = toy_batch;
}

abbrev config : Config
config = record { max_response_size = 2048; max_batch_size = 3 }

-- The world counts the calls that are dispatched.
abbrev host : Host ℕ
host = record {
  get_principal = some (λ peer w. (done (some "alice"), w));
  dispatch = λ r c w. (done (success null (response_id r)), w + 1);
}

host-KeepsId : KeepsId host
host-KeepsId r c w w' response h = ground arith

abbrev start : State ℕ
start = record {
  stats = record {
    requests = 0;
    active = 0;
    completed = 0;
    failures = 0;
    timed_out = 0;
    invalid = 0;
  };
  log = [];
  world = 0;
}

abbrev run_seven : Exit (Option Bytes) × State ℕ
run_seven = process toy config host none (7 ∷ []) start

-- The call and the notification run, and the `null` among them is invalid.
seven_runs :
    (run_seven.0 ≡ returned (some (2 ∷ [])))
    × (run_seven.1.world ≡ 2)
    × (run_seven.1.stats.completed ≡ 1)
    × (run_seven.1.stats.invalid ≡ 1)
unfolding process toy_decode toy_convert toy_encode fallback after_item
seven_runs = (refl, refl, refl, refl)

process-Fits_example : Fits 2048 (process toy config host none (7 ∷ []) start).0
process-Fits_example = process-Fits toy config host none toy-CodecLaws (omega arith) (7 ∷ []) start

process_one-IsReply_example : IsReply toy 2048 (process_one toy config host none call_add start).0
process_one-IsReply_example =
    process_one-IsReply toy config host none toy-CodecLaws (omega arith) call_add start

process-Accounted_example :
    Accounted (bump toy config host none start) (process toy config host none (7 ∷ []) start).1
process-Accounted_example = process-Accounted toy config host none (7 ∷ []) start

process_batch-AllOrNothing_example :
    AllOrNothing items 3 start (process_batch toy config host none items start)
process_batch-AllOrNothing_example = process_batch-AllOrNothing toy config host none items start

abbrev paired : List (Value × Option Bytes)
paired = (call_add, some (1 ∷ [])) ∷ (notify_log, none) ∷ (null, some (1 ∷ [])) ∷ []

paired-Paired : All (Paired toy) paired
unfolding fallback toy_convert toy_encode
paired-Paired = (refl, (refl, (refl, tt)))

batch_loop-Answers_example : Answers toy items ((0 ∷ 0 ∷ []) ∷ (1 ∷ []) ∷ [])
unfolding batch_loop process_one toy_convert toy_encode after_item
batch_loop-Answers_example =
    batch_loop-Answers toy toy-CodecLaws config host host-KeepsId none paired 100 0 2 start
      paired-Paired
