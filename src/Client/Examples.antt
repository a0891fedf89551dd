-- ===== src/Client/Examples.antt =====
-- Runs of the client on small messages.
use wire_rpc.Prelude.{
  ℕ, zero, suc, ◌+◌, ◌≡◌, refl, String, string_eq, Bool, true, false, Option, none, some, List, [],
  ◌∷◌,
}
use wire_rpc.Prelude.Dict
use wire_rpc.Envelope.{
  pos, Bytes, Value, null, int, text, array, object, nil, cons, Members, member, end,
}
use wire_rpc.Client.{
  ok, err, replies, response, batch_response, check_all, check_one, check_id, validate_response,
  type_error,
}
use wire_rpc.Client.Exchange.{Arrival, frame, eof, Channel, exchange, receive, Ends, exchange-Ends}
use wire_rpc.Client.Batch.{
  Item, call_item, notify_item, silence, value, batch, batch_of, collect, entry_of, by_id_from,
  with_ids,
}
use wire_rpc.Client.Matching.{Matched, batch_response-Matched}
use wire_rpc.Client.Results.{Replied, batch-Replied}

abbrev answer : String → Value → Value
answer i v = object (member "jsonrpc" (text "2.0") (member "id" (text i) (member "result" v end)))

abbrev members : Value → Members
members (object m) = m
members _ = end

abbrev pushed : Value
pushed = object (member "jsonrpc" (text "2.0") (member "method" (text "tick") end))

-- The length of a frame tells its message.
abbrev decode : Bytes → Option Value
decode (a ∷ []) = some pushed
decode (a ∷ b ∷ []) = some (answer "a" (int (pos 5)))
decode (a ∷ b ∷ c ∷ []) =
    some (array (cons (answer "b" (int (pos 6))) (cons (answer "a" (int (pos 5))) nil)))
decode bytes = none

abbrev idle : Channel
idle = record { closed = false; delivered = [] }

abbrev arrivals : List Arrival
arrivals = frame (1 ∷ []) ∷ frame (2 ∷ 2 ∷ []) ∷ eof ∷ []

exchange-Ends_example :
    Ends decode (response "a") arrivals idle (exchange decode (response "a") true arrivals idle)
exchange-Ends_example = exchange-Ends decode (response "a") true arrivals idle refl

abbrev two_answers : Value
two_answers = array (cons (answer "b" (int (pos 6))) (cons (answer "a" (int (pos 5))) nil))

batch_response-Matched_example :
    Matched ("a" ∷ "b" ∷ []) (batch_response ("a" ∷ "b" ∷ []) two_answers)
batch_response-Matched_example = batch_response-Matched ("a" ∷ "b" ∷ []) two_answers

-- It is accepted, whatever its order.
accepted :
    batch_response ("a" ∷ "b" ∷ []) two_answers
    ≡ ok (replies (members (answer "b" (int (pos 6))) ∷ members (answer "a" (int (pos 5))) ∷ []))
unfolding batch_response check_all check_one check_id validate_response
accepted = refl

-- An id that is a list makes the client raise TypeError.
unhashable :
    batch_response ("a" ∷ []) (array (cons (object (member "id" (array nil) end)) nil))
    ≡ err type_error
unfolding batch_response check_all check_one check_id
unhashable = refl

abbrev as_given : Value → Bool → Option Value
as_given v hint = some v

abbrev paired : List (Item Bool × Option String)
paired =
    (call_item "m" true null, some "a")
    ∷ (notify_item "n" null, none)
    ∷ (call_item "m" true null, some "b")
    ∷ []

batch-Replied_example :
    Replied as_given paired
      (replies (members (answer "b" (int (pos 6))) ∷ members (answer "a" (int (pos 5))) ∷ []))
batch-Replied_example = batch-Replied as_given paired two_answers _ accepted

-- A batch of two calls around a notification.
abbrev items : List (Item Bool)
items = call_item "m" true null ∷ notify_item "n" null ∷ call_item "m" true null ∷ []

abbrev uuid : ℕ → String
uuid zero = "a"
uuid (suc n) = "b"

ran :
    batch as_given decode uuid 0 items true (frame (3 ∷ 3 ∷ 3 ∷ []) ∷ []) idle
    ≡ (ok (value (int (pos 5)) ∷ silence ∷ value (int (pos 6)) ∷ []), idle)
unfolding batch batch_of with_ids exchange receive batch_response check_all check_one check_id
    validate_response collect entry_of by_id_from wire_rpc.Prelude.Dict.put
    wire_rpc.Prelude.Dict.get
ran = refl
