-- ===== src/Execution/Message.antt =====
-- `_fallback`, `_refuse_batch` and `process` of wire_rpc/_execution.py: one message, a request or a
-- batch. The byte budget `remaining` is kept as what is left of a fixed room after `spent`, and the
-- test `len(reply) > remaining - reserved` is written as a sum, since Python's integers go below 0.
use wire_rpc.Prelude.{
  ℕ, ◌+◌, ◌-◌, String, ◌&&◌, Option, none, some, List, [], ◌∷◌, length, sum_by, ltb, ◌==◌,
  if◌then◌else◌, nat_eq,
}
use wire_rpc.Envelope.{Bytes, Value, array, to_list, failure}
use wire_rpc.Execution.{
  Codec, Exit, returned, raised, stopped, Config, State, Host, whole_batch, unparseable,
  is_protocol, is_some, lacks_id, item_id, internal, invalid_error, unparseable_error, refuse,
  exit_of, process_one,
}

-- What is kept back for an item: nothing for a valid notification, else a small error. `none`
-- stands for an exception of `codec.encode`.
unfoldable pub fallback : Codec → Value → Option (Option Bytes)
fallback codec item =
    if lacks_id item && is_protocol item && is_some (codec.convert_request item)
    then some none
    else elim (codec.encode (failure internal (item_id item))) [
      | none ↦ none
      | some b ↦ some (some b)
    ]

abbrev pub pair_up :
    Value
    → Option (Option Bytes)
    → Option (List (Value × Option Bytes))
    → Option (List (Value × Option Bytes))
pair_up item none paired = none
pair_up item (some f) none = none
pair_up item (some f) (some paired) = some ((item, f) ∷ paired)

-- [_fallback(codec, item) for item in envelope], beside its items
unfoldable pub fallbacks : Codec → List Value → Option (List (Value × Option Bytes))
fallbacks codec [] = some []
fallbacks codec (item ∷ rest) = pair_up item (fallback codec item) (fallbacks codec rest)

abbrev pub size_of : Option Bytes → ℕ
size_of none = 0
size_of (some f) = length f

-- sum(len(f) for f in fallbacks if f is not None)
abbrev pub reserved_for : List (Value × Option Bytes) → ℕ
reserved_for = sum_by (λ pair. size_of pair.1)

-- `fallback is not None and len(reply) > remaining - reserved`
abbrev pub chosen : Option Bytes → Bytes → ℕ → ℕ → ℕ → Bytes
chosen none reply room spent reserved = reply
chosen (some f) reply room spent reserved =
    if ltb room (length reply + reserved + spent) then f else reply

abbrev pub cons_both : Option Value → Option (List Value) → Option (List Value)
cons_both none vs = none
cons_both (some v) none = none
cons_both (some v) (some vs) = some (v ∷ vs)

abbrev pub more : Bytes → Exit (List Bytes) → Exit (List Bytes)
more reply (returned replies) = returned (reply ∷ replies)
more reply raised = raised
more reply stopped = stopped

module _ {W : Type 0} where
  -- After an item: its reply, if it has one, is taken as it is or replaced, and the loop goes on
  -- with what is spent by then.
  unfoldable pub after_item :
      Option Bytes
      → ℕ
      → ℕ
      → ℕ
      → (ℕ → State W → Exit (List Bytes) × State W)
      → Exit (Option Bytes) × State W
      → Exit (List Bytes) × State W
  after_item f room spent reserved go_on (returned none, s) = go_on spent s
  after_item f room spent reserved go_on (returned (some reply), s) =
      let taken = chosen f reply room spent reserved in
      let (exit, s') = go_on (spent + length taken) s in (more taken exit, s')
  after_item f room spent reserved go_on (raised, s) = (raised, s)
  after_item f room spent reserved go_on (stopped, s) = (stopped, s)

module _ (codec : Codec) where
  -- codec.encode([codec.decode(reply, Any) for reply in replies]), or None with no reply
  abbrev pub decode_all : List Bytes → Option (List Value)
  decode_all [] = some []
  decode_all (reply ∷ rest) = cons_both (codec.decode reply) (decode_all rest)

  abbrev pub join_decoded : Option (List Value) → Exit (Option Bytes)
  join_decoded none = raised
  join_decoded (some values) = exit_of (codec.encode_batch values)

  abbrev pub join : Exit (List Bytes) → Exit (Option Bytes)
  join (returned []) = returned none
  join (returned (reply ∷ rest)) = join_decoded (decode_all (reply ∷ rest))
  join raised = raised
  join stopped = stopped

module _ {W : Type 0} (codec : Codec) (config : Config) (host : Host W) (peer : Option String) where
  -- The loop over the items of an accepted batch. `reserved` is what the items from this one on hold
  -- back; the room is the response budget less the brackets and commas.
  unfoldable pub batch_loop :
      ℕ → List (Value × Option Bytes) → ℕ → ℕ → State W → Exit (List Bytes) × State W
  batch_loop room [] spent reserved s = (returned [], s)
  batch_loop room ((item, f) ∷ rest) spent reserved s =
      after_item f room spent (reserved - size_of f)
        (λ spent' s'. batch_loop room rest spent' (reserved - size_of f) s')
        (process_one codec config host peer item s)

  -- An accepted batch, with its fallbacks at hand.
  unfoldable pub run_batch : List (Value × Option Bytes) → State W → Exit (Option Bytes) × State W
  unfolding batch_loop
  run_batch paired s =
      let room = config.max_response_size - length paired - 8 in
      let (exit, s') = batch_loop room paired 0 (reserved_for paired) s in (join codec exit, s')

  unfoldable pub refuse_batch : State W → Exit (Option Bytes) × State W
  unfolding refuse
  refuse_batch s = refuse codec whole_batch invalid_error peer s

  unfoldable pub admit :
      Option (List (Value × Option Bytes)) → State W → Exit (Option Bytes) × State W
  unfolding run_batch refuse_batch
  admit none s = (raised, s)
  admit (some paired) s =
      if ltb config.max_response_size (reserved_for paired + length paired + 8)
      then refuse_batch s
      else run_batch paired s

  unfoldable pub process_batch : List Value → State W → Exit (Option Bytes) × State W
  unfolding admit fallbacks refuse_batch
  process_batch items s =
      if length items == 0
      then refuse_batch s
      else if ltb config.max_batch_size (length items)
      then refuse_batch s
      else admit (fallbacks codec items) s

  unfoldable pub process_decoded : Option Value → State W → Exit (Option Bytes) × State W
  unfolding process_batch process_one refuse
  process_decoded none s = refuse codec unparseable unparseable_error peer s
  process_decoded (some (array items)) s = process_batch (to_list items) s
  process_decoded (some item) s = process_one codec config host peer item s

  -- `process`
  unfoldable pub process : Bytes → State W → Exit (Option Bytes) × State W
  unfolding process_decoded
  process payload s =
      process_decoded (codec.decode payload)
        (record s { stats = record s.stats { requests = s.stats.requests + 1 } })
