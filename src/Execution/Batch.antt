-- ===== src/Execution/Batch.antt =====
-- `process` as a whole: every reply, a batch included, is within the response budget.
use wire_rpc.Prelude.{
  ℕ, suc, ◌+◌, ◌-◌, ◌≤◌, ◌≡◌, ◌≢◌, refl, ap, ◌∙◌, String, true, ◌&&◌, Option, none, some, List, [],
  ◌∷◌, length, sum_by, All, arith, ltb, nat_eq, ◌==◌, if_both,
}
use wire_rpc.Envelope.{Bytes, Value, array, to_list, failure}
use wire_rpc.Execution.{
  Codec, Exit, returned, raised, stopped, Config, State, Host, whole_batch, unparseable,
  is_protocol, is_some, lacks_id, item_id, internal, invalid_error, unparseable_error, process_one,
}
use wire_rpc.Execution.Laws.{IsEncoded, CodecLaws, IsBudget, of_invalid, of_unparseable}
use wire_rpc.Execution.Single.{
  IsReply, IsSilent, refuse-IsReply, process_one-IsReply, notification-IsSilent,
}
use wire_rpc.Execution.Message.{
  fallback, pair_up, fallbacks, size_of, reserved_for, chosen, more, after_item, batch_loop,
  decode_all, join, run_batch, refuse_batch, admit, process_batch, process_decoded, process,
}

-- The call ended with no reply, a reply of at most so many bytes, or a cancellation; no exception
-- left it.
abbrev pub Fits : ℕ → Exit (Option Bytes) → Type 0
Fits limit (returned none) = Unit
Fits limit (returned (some b)) = length b ≤ limit
Fits limit raised = ⊥
Fits limit stopped = Unit

IsReply-Fits :
    (codec : Codec) (limit : ℕ) (exit : Exit (Option Bytes))
    → IsReply codec limit exit
    → Fits limit exit
IsReply-Fits codec limit (returned none) h = tt
IsReply-Fits codec limit (returned (some b)) h = h.1
IsReply-Fits codec limit raised h = h
IsReply-Fits codec limit stopped h = tt

module _ (codec : Codec) where
  -- What the loop has at its end: encoded replies that leave the room.
  abbrev LoopGood : ℕ → ℕ → ℕ → Exit (List Bytes) → Type 0
  LoopGood room spent n (returned replies) =
      (sum_by length replies + spent ≤ room) × All (IsEncoded codec) replies × (length replies ≤ n)
  LoopGood room spent n raised = ⊥
  LoopGood room spent n stopped = Unit

  LoopGood-suc :
      (room spent n : ℕ) (exit : Exit (List Bytes))
      → LoopGood room spent n exit
      → LoopGood room spent (suc n) exit
  LoopGood-suc room spent n (returned replies) h = (h.0, h.1, omega (arith, h.2))
  LoopGood-suc room spent n raised h = h
  LoopGood-suc room spent n stopped h = h

  LoopGood-more :
      (room spent n : ℕ) (reply : Bytes) (exit : Exit (List Bytes))
      → IsEncoded codec reply
      → LoopGood room (spent + length reply) n exit
      → LoopGood room spent (suc n) (more reply exit)
  LoopGood-more room spent n reply (returned replies) e h =
      (omega (arith, h.0), (e, h.1), omega (arith, h.2))
  LoopGood-more room spent n reply raised e h = h
  LoopGood-more room spent n reply stopped e h = h

  -- An item and its fallback.
  abbrev pub Paired : Value × Option Bytes → Type 0
  Paired (item, f) = fallback codec item ≡ some f

  fallback-IsEncoded :
      (item : Value) (b : Bytes) → fallback codec item ≡ some (some b) → IsEncoded codec b
  unfolding fallback
  fallback-IsEncoded item b h = (failure internal (item_id item), ground arith)

  fallback-none :
      (item : Value)
      → fallback codec item ≡ some none
      → (lacks_id item && is_protocol item && is_some (codec.convert_request item)) ≡ true
  unfolding fallback
  fallback-none item h = ground arith

  pair_up-eq-some :
      (item : Value) (f : Option (Option Bytes)) (r : Option (List (Value × Option Bytes)))
      (paired : List (Value × Option Bytes))
      → pair_up item f r ≡ some paired
      → (g : Option Bytes) × (rest : List (Value × Option Bytes)) × (f ≡ some g)
        × (r ≡ some rest)
        × (paired ≡ (item, g) ∷ rest)
  pair_up-eq-some item none r paired h = cc
  pair_up-eq-some item (some g) none paired h = cc
  pair_up-eq-some item (some g) (some rest) paired h = (g, rest, refl, refl, ground arith)

  pub fallbacks-Paired :
      (items : List Value) (paired : List (Value × Option Bytes))
      → fallbacks codec items ≡ some paired
      → All Paired paired × (length paired ≡ length items)
  unfolding fallbacks
  fallbacks-Paired [] [] h = (tt, refl)
  fallbacks-Paired [] (p ∷ paired) h = cc
  fallbacks-Paired (item ∷ items) paired h =
      let (g, rest, one, others, whole) = pair_up-eq-some item _ _ paired h in
      let ih = fallbacks-Paired items rest others in rw whole ((one, ih.0), ap suc ih.1)

  decode_all_total :
      (laws : CodecLaws codec) (replies : List Bytes)
      → All (IsEncoded codec) replies
      → (vs : List Value) × (decode_all codec replies ≡ some vs)
        × (sum_by laws.weight vs ≤ sum_by length replies)
        × (length vs ≡ length replies)
  decode_all_total laws [] h = ([], refl, omega arith, refl)
  decode_all_total laws (reply ∷ rest) h =
      let (vs, found, weight, same) = decode_all_total laws rest h.1 in
      let (v, one) = laws.decode_total reply h.0 in
      (v ∷ vs, ground arith, omega (arith, laws.decode_weight reply v h.0 one), omega arith)

  join-Fits :
      (laws : CodecLaws codec) (room n limit : ℕ) (exit : Exit (List Bytes))
      → LoopGood room 0 n exit
      → room + n + 8 ≤ limit
      → Fits limit (join codec exit)
  join-Fits laws room n limit (returned []) h r = tt
  join-Fits laws room n limit (returned (reply ∷ rest)) h r =
      let (vs, found, weight, same) = decode_all_total laws (reply ∷ rest) h.1 in
      let (b, encoded) = laws.batch_total vs in
      rw (found, encoded) (omega (arith, laws.batch_weight vs b encoded))
  join-Fits laws room n limit raised h r = h
  join-Fits laws room n limit stopped h r = h

  -- A reply that is taken leaves room for what is still held back.
  length-chosen :
      (f : Option Bytes) (reply : Bytes) (room spent reserved : ℕ)
      → f ≢ none
      → spent + size_of f + reserved ≤ room
      → spent + length (chosen f reply room spent reserved) + reserved ≤ room
  length-chosen none reply room spent reserved n h = absurd (n refl)
  length-chosen (some f) reply room spent reserved n h = ground arith

  chosen-IsEncoded :
      (f : Option Bytes) (reply : Bytes) (room spent reserved : ℕ)
      → ((b : Bytes) → f ≡ some b → IsEncoded codec b)
      → IsEncoded codec reply
      → IsEncoded codec (chosen f reply room spent reserved)
  chosen-IsEncoded none reply room spent reserved h e = e
  chosen-IsEncoded (some b) reply room spent reserved h e =
      if_both (IsEncoded codec) (ltb room (length reply + reserved + spent)) (λ _. h b refl)
        (λ _. e)

  module _ {W : Type 0} (f : Option Bytes) (room spent reserved limit n : ℕ) where
    after_item-good :
        (go_on : ℕ → State W → Exit (List Bytes) × State W)
        → spent + size_of f + reserved ≤ room
        → ((spent' : ℕ) (s : State W)
            → spent' + reserved ≤ room
            → LoopGood room spent' n (go_on spent' s).0)
        → ((b : Bytes) → f ≡ some b → IsEncoded codec b)
        → (r : Exit (Option Bytes) × State W) → IsReply codec limit r.0
        → (f ≡ none → IsSilent r.0)
        → LoopGood room spent (suc n) (after_item f room spent reserved go_on r).0
    unfolding after_item
    after_item-good go_on fit go enc (returned none, s) h silent =
        LoopGood-suc room spent n (go_on spent s).0 (go spent s (omega arith))
    after_item-good go_on fit go enc (returned (some reply), s) h silent =
        let taken = chosen f reply room spent reserved in
        let spent' = spent + length taken in
        LoopGood-more room spent n taken (go_on spent' s).0
          (chosen-IsEncoded f reply room spent reserved enc h.0)
          (go spent' s (length-chosen f reply room spent reserved silent fit))
    after_item-good go_on fit go enc (raised, s) h silent = h
    after_item-good go_on fit go enc (stopped, s) h silent = tt

module _ {W : Type 0} (codec : Codec) (config : Config) (host : Host W) (peer : Option String) where
  module _ (laws : CodecLaws codec) (budget : IsBudget config) where
    batch_loop-good :
        (paired : List (Value × Option Bytes)) (room spent reserved : ℕ) (s : State W)
        → All (Paired codec) paired
        → reserved ≡ reserved_for paired
        → spent + reserved ≤ room
        → LoopGood codec room spent
            (length paired)
            (batch_loop codec config host peer room paired spent reserved s).0
    unfolding batch_loop
    batch_loop-good [] room spent reserved s h e fit = (omega arith, tt, omega arith)
    batch_loop-good ((item, f) ∷ rest) room spent reserved s h e fit =
        after_item-good codec f room spent (reserved - size_of f) config.max_response_size
          (length rest) _ (omega arith)
          (λ spent' s' fit'.
            batch_loop-good rest room spent' (reserved - size_of f) s' h.1 (omega arith) fit')
          (λ b found. fallback-IsEncoded codec item b (h.0 ∙ ap some found))
          (process_one codec config host peer item s)
          (process_one-IsReply codec config host peer laws budget item s)
          (λ none_kept.
            notification-IsSilent codec config host peer laws budget item s
              (fallback-none codec item (h.0 ∙ ap some none_kept)))

    refuse_batch-Fits :
        (s : State W) → Fits config.max_response_size (refuse_batch codec config host peer s).0
    unfolding refuse_batch
    refuse_batch-Fits s = IsReply-Fits codec _ _ (
        refuse-IsReply codec laws config.max_response_size budget whole_batch invalid_error peer s
          of_invalid)

    run_batch-Fits :
        (paired : List (Value × Option Bytes)) (s : State W)
        → All (Paired codec) paired
        → reserved_for paired + length paired + 8 ≤ config.max_response_size
        → Fits config.max_response_size (run_batch codec config host peer paired s).0
    unfolding run_batch
    run_batch-Fits paired s h fit =
        let room = config.max_response_size - length paired - 8 in
        join-Fits codec laws room (length paired) config.max_response_size _
          (batch_loop-good paired room 0 (reserved_for paired) s h refl (omega arith)) (omega arith)

    admit-Fits :
        (items : List Value) (found : Option (List (Value × Option Bytes))) (s : State W)
        → fallbacks codec items ≡ found
        → found ≢ none
        → Fits config.max_response_size (admit codec config host peer found s).0
    unfolding admit
    admit-Fits items none s e total = absurd (total refl)
    admit-Fits items (some paired) s e total =
        if_both (λ (r : Exit (Option Bytes) × State W). Fits config.max_response_size r.0)
          (ltb config.max_response_size (reserved_for paired + length paired + 8))
          (λ _. refuse_batch-Fits s)
          (λ small.
            run_batch-Fits paired s (fallbacks-Paired codec items paired e).0
              (ground (arith, small)))

    fallbacks_total : (items : List Value) → fallbacks codec items ≢ none
    unfolding fallbacks fallback
    fallbacks_total [] = λ e. cc
    fallbacks_total (item ∷ items) =
        λ e. ground (arith, fallbacks_total items, laws.error_total internal (item_id item))

    process_batch-Fits :
        (items : List Value) (s : State W)
        → Fits config.max_response_size (process_batch codec config host peer items s).0
    unfolding process_batch
    process_batch-Fits items s =
        if_both (λ (r : Exit (Option Bytes) × State W). Fits config.max_response_size r.0)
          (length items == 0) (λ _. refuse_batch-Fits s)
          (λ _.
            if_both (λ (r : Exit (Option Bytes) × State W). Fits config.max_response_size r.0)
              (ltb config.max_batch_size (length items)) (λ _. refuse_batch-Fits s)
              (λ _. admit-Fits items _ s refl (fallbacks_total items)))

    process_decoded-Fits :
        (envelope : Option Value) (s : State W)
        → Fits config.max_response_size (process_decoded codec config host peer envelope s).0
    unfolding process_decoded
    process_decoded-Fits none s = IsReply-Fits codec _ _ (
        refuse-IsReply codec laws config.max_response_size budget unparseable unparseable_error peer
          s of_unparseable)
    process_decoded-Fits (some (array items)) s = process_batch-Fits (to_list items) s
    process_decoded-Fits (some item) s =
        IsReply-Fits codec _ _ (process_one-IsReply codec config host peer laws budget item s)

    -- Any message, with any handlers: unless it is cancelled, no exception leaves `process`, and the
    -- reply, that of a batch included, takes at most `max_response_size` bytes. The codec keeps its
    -- laws and the budget is one that the apps accept.
    pub process-Fits :
        (payload : Bytes) (s : State W)
        → Fits config.max_response_size (process codec config host peer payload s).0
    unfolding process
    process-Fits payload s = process_decoded-Fits (codec.decode payload) _
