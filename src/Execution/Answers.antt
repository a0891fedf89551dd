-- ===== src/Execution/Answers.antt =====
-- Which replies a batch gets: one for each item that is no notification, in order, with its id.
use wire_rpc.Prelude.{
  ℕ, ◌+◌, ◌-◌, ◌≡◌, ◌⊎◌, refl, ap, ◌∙◌, String, true, Option, none, some, List, [], ◌∷◌, length,
  All, map, arith, ltb, if◌then◌else◌, if_both, Bool-cases, inl, inr,
}
use wire_rpc.Envelope.{
  Bytes, Value, no_id, RequestId, unset, given, Request, RequestContext, response_id, is_unset,
  Response, failure, id_of,
}
use wire_rpc.Execution.{
  Codec, Failure, other, Awaited, done, failed, cancelled, Exit, returned, raised, stopped, Stats,
  Config, State, Host, is_protocol, lacks_id, item_id, internal, error_of, exit_of, invalid_error,
  guarded, run_dispatch, Concluded, fail, deliver, conclude, refuse, run_request, run_valid,
  process_one,
}
use wire_rpc.Execution.Laws.{CodecLaws}
use wire_rpc.Execution.Message.{fallback, size_of, chosen, more, after_item, batch_loop}
use wire_rpc.Execution.Batch.{Paired}

-- The request that an item holds, if it is valid.
abbrev pub request_of : Codec → Value → Option Request
request_of codec item = if is_protocol item then codec.convert_request item else none

abbrev pub IsNotification : Codec → Value → Type 0
IsNotification codec item =
    (lacks_id item ≡ true) × ((r : Request) × (request_of codec item ≡ some r))

-- The response has the id of the item, or none where the item is no valid request.
abbrev pub IsAnswer : Codec → Value → Response → Type 0
IsAnswer codec item r =
    (id_of r ≡ item_id item) ⊎ ((request_of codec item ≡ none) × (id_of r ≡ no_id))

abbrev pub IsAnswered : Codec → Value → Bytes → Type 0
IsAnswered codec item b = (r : Response) × (codec.encode r ≡ some b) × IsAnswer codec item r

-- The replies, in order, to the items that are no notifications.
pub data Answers (codec : Codec) : List Value → List Bytes → Type 0 where
  nothing : Answers codec [] []
  silent :
      {items : List Value} {replies : List Bytes} (item : Value)
      → IsNotification codec item
      → Answers codec items replies
      → Answers codec (item ∷ items) replies
  answered :
      {items : List Value} {replies : List Bytes} (item : Value) (b : Bytes)
      → IsAnswered codec item b
      → Answers codec items replies
      → Answers codec (item ∷ items) (b ∷ replies)

-- The handlers and middleware answer with the id of the request that they got.
abbrev pub KeepsId : {W : Type 0} → Host W → Type 0
KeepsId {W} host =
    (r : Request) (c : RequestContext) (w w' : W) (response : Response)
    → host.dispatch r c w ≡ (done response, w')
    → id_of response ≡ response_id r

abbrev AnswersOne : Codec → Value → Exit (Option Bytes) → Type 0
AnswersOne codec item (returned none) = IsNotification codec item
AnswersOne codec item (returned (some b)) = IsAnswered codec item b
AnswersOne codec item raised = Unit
AnswersOne codec item stopped = Unit

-- The case where a request ends by an exit with its own id.
abbrev EndsWithId : Codec → Request → Exit (Option Bytes) → Type 0
EndsWithId codec r (returned none) = r.id ≡ unset
EndsWithId codec r (returned (some b)) =
    (response : Response) × (codec.encode response ≡ some b) × (id_of response ≡ response_id r)
EndsWithId codec r raised = Unit
EndsWithId codec r stopped = Unit

unset_of : (i : RequestId) → is_unset i ≡ true → i ≡ unset
unset_of unset h = refl
unset_of (given i) h = cc

exit_of-EndsWithId :
    (codec : Codec) (r : Request) (response : Response) (b : Option Bytes)
    → codec.encode response ≡ b
    → id_of response ≡ response_id r
    → EndsWithId codec r (exit_of b)
exit_of-EndsWithId codec r response none e i = tt
exit_of-EndsWithId codec r response (some b) e i = (response, e, i)

module _ (codec : Codec) (limit : ℕ) (r : Request) (stats : Stats) where
  fail-EndsWithId : (f : Failure) → EndsWithId codec r (fail codec r f stats).0
  unfolding fail
  fail-EndsWithId f =
      if_both (EndsWithId codec r) (is_unset r.id) (λ h. unset_of r.id h)
        (λ _. exit_of-EndsWithId codec r (failure (error_of f) (response_id r)) _ refl refl)

  deliver-EndsWithId :
      (response : Response) (encoded : Option Bytes)
      → codec.encode response ≡ encoded
      → id_of response ≡ response_id r
      → EndsWithId codec r (deliver codec limit r response encoded stats).0
  unfolding deliver
  deliver-EndsWithId response none e i = fail-EndsWithId other
  deliver-EndsWithId response (some b) e i =
      if_both (λ (c : Concluded). EndsWithId codec r c.0) (ltb limit (length b))
        (λ _. fail-EndsWithId other) (λ _. (response, e, i))

  conclude-EndsWithId :
      (awaited : Awaited Response)
      → ((response : Response) → awaited ≡ done response → id_of response ≡ response_id r)
      → EndsWithId codec r (conclude codec limit r awaited stats).0
  unfolding conclude
  conclude-EndsWithId (done response) k =
      if_both (λ (c : Concluded). EndsWithId codec r c.0) (is_unset r.id) (λ h. unset_of r.id h)
        (λ _. deliver-EndsWithId response _ refl (k response refl))
  conclude-EndsWithId (failed f) k = fail-EndsWithId f
  conclude-EndsWithId cancelled k = tt

module _ {W : Type 0} (host : Host W) (keeps : KeepsId host) (r : Request)
    (peer : Option String) where
  run_dispatch-id :
      (asked : Awaited (Option String) × W) (response : Response)
      → (run_dispatch host r peer asked).0 ≡ done response
      → id_of response ≡ response_id r
  unfolding run_dispatch
  run_dispatch-id (done principal, w) response h =
      let c : RequestContext = record {
        request_id = response_id r;
        method = r.method;
        principal = principal;
        connection_id = peer;
      } in
      let d = host.dispatch r c w in
      keeps r c w d.1 response (ap (λ (a : Awaited Response). (a, d.1)) h)
  run_dispatch-id (failed f, w) response h = cc
  run_dispatch-id (cancelled, w) response h = cc

  guarded-id :
      (w : W) (response : Response)
      → (guarded host r peer w).0 ≡ done response
      → id_of response ≡ response_id r
  unfolding guarded
  guarded-id w response h = run_dispatch-id _ response h

lacks_id→no_id : (item : Value) → lacks_id item ≡ true → item_id item ≡ no_id
lacks_id→no_id item h = ground arith

request_of→convert :
    (codec : Codec) (item : Value) (r : Request)
    → request_of codec item ≡ some r
    → codec.convert_request item ≡ some r
request_of→convert codec item r h = ground arith

module _ (codec : Codec) (laws : CodecLaws codec) where
  id_of_item :
      (item : Value) (r : Request) → request_of codec item ≡ some r → response_id r ≡ item_id item
  id_of_item item r h =
      let converted = request_of→convert codec item r h in
      elim (Bool-cases (lacks_id item)) [
        | inl lacks ↦
            ground (arith, (laws.convert_unset item r converted).0 lacks, lacks_id→no_id item lacks)
        | inr has ↦ laws.convert_id item r converted has
      ]

  EndsWithId-AnswersOne :
      (item : Value) (r : Request) (exit : Exit (Option Bytes))
      → request_of codec item ≡ some r
      → EndsWithId codec r exit
      → AnswersOne codec item exit
  EndsWithId-AnswersOne item r (returned none) h e =
      ((laws.convert_unset item r (request_of→convert codec item r h)).1 e, (r, h))
  EndsWithId-AnswersOne item r (returned (some b)) h e = (e.0, e.1, inl (e.2 ∙ id_of_item item r h))
  EndsWithId-AnswersOne item r raised h e = tt
  EndsWithId-AnswersOne item r stopped h e = tt

  exit_of-AnswersOne :
      (item : Value) (b : Option Bytes)
      → request_of codec item ≡ none
      → codec.encode (failure invalid_error no_id) ≡ b
      → AnswersOne codec item (exit_of b)
  exit_of-AnswersOne item none h e = tt
  exit_of-AnswersOne item (some b) h e = (failure invalid_error no_id, e, inr (h, refl))

  fallback-IsAnswered :
      (item : Value) (b : Bytes) → Paired codec (item, some b) → IsAnswered codec item b
  unfolding fallback
  fallback-IsAnswered item b h = (failure internal (item_id item), ground arith, inl refl)

  module _ {W : Type 0} (config : Config) (host : Host W) (keeps : KeepsId host)
      (peer : Option String) where
    run_valid-AnswersOne :
        (item : Value) (request : Option Request) (s : State W)
        → request_of codec item ≡ request
        → AnswersOne codec item (run_valid codec config host peer request s).0
    unfolding run_valid refuse run_request
    run_valid-AnswersOne item none s h = exit_of-AnswersOne item _ h refl
    run_valid-AnswersOne item (some r) s h = EndsWithId-AnswersOne item r _ h (
        conclude-EndsWithId codec config.max_response_size r _ (guarded host r peer s.world).0
          (guarded-id host keeps r peer s.world))

    process_one-AnswersOne :
        (item : Value) (s : State W)
        → AnswersOne codec item (process_one codec config host peer item s).0
    unfolding process_one
    process_one-AnswersOne item s = run_valid-AnswersOne item _ s refl

    abbrev AnswersAll : List Value → Exit (List Bytes) → Type 0
    AnswersAll items (returned replies) = Answers codec items replies
    AnswersAll items raised = Unit
    AnswersAll items stopped = Unit

    AnswersAll-silent :
        (item : Value) (items : List Value) (exit : Exit (List Bytes))
        → IsNotification codec item
        → AnswersAll items exit
        → AnswersAll (item ∷ items) exit
    AnswersAll-silent item items (returned replies) n h = silent item n h
    AnswersAll-silent item items raised n h = tt
    AnswersAll-silent item items stopped n h = tt

    AnswersAll-more :
        (item : Value) (items : List Value) (b : Bytes) (exit : Exit (List Bytes))
        → IsAnswered codec item b
        → AnswersAll items exit
        → AnswersAll (item ∷ items) (more b exit)
    AnswersAll-more item items b (returned replies) n h = answered item b n h
    AnswersAll-more item items b raised n h = tt
    AnswersAll-more item items b stopped n h = tt

    chosen-IsAnswered :
        (item : Value) (f : Option Bytes) (reply : Bytes) (room spent reserved : ℕ)
        → Paired codec (item, f)
        → IsAnswered codec item reply
        → IsAnswered codec item (chosen f reply room spent reserved)
    chosen-IsAnswered item none reply room spent reserved p h = h
    chosen-IsAnswered item (some b) reply room spent reserved p h =
        if_both (IsAnswered codec item) (ltb room (length reply + reserved + spent))
          (λ _. fallback-IsAnswered item b p) (λ _. h)

    after_item-AnswersAll :
        (item : Value) (items : List Value) (f : Option Bytes) (room spent reserved : ℕ)
        (go_on : ℕ → State W → Exit (List Bytes) × State W)
        → Paired codec (item, f)
        → ((spent' : ℕ) (t : State W) → AnswersAll items (go_on spent' t).0)
        → (r : Exit (Option Bytes) × State W) → AnswersOne codec item r.0
        → AnswersAll (item ∷ items) (after_item f room spent reserved go_on r).0
    unfolding after_item
    after_item-AnswersAll item items f room spent reserved go_on p go (returned none, t) h =
        AnswersAll-silent item items _ h (go spent t)
    after_item-AnswersAll item items f room spent reserved go_on p go (returned (some reply), t) h =
        let taken = chosen f reply room spent reserved in
        AnswersAll-more item items taken _ (chosen-IsAnswered item f reply room spent reserved p h)
          (go (spent + length taken) t)
    after_item-AnswersAll item items f room spent reserved go_on p go (raised, t) h = tt
    after_item-AnswersAll item items f room spent reserved go_on p go (stopped, t) h = tt

    -- In a batch that runs to its end, whatever replies are replaced for want of room, the items that
    -- are no notifications are answered, each once, in order, with its id; or without one, where the
    -- item is no valid request. The codec keeps its laws, and the dispatch the ids of its requests.
    pub batch_loop-Answers :
        (paired : List (Value × Option Bytes)) (room spent reserved : ℕ) (s : State W)
        → All (Paired codec) paired
        → AnswersAll
            (map (λ (p : Value × Option Bytes). p.0) paired)
            (batch_loop codec config host peer room paired spent reserved s).0
    unfolding batch_loop
    batch_loop-Answers [] room spent reserved s h = nothing
    batch_loop-Answers ((item, f) ∷ rest) room spent reserved s h =
        after_item-AnswersAll item (map (λ (p : Value × Option Bytes). p.0) rest) f room spent
          (reserved - size_of f) _ h.0
          (λ spent' t. batch_loop-Answers rest room spent' (reserved - size_of f) t h.1) _
          (process_one-AnswersOne item s)
