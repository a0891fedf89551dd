-- ===== src/Client/Results.antt =====
-- What `batch` of wire_rpc/client.py makes of a reply that it accepts.
use mathlib.Core.Path.{subst}
use wire_rpc.Prelude.{
  inl, inr, ◌≡◌, refl, sym, ◌∙◌, ap, String, string_eq, true, Option, none, some, List, [], ◌∷◌,
  map, arith, Bool-cases, beq_refl,
}
use wire_rpc.Prelude.Dict
use wire_rpc.Prelude.Dict.{Dict}
use wire_rpc.Envelope.{Value, Members, get}
use wire_rpc.Client.{
  Error, Result, ok, err, conversion_error, has, has_key, or_null, validate_response,
  batch_response, Reply, refusal, replies,
}
use wire_rpc.Client.Batch.{
  Item, call_item, notify_item, Entry, silence, error_in, by_id, expected_of, as_value, entry_of,
  cons_entry, collect, collect_reply,
}
use wire_rpc.Client.Matching.{Indexes, Matched, batch_response-Matched}

module _ {Hint T : Type 0} (convert : Value → Hint → Option T) where
  -- The ids that go out with the items.
  abbrev pub ids_of : List (Item Hint × Option String) → List String
  ids_of paired = expected_of (map (λ (p : Item Hint × Option String). p.1) paired)

  -- The entry of an item: nothing for a notification; for a call, what the valid response with its
  -- id says, an error of the server or the converted result.
  abbrev pub EntryFor : Dict String Members → Item Hint × Option String → Entry T → Type 0
  EntryFor d (notify_item method params, i) e = e ≡ silence
  EntryFor d (call_item method hint params, none) e = e ≡ silence
  EntryFor d (call_item method hint params, some i) e =
      (m : Members) × (Dict.get i d ≡ some m)
      × (validate_response m i ≡ true)
      × (entry_of convert hint (some m) ≡ ok e)

  pub data EntriesFor (d : Dict String Members)
      : List (Item Hint × Option String) → List (Entry T) → Type 0 where
    none_left : EntriesFor d [] []
    one_more :
        (p : Item Hint × Option String) (e : Entry T) (ps : List (Item Hint × Option String))
        (es : List (Entry T))
        → EntryFor d p e
        → EntriesFor d ps es
        → EntriesFor d (p ∷ ps) (e ∷ es)

  abbrev pub Collected :
      Dict String Members → List (Item Hint × Option String) → Result (List (Entry T)) → Type 0
  Collected d paired (err e) = e ≡ conversion_error
  Collected d paired (ok es) = EntriesFor d paired es

  cons_entry-Collected :
      (d : Dict String Members) (p : Item Hint × Option String)
      (ps : List (Item Hint × Option String)) (x : Result (Entry T)) (r : Result (List (Entry T)))
      → ((f : Error) → x ≡ err f → f ≡ conversion_error)
      → ((e : Entry T) → x ≡ ok e → EntryFor d p e)
      → Collected d ps r
      → Collected d (p ∷ ps) (cons_entry convert x r)
  cons_entry-Collected d p ps (err f) r bad good h = bad f refl
  cons_entry-Collected d p ps (ok e) (err f) bad good h = h
  cons_entry-Collected d p ps (ok e) (ok es) bad good h = one_more p e ps es (good e refl) h

  as_value-errs : (o : Option T) (f : Error) → as_value convert o ≡ err f → f ≡ conversion_error
  as_value-errs none f h = ground (arith, h)
  as_value-errs (some x) f h = ground (arith, h)

  entry_of-errs :
      (hint : Hint) (m : Members) (f : Error)
      → entry_of convert hint (some m) ≡ err f
      → f ≡ conversion_error
  unfolding entry_of
  entry_of-errs hint m f h = elim (Bool-cases (has_key "error" m)) [
    | inl is_error ↦ ground (arith, h, is_error)
    | inr is_result ↦
        as_value-errs (convert (or_null (get "result" m)) hint) f (ground (arith, h, is_result))
  ]

  module _ (expected : List String) (d : Dict String Members) (h : Indexes expected d) where
    entry-Collected :
        (hint : Hint) (i : String) (method : String) (params : Value)
        → has i expected ≡ true
        → ((f : Error) → entry_of convert hint (Dict.get i d) ≡ err f → f ≡ conversion_error)
          × ((e : Entry T)
              → entry_of convert hint (Dict.get i d) ≡ ok e
              → EntryFor d (call_item method hint params, some i) e)
    entry-Collected hint i method params known =
        let (m, found) = h.finds i known in
        (
          λ f bad. entry_of-errs hint m f (ap (entry_of convert hint) (sym found) ∙ bad),
          λ e good. (m, found, h.valid i m found, ap (entry_of convert hint) (sym found) ∙ good),
        )

    collect-Collected :
        (ps : List (Item Hint × Option String))
        → ((i : String) → has i (ids_of ps) ≡ true → has i expected ≡ true)
        → Collected d ps (collect convert d ps)
    unfolding collect
    collect-Collected [] known = none_left
    collect-Collected ((notify_item method params, none) ∷ rest) known =
        cons_entry-Collected d _ rest (ok silence) (collect convert d rest)
          (λ f bad. absurd (ground (arith, bad))) (λ e good. ground (arith, good))
          (collect-Collected rest known)
    collect-Collected ((notify_item method params, some i) ∷ rest) known =
        cons_entry-Collected d _ rest (ok silence) (collect convert d rest)
          (λ f bad. absurd (ground (arith, bad))) (λ e good. ground (arith, good))
          (collect-Collected rest (λ j found. known j (ground (arith, found))))
    collect-Collected ((call_item method hint params, none) ∷ rest) known =
        cons_entry-Collected d _ rest (ok silence) (collect convert d rest)
          (λ f bad. absurd (ground (arith, bad))) (λ e good. ground (arith, good))
          (collect-Collected rest known)
    collect-Collected ((call_item method hint params, some i) ∷ rest) known =
        let (bad, good) =
          entry-Collected hint i method params (known i (ground (arith, beq_refl i))) in
        cons_entry-Collected d _ rest (entry_of convert hint (Dict.get i d))
          (collect convert d rest) bad good
          (collect-Collected rest (λ j found. known j (ground (arith, found))))

  -- What `batch` returns for a reply: the error of a refusal, or the entries of a list.
  abbrev pub Replied : List (Item Hint × Option String) → Reply → Type 0
  Replied paired (refusal m) =
      collect_reply convert paired (refusal m) ≡ err (error_in (get "error" m))
  Replied paired (replies ms) =
      Collected (by_id ms) paired (collect_reply convert paired (replies ms))

  Matched-Replied :
      (paired : List (Item Hint × Option String)) (r : Result Reply)
      → Matched (ids_of paired) r
      → (reply : Reply) → r ≡ ok reply
      → Replied paired reply
  Matched-Replied paired (err e) h reply same = absurd (ground (arith, same))
  Matched-Replied paired (ok (refusal m)) h (refusal n) same = refl
  Matched-Replied paired (ok (refusal m)) h (replies ms) same = absurd (ground (arith, same))
  Matched-Replied paired (ok (replies ms)) h (refusal n) same = absurd (ground (arith, same))
  Matched-Replied paired (ok (replies ms)) h (replies ns) same =
      let same_list : ms ≡ ns = ground (arith, same) in
      subst (λ (xs : List Members). Replied paired (replies xs)) same_list
        (collect-Collected (ids_of paired) (by_id ms) h.0 paired (λ i known. known))

  pub batch-Replied :
      (paired : List (Item Hint × Option String)) (message : Value) (reply : Reply)
      → batch_response (ids_of paired) message ≡ ok reply
      → Replied paired reply
  batch-Replied paired message reply accepted =
      Matched-Replied paired _ (batch_response-Matched (ids_of paired) message) reply accepted
