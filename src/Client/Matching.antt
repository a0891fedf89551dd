-- ===== src/Client/Matching.antt =====
-- A batch reply that wire_rpc/client.py accepts matches the ids that were sent.
use mathlib.Core.Path.{subst}
use wire_rpc.Prelude.{
  ◌≡◌, sym, ap, String, string_eq, true, false, ◌&&◌, not, Option, none, some, List, [], ◌∷◌, arith,
  if_both, Bool-cases, ◌==◌, inl, inr, All, beq_refl,
}
use wire_rpc.Prelude.Dict
use wire_rpc.Prelude.Dict.{Dict, get-put}
use wire_rpc.Envelope.{
  Value, null, bool, int, float, text, blob, array, object, Values, nil, cons, Members, get,
}
use wire_rpc.Client.{
  Result, ok, err, is_id, has, all_in, validate_response, check_id, check_one, prepend, check_step,
  check_all, batch_response, as_replies, is_null, has_key, validate_error, Reply, refusal, replies,
}
use wire_rpc.Client.Batch.{text_of, put_id, by_id_from, by_id}

is_id-text_of : (v : Option Value) (i : String) → is_id v i ≡ true → text_of v ≡ some i
is_id-text_of none i h = ground (arith, h)
is_id-text_of (some null) i h = ground (arith, h)
is_id-text_of (some (bool b)) i h = ground (arith, h)
is_id-text_of (some (int n)) i h = ground (arith, h)
is_id-text_of (some (float n)) i h = ground (arith, h)
is_id-text_of (some (text s)) i h = ground (arith, h, string_eq.beq_iff s i)
is_id-text_of (some (blob b)) i h = ground (arith, h)
is_id-text_of (some (array vs)) i h = ground (arith, h)
is_id-text_of (some (object m)) i h = ground (arith, h)

-- A valid response to a request has its id.
validate_response-id :
    (m : Members) (i : String) → validate_response m i ≡ true → text_of (get "id" m) ≡ some i
unfolding validate_response
validate_response-id m i h = is_id-text_of (get "id" m) i (ground (arith, h))

-- The envelopes that the loop takes after `seen`.
pub data Matches (expected : List String) : List String → List Members → Type 0 where
  finish : (seen : List String) → all_in expected seen ≡ true → Matches expected seen []
  more :
      (seen : List String) (i : String) (m : Members) (ms : List Members)
      → has i expected ≡ true
      → has i seen ≡ false
      → validate_response m i ≡ true
      → Matches expected (i ∷ seen) ms
      → Matches expected seen (m ∷ ms)

module _ (expected : List String) where
  abbrev IsTaken : List String → Result (String × Members) → Type 0
  IsTaken seen (err e) = Unit
  IsTaken seen (ok (i, m)) =
      (has i expected ≡ true) × (has i seen ≡ false) × (validate_response m i ≡ true)

  check_id-IsTaken :
      (seen : List String) (m : Members) (v : Option Value)
      → IsTaken seen (check_id expected seen m v)
  unfolding check_id
  check_id-IsTaken seen m none = tt
  check_id-IsTaken seen m (some null) = tt
  check_id-IsTaken seen m (some (bool b)) = tt
  check_id-IsTaken seen m (some (int n)) = tt
  check_id-IsTaken seen m (some (float n)) = tt
  check_id-IsTaken seen m (some (blob b)) = tt
  check_id-IsTaken seen m (some (array vs)) = tt
  check_id-IsTaken seen m (some (object o)) = tt
  check_id-IsTaken seen m (some (text i)) =
      if_both (IsTaken seen) (has i expected && not (has i seen) && validate_response m i)
        (λ yes. (ground (arith, yes), ground (arith, yes), ground (arith, yes))) (λ _. tt)

  check_one-IsTaken : (seen : List String) (v : Value) → IsTaken seen (check_one expected seen v)
  unfolding check_one
  check_one-IsTaken seen null = tt
  check_one-IsTaken seen (bool b) = tt
  check_one-IsTaken seen (int n) = tt
  check_one-IsTaken seen (float n) = tt
  check_one-IsTaken seen (text s) = tt
  check_one-IsTaken seen (blob b) = tt
  check_one-IsTaken seen (array vs) = tt
  check_one-IsTaken seen (object m) = check_id-IsTaken seen m (get "id" m)

  abbrev MatchesIf : List String → Result (List Members) → Type 0
  MatchesIf seen (err e) = Unit
  MatchesIf seen (ok ms) = Matches expected seen ms

  prepend-Matches :
      (seen : List String) (i : String) (m : Members) (r : Result (List Members))
      → (has i expected ≡ true) × (has i seen ≡ false) × (validate_response m i ≡ true)
      → MatchesIf (i ∷ seen) r
      → MatchesIf seen (prepend m r)
  prepend-Matches seen i m (err e) t h = tt
  prepend-Matches seen i m (ok ms) t h = more seen i m ms t.0 t.1 t.2 h

  check_step-Matches :
      (seen : List String) (go : String → Result (List Members)) (r : Result (String × Members))
      → IsTaken seen r
      → ((i : String) → MatchesIf (i ∷ seen) (go i))
      → MatchesIf seen (check_step go r)
  check_step-Matches seen go (err e) t h = tt
  check_step-Matches seen go (ok (i, m)) t h = prepend-Matches seen i m (go i) t (h i)

  check_all-Matches :
      (seen : List String) (vs : Values) → MatchesIf seen (check_all expected seen vs)
  unfolding check_all
  check_all-Matches seen nil =
      if_both (MatchesIf seen) (all_in expected seen && all_in seen expected)
        (λ yes. finish seen (ground (arith, yes))) (λ _. tt)
  check_all-Matches seen (cons v vs) =
      check_step-Matches seen _ (check_one expected seen v) (check_one-IsTaken seen v)
        (λ i. check_all-Matches (i ∷ seen) vs)

all_in-has :
    (xs ys : List String) (i : String) → all_in xs ys ≡ true → has i xs ≡ true → has i ys ≡ true
all_in-has [] ys i h k = ground (arith, k)
all_in-has (x ∷ xs) ys i h k = ground (arith, h, k, string_eq.beq_iff x i, all_in-has xs ys i)

-- What the dict of envelopes by id has, once the ids of `seen` are in it.
pub record Indexes (seen : List String) (d : Dict String Members) : Type 0 where
  pub finds : (i : String) → has i seen ≡ true → (m : Members) × (Dict.get i d ≡ some m)
  pub valid : (i : String) (m : Members) → Dict.get i d ≡ some m → validate_response m i ≡ true

Indexes-put :
    (seen : List String) (d : Dict String Members) (i : String) (m : Members)
    → validate_response m i ≡ true
    → Indexes seen d
    → Indexes (i ∷ seen) (Dict.put i m d)
Indexes-put seen d i m v h = record {
  finds = λ j found. elim (Bool-cases (i == j)) [
    | inl same ↦ (m, ground (arith, get-put i j m d, same))
    | inr other ↦
        let (n, e) = h.finds j (ground (arith, found, other)) in
        (n, ground (arith, get-put i j m d, other, e))
  ];
  valid = λ j n found. elim (Bool-cases (i == j)) [
    | inl same ↦ ground (arith, get-put i j m d, same, found, v, string_eq.beq_iff i j)
    | inr other ↦ h.valid j n (ground (arith, get-put i j m d, other, found))
  ];
}

put_id-valid :
    (m : Members) (i : String) (d : Dict String Members)
    → validate_response m i ≡ true
    → Dict.put i m d ≡ put_id (text_of (get "id" m)) m d
put_id-valid m i d v = ap (λ (o : Option String). put_id o m d) (sym (validate_response-id m i v))

module _ (expected : List String) where
  Matches-Indexes :
      (seen : List String) (ms : List Members) (d : Dict String Members)
      → Matches expected seen ms
      → Indexes seen d
      → Indexes expected (by_id_from d ms)
  unfolding by_id_from
  Matches-Indexes seen [] d (finish _ every) h = record {
    finds = λ i found. h.finds i (all_in-has expected seen i every found);
    valid = h.valid;
  }
  Matches-Indexes seen (m ∷ ms) d (more _ i _ _ known fresh v rest) h =
      subst (λ (e : Dict String Members). Indexes expected (by_id_from e ms)) (put_id-valid m i d v)
        (Matches-Indexes (i ∷ seen) ms (Dict.put i m d) rest (Indexes-put seen d i m v h))

  -- An envelope that is in the dict stays there.
  by_id_from-keeps :
      (seen : List String) (ms : List Members) (d : Dict String Members) (j : String) (n : Members)
      → Matches expected seen ms
      → has j seen ≡ true
      → Dict.get j d ≡ some n
      → Dict.get j (by_id_from d ms) ≡ some n
  unfolding by_id_from
  by_id_from-keeps seen [] d j n h k found = found
  by_id_from-keeps seen (m ∷ ms) d j n (more _ i _ _ known fresh v rest) k found =
      subst (λ (e : Dict String Members). Dict.get j (by_id_from e ms) ≡ some n)
        (put_id-valid m i d v)
        (by_id_from-keeps (i ∷ seen) ms (Dict.put i m d) j n rest (ground (arith, k))
          (ground (arith, fresh, k, found, get-put i j m d, string_eq.beq_iff i j)))

  -- The envelope is the one that is found under an id that was sent.
  abbrev pub IsExpected : Dict String Members → Members → Type 0
  IsExpected d m = (i : String) × (has i expected ≡ true) × (Dict.get i d ≡ some m)

  Matches-All :
      (seen : List String) (ms : List Members) (d : Dict String Members)
      → Matches expected seen ms
      → All (IsExpected (by_id_from d ms)) ms
  unfolding by_id_from
  Matches-All seen [] d h = tt
  Matches-All seen (m ∷ ms) d (more _ i _ _ known fresh v rest) =
      subst (λ (e : Dict String Members). All (IsExpected (by_id_from e ms)) (m ∷ ms))
        (put_id-valid m i d v)
        (
          (
            i,
            known,
            by_id_from-keeps (i ∷ seen) ms (Dict.put i m d) i m rest (ground (arith, beq_refl i))
                (ground (arith, get-put i i m d, beq_refl i)),
          ),
          Matches-All (i ∷ seen) ms (Dict.put i m d) rest,
        )

  -- What an accepted batch reply is.
  abbrev pub Matched : Result Reply → Type 0
  Matched (err e) = Unit
  Matched (ok (refusal m)) = Unit
  Matched (ok (replies ms)) = Indexes expected (by_id ms) × All (IsExpected (by_id ms)) ms

  none-Indexes : Indexes [] []
  unfolding Dict.get
  none-Indexes = record {
    finds = λ i found. absurd (ground (arith, found));
    valid = λ i m found. absurd (ground (arith, found));
  }

  as_replies-Matched :
      (r : Result (List Members)) → MatchesIf expected [] r → Matched (as_replies r)
  as_replies-Matched (err e) h = tt
  as_replies-Matched (ok ms) h = (Matches-Indexes [] ms [] h none-Indexes, Matches-All [] ms [] h)

  pub batch_response-Matched : (message : Value) → Matched (batch_response expected message)
  unfolding batch_response
  batch_response-Matched null = tt
  batch_response-Matched (bool b) = tt
  batch_response-Matched (int n) = tt
  batch_response-Matched (float n) = tt
  batch_response-Matched (text s) = tt
  batch_response-Matched (blob b) = tt
  batch_response-Matched (object m) =
      if_both Matched (is_null (get "id" m) && has_key "error" m && validate_error (get "error" m))
        (λ _. tt) (λ _. tt)
  batch_response-Matched (array vs) =
      as_replies-Matched (check_all expected [] vs) (check_all-Matches expected [] vs)
