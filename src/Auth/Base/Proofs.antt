-- ===== src/Auth/Base/Proofs.antt =====
-- `validate` after `create`, `rotate` and `destroy`: an id is good from when it is given out until its
-- session expires, is replaced or ends.
use mathlib.Core.Path.{subst}
use wire_rpc.Prelude.{
  ℕ, ◌+◌, ◌≤◌, ◌≡◌, refl, sym, ap, ◌∙◌, String, string_eq, Bool, true, false, Option, none, some,
  arith, ltb, ◌==◌, if◌then◌else◌, if_both, Bool-cases, inl, inr,
}
use wire_rpc.Prelude.Dict
use wire_rpc.Envelope.{Value, text, object, Members}
use wire_rpc.Auth.Text.{identity, is_identity, identity_lem, identity-text}
use wire_rpc.Auth.Sessions.{
  Session, Store, Result, err, ok, collision, capacity, corrupt, record_of,
}
use wire_rpc.Auth.Sessions
use wire_rpc.Auth.Sessions.Prune.{live}
use wire_rpc.Auth.Sessions.Invariant.{IsValid, create-IsValid, rotate-IsValid, destroy-IsValid}
use wire_rpc.Auth.Sessions.View.{view, create-view, rotate-view, destroy-view}
use wire_rpc.Auth.Base.{
  Dumped, dumped, bad_value, bad_type, Json, Answer, answered, call_result, is_token, payload_of,
  store_new, create_checked, create, read, principal_in, validate, destroy, rotate, rotated,
  make_record, identity_in,
}
use wire_rpc.Auth.Base.Lookup.{
  reply_to, validate-view, digest-beq, live-some, if-congr, reply_to-if, reply_to-none,
  reply_to-token, reply_to-bad,
}

call_result-answered :
    {A B : Type 0} (f : A → Answer B) (r : Result A) (b : B)
    → call_result f r ≡ answered b
    → (a : A) × (r ≡ ok a) × (f a ≡ answered b)
call_result-answered f (err collision) b e = absurd (ground (arith, e))
call_result-answered f (err capacity) b e = absurd (ground (arith, e))
call_result-answered f (err corrupt) b e = absurd (ground (arith, e))
call_result-answered f (ok a) b e = (a, refl, e)

module _ (json : Json) (digest : String → String) where
  -- What `create` does when it returns an id: the record that it stores, and under which key.
  abbrev IsStored :
      String → String → Members → String → ℕ → ℕ → Store → Answer String × Store → Type 0
  IsStored given p m token t0 t1 s r =
      (value : String) × (json.dumps p m ≡ dumped value)
      × (given ≡ token)
      × ((Sessions.create (digest token) value t0 t1 s).0 ≡ ok tt)
      × (r.1 ≡ (Sessions.create (digest token) value t0 t1 s).1)

  store_new-IsStored :
      (o : Dumped) (given p : String) (m : Members) (token : String) (t0 t1 : ℕ) (s : Store)
      → json.dumps p m ≡ o
      → (store_new json digest token o t0 t1 s).0 ≡ answered given
      → IsStored given p m token t0 t1 s (store_new json digest token o t0 t1 s)
  store_new-IsStored bad_value given p m token t0 t1 s d e = absurd (ground (arith, e))
  store_new-IsStored bad_type given p m token t0 t1 s d e = absurd (ground (arith, e))
  store_new-IsStored (dumped value) given p m token t0 t1 s d e =
      if_both
        (λ (r : Answer String × Store). r.0 ≡ answered given → IsStored given p m token t0 t1 s r)
        (ltb 16384 (json.size value)) (λ _ e. absurd (ground (arith, e)))
        (λ _ e.
          let (a, was, same) =
            call_result-answered (λ _. answered token)
              (Sessions.create (digest token) value t0 t1 s).0 given e in
          (value, d, ground (arith, same), was, refl))
        e

  create_checked-IsStored :
      (o : Option String) (q : Option Members) (given token : String) (t0 t1 : ℕ) (s : Store)
      → (create_checked json digest token o q t0 t1 s).0 ≡ answered given
      → (p : String) × (m : Members) × (o ≡ some p)
        × IsStored given p m token t0 t1 s (create_checked json digest token o q t0 t1 s)
  create_checked-IsStored none q given token t0 t1 s e = absurd (ground (arith, e))
  create_checked-IsStored (some p) none given token t0 t1 s e = absurd (ground (arith, e))
  create_checked-IsStored (some p) (some m) given token t0 t1 s e =
      (p, m, refl, store_new-IsStored (json.dumps p m) given p m token t0 t1 s refl e)

read-stored :
    (json : Json) (digest : String → String) (p value : String) (m : Members)
    → ((p value : String) (m : Members)
        → json.dumps p m ≡ dumped value
        → (json.load_principal value ≡ some (text p)) × (json.load_payload value ≡ some (object m)))
    → is_identity p ≡ true
    → json.dumps p m ≡ dumped value
    → principal_in (read json digest (some value)) ≡ answered (some p)
read-stored json digest p value m reads good d =
    ap (λ o. principal_in (make_record (identity_in o) (json.load_payload value)))
      (reads p value m d).0
    ∙ ap (λ q. principal_in (make_record (identity (text p)) q)) (reads p value m d).1
    ∙ ap (λ o. principal_in (make_record o (some (object m)))) (identity-text p good)

-- A stored record that is seen until it expires.
reply_to-stored :
    (json : Json) (digest : String → String) (token p value : String) (expiry t : ℕ)
    → is_token token ≡ true
    → principal_in (read json digest (some value)) ≡ answered (some p)
    → reply_to json digest token (live t (some (value, expiry)))
      ≡ (if ltb t expiry then answered (some p) else answered none)
reply_to-stored json digest token p value expiry t good reads = elim (Bool-cases (ltb t expiry)) [
  | inl alive ↦ rw (alive, good) reads
  | inr dead ↦ rw (dead, good) refl
]

module _ (json : Json) (digest : String → String)
    (reads : (p value : String) (m : Members)
      → json.dumps p m ≡ dumped value
      → (json.load_principal value ≡ some (text p))
        × (json.load_payload value ≡ some (object m))) where
  -- After a `create` that returns, the id that it gives out is the token, which no session had, `validate`
  -- answers it with the user until the ttl has passed since the clock reading of the store, and not from
  -- then on, and every other id as before; where records read back as they were written, the token has
  -- the form of an id, and its digest is not that of the other id.
  pub create-validate :
      (user_id : Value) (payload : Option Value) (given token : String) (t0 t1 t : ℕ) (s : Store)
      (id : String)
      → IsValid s
      → is_token token ≡ true
      → t0 ≤ t
      → (digest token ≡ digest id → token ≡ id)
      → (create json digest user_id payload token t0 t1 s).0 ≡ answered given
      → (p : String) × (user_id ≡ text p)
        × (given ≡ token)
        × ((validate json digest token t0 s).0 ≡ answered none)
        × ((validate json digest id t (create json digest user_id payload token t0 t1 s).1).0 ≡ (
            if token == id
            then if ltb t (t1 + s.ttl) then answered (some p) else answered none
            else (validate json digest id t s).0))
  unfolding create
  create-validate user_id payload given token t0 t1 t s id v good le no_collision e =
      let (p, m, user, stored) =
        create_checked-IsStored json digest (identity user_id) (payload_of payload) given token t0
          t1 s e in
      let (value, was_dumped, same, created, left) = stored in
      let (fresh, seen) = create-view (digest token) value t0 t1 s v created in
      let is_user = identity_lem user_id p user in
      (
        p,
        is_user.0,
        same,
        validate-view json digest token t0 s v
            ∙ ap (reply_to json digest token) fresh
            ∙ rw good refl,
        ap (λ s'. (validate json digest id t s').0) left
            ∙ validate-view json digest id t (Sessions.create (digest token) value t0 t1 s).1
                (create-IsValid (digest token) value t0 t1 s v)
            ∙ ap (reply_to json digest id) (seen t (digest id) le)
            ∙ reply_to-if json digest id (digest token == digest id) (token == id)
                (live t (some (value, t1 + s.ttl))) (view t s (digest id))
                (digest-beq digest token id no_collision)
            ∙ if-congr (token == id)
                (λ own.
                  reply_to-stored json digest id p value (t1 + s.ttl) t
                    (subst (λ i. is_token i ≡ true) ((string_eq.beq_iff token id).0 own) good)
                    (read-stored json digest p value m reads is_user.1 was_dumped))
                (λ other. sym (validate-view json digest id t s v)),
      )

module _ (json : Json) (digest : String → String) where
  rotated-answered :
      (token fresh : String) (r : Result Bool × Store)
      → (rotated token r).0 ≡ answered (some fresh)
      → (r.0 ≡ ok true) × (fresh ≡ token)
  rotated-answered token fresh (err collision, s) e = absurd (ground (arith, e))
  rotated-answered token fresh (err capacity, s) e = absurd (ground (arith, e))
  rotated-answered token fresh (err corrupt, s) e = absurd (ground (arith, e))
  rotated-answered token fresh (ok true, s) e = (refl, ground (arith, e))
  rotated-answered token fresh (ok false, s) e = absurd (ground (arith, e))

  -- After a `rotate` that returns an id, which is the new token, `validate` answers the token as it
  -- answered the old id, with the same expiry, the old id is answered as unknown, and every other id as
  -- before; where the token has the form of an id and the digests of the token and of the old id are not
  -- that of the other id.
  pub rotate-validate :
      (old token given : String) (t0 t1 t : ℕ) (s : Store) (id : String)
      → IsValid s
      → is_token token ≡ true
      → t0 ≤ t1
      → t1 ≤ t
      → (digest token ≡ digest id → token ≡ id)
      → (digest old ≡ digest id → old ≡ id)
      → (rotate json digest old token t0 t1 s).0 ≡ answered (some given)
      → (given ≡ token)
        × ((validate json digest id t (rotate json digest old token t0 t1 s).1).0 ≡ (
            if token == id
            then (validate json digest old t s).0
            else if old == id
            then answered none
            else (validate json digest id t s).0))
  unfolding rotate
  rotate-validate old token given t0 t1 t s id v good le le' apart_new apart_old =
      if_both
        (λ (r : Answer (Option String) × Store).
          r.0 ≡ answered (some given)
          → (given ≡ token)
            × ((validate json digest id t r.1).0 ≡ (
                if token == id
                then (validate json digest old t s).0
                else if old == id
                then answered none
                else (validate json digest id t s).0)))
        (is_token old)
        (λ old_good e.
          let (moved, same) =
            rotated-answered token given (Sessions.rotate (digest old) (digest token) t0 t1 s) e in
          let (session, was, fresh, seen) =
            rotate-view (digest old) (digest token) t0 t1 s v le moved in
          let held : view t s (digest old) ≡ live t (some session) =
            ap (live t) (live-some t0 (Dict.get (digest old) s.sessions) session was) in
          (
            same,
            validate-view json digest id t (Sessions.rotate (digest old) (digest token) t0 t1 s).1
                  (rotate-IsValid (digest old) (digest token) t0 t1 s v)
                ∙ ap (reply_to json digest id) (seen t (digest id) le')
                ∙ reply_to-if json digest id (digest token == digest id) (token == id)
                    (live t (some session))
                    (if digest old == digest id then none else view t s (digest id))
                    (digest-beq digest token id apart_new)
                ∙ if-congr (token == id)
                    (λ own.
                      reply_to-token json digest id old (live t (some session))
                        (subst (λ i. is_token i ≡ true) ((string_eq.beq_iff token id).0 own) good)
                        old_good
                      ∙ ap (reply_to json digest old) (sym held)
                      ∙ sym (validate-view json digest old t s v))
                    (λ other.
                      reply_to-if json digest id (digest old == digest id) (old == id) none
                        (view t s (digest id)) (digest-beq digest old id apart_old)
                      ∙ if-congr (old == id) (λ _. reply_to-none json digest id)
                          (λ _. sym (validate-view json digest id t s v))),
          ))
        (λ old_bad e. absurd (ground (arith, e)))

  -- After `destroy` of an id, `validate` answers it as unknown and every other id as before.
  pub destroy-validate :
      (gone : String) (t0 t1 t : ℕ) (s : Store) (id : String)
      → IsValid s
      → t0 ≤ t1
      → t1 ≤ t
      → (digest gone ≡ digest id → gone ≡ id)
      → (validate json digest id t (destroy json digest gone t0 t1 s)).0
        ≡ (if gone == id then answered none else (validate json digest id t s).0)
  unfolding destroy
  destroy-validate gone t0 t1 t s id v le le' apart =
      if_both
        (λ s'.
          (validate json digest id t s').0
          ≡ (if gone == id then answered none else (validate json digest id t s).0))
        (is_token gone)
        (λ _.
          validate-view json digest id t (Sessions.destroy (digest gone) t0 t1 s)
            (destroy-IsValid (digest gone) t0 t1 s v)
          ∙ ap (reply_to json digest id) (destroy-view (digest gone) t0 t1 t s (digest id) v le le')
          ∙ reply_to-if json digest id (digest gone == digest id) (gone == id) none
              (view t s (digest id)) (digest-beq digest gone id apart)
          ∙ if-congr (gone == id) (λ _. reply_to-none json digest id)
              (λ _. sym (validate-view json digest id t s v)))
        (λ bad.
          validate-view json digest id t s v
          ∙ if_both (λ a. reply_to json digest id (view t s (digest id)) ≡ a) (gone == id)
              (λ own.
                reply_to-bad json digest id (view t s (digest id))
                  (subst (λ i. is_token i ≡ false) ((string_eq.beq_iff gone id).0 own) bad))
              (λ other. sym (validate-view json digest id t s v)))
