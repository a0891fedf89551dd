-- ===== src/Auth/Base/Lookup.antt =====
-- What `validate` of the session base answers, by what is seen in the store under the digest.
use wire_rpc.Prelude.{
  ℕ, ◌≡◌, refl, ap, String, string_eq, Bool, true, false, Option, none, some, arith, ◌==◌,
  if◌then◌else◌, if_both, Bool-cases, inl, inr,
}
use wire_rpc.Auth.Sessions.{Session, Store, record_of}
use wire_rpc.Auth.Sessions.Prune.{live}
use wire_rpc.Auth.Sessions.Invariant.{IsValid}
use wire_rpc.Auth.Sessions.View.{view, get-view}
use wire_rpc.Auth.Base.{Json, Answer, answered, is_token, read, principal_in, get, validate}

module _ (json : Json) (digest : String → String) where
  -- The answer to an id, when the store has this session for it.
  abbrev pub reply_to : String → Option Session → Answer (Option String)
  reply_to id session =
      if is_token id then principal_in (read json digest (record_of session)) else answered none

  pub validate-view :
      (id : String) (t : ℕ) (s : Store)
      → IsValid s
      → (validate json digest id t s).0 ≡ reply_to id (view t s (digest id))
  unfolding validate get
  validate-view id t s v = elim (Bool-cases (is_token id)) [
    | inl good ↦
        rw good (ap (λ o. principal_in (read json digest o)) (get-view (digest id) t s v).0)
    | inr bad ↦ rw bad refl
  ]

-- The digests of two ids are the same just where the ids are.
pub digest-beq :
    (digest : String → String) (a b : String)
    → (digest a ≡ digest b → a ≡ b)
    → (digest a == digest b) ≡ (a == b)
digest-beq digest a b no_collision = ground (
  arith,
  string_eq.beq_iff a b,
  string_eq.beq_iff (digest a) (digest b),
  ap digest {x = a} {y = b},
  no_collision,
)

pub live-some : (t : ℕ) (x : Option Session) (y : Session) → live t x ≡ some y → x ≡ some y
live-some t none y e = absurd (ground (arith, e))
live-some t (some (v, e')) y e = ground (arith, e)

-- Conditionals whose branches are the same where they are taken.
pub if-congr {ℓ} :
    {A : Type ℓ} (b : Bool) {x x' y y' : A}
    → (b ≡ true → x ≡ x')
    → (b ≡ false → y ≡ y')
    → (if b then x else y) ≡ (if b then x' else y')
if-congr true h k = h refl
if-congr false h k = k refl

pub reply_to-if :
    (json : Json) (digest : String → String) (id : String) (b c : Bool) (x y : Option Session)
    → b ≡ c
    → reply_to json digest id (if b then x else y)
      ≡ (if c then reply_to json digest id x else reply_to json digest id y)
reply_to-if json digest id true true x y e = refl
reply_to-if json digest id false false x y e = refl
reply_to-if json digest id true false x y e = absurd (ground (arith, e))
reply_to-if json digest id false true x y e = absurd (ground (arith, e))

pub reply_to-none :
    (json : Json) (digest : String → String) (id : String)
    → reply_to json digest id none ≡ answered none
reply_to-none json digest id =
    if_both (λ a. a ≡ answered none) (is_token id) (λ _. refl) (λ _. refl)

-- Two ids of the right form get the same answer for one session.
pub reply_to-token :
    (json : Json) (digest : String → String) (a b : String) (x : Option Session)
    → is_token a ≡ true
    → is_token b ≡ true
    → reply_to json digest a x ≡ reply_to json digest b x
reply_to-token json digest a b x good_a good_b = rw (good_a, good_b) refl

pub reply_to-bad :
    (json : Json) (digest : String → String) (id : String) (x : Option Session)
    → is_token id ≡ false
    → reply_to json digest id x ≡ answered none
reply_to-bad json digest id x bad = rw bad refl
