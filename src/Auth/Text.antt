-- ===== src/Auth/Text.antt =====
-- wire_rpc/auth/_util.py: the texts that authentication accepts, and `validated`, which asks a
-- validator. A validator is outside code and a parameter; its result is a decoded value.
use Prim.Native.Char.{code}
use mathlib.Core.Path.{subst}
use wire_rpc.Prelude.{
  ℕ, ◌≡◌, ap, arith, Bool-cases, Option-cases, inl, inr, String, Bool, true, ◌&&◌, ◌||◌, not,
  Option, none, some, List, [], ◌∷◌, length, ltb, leb, ◌==◌, nat_eq, if◌then◌else◌,
}
use wire_rpc.Envelope.{Value, null, bool, int, float, text, blob, array, object}

-- The code points of a text.
abbrev pub codes : String → List ℕ
codes String.[] = []
codes (String.◌∷◌ c s) = code c ∷ codes s

abbrev pub every : (ℕ → Bool) → List ℕ → Bool
every p [] = true
every p (c ∷ cs) = p c && every p cs

-- not (ord(c) < 33 or ord(c) == 127)
abbrev pub is_plain : ℕ → Bool
is_plain c = not (ltb c 33 || c == 127)

abbrev pub is_identity : String → Bool
is_identity s = leb 1 (length (codes s)) && leb (length (codes s)) 255 && every is_plain (codes s)

-- `identity`; `none` is its ValueError
unfoldable pub identity : Value → Option String
identity (text s) = if is_identity s then some s else none
identity _ = none

-- [\x21-\x7e]
abbrev pub is_printable : ℕ → Bool
is_printable c = leb 33 c && leb c 126

unfoldable pub token_text : String → ℕ → Bool
token_text s maximum =
    leb 1 (length (codes s)) && leb (length (codes s)) maximum && every is_printable (codes s)

-- What a call of a validator gives; `broken` is any exception but AuthUnavailableError.
pub data Checked : Type 0 where
  gave : Option Value → Checked
  unavailable broken : Checked

pub data Verdict : Type 0 where
  rejected undecided : Verdict
  accepted : String → Verdict

abbrev pub verdict_of : Option String → Verdict
verdict_of none = undecided
verdict_of (some principal) = accepted principal

-- `validated`; `undecided` is AuthUnavailableError
unfoldable pub validated : Checked → Verdict
unfolding identity
validated (gave none) = rejected
validated (gave (some v)) = verdict_of (identity v)
validated unavailable = undecided
validated broken = undecided

-- What `identity` lets through is a text of the form that it asks for.
pub identity_lem :
    (v : Value) (p : String) → identity v ≡ some p → (v ≡ text p) × (is_identity p ≡ true)
unfolding identity
identity_lem (text s) p e = elim (Bool-cases (is_identity s)) [
  | inl good ↦
      let same : s ≡ p = ground (arith, e, good) in
      (ap text same, subst (λ q. is_identity q ≡ true) same good)
  | inr bad ↦ absurd (ground (arith, e, bad))
]
identity_lem null p e = absurd (ground (arith, e))
identity_lem (bool b) p e = absurd (ground (arith, e))
identity_lem (int n) p e = absurd (ground (arith, e))
identity_lem (float n) p e = absurd (ground (arith, e))
identity_lem (blob b) p e = absurd (ground (arith, e))
identity_lem (array vs) p e = absurd (ground (arith, e))
identity_lem (object m) p e = absurd (ground (arith, e))

pub identity-text : (p : String) → is_identity p ≡ true → identity (text p) ≡ some p
unfolding identity
identity-text p good = ground (arith, good)

-- An accepted principal is a text that `identity` lets through.
pub validated-IsIdentity :
    (c : Checked) (p : String) → validated c ≡ accepted p → is_identity p ≡ true
unfolding validated
validated-IsIdentity (gave none) p e = absurd (ground (arith, e))
validated-IsIdentity (gave (some v)) p e = elim (Option-cases (identity v)) [
  | inl refused ↦ absurd (ground (arith, e, refused))
  | inr (q, passed) ↦ ground (arith, e, passed, identity_lem v q passed)
]
validated-IsIdentity unavailable p e = absurd (ground (arith, e))
validated-IsIdentity broken p e = absurd (ground (arith, e))
