-- ===== src/Auth/ApiKey.antt =====
-- wire_rpc/auth/credentials/validators.py: `ApiKeyRecord` and `ApiKeyValidator`. The hash, the lookup of
-- a key and the clock are outside code and parameters. `principal` and the flags have their types here,
-- so that the checks of `__post_init__` on types are not needed; an expiry is a number of ticks.
pub mod Issued
mod Examples
use Prim.Native.Char.{Char, code}
use mathlib.Core.Path.{subst}
use wire_rpc.Prelude.{
  ℕ, suc, ◌+◌, ◌≤◌, ◌≡◌, refl, ap, ◌∙◌, sym, String, string_eq, Bool, true, false, ◌&&◌, ◌||◌, not,
  Option, none, some, List, [], ◌∷◌, ◌++◌, length, ltb, leb, ◌==◌, nat_eq, if◌then◌else◌, if_both,
  arith, Bool-cases, Option-cases, inl, inr,
}
use wire_rpc.Envelope.{text}
use wire_rpc.Auth.Text.{
  codes, every, is_identity, identity, identity-text, identity_lem, token_text, Verdict, rejected,
  undecided, accepted, verdict_of,
}

pub record ApiKeyRecord : Type 0 where
  pub principal : String
  pub secret_digest : String
  pub expires_at : Option ℕ
  pub enabled : Bool

-- [0-9a-f]{64}
abbrev pub is_hex : ℕ → Bool
is_hex c = leb 48 c && leb c 57 || leb 97 c && leb c 102

-- `__post_init__`; `none` is its ValueError
unfoldable pub make : String → String → Option ℕ → Bool → Option ApiKeyRecord
make principal secret_digest expires_at enabled =
    if is_identity principal
      && length (codes secret_digest) == 64
      && every is_hex (codes secret_digest)
    then some (record {
      principal = principal;
      secret_digest = secret_digest;
      expires_at = expires_at;
      enabled = enabled;
    })
    else none

-- `from_secret`
unfoldable pub from_secret : (String → String) → String → String → Option ℕ → Option ApiKeyRecord
unfolding make
from_secret sha256 principal secret expires_at =
    if not (is_identity principal) || not (token_text secret 4096) || ltb (length (codes secret)) 32
    then none
    else make principal (sha256 secret) expires_at true

abbrev pub cons_first : Char → Option (String × String) → Option (String × String)
cons_first c none = none
cons_first c (some (a, b)) = some (String.◌∷◌ c a, b)

-- token.split('.', 1), and `none` where '.' is not in the token
unfoldable pub split : String → Option (String × String)
split String.[] = none
split (String.◌∷◌ c s) =
    let rest = split s in if code c == 46 then some (String.[], s) else cons_first c rest

-- What the callback for keys gives; `failed` is any exception.
pub data Lookup : Type 0 where
  found : Option ApiKeyRecord → Lookup
  failed : Lookup

abbrev pub is_expired : Option ℕ → ℕ → Bool
is_expired none now = false
is_expired (some t) now = leb t now

-- record.secret_digest if record else '0' * 64
abbrev pub expected_of : Option ApiKeyRecord → String
expected_of none = "0000000000000000000000000000000000000000000000000000000000000000"
expected_of (some r) = r.secret_digest

abbrev pub judge : Bool → Option ApiKeyRecord → ℕ → Verdict
judge valid none now = rejected
judge valid (some r) now =
    if not valid || not r.enabled
    then rejected
    else if is_expired r.expires_at now
    then rejected
    else verdict_of (identity (text r.principal))

module _ (sha256 : String → String) (lookup : String → Lookup) (now : ℕ) where
  abbrev pub check : String → Lookup → Verdict
  check secret failed = undecided
  check secret (found r) = judge (sha256 secret == expected_of r) r now

  abbrev pub on_parts : Option (String × String) → Verdict
  on_parts none = rejected
  on_parts (some (key_id, secret)) =
      if not (leb 1 (length (codes key_id)) && leb (length (codes key_id)) 128)
        || ltb (length (codes secret)) 32
      then rejected
      else check secret (lookup key_id)

  -- `validate`
  unfoldable pub validate : String → Verdict
  unfolding split
  validate token = if not (token_text token 4096) then rejected else on_parts (split token)

-- key_id + '.' + secret
abbrev pub token_of : String → String → String
token_of String.[] secret = String.◌∷◌ "." secret
token_of (String.◌∷◌ c s) secret = String.◌∷◌ c (token_of s secret)

-- No '.' in a text.
abbrev pub is_undotted : ℕ → Bool
is_undotted c = not (c == 46)
