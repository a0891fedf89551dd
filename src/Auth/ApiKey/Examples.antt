-- ===== src/Auth/ApiKey/Examples.antt =====
-- Runs of API keys on small inputs.
use wire_rpc.Prelude.{◌≡◌, refl, String, string_eq, true, none, some, ◌==◌, if◌then◌else◌}
use wire_rpc.Auth.Text.{Verdict, accepted, rejected, undecided, token_text, every, codes}
use wire_rpc.Auth.ApiKey.{
  ApiKeyRecord, make, from_secret, split, Lookup, found, failed, is_expired, validate, token_of,
}
use wire_rpc.Auth.ApiKey.Issued.{validate-from_secret}

-- Every text has this hash.
abbrev digest : String
digest = "aaaaaaaaaaaaaaaaaaaaaaaaaaaaaaaaaaaaaaaaaaaaaaaaaaaaaaaaaaaaaaaa"

abbrev sha256 : String → String
sha256 s = digest

abbrev secret : String
secret = "ssssssssssssssssssssssssssssssss"

abbrev key : ApiKeyRecord
key = record { principal = "ann"; secret_digest = digest; expires_at = some 9; enabled = true }

abbrev lookup : String → Lookup
lookup key_id = if key_id == "k1" then found (some key) else found none

validate-from_secret_example :
    validate sha256 lookup 5 (token_of "k1" secret)
    ≡ (if is_expired (some 9) 5 then rejected else accepted "ann")
unfolding from_secret make token_text
validate-from_secret_example =
    validate-from_secret sha256 lookup 5 "ann" secret "k1" (some 9) key refl refl refl refl refl

runs :
    (validate sha256 lookup 5 (token_of "k1" secret) ≡ accepted "ann")
    × (validate sha256 lookup 9 (token_of "k1" secret) ≡ rejected)
    × (validate sha256 lookup 5 (token_of "k2" secret) ≡ rejected)
    × (validate sha256 lookup 5 "k1" ≡ rejected)
    × (validate sha256 (λ k. failed) 5 (token_of "k1" secret) ≡ undecided)
    × (split "a.b.c" ≡ some ("a", "b.c"))
    × (from_secret sha256 "ann" "short" none ≡ none)
unfolding validate from_secret make token_text split wire_rpc.Auth.Text.identity
runs = (refl, refl, refl, refl, refl, refl, refl)
