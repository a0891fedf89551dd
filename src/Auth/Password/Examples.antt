-- ===== src/Auth/Password/Examples.antt =====
-- Runs of password logins on small inputs.
use wire_rpc.Prelude.{
  ℕ, ◌≡◌, ◌+◌, ◌≤◌, refl, String, string_eq, true, false, Option, none, some, arith, ◌==◌,
  if◌then◌else◌,
}
use wire_rpc.Envelope.{Value, text, object, end, member}
use wire_rpc.Auth.Text.{Verdict, accepted, rejected, undecided}
use wire_rpc.Auth.Password.{
  Account, Lookup, found, failed, Hashed, result, mismatch, Pool, new, start, looked_up, hashed,
  cancel_hash, validate, Step, Reach, here, next,
}
use wire_rpc.Auth.Password.Slots.{IsAuthentic, validate-accepted, Reach-IsCounted}

abbrev utf8_size : String → Option ℕ
utf8_size s = some 1

abbrev lookup : String → Lookup
lookup username =
    if username == "ann"
    then found (some (record { principal = "ann"; password_hash = "h"; enabled = true }))
    else found none

abbrev verify : String → String → Hashed
verify encoded password =
    if encoded == "h" then if password == "pw" then result true else mismatch else mismatch

abbrev login : Value
login = object (member "username" (text "ann") (member "password" (text "pw") end))

validate-accepted_example :
    IsAuthentic utf8_size lookup verify "dummy" login "ann"
    × ((validate utf8_size lookup verify "dummy" login (new 1)).1.active ≡ 0)
unfolding validate start looked_up hashed wire_rpc.Auth.Password.credentials_of
    wire_rpc.Auth.Text.identity
validate-accepted_example =
    validate-accepted utf8_size lookup verify "dummy" login (new 1) "ann" refl

-- One call whose hash runs on after it was cancelled.
abbrev looking : Pool
looking = (start utf8_size login (new 1)).1

abbrev orphan : Pool
orphan = cancel_hash false (looked_up (lookup "ann") looking).1

Reach-orphan : Reach (new 1) orphan
unfolding start looked_up wire_rpc.Auth.Password.credentials_of
Reach-orphan =
    next
      (next (next here (Step.starts (new 1) utf8_size login))
        (Step.looks_up looking (lookup "ann") (omega arith)))
      (Step.cancels_hash (looked_up (lookup "ann") looking).1 false (omega arith))

orphan-slots :
    (orphan.active ≡ orphan.looking + orphan.hashing + orphan.orphaned)
    × (orphan.hashing + orphan.orphaned ≤ 1)
orphan-slots = Reach-IsCounted 1 Reach-orphan

runs :
    ((validate utf8_size lookup verify "dummy" login (new 1)).0 ≡ accepted "ann")
    × ((validate utf8_size lookup verify "dummy"
          (object (member "username" (text "bob") (member "password" (text "pw") end)))
          (new 1)).0
        ≡ rejected)
    × ((validate utf8_size lookup verify "dummy" (object end) (new 1)).0 ≡ rejected)
    × ((validate utf8_size lookup verify "dummy" login orphan).0 ≡ undecided)
    × (orphan.active ≡ 1)
unfolding validate start looked_up hashed cancel_hash wire_rpc.Auth.Password.credentials_of
    wire_rpc.Auth.Text.identity
runs = (refl, refl, refl, refl, refl)
