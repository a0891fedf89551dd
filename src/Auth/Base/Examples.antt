-- ===== src/Auth/Base/Examples.antt =====
-- Runs of the session base on small inputs.
use wire_rpc.Prelude.{
  ◌+◌, ◌≡◌, refl, String, string_eq, none, some, arith, ltb, ◌==◌, if◌then◌else◌,
}
use wire_rpc.Prelude.Dict
use wire_rpc.Envelope.{text, object, Members, end, member}
use wire_rpc.Auth.Sessions.{Store, empty}
use wire_rpc.Auth.Sessions.Invariant.{IsValid, create-IsValid}
use wire_rpc.Auth.Sessions.Traces.{empty-IsValid}
use wire_rpc.Auth.Base.{
  Dumped, dumped, bad_type, Json, answered, value_error, is_token, create, validate, rotate,
  destroy, revoke_all,
}
use wire_rpc.Auth.Base.Proofs.{create-validate, rotate-validate}

-- A record is its principal, and has no payload.
plain_dumps : String → Members → Dumped
plain_dumps p end = dumped p
plain_dumps p (member k v m) = bad_type

abbrev plain : Json
plain = record {
  dumps = plain_dumps;
  size = λ s. 0;
  load_principal = λ s. some (text s);
  load_payload = λ s. some (object end);
}

plain-reads :
    (p value : String) (m : Members)
    → plain.dumps p m ≡ dumped value
    → (plain.load_principal value ≡ some (text p)) × (plain.load_payload value ≡ some (object m))
unfolding plain_dumps
plain-reads p value end e = ground (arith, e)
plain-reads p value (member k v m) e = absurd (ground (arith, e))

abbrev digest : String → String
digest token = token

abbrev token_a : String
token_a = "aaaaaaaaaaaaaaaaaaaaaaaaaaaaaaaaaaaaaaaaaaa"

abbrev token_b : String
token_b = "bbbbbbbbbbbbbbbbbbbbbbbbbbbbbbbbbbbbbbbbbbb"

abbrev one : Store
one = (create plain digest (text "ann") none token_a 0 1 (empty 10 2)).1

create-validate_example :
    (p : String) × (text "ann" ≡ text p)
    × (token_a ≡ token_a)
    × ((validate plain digest token_a 0 (empty 10 2)).0 ≡ answered none)
    × ((validate plain digest token_a 5 one).0 ≡ (
        if token_a == token_a
        then if ltb 5 (1 + 10) then answered (some p) else answered none
        else (validate plain digest token_a 5 (empty 10 2)).0))
unfolding create wire_rpc.Auth.Sessions.create wire_rpc.Auth.Sessions.insert
    wire_rpc.Auth.Sessions.prune wire_rpc.Auth.Sessions.rebuild wire_rpc.Auth.Sessions.pop_expired
    wire_rpc.Auth.Text.identity is_token plain_dumps Dict.get
create-validate_example =
    create-validate plain digest plain-reads (text "ann") none token_a token_a 0 1 5 (empty 10 2)
      token_a (empty-IsValid 10 2) refl (omega arith) (λ e. e) refl

one-IsValid : IsValid one
unfolding create wire_rpc.Auth.Text.identity plain_dumps
one-IsValid = create-IsValid token_a "ann" 0 1 (empty 10 2) (empty-IsValid 10 2)

rotate-validate_example :
    (token_b ≡ token_b)
    × ((validate plain digest token_a 6 (rotate plain digest token_a token_b 3 4 one).1).0 ≡ (
        if token_b == token_a
        then (validate plain digest token_a 6 one).0
        else if token_a == token_a
        then answered none
        else (validate plain digest token_a 6 one).0))
unfolding create rotate wire_rpc.Auth.Sessions.create wire_rpc.Auth.Sessions.insert
    wire_rpc.Auth.Sessions.prune wire_rpc.Auth.Sessions.rebuild wire_rpc.Auth.Sessions.pop_expired
    wire_rpc.Auth.Sessions.rotate wire_rpc.Auth.Sessions.move wire_rpc.Auth.Sessions.heappush
    wire_rpc.Auth.Text.identity is_token plain_dumps Dict.get Dict.put Dict.pop
rotate-validate_example =
    rotate-validate plain digest token_a token_b token_b 3 4 6 one token_a one-IsValid refl
      (omega arith) (omega arith) (λ e. e) (λ e. e) refl

runs :
    ((validate plain digest token_a 5 one).0 ≡ answered (some "ann"))
    × ((validate plain digest token_a 11 one).0 ≡ answered none)
    × ((validate plain digest "short" 5 one).0 ≡ answered none)
    × ((create plain digest (text "a b") none token_b 0 1 one).0 ≡ value_error)
    × ((create plain digest (text "ann") (some (text "x")) token_b 0 1 one).0 ≡ value_error)
    × ((validate plain digest token_b 6 (rotate plain digest token_a token_b 3 4 one).1).0
        ≡ answered (some "ann"))
    × ((validate plain digest token_a 6 (destroy plain digest token_a 3 4 one)).0 ≡ answered none)
    × ((revoke_all plain digest (text "ann") 3 4 one).0 ≡ answered 1)
unfolding create rotate validate destroy revoke_all wire_rpc.Auth.Base.get
    wire_rpc.Auth.Sessions.create wire_rpc.Auth.Sessions.insert wire_rpc.Auth.Sessions.prune
    wire_rpc.Auth.Sessions.rebuild wire_rpc.Auth.Sessions.pop_expired wire_rpc.Auth.Sessions.rotate
    wire_rpc.Auth.Sessions.move wire_rpc.Auth.Sessions.heappush wire_rpc.Auth.Text.identity is_token
    plain_dumps Dict.get Dict.put Dict.pop wire_rpc.Auth.Sessions.get wire_rpc.Auth.Sessions.destroy
    wire_rpc.Auth.Sessions.revoke wire_rpc.Auth.Sessions.drop_keys wire_rpc.Auth.Sessions.keys_of
    wire_rpc.Auth.Sessions.pop_all
runs = (refl, refl, refl, refl, refl, refl, refl, refl)
