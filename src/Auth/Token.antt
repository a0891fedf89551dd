-- ===== src/Auth/Token.antt =====
-- wire_rpc/auth/tcp.py: `TcpTokenAuth` and `TcpTokenClientAuth`. As in Hmac, both ends are functions of
-- what they read. A token is the list of its code points, which are its bytes where it is ASCII. The
-- validator is outside code and a parameter. `undecided` is the AuthUnavailableError that `verify`
-- raises, once the writer is closed.
pub mod Agreement
mod Examples
use wire_rpc.Prelude.{
  ℕ, ◌≡◌, refl, list_eq, nat_eq, Bool, true, false, ◌&&◌, not, Option, none, some, List, [], ◌∷◌,
  ◌++◌, length, take, drop, ltb, leb, ◌==◌, if◌then◌else◌, String,
}
use wire_rpc.Envelope.{Bytes}
use wire_rpc.Frames.{
  Error, permission_error, Result, ok, err, End, then_read, read_bounded, frame_of,
}
use wire_rpc.Auth.Text.{
  every, is_printable, Checked, Verdict, rejected, undecided, accepted, validated,
}
use wire_rpc.Auth.Hmac.{lacks_tls, approval}

-- b'WRPC-TOKEN-1 '
abbrev pub version : Bytes
version = 87 ∷ 82 ∷ 80 ∷ 67 ∷ 45 ∷ 84 ∷ 79 ∷ 75 ∷ 69 ∷ 78 ∷ 45 ∷ 49 ∷ 32 ∷ []

-- token_text(token, 16000)
abbrev pub is_token : Bytes → Bool
is_token token = leb 1 (length token) && leb (length token) 16000 && every is_printable token

-- data[13:].decode('ascii'); `none` is UnicodeError
unfoldable pub ascii : Bytes → Option Bytes
ascii bytes = if every (λ b. ltb b 128) bytes then some bytes else none

-- `token` is what `_tokens` has for the connection.
pub record Outcome : Type 0 where
  pub verdict : Verdict
  pub closed : Bool
  pub written : Bytes
  pub token : Option Bytes

-- writer.close() and the end of `verify`
abbrev pub ends : Verdict → Outcome
ends verdict = record { verdict = verdict; closed = true; written = []; token = none }

abbrev pub grant : Bytes → Verdict → Outcome
grant token rejected = ends rejected
grant token undecided = ends undecided
grant token (accepted principal) = record {
  verdict = accepted principal;
  closed = false;
  written = frame_of approval;
  token = some token;
}

module _ (validator : Bytes → Checked) where
  abbrev pub on_token : Option Bytes → Outcome
  on_token none = ends rejected
  on_token (some token) =
      if is_token token then grant token (validated (validator token)) else ends rejected

  unfoldable pub on_data : Result (Bytes × Bytes) → Outcome
  unfolding ascii
  on_data (err e) = ends rejected
  on_data (ok (data_, rest)) =
      if take 13 data_ == version then on_token (ascii (drop 13 data_)) else ends rejected

  -- `verify`
  unfoldable pub verify : Bool → Bool → End → Bytes → Outcome
  unfolding on_data
  verify require_tls tls end input =
      if lacks_tls require_tls tls
      then ends rejected
      else on_data (read_bounded permission_error 16384 end input)

  -- `revalidate`, from what `_tokens` has
  unfoldable pub revalidate : Option Bytes → Verdict
  revalidate none = rejected
  revalidate (some token) = validated (validator token)

-- if await _read(reader, 2) != b'OK': raise PermissionError
abbrev pub approved : Result (Bytes × Bytes) → Result (Unit {0})
approved (err e) = err e
approved (ok (answer, rest)) = if answer == approval then ok tt else err permission_error

-- `TcpTokenClientAuth.authenticate`: what the client writes, and whether it is accepted.
unfoldable pub authenticate : Bytes → Bool → Bool → End → Bytes → Bytes × Result (Unit {0})
authenticate token require_tls tls end input =
    if lacks_tls require_tls tls
    then ([], err permission_error)
    else (frame_of (version ++ token), approved (read_bounded permission_error 2 end input))
