-- ===== src/Auth/Token/Examples.antt =====
-- Runs of the token handshake on small inputs.
use wire_rpc.Prelude.{
  ◌≡◌, refl, true, false, none, some, [], ◌∷◌, ◌++◌, list_eq, nat_eq, ◌==◌, if◌then◌else◌,
}
use wire_rpc.Envelope.{Bytes, text}
use wire_rpc.Frames.{ok, err, permission_error, eof, frame_of}
use wire_rpc.Auth.Hmac.{approval}
use wire_rpc.Auth.Text.{Checked, gave, unavailable, accepted, rejected, undecided}
use wire_rpc.Auth.Token.{version, verify, authenticate, revalidate, Outcome}
use wire_rpc.Auth.Token.Agreement.{verify-Agrees}

-- "secret"
abbrev token : Bytes
token = 115 ∷ 101 ∷ 99 ∷ 114 ∷ 101 ∷ 116 ∷ []

abbrev validator : Bytes → Checked
validator t = if t == token then gave (some (text "ann")) else gave none

verify-Agrees_example :
    (verify validator true true eof (authenticate token true true eof []).0 ≡ record {
      verdict = accepted "ann";
      closed = false;
      written = frame_of approval;
      token = some token;
    })
    × ((authenticate token true true eof (frame_of approval)).1 ≡ ok tt)
unfolding wire_rpc.Auth.Text.validated wire_rpc.Auth.Text.identity
verify-Agrees_example = verify-Agrees validator eof token "ann" true true refl refl refl

runs :
    ((verify validator true false eof (frame_of (version ++ token))).verdict ≡ rejected)
    × ((verify validator true true eof (frame_of (version ++ 1 ∷ []))).verdict ≡ rejected)
    × ((verify validator true true eof (frame_of token)).closed ≡ true)
    × ((verify (λ t. unavailable) true true eof (frame_of (version ++ token))).verdict ≡ undecided)
    × (revalidate validator none ≡ rejected)
    × ((authenticate token true true eof []).1 ≡ err wire_rpc.Frames.incomplete_read)
unfolding verify authenticate revalidate wire_rpc.Auth.Token.on_data wire_rpc.Auth.Token.ascii
    wire_rpc.Auth.Text.validated wire_rpc.Auth.Text.identity wire_rpc.Frames.read_bounded
    wire_rpc.Frames.read_payload wire_rpc.Frames.readexactly wire_rpc.Frames.from_bytes_onto
runs = (refl, refl, refl, refl, refl, refl)
