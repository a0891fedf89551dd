-- ===== src/Auth/Hmac.antt =====
-- wire_rpc/auth/tcp.py: `HmacChallengeAuth` and `HmacChallengeClientAuth`. Both ends are functions of
-- what they read: the peer's answer may depend on what was written before, so theorems hold for every
-- input. `digest` is `hmac.digest` with SHA-256, `sha256` the hash, `utf8` the decoding of a key id,
-- whose `none` is UnicodeError; the nonce is an argument. An exception of the kinds listed in
-- `verify` closes the connection.
pub mod Proofs
mod Examples
use wire_rpc.Prelude.{
  ℕ, ◌+◌, String, string_eq, list_eq, nat_eq, Bool, true, false, ◌&&◌, ◌||◌, not, Option, none,
  some, List, [], ◌∷◌, ◌++◌, length, take, ◌==◌, if◌then◌else◌,
}
use wire_rpc.Prelude.Dict
use wire_rpc.Prelude.Dict.{Dict}
use wire_rpc.Envelope.{Bytes}
use wire_rpc.Frames.{
  Error, permission_error, unicode_error, Result, ok, err, End, then_read, read_bounded, frame_of,
}

-- b'WRPC-HMAC-1\x00'
abbrev pub version : Bytes
version = 87 ∷ 82 ∷ 80 ∷ 67 ∷ 45 ∷ 72 ∷ 77 ∷ 65 ∷ 67 ∷ 45 ∷ 49 ∷ 0 ∷ []

-- b'OK'
abbrev pub approval : Bytes
approval = 79 ∷ 75 ∷ []

abbrev pub challenge_of : Bytes → Bytes
challenge_of nonce = version ++ nonce

-- challenge + b'\x00' + key_bytes
abbrev pub message_of : Bytes → Bytes → Bytes
message_of challenge key_bytes = challenge ++ 0 ∷ key_bytes

-- (principal, secret)
abbrev pub Key : Type 0
Key = String × Bytes

-- `_tls`, with whether the connection has it
abbrev pub lacks_tls : Bool → Bool → Bool
lacks_tls required tls = required && not tls

-- `_verified[writer]`: the key id and the hash of the secret
abbrev pub Verified : Type 0
Verified = String × Bytes

pub record Outcome : Type 0 where
  pub principal : Option String
  pub closed : Bool
  pub written : Bytes
  pub verified : Option Verified

module _ (digest : Bytes → Bytes → Bytes) (sha256 : Bytes → Bytes)
    (utf8 : Bytes → Option String) where
  module _ (keys : Dict String Key) (dummy : Bytes) where
    abbrev pub secret_or : Option Key → Bytes
    secret_or none = dummy
    secret_or (some (principal, secret)) = secret

    -- The return None of `verify`, once the writer is closed.
    abbrev pub rejected : Bytes → Outcome
    rejected written = record {
      principal = none;
      closed = true;
      written = written;
      verified = none;
    }

    abbrev pub grant : String → Option Key → Bytes → Outcome
    grant key_id none written = rejected written
    grant key_id (some (principal, secret)) written = record {
      principal = some principal;
      closed = false;
      written = written ++ frame_of approval;
      verified = some (key_id, sha256 secret);
    }

    -- From the proof on.
    unfoldable pub judge : Bytes → String → Bytes → Result (Bytes × Bytes) → Outcome
    judge challenge key_id key_bytes (err e) = rejected (frame_of challenge)
    judge challenge key_id key_bytes (ok (proof, rest)) =
        let entry = Dict.get key_id keys in
        if proof == digest (secret_or entry) (message_of challenge key_bytes)
        then grant key_id entry (frame_of challenge)
        else rejected (frame_of challenge)

    -- From the key id on: the challenge is written, and the proof is read.
    unfoldable pub challenged : Bytes → End → Bytes → Option String → Bytes → Outcome
    unfolding judge
    challenged nonce end key_bytes none rest = rejected []
    challenged nonce end key_bytes (some key_id) rest =
        judge (challenge_of nonce) key_id key_bytes (read_bounded permission_error 32 end rest)

    abbrev pub on_key : Bytes → End → Result (Bytes × Bytes) → Outcome
    on_key nonce end (err e) = rejected []
    on_key nonce end (ok (key_bytes, rest)) = challenged nonce end key_bytes (utf8 key_bytes) rest

    -- `verify`
    unfoldable pub verify : Bool → Bool → Bytes → End → Bytes → Outcome
    unfolding challenged
    verify require_tls tls nonce end input =
        if lacks_tls require_tls tls
        then rejected []
        else on_key nonce end (read_bounded permission_error 255 end input)

    abbrev pub still : Bytes → Option Key → Option String
    still hash none = none
    still hash (some (principal, secret)) = if sha256 secret == hash then some principal else none

    -- `revalidate`, from what `_verified` has for the connection
    unfoldable pub revalidate : Option Verified → Option String
    revalidate none = none
    revalidate (some (key_id, hash)) = still hash (Dict.get key_id keys)

  -- `HmacChallengeClientAuth.authenticate`: what the client writes, and whether it is accepted.
  abbrev pub approved : Bytes → Bytes → Bytes × Result Unit
  approved written answer = (written, if answer == approval then ok tt else err permission_error)

  abbrev pub after_proof : Bytes → Result (Bytes × Bytes) → Bytes × Result Unit
  after_proof written (err e) = (written, err e)
  after_proof written (ok (answer, rest)) = approved written answer

  -- The test of the challenge, and the proof.
  unfoldable pub prove : Bytes → Bytes → End → Bytes → Result (Bytes × Bytes) → Bytes × Result Unit
  prove key_id secret end written (err e) = (written, err e)
  prove key_id secret end written (ok (challenge, rest)) =
      if not (length challenge == 44) || not (take 12 challenge == version)
      then (written, err permission_error)
      else after_proof (written ++ frame_of (digest secret (message_of challenge key_id)))
          (read_bounded permission_error 2 end rest)

  unfoldable pub authenticate : Bytes → Bytes → Bool → Bool → End → Bytes → Bytes × Result Unit
  unfolding prove
  authenticate key_id secret require_tls tls end input =
      if lacks_tls require_tls tls
      then ([], err permission_error)
      else prove key_id secret end (frame_of key_id) (read_bounded permission_error 44 end input)
