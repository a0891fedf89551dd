-- ===== src/Auth/Hmac/Proofs.antt =====
-- The two ends of the handshake agree, and the server accepts nothing but a proof.
use wire_rpc.Prelude.{
  ◌↔◌, ◌≤◌, ◌<◌, ◌≡◌, ◌⊎◌, inl, inr, refl, sym, ap, ◌∙◌, arith, String, string_eq, list_eq, nat_eq,
  Bool, true, false, Option, none, some, [], ◌++◌, length, take, append-nil, ◌==◌, if_both,
  Option-cases, beq_refl,
}
use wire_rpc.Prelude.Dict
use wire_rpc.Prelude.Dict.{Dict}
use wire_rpc.Envelope.{Bytes}
use wire_rpc.Frames.{permission_error, Result, ok, err, End, read_bounded, frame_of}
use wire_rpc.Frames.Reading.{read_bounded-frame_of}
use wire_rpc.Auth.Hmac.{
  version, approval, challenge_of, message_of, Key, lacks_tls, Verified, Outcome, secret_or, grant,
  judge, challenged, on_key, verify, revalidate, prove, authenticate,
}

module _ (digest : Bytes → Bytes → Bytes) (sha256 : Bytes → Bytes) (utf8 : Bytes → Option String)
    (keys : Dict String Key) (dummy nonce : Bytes) (end : End) where
  -- The client that sent this input has named a key of this principal and proved that it knows the
  -- secret of it, for the challenge with this nonce.
  pub record Proved (input : Bytes) (principal : String) : Type 0 where
    pub key_bytes : Bytes
    pub key_id : String
    pub secret : Bytes
    pub proof : Bytes
    pub after_key : Bytes
    pub rest : Bytes
    pub names_key : read_bounded permission_error 255 end input ≡ ok (key_bytes, after_key)
    pub decodes : utf8 key_bytes ≡ some key_id
    pub known : Dict.get key_id keys ≡ some (principal, secret)
    pub proves : read_bounded permission_error 32 end after_key ≡ ok (proof, rest)
    pub right : proof ≡ digest secret (message_of (challenge_of nonce) key_bytes)

  -- The outcome of `verify` is a rejection, with the writer closed and nothing remembered, or rests on
  -- a proof.
  abbrev pub Judged : Bytes → Outcome → Type 0
  Judged input o =
      ((o.principal ≡ none) × (o.closed ≡ true) × (o.verified ≡ none))
      ⊎ ((p : String) × (o.principal ≡ some p) × (o.closed ≡ false) × Proved input p)

  grant-Judged :
      (input key_bytes after_key proof rest : Bytes) (key_id : String) (entry : Option Key)
      (written : Bytes)
      → read_bounded permission_error 255 end input ≡ ok (key_bytes, after_key)
      → utf8 key_bytes ≡ some key_id
      → Dict.get key_id keys ≡ entry
      → read_bounded permission_error 32 end after_key ≡ ok (proof, rest)
      → proof
        ≡ digest
            (secret_or digest sha256 utf8 keys dummy entry)
            (message_of (challenge_of nonce) key_bytes)
      → Judged input (grant digest sha256 utf8 keys dummy key_id entry written)
  grant-Judged input key_bytes after_key proof rest key_id none written a b c d e =
      inl (refl, refl, refl)
  grant-Judged input key_bytes after_key proof rest key_id (some (p, secret)) written a b c d e =
      inr (
        p,
        refl,
        refl,
        record {
          key_bytes = key_bytes;
          key_id = key_id;
          secret = secret;
          proof = proof;
          after_key = after_key;
          rest = rest;
          names_key = a;
          decodes = b;
          known = c;
          proves = d;
          right = e;
        },
      )

  judge-Judged :
      (input key_bytes after_key : Bytes) (key_id : String) (r : Result (Bytes × Bytes))
      → read_bounded permission_error 255 end input ≡ ok (key_bytes, after_key)
      → utf8 key_bytes ≡ some key_id
      → read_bounded permission_error 32 end after_key ≡ r
      → Judged input (judge digest sha256 utf8 keys dummy (challenge_of nonce) key_id key_bytes r)
  unfolding judge
  judge-Judged input key_bytes after_key key_id (err e) a b d = inl (refl, refl, refl)
  judge-Judged input key_bytes after_key key_id (ok (proof, rest)) a b d =
      let expected =
        digest (secret_or digest sha256 utf8 keys dummy (Dict.get key_id keys))
          (message_of (challenge_of nonce) key_bytes) in
      if_both (Judged input) (proof == expected)
        (λ same.
          grant-Judged input key_bytes after_key proof rest key_id _ _ a b refl d
            ((list_eq.beq_iff proof expected).0 same))
        (λ _. inl (refl, refl, refl))

  challenged-Judged :
      (input key_bytes after_key : Bytes) (key_id : Option String)
      → read_bounded permission_error 255 end input ≡ ok (key_bytes, after_key)
      → utf8 key_bytes ≡ key_id
      → Judged input (challenged digest sha256 utf8 keys dummy nonce end key_bytes key_id after_key)
  unfolding challenged
  challenged-Judged input key_bytes after_key none a b = inl (refl, refl, refl)
  challenged-Judged input key_bytes after_key (some key_id) a b =
      judge-Judged input key_bytes after_key key_id _ a b refl

  on_key-Judged :
      (input : Bytes) (r : Result (Bytes × Bytes))
      → read_bounded permission_error 255 end input ≡ r
      → Judged input (on_key digest sha256 utf8 keys dummy nonce end r)
  on_key-Judged input (err e) a = inl (refl, refl, refl)
  on_key-Judged input (ok (key_bytes, after_key)) a =
      challenged-Judged input key_bytes after_key _ a refl

  -- Whatever a client sends, `verify` returns a principal only if the client named a key of that
  -- principal and then sent the digest, under the secret of that key, of this connection's own
  -- challenge and the name of the key; else the connection is closed and nothing is remembered.
  pub verify-Judged :
      (require_tls tls : Bool) (input : Bytes)
      → Judged input (verify digest sha256 utf8 keys dummy require_tls tls nonce end input)
  unfolding verify
  verify-Judged require_tls tls input =
      if_both (Judged input) (lacks_tls require_tls tls) (λ _. inl (refl, refl, refl))
        (λ _. on_key-Judged input _ refl)

  -- What an honest run has: a key that the server knows, a name that fits its frame, and sizes.
  pub record IsHonest (key_bytes secret : Bytes) (key_id principal : String) : Type 0 where
    pub decodes : utf8 key_bytes ≡ some key_id
    pub known : Dict.get key_id keys ≡ some (principal, secret)
    pub named : (0 < length key_bytes) × (length key_bytes ≤ 255)
    pub sized : length nonce ≡ 32
    pub digested : (message : Bytes) → length (digest secret message) ≡ 32

  module _ (require_tls tls : Bool) (secure : lacks_tls require_tls tls ≡ false)
      (key_bytes secret : Bytes) (key_id principal : String)
      (h : IsHonest key_bytes secret key_id principal) where
    abbrev pub proof_of : Bytes
    proof_of = digest secret (message_of (challenge_of nonce) key_bytes)

    -- All that the server writes, and all that the client does.
    abbrev pub served : Bytes
    served = frame_of (challenge_of nonce) ++ frame_of approval

    abbrev pub asked : Bytes
    asked = frame_of key_bytes ++ frame_of proof_of

    abbrev pub granted : Outcome
    granted =
        grant digest sha256 utf8 keys dummy key_id (some (principal, secret))
          (frame_of (challenge_of nonce))

    judge-granted :
        (rest : Bytes)
        → judge digest sha256 utf8 keys dummy
            (challenge_of nonce)
            key_id
            key_bytes
            (ok (proof_of, rest))
          ≡ granted
    unfolding judge
    judge-granted rest = ground (arith, h.known, beq_refl proof_of)

    verify-granted : verify digest sha256 utf8 keys dummy require_tls tls nonce end asked ≡ granted
    unfolding verify challenged
    verify-granted =
        let key =
          read_bounded-frame_of 255 (omega arith) end permission_error key_bytes (frame_of proof_of)
            h.named in
        let size = h.digested (message_of (challenge_of nonce) key_bytes) in
        let proof =
          read_bounded-frame_of 32 (omega arith) end permission_error proof_of []
            (omega (arith, size), omega (arith, size)) in
        rw secure (
          ap (on_key digest sha256 utf8 keys dummy nonce end) key
          ∙ (ap
                (λ (o : Option String).
                  challenged digest sha256 utf8 keys dummy nonce end key_bytes o
                    (frame_of proof_of))
                h.decodes
              ∙ (ap
                    (λ (s : Bytes).
                      judge digest sha256 utf8 keys dummy (challenge_of nonce) key_id key_bytes
                        (read_bounded permission_error 32 end s))
                    (sym (append-nil (frame_of proof_of)))
                  ∙ (ap (judge digest sha256 utf8 keys dummy (challenge_of nonce) key_id key_bytes)
                        proof
                      ∙ judge-granted []))))

    challenge-length : length (challenge_of nonce) ≡ 44
    challenge-length = omega (arith, h.sized)

    prove-approved :
        prove digest sha256 utf8 key_bytes secret end
          (frame_of key_bytes)
          (ok (challenge_of nonce, frame_of approval))
        ≡ (asked, ok tt)
    unfolding prove
    prove-approved =
        let starts : (take 12 (challenge_of nonce) == version) ≡ true = beq_refl version in
        let answer =
          read_bounded-frame_of 2 (omega arith) end permission_error approval []
            (omega arith, omega arith) in
        ground (arith, challenge-length, starts, answer)

    authenticate-approved :
        authenticate digest sha256 utf8 key_bytes secret require_tls tls end served ≡ (asked, ok tt)
    unfolding authenticate
    authenticate-approved =
        let c = challenge-length in
        let challenge =
          read_bounded-frame_of 44 (omega arith) end permission_error (challenge_of nonce)
            (frame_of approval) (omega (arith, c), omega (arith, c)) in
        rw secure (
          ap (prove digest sha256 utf8 key_bytes secret end (frame_of key_bytes)) challenge
          ∙ prove-approved)

    -- An honest client and the server agree: on what the other has written, the client is accepted,
    -- and the server writes exactly that, returns the principal of the key, keeps the connection, and
    -- accepts it again when it is asked to, as long as the keys stay.
    pub handshake-Agrees :
        (authenticate digest sha256 utf8 key_bytes secret require_tls tls end
            (verify digest sha256 utf8 keys dummy require_tls tls nonce end asked).written
          ≡ (asked, ok tt))
        × ((verify digest sha256 utf8 keys dummy require_tls tls nonce end asked).principal
            ≡ some principal)
        × ((verify digest sha256 utf8 keys dummy require_tls tls nonce end asked).closed ≡ false)
        × (revalidate digest sha256 utf8 keys dummy
              (verify digest sha256 utf8 keys dummy require_tls tls nonce end asked).verified
            ≡ some principal)
    unfolding revalidate
    handshake-Agrees = (
      ap
            (λ (o : Outcome).
              authenticate digest sha256 utf8 key_bytes secret require_tls tls end o.written)
            verify-granted
          ∙ authenticate-approved,
      ap (λ (o : Outcome). o.principal) verify-granted,
      ap (λ (o : Outcome). o.closed) verify-granted,
      ap (λ (o : Outcome). revalidate digest sha256 utf8 keys dummy o.verified) verify-granted
          ∙ ground (arith, h.known, beq_refl (sha256 secret)),
    )

  -- A connection is accepted again only while its key is configured, with the secret of the same
  -- hash; and then its principal is the one that the key has by now.
  pub revalidate-known :
      (v : Verified) (p : String)
      → revalidate digest sha256 utf8 keys dummy (some v) ≡ some p
      → (secret : Bytes) × (Dict.get v.0 keys ≡ some (p, secret)) × (sha256 secret ≡ v.1)
  unfolding revalidate
  revalidate-known (key_id, hash) p found = elim (Option-cases (Dict.get key_id keys)) [
    | inl gone ↦ ground (arith, gone, found)
    | inr ((q, secret), there) ↦
        let same : ((sha256 secret == hash) ≡ true) ↔ (sha256 secret ≡ hash) =
          list_eq.beq_iff (sha256 secret) hash in
        (secret, ground (arith, there, found), ground (arith, there, found, same))
  ]
