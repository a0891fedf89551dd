-- ===== src/Auth/Token/Agreement.antt =====
-- What a token handshake that succeeds has checked, and that honest ends agree.
use wire_rpc.Prelude.{
  ◌≡◌, refl, ap, ◌∙◌, sym, list_eq, nat_eq, Bool, true, false, Option, none, some, [], ◌∷◌, ◌++◌,
  append-nil, length-append, take, drop, ltb, ◌==◌, if◌then◌else◌, if_both, arith, String,
}
use wire_rpc.Envelope.{Bytes}
use wire_rpc.Frames.{permission_error, Result, ok, err, End, read_bounded, frame_of}
use wire_rpc.Frames.Reading.{read_bounded-frame_of}
use wire_rpc.Auth.Text.{
  every, is_printable, Checked, Verdict, rejected, undecided, accepted, validated,
}
use wire_rpc.Auth.Hmac.{lacks_tls, approval}
use wire_rpc.Auth.Token.{
  version, is_token, ascii, Outcome, ends, grant, on_token, on_data, verify, revalidate, approved,
  authenticate,
}

printable-ascii :
    (token : Bytes) → every is_printable token ≡ true → every (λ b. ltb b 128) token ≡ true
printable-ascii [] h = refl
printable-ascii (b ∷ token) h = ground (arith, h, printable-ascii token)

module _ (validator : Bytes → Checked) (end : End) where
  abbrev granted : Bytes → String → Outcome
  granted token principal = record {
    verdict = accepted principal;
    closed = false;
    written = frame_of approval;
    token = some token;
  }

  on_token-granted :
      (token : Bytes) (principal : String)
      → is_token token ≡ true
      → validated (validator token) ≡ accepted principal
      → on_token validator (ascii token) ≡ granted token principal
  unfolding ascii
  on_token-granted token principal good passed =
      ap (λ b. on_token validator (if b then some token else none))
        (printable-ascii token (ground (arith, good)))
      ∙ ap (λ b. if b then grant token (validated (validator token)) else ends rejected) good
      ∙ ap (grant token) passed

  on_data-granted :
      (token rest : Bytes) (principal : String)
      → is_token token ≡ true
      → validated (validator token) ≡ accepted principal
      → on_data validator (ok (version ++ token, rest)) ≡ granted token principal
  unfolding on_data
  on_data-granted token rest principal good passed = on_token-granted token principal good passed

  authenticate-secure :
      (token : Bytes) (require_tls tls : Bool) (input : Bytes)
      → lacks_tls require_tls tls ≡ false
      → authenticate token require_tls tls end input
        ≡ (frame_of (version ++ token), approved (read_bounded permission_error 2 end input))
  unfolding authenticate
  authenticate-secure token require_tls tls input secure =
      if_both
        (λ (r : Bytes × Result (Unit {0})).
          r ≡ (frame_of (version ++ token), approved (read_bounded permission_error 2 end input)))
        (lacks_tls require_tls tls) (λ lacks. absurd (ground (arith, lacks, secure))) (λ _. refl)

  -- Where a token of the right form is accepted by the validator, an honest client and the server agree:
  -- on what the client writes, the server writes an approval, keeps the connection and returns the
  -- principal of the token, and on that approval the client is accepted.
  pub verify-Agrees :
      (token : Bytes) (principal : String) (require_tls tls : Bool)
      → lacks_tls require_tls tls ≡ false
      → is_token token ≡ true
      → validated (validator token) ≡ accepted principal
      → (verify validator require_tls tls end (authenticate token require_tls tls end []).0
          ≡ record {
            verdict = accepted principal;
            closed = false;
            written = frame_of approval;
            token = some token;
          })
        × ((authenticate token require_tls tls end (frame_of approval)).1 ≡ ok tt)
  unfolding verify
  verify-Agrees token principal require_tls tls secure good passed =
      let asked =
        ap (λ (r : Bytes × Result (Unit {0})). r.0)
          (authenticate-secure token require_tls tls [] secure) in
      let answer =
        read_bounded-frame_of 2 (omega arith) end permission_error approval []
          (omega arith, omega arith) in
      let asked_read =
        read_bounded-frame_of 16384 (omega arith) end permission_error (version ++ token) [] (
          ground (arith, length-append version token, good),
          ground (arith, length-append version token, good),
        ) in
      (
        ap (verify validator require_tls tls end) asked
            ∙ ap
                (λ b.
                  if b
                  then ends rejected
                  else on_data validator
                      (read_bounded permission_error 16384 end (frame_of (version ++ token))))
                secure
            ∙ ap
                (λ (input : Bytes).
                  on_data validator (read_bounded permission_error 16384 end input))
                (sym (append-nil (frame_of (version ++ token))))
            ∙ ap (on_data validator) asked_read
            ∙ on_data-granted token [] principal good passed,
        ap (λ (r : Bytes × Result (Unit {0})). r.1)
              (authenticate-secure token require_tls tls (frame_of approval) secure)
            ∙ ap approved answer,
      )

  -- What the verdict on a token came from.
  pub record IsVouched (o : Outcome) (p : String) : Type 0 where
    pub token : Bytes
    pub remembered : o.token ≡ some token
    pub good : is_token token ≡ true
    pub passed : validated (validator token) ≡ accepted p
    pub open_still : o.closed ≡ false

  grant-IsVouched :
      (token : Bytes) (v : Verdict) (p : String)
      → is_token token ≡ true
      → validated (validator token) ≡ v
      → (grant token v).verdict ≡ accepted p
      → IsVouched (grant token v) p
  grant-IsVouched token rejected p good passed e = absurd (ground (arith, e))
  grant-IsVouched token undecided p good passed e = absurd (ground (arith, e))
  grant-IsVouched token (accepted q) p good passed e = record {
    token = token;
    remembered = refl;
    good = good;
    passed = ground (arith, e, passed);
    open_still = refl;
  }

  on_token-IsVouched :
      (o : Option Bytes) (p : String)
      → (on_token validator o).verdict ≡ accepted p
      → IsVouched (on_token validator o) p
  on_token-IsVouched none p e = absurd (ground (arith, e))
  on_token-IsVouched (some token) p e =
      if_both (λ r. r.verdict ≡ accepted p → IsVouched r p) (is_token token)
        (λ good. grant-IsVouched token (validated (validator token)) p good refl)
        (λ _ e. absurd (ground (arith, e))) e

  on_data-IsVouched :
      (r : Result (Bytes × Bytes)) (p : String)
      → (on_data validator r).verdict ≡ accepted p
      → IsVouched (on_data validator r) p
  unfolding on_data
  on_data-IsVouched (err x) p e = absurd (ground (arith, e))
  on_data-IsVouched (ok (data_, rest)) p e =
      if_both (λ r. r.verdict ≡ accepted p → IsVouched r p) (take 13 data_ == version)
        (λ _. on_token-IsVouched (ascii (drop 13 data_)) p) (λ _ e. absurd (ground (arith, e))) e

  -- A connection is kept for a principal only where the validator accepted the token that is remembered,
  -- which has the form of a token, and `revalidate` asks the validator about that same token again.
  pub verify-IsVouched :
      (require_tls tls : Bool) (input : Bytes) (p : String)
      → (verify validator require_tls tls end input).verdict ≡ accepted p
      → (lacks_tls require_tls tls ≡ false)
        × IsVouched (verify validator require_tls tls end input) p
        × ((later : Bytes → Checked) (token : Bytes)
            → (verify validator require_tls tls end input).token ≡ some token
            → revalidate later (verify validator require_tls tls end input).token
              ≡ validated (later token))
  unfolding verify revalidate
  verify-IsVouched require_tls tls input p e =
      if_both
        (λ (r : Outcome).
          r.verdict ≡ accepted p
          → (lacks_tls require_tls tls ≡ false)
            × IsVouched r p
            × ((later : Bytes → Checked) (token : Bytes)
                → r.token ≡ some token
                → revalidate later r.token ≡ validated (later token)))
        (lacks_tls require_tls tls) (λ _ e. absurd (ground (arith, e)))
        (λ secure e. (
          secure,
          on_data-IsVouched (read_bounded permission_error 16384 end input) p e,
          λ later token e. ap (revalidate later) e,
        ))
        e
