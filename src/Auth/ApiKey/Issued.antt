-- ===== src/Auth/ApiKey/Issued.antt =====
-- What a key that was issued by `from_secret` is good for, and what an accepted key has passed.
use wire_rpc.Prelude.{
  ℕ, ◌≡◌, refl, ap, ◌∙◌, String, string_eq, Bool, true, false, ◌&&◌, ◌||◌, not, Option, none, some,
  length, ltb, leb, ◌==◌, nat_eq, if◌then◌else◌, if_both, arith, Option-cases, inl, inr, beq_refl,
}
use wire_rpc.Envelope.{text}
use wire_rpc.Auth.Text.{
  codes, every, is_identity, identity, identity-text, identity_lem, token_text, rejected, accepted,
}
use wire_rpc.Auth.ApiKey.{
  ApiKeyRecord, make, from_secret, is_hex, split, Lookup, found, failed, is_expired, judge, check,
  on_parts, validate, token_of, is_undotted,
}

split-token_of :
    (key_id secret : String)
    → every is_undotted (codes key_id) ≡ true
    → split (token_of key_id secret) ≡ some (key_id, secret)
unfolding split
split-token_of String.[] secret h = refl
split-token_of (String.◌∷◌ c s) secret h = ground (arith, h, split-token_of s secret)

make-fields :
    (principal secret_digest : String) (expires_at : Option ℕ) (r : ApiKeyRecord)
    → make principal secret_digest expires_at true ≡ some r
    → (is_identity principal ≡ true)
      × (r ≡ record {
        principal = principal;
        secret_digest = secret_digest;
        expires_at = expires_at;
        enabled = true;
      })
unfolding make
make-fields principal secret_digest expires_at r =
    if_both
      (λ (o : Option ApiKeyRecord).
        o ≡ some r
        → (is_identity principal ≡ true)
          × (r ≡ record {
            principal = principal;
            secret_digest = secret_digest;
            expires_at = expires_at;
            enabled = true;
          }))
      (is_identity principal
        && length (codes secret_digest) == 64
        && every is_hex (codes secret_digest))
      (λ good e. (ground (arith, good), ground (arith, e))) (λ _ e. absurd (ground (arith, e)))

module _ (sha256 : String → String) (lookup : String → Lookup) (now : ℕ) where
  issued :
      (principal secret : String) (expires_at : Option ℕ) (r : ApiKeyRecord)
      → from_secret sha256 principal secret expires_at ≡ some r
      → (leb 32 (length (codes secret)) ≡ true)
        × (is_identity principal ≡ true)
        × (r ≡ record {
          principal = principal;
          secret_digest = sha256 secret;
          expires_at = expires_at;
          enabled = true;
        })
  unfolding from_secret
  issued principal secret expires_at r =
      if_both
        (λ (o : Option ApiKeyRecord).
          o ≡ some r
          → (leb 32 (length (codes secret)) ≡ true)
            × (is_identity principal ≡ true)
            × (r ≡ record {
              principal = principal;
              secret_digest = sha256 secret;
              expires_at = expires_at;
              enabled = true;
            }))
        (not (is_identity principal)
          || not (token_text secret 4096)
          || ltb (length (codes secret)) 32)
        (λ _ e. absurd (ground (arith, e)))
        (λ good e.
          let f = make-fields principal (sha256 secret) expires_at r e in
          (ground (arith, good), f.0, f.1))

  judge-issued :
      (principal digest : String) (expires_at : Option ℕ)
      → is_identity principal ≡ true
      → judge
          (digest == digest)
          (some (record {
            principal = principal;
            secret_digest = digest;
            expires_at = expires_at;
            enabled = true;
          }))
          now
        ≡ (if is_expired expires_at now then rejected else accepted principal)
  judge-issued principal digest expires_at good =
      ground (arith, beq_refl digest, identity-text principal good)

  -- A key that `from_secret` made for a principal is accepted as `key_id.secret` with that principal until
  -- it expires, and rejected from then on, while the lookup finds its record under the key id; where the
  -- key id has 1 to 128 characters and no '.', and the token is a printable text of the length allowed.
  pub validate-from_secret :
      (principal secret key_id : String) (expires_at : Option ℕ) (r : ApiKeyRecord)
      → from_secret sha256 principal secret expires_at ≡ some r
      → lookup key_id ≡ found (some r)
      → leb 1 (length (codes key_id)) && leb (length (codes key_id)) 128 ≡ true
      → every is_undotted (codes key_id) ≡ true
      → token_text (token_of key_id secret) 4096 ≡ true
      → validate sha256 lookup now (token_of key_id secret)
        ≡ (if is_expired expires_at now then rejected else accepted principal)
  unfolding validate
  validate-from_secret principal secret key_id expires_at r made known short undotted printable =
      let (long, good, is) = issued principal secret expires_at r made in
      ap
        (λ b.
          if not b then rejected else on_parts sha256 lookup now (split (token_of key_id secret)))
        printable
      ∙ ap (on_parts sha256 lookup now) (split-token_of key_id secret undotted)
      ∙ if_both (λ v. v ≡ (if is_expired expires_at now then rejected else accepted principal))
          (not (leb 1 (length (codes key_id)) && leb (length (codes key_id)) 128)
            || ltb (length (codes secret)) 32)
          (λ bad. absurd (ground (arith, bad, short, long)))
          (λ _.
            ap (check sha256 lookup now secret) (known ∙ ap (λ q. found (some q)) is)
            ∙ judge-issued principal (sha256 secret) expires_at good)

  -- A token that is accepted is a key id, '.' and a secret whose hash is that of the record, which is
  -- enabled, is not expired and has the principal.
  pub record IsGood (token p : String) : Type 0 where
    pub key_id : String
    pub secret : String
    pub key_record : ApiKeyRecord
    pub parts : split token ≡ some (key_id, secret)
    pub known : lookup key_id ≡ found (some key_record)
    pub matches : sha256 secret ≡ key_record.secret_digest
    pub enabled : key_record.enabled ≡ true
    pub current : is_expired key_record.expires_at now ≡ false
    pub is_principal : key_record.principal ≡ p

  judge-accepted :
      (valid : Bool) (r : ApiKeyRecord) (p : String)
      → judge valid (some r) now ≡ accepted p
      → (valid ≡ true)
        × (r.enabled ≡ true)
        × (is_expired r.expires_at now ≡ false)
        × (r.principal ≡ p)
  judge-accepted valid r p =
      if_both
        (λ v.
          v ≡ accepted p
          → (valid ≡ true)
            × (r.enabled ≡ true)
            × (is_expired r.expires_at now ≡ false)
            × (r.principal ≡ p))
        (not valid || not r.enabled) (λ _ e. absurd (ground (arith, e)))
        (λ good.
          if_both
            (λ v.
              v ≡ accepted p
              → (valid ≡ true)
                × (r.enabled ≡ true)
                × (is_expired r.expires_at now ≡ false)
                × (r.principal ≡ p))
            (is_expired r.expires_at now) (λ _ e. absurd (ground (arith, e)))
            (λ current e. elim (Option-cases (identity (text r.principal))) [
              | inl refused ↦ absurd (ground (arith, e, refused))
              | inr (q, passed) ↦ (
                ground (arith, good),
                ground (arith, good),
                current,
                ground (arith, e, passed, identity_lem (text r.principal) q passed),
              )
            ]))

  check-accepted :
      (token key_id secret p : String) (l : Lookup)
      → split token ≡ some (key_id, secret)
      → lookup key_id ≡ l
      → check sha256 lookup now secret l ≡ accepted p
      → IsGood token p
  check-accepted token key_id secret p failed parts known e = absurd (ground (arith, e))
  check-accepted token key_id secret p (found none) parts known e = absurd (ground (arith, e))
  check-accepted token key_id secret p (found (some r)) parts known e =
      let (valid, enabled, current, is_principal) =
        judge-accepted (sha256 secret == r.secret_digest) r p e in
      record {
        key_id = key_id;
        secret = secret;
        key_record = r;
        parts = parts;
        known = known;
        matches = (string_eq.beq_iff (sha256 secret) r.secret_digest).0 valid;
        enabled = enabled;
        current = current;
        is_principal = is_principal;
      }

  on_parts-accepted :
      (token p : String) (o : Option (String × String))
      → split token ≡ o
      → on_parts sha256 lookup now o ≡ accepted p
      → IsGood token p
  on_parts-accepted token p none parts e = absurd (ground (arith, e))
  on_parts-accepted token p (some (key_id, secret)) parts e =
      if_both (λ v. v ≡ accepted p → IsGood token p)
        (not (leb 1 (length (codes key_id)) && leb (length (codes key_id)) 128)
          || ltb (length (codes secret)) 32)
        (λ _ e. absurd (ground (arith, e)))
        (λ _ e. check-accepted token key_id secret p (lookup key_id) parts refl e) e

  pub validate-IsGood :
      (token p : String) → validate sha256 lookup now token ≡ accepted p → IsGood token p
  unfolding validate
  validate-IsGood token p =
      if_both (λ v. v ≡ accepted p → IsGood token p) (not (token_text token 4096))
        (λ _ e. absurd (ground (arith, e))) (λ _ e. on_parts-accepted token p (split token) refl e)
