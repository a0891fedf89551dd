-- ===== src/Auth/Password/Slots.antt =====
-- The slots of `PasswordCredentialValidator`, and what an accepted login has passed.
use wire_rpc.Prelude.{
  ℕ, ◌+◌, ◌-◌, ◌<◌, ◌≤◌, ◌≡◌, refl, String, Bool, true, false, ◌&&◌, Option, none, some, leb,
  if_both, arith, Bool-cases, Option-cases, inl, inr,
}
use wire_rpc.Envelope.{Value, text}
use wire_rpc.Auth.Text.{identity, identity_lem, accepted}
use wire_rpc.Auth.Password.{
  Account, Lookup, found, failed, Hashed, result, mismatch, invalid, broken, Pool, new,
  credentials_of, Started, take_slot, start, looked_up, judge, hashed, cancel_hash, after_lookup,
  after_start, validate, Step, Reach, here, next,
}

-- Every slot that is taken has a call or a hash, and there are no more than allowed.
abbrev pub IsCounted : ℕ → Pool → Type 0
IsCounted n s =
    (s.active ≡ s.looking + s.hashing + s.orphaned) × (s.active ≤ s.limit) × (s.limit ≡ n)

module _ (n : ℕ) where
  take_slot-IsCounted :
      (c : Option (String × String)) (s : Pool) → IsCounted n s → IsCounted n (take_slot c s).1
  take_slot-IsCounted none s v = v
  take_slot-IsCounted (some (username, password)) s v =
      if_both (λ (r : Started × Pool). IsCounted n r.1) (leb s.limit s.active) (λ _. v)
        (λ room. (omega (arith, v.0), ground (arith, room), v.2))

  looked_up-IsCounted :
      (l : Lookup) (s : Pool) → 0 < s.looking → IsCounted n s → IsCounted n (looked_up l s).1
  unfolding looked_up
  looked_up-IsCounted failed s one v = (omega (arith, v.0, one), omega (arith, v.1), v.2)
  looked_up-IsCounted (found account) s one v = (omega (arith, v.0, one), v.1, v.2)

  cancel_hash-IsCounted :
      (is_done : Bool) (s : Pool)
      → 0 < s.hashing
      → IsCounted n s
      → IsCounted n (cancel_hash is_done s)
  unfolding cancel_hash
  cancel_hash-IsCounted true s one v = (omega (arith, v.0, one), omega (arith, v.1), v.2)
  cancel_hash-IsCounted false s one v = (omega (arith, v.0, one), v.1, v.2)

  step-IsCounted : {s t : Pool} → Step s t → IsCounted n s → IsCounted n t
  unfolding start hashed
  step-IsCounted (Step.starts s utf8_size credentials) v =
      take_slot-IsCounted (credentials_of utf8_size credentials) s v
  step-IsCounted (Step.looks_up s l one) v = looked_up-IsCounted l s one v
  step-IsCounted (Step.cancels_lookup s one) v = (omega (arith, v.0, one), omega (arith, v.1), v.2)
  step-IsCounted (Step.hashes s h account one) v =
      (omega (arith, v.0, one), omega (arith, v.1), v.2)
  step-IsCounted (Step.cancels_hash s is_done one) v = cancel_hash-IsCounted is_done s one v
  step-IsCounted (Step.finishes_orphan s one) v = (omega (arith, v.0, one), omega (arith, v.1), v.2)

  Reach-IsCounted_from : {s t : Pool} → Reach s t → IsCounted n s → IsCounted n t
  Reach-IsCounted_from here v = v
  Reach-IsCounted_from (next r step) v = step-IsCounted step (Reach-IsCounted_from r v)

-- However calls start, end and are cancelled, the slots that are taken are the calls in their lookup,
-- those that wait for their hash and the hashes that run on after a cancellation, and no more than
-- `max_concurrency` hashes run at once.
pub Reach-IsCounted :
    (max_concurrency : ℕ) {s : Pool}
    → Reach (new max_concurrency) s
    → (s.active ≡ s.looking + s.hashing + s.orphaned) × (s.hashing + s.orphaned ≤ max_concurrency)
Reach-IsCounted max_concurrency {s} r =
    let v : IsCounted max_concurrency s =
      Reach-IsCounted_from max_concurrency r (refl, omega arith, refl) in
    (v.0, omega (arith, v.0, v.1, v.2))

module _ (utf8_size : String → Option ℕ) (lookup : String → Lookup)
    (verify : String → String → Hashed) (dummy : String) where
  -- A login that has passed every test.
  pub record IsAuthentic (credentials : Value) (p : String) : Type 0 where
    pub username : String
    pub password : String
    pub account : Account
    pub given : credentials_of utf8_size credentials ≡ some (username, password)
    pub known : lookup username ≡ found (some account)
    pub enabled : account.enabled ≡ true
    pub verified : verify account.password_hash password ≡ result true
    pub is_principal : account.principal ≡ p

  judge-accepted :
      (h : Hashed) (o : Option Account) (p : String)
      → judge h o ≡ accepted p
      → (account : Account) × (o ≡ some account)
        × (h ≡ result true)
        × (account.enabled ≡ true)
        × (account.principal ≡ p)
  judge-accepted (result valid) none p e = absurd (ground (arith, e))
  judge-accepted (result valid) (some account) p e = elim (Bool-cases (valid && account.enabled)) [
    | inl good ↦ elim (Option-cases (identity (text account.principal))) [
      | inl refused ↦ absurd (ground (arith, e, good, refused))
      | inr (q, passed) ↦ (
        account,
        refl,
        ground (arith, good),
        ground (arith, good),
        ground (arith, e, good, passed, identity_lem (text account.principal) q passed),
      )
    ]
    | inr bad ↦ absurd (ground (arith, e, bad))
  ]
  judge-accepted mismatch o p e = absurd (ground (arith, e))
  judge-accepted invalid o p e = absurd (ground (arith, e))
  judge-accepted broken o p e = absurd (ground (arith, e))

  -- From the lookup on.
  looked_up-accepted :
      (credentials : Value) (username password p : String) (l : Lookup) (s : Pool)
      → credentials_of utf8_size credentials ≡ some (username, password)
      → lookup username ≡ l
      → ((after_lookup utf8_size lookup verify dummy password (looked_up l s)).1.active
          ≡ s.active - 1)
        × ((after_lookup utf8_size lookup verify dummy password (looked_up l s)).0 ≡ accepted p
            → IsAuthentic credentials p)
  unfolding looked_up hashed
  looked_up-accepted credentials username password p failed s given known =
      (refl, λ e. absurd (ground (arith, e)))
  looked_up-accepted credentials username password p (found none) s given known = (
    refl,
    λ e.
        let (account, same, verified, enabled, is_principal) =
          judge-accepted (verify dummy password) none p e in
        absurd (ground (arith, same)),
  )
  looked_up-accepted credentials username password p (found (some account)) s given known = (
    refl,
    λ e.
        let (account', same, verified, enabled, is_principal) =
          judge-accepted (verify account.password_hash password) (some account) p e in
        let is : account' ≡ account = ground (arith, same) in
        record {
          username = username;
          password = password;
          account = account;
          given = given;
          known = known;
          enabled = ground (arith, enabled, is);
          verified = verified;
          is_principal = ground (arith, is_principal, is);
        },
  )

  start-accepted :
      (credentials : Value) (p : String) (c : Option (String × String)) (s : Pool)
      → credentials_of utf8_size credentials ≡ c
      → ((after_start utf8_size lookup verify dummy (take_slot c s)).1.active ≡ s.active)
        × ((after_start utf8_size lookup verify dummy (take_slot c s)).0 ≡ accepted p
            → IsAuthentic credentials p)
  start-accepted credentials p none s given = (refl, λ e. absurd (ground (arith, e)))
  start-accepted credentials p (some (username, password)) s given =
      if_both
        (λ (r : Started × Pool).
          ((after_start utf8_size lookup verify dummy r).1.active ≡ s.active)
          × ((after_start utf8_size lookup verify dummy r).0 ≡ accepted p
              → IsAuthentic credentials p))
        (leb s.limit s.active) (λ _. (refl, λ e. absurd (ground (arith, e))))
        (λ _.
          let r =
            looked_up-accepted credentials username password p (lookup username)
              (record s { active = s.active + 1; looking = s.looking + 1 }) given refl in
          (omega (arith, r.0), r.1))

  -- An accepted login names an account that is enabled, its password verifies against the hash of that
  -- account, the principal is that of the account, and the call has given its slot back.
  pub validate-accepted :
      (credentials : Value) (s : Pool) (p : String)
      → (validate utf8_size lookup verify dummy credentials s).0 ≡ accepted p
      → IsAuthentic credentials p
        × ((validate utf8_size lookup verify dummy credentials s).1.active ≡ s.active)
  unfolding validate start
  validate-accepted credentials s p e =
      let r = start-accepted credentials p (credentials_of utf8_size credentials) s refl in
      (r.1 e, r.0)
