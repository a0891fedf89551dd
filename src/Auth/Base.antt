-- ===== src/Auth/Base.antt =====
-- wire_rpc/auth/sessions/_base.py: `SessionStoreBase` on top of the store in memory. The digest, the
-- JSON encoder and the random tokens are parameters; an operation is given the readings of the clock
-- that `_execute` makes, and the token that `secrets` makes.
pub mod Lookup
pub mod Proofs
mod Examples
use wire_rpc.Prelude.{
  ℕ, ◌≡◌, String, Bool, true, false, ◌&&◌, ◌||◌, Option, none, some, List, length, ltb, leb, ◌==◌,
  nat_eq, if◌then◌else◌,
}
use wire_rpc.Envelope.{Value, text, object, Members, end, null}
use wire_rpc.Auth.Text.{codes, every, identity}
use wire_rpc.Auth.Sessions.{Store, Error, collision, capacity, corrupt, Result, err, ok}
use wire_rpc.Auth.Sessions

-- [A-Za-z0-9_-]
abbrev pub is_url_safe : ℕ → Bool
is_url_safe c =
    leb 65 c && leb c 90 || leb 97 c && leb c 122 || leb 48 c && leb c 57 || c == 95 || c == 45

-- `_valid`
unfoldable pub is_token : String → Bool
is_token token = length (codes token) == 43 && every is_url_safe (codes token)

pub record SessionRecord : Type 0 where
  pub principal : String
  pub payload : Members

-- How a call ends: ValueError, TypeError, AuthUnavailableError, its subclass SessionCapacityError, or a value.
pub data Answer (A : Type 0) : Type 0 where
  value_error type_error unavailable over_capacity : Answer A
  answered : A → Answer A

-- `_call`: what is no AuthUnavailableError becomes one.
abbrev pub call_result : {A B : Type 0} → (A → Answer B) → Result A → Answer B
call_result f (err collision) = unavailable
call_result f (err capacity) = over_capacity
call_result f (err corrupt) = unavailable
call_result f (ok a) = f a

-- How `json.dumps` ends: with a text, ValueError or TypeError.
pub data Dumped : Type 0 where
  dumped : String → Dumped
  bad_value bad_type : Dumped

-- json.dumps of the principal and the payload, the length of its UTF-8, and the two members of what
-- `json.loads` gives, where `none` stands for an exception.
pub record Json : Type 0 where
  pub dumps : String → Members → Dumped
  pub size : String → ℕ
  pub load_principal : String → Option Value
  pub load_payload : String → Option Value

-- payload or {}, where the payload is None or a dict
abbrev pub payload_of : Option Value → Option Members
payload_of none = some end
payload_of (some null) = some end
payload_of (some (object m)) = some m
payload_of (some _) = none

abbrev pub identity_in : Option Value → Option String
identity_in none = none
identity_in (some v) = identity v

-- SessionRecord(principal, payload)
abbrev pub make_record : Option String → Option Value → Answer (Option SessionRecord)
make_record (some p) (some (object m)) = answered (some (record { principal = p; payload = m }))
make_record _ _ = unavailable

abbrev pub principal_in : Answer (Option SessionRecord) → Answer (Option String)
principal_in (answered (some r)) = answered (some r.principal)
principal_in (answered none) = answered none
principal_in value_error = value_error
principal_in type_error = type_error
principal_in unavailable = unavailable
principal_in over_capacity = over_capacity

-- return token if rotated else None
abbrev pub rotated : String → Result Bool × Store → Answer (Option String) × Store
rotated token (result, s) =
    (call_result (λ moved. answered (if moved then some token else none)) result, s)

-- json.loads(record)['principal'], with a text that no identity is equal to where it is no text
abbrev pub principal_text : Option Value → Option String
principal_text none = none
principal_text (some (text p)) = some p
principal_text (some _) = some ""

module _ (json : Json) (digest : String → String) where
  abbrev pub store_new : String → Dumped → ℕ → ℕ → Store → Answer String × Store
  store_new token bad_value t0 t1 s = (value_error, s)
  store_new token bad_type t0 t1 s = (type_error, s)
  store_new token (dumped value) t0 t1 s =
      if ltb 16384 (json.size value)
      then (value_error, s)
      else let (result, s') = Sessions.create (digest token) value t0 t1 s in
        (call_result (λ _. answered token) result, s')

  abbrev pub create_checked :
      String → Option String → Option Members → ℕ → ℕ → Store → Answer String × Store
  create_checked token none payload t0 t1 s = (value_error, s)
  create_checked token (some p) none t0 t1 s = (value_error, s)
  create_checked token (some p) (some m) t0 t1 s = store_new token (json.dumps p m) t0 t1 s

  -- `create`; `token` is that of `secrets.token_urlsafe(32)`
  unfoldable pub create : Value → Option Value → String → ℕ → ℕ → Store → Answer String × Store
  create user_id payload token t0 t1 s =
      create_checked token (identity user_id) (payload_of payload) t0 t1 s

  abbrev pub read : Option String → Answer (Option SessionRecord)
  read none = answered none
  read (some value) =
      make_record (identity_in (json.load_principal value)) (json.load_payload value)

  -- `get`
  unfoldable pub get : String → ℕ → Store → Answer (Option SessionRecord) × Store
  get session_id t0 s =
      if is_token session_id
      then (let (value, s') = Sessions.get (digest session_id) t0 s in (read value, s'))
      else (answered none, s)

  -- `validate`
  unfoldable pub validate : String → ℕ → Store → Answer (Option String) × Store
  unfolding get
  validate session_id t0 s = let (found, s') = get session_id t0 s in (principal_in found, s')

  -- `destroy`
  unfoldable pub destroy : String → ℕ → ℕ → Store → Store
  destroy session_id t0 t1 s =
      if is_token session_id then Sessions.destroy (digest session_id) t0 t1 s else s

  -- `rotate`
  unfoldable pub rotate : String → String → ℕ → ℕ → Store → Answer (Option String) × Store
  rotate session_id token t0 t1 s =
      if is_token session_id
      then rotated token (Sessions.rotate (digest session_id) (digest token) t0 t1 s)
      else (answered none, s)

  abbrev pub revoke_checked : Option String → ℕ → ℕ → Store → Answer ℕ × Store
  revoke_checked none t0 t1 s = (value_error, s)
  revoke_checked (some p) t0 t1 s =
      let (result, s') =
        Sessions.revoke (λ value. principal_text (json.load_principal value)) p t0 t1 s in
      (call_result answered result, s')

  -- `revoke_all`
  unfoldable pub revoke_all : Value → ℕ → ℕ → Store → Answer ℕ × Store
  revoke_all user_id t0 t1 s = revoke_checked (identity user_id) t0 t1 s
