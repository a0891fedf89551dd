-- ===== src/Auth/Password.antt =====
-- wire_rpc/auth/credentials/validators.py: `PasswordCredentialValidator`. The lookup of accounts, the
-- hasher and the size of a text in UTF-8 are outside code and parameters. A call is modelled by the
-- code between its waits: `start`, up to the lookup, `looked_up`, up to the hash, and `hashed`, from
-- there; each gives up its slot in `finally`. `looking` and `hashing` count the calls at their two
-- waits, and `orphaned` the hashes that run on after the call that started them was cancelled.
pub mod Slots
mod Examples
use wire_rpc.Prelude.{
  ℕ, ◌+◌, ◌-◌, ◌<◌, ◌≡◌, String, string_eq, Bool, true, false, ◌&&◌, ◌||◌, not, Option, none, some,
  length, ltb, leb, if◌then◌else◌,
}
use wire_rpc.Envelope.{Value, text, object, Members, get}
use wire_rpc.Auth.Text.{codes, identity, Verdict, rejected, undecided, accepted, verdict_of}

pub record Account : Type 0 where
  pub principal : String
  pub password_hash : String
  pub enabled : Bool

-- What the callback for accounts gives; `failed` is any exception.
pub data Lookup : Type 0 where
  found : Option Account → Lookup
  failed : Lookup

-- How the hash ends: a result, VerifyMismatchError, the errors for an invalid record, or any other.
pub data Hashed : Type 0 where
  result : Bool → Hashed
  mismatch invalid broken : Hashed

pub record Pool : Type 0 where
  pub limit : ℕ
  pub active : ℕ
  pub looking : ℕ
  pub hashing : ℕ
  pub orphaned : ℕ

abbrev pub new : ℕ → Pool
new max_concurrency = record {
  limit = max_concurrency;
  active = 0;
  looking = 0;
  hashing = 0;
  orphaned = 0;
}

-- A text of at least one and at most this many characters.
abbrev pub bounded_text : ℕ → Option Value → Option String
bounded_text maximum (some (text s)) =
    if leb 1 (length (codes s)) && leb (length (codes s)) maximum then some s else none
bounded_text maximum _ = none

-- len(password.encode()) > 4096; `none` is UnicodeEncodeError
abbrev pub is_short : Option ℕ → Bool
is_short none = false
is_short (some n) = leb n 4096

abbrev pub both : (String → Option ℕ) → Option String → Option String → Option (String × String)
both utf8_size (some username) (some password) =
    if is_short (utf8_size password) then some (username, password) else none
both utf8_size _ _ = none

-- The tests on the credentials; `none` is the return None.
unfoldable pub credentials_of : (String → Option ℕ) → Value → Option (String × String)
credentials_of utf8_size (object m) =
    both utf8_size (bounded_text 255 (get "username" m)) (bounded_text 1024 (get "password" m))
credentials_of utf8_size _ = none

pub data Started : Type 0 where
  ended : Verdict → Started
  waits : String → String → Started

abbrev pub take_slot : Option (String × String) → Pool → Started × Pool
take_slot none s = (ended rejected, s)
take_slot (some (username, password)) s =
    if leb s.limit s.active
    then (ended undecided, s)
    else (waits username password, record s { active = s.active + 1; looking = s.looking + 1 })

unfoldable pub start : (String → Option ℕ) → Value → Pool → Started × Pool
start utf8_size credentials s = take_slot (credentials_of utf8_size credentials) s

-- encoded = account.password_hash if account is not None else self._dummy
abbrev pub encoded_of : String → Option Account → String
encoded_of dummy none = dummy
encoded_of dummy (some account) = account.password_hash

-- After the lookup: the call ends with an error, or its hash starts.
unfoldable pub looked_up : Lookup → Pool → Option (Option Account) × Pool
looked_up failed s = (none, record s { looking = s.looking - 1; active = s.active - 1 })
looked_up (found account) s =
    (some account, record s { looking = s.looking - 1; hashing = s.hashing + 1 })

-- A call that is cancelled in the lookup.
abbrev pub cancel_lookup : Pool → Pool
cancel_lookup s = record s { looking = s.looking - 1; active = s.active - 1 }

abbrev pub judge : Hashed → Option Account → Verdict
judge (result valid) none = rejected
judge (result valid) (some account) =
    if valid && account.enabled then verdict_of (identity (text account.principal)) else rejected
judge mismatch account = rejected
judge invalid account = undecided
judge broken account = undecided

-- From the end of the hash.
unfoldable pub hashed : Hashed → Option Account → Pool → Verdict × Pool
hashed h account s = (judge h account, record s { hashing = s.hashing - 1; active = s.active - 1 })

-- A call that is cancelled while its hash runs, or just after: the slot goes to the callback of the
-- task unless the task is done.
unfoldable pub cancel_hash : Bool → Pool → Pool
cancel_hash is_done s =
    if is_done
    then record s { hashing = s.hashing - 1; active = s.active - 1 }
    else record s { hashing = s.hashing - 1; orphaned = s.orphaned + 1 }

-- `finished`, the callback
abbrev pub finish_orphan : Pool → Pool
finish_orphan s = record s { orphaned = s.orphaned - 1; active = s.active - 1 }

-- A whole call that is not cancelled, with nothing else in between.
module _ (utf8_size : String → Option ℕ) (lookup : String → Lookup)
    (verify : String → String → Hashed) (dummy : String) where
  abbrev pub after_lookup : String → Option (Option Account) × Pool → Verdict × Pool
  after_lookup password (none, s) = (undecided, s)
  after_lookup password (some account, s) =
      hashed (verify (encoded_of dummy account) password) account s

  abbrev pub after_start : Started × Pool → Verdict × Pool
  after_start (ended v, s) = (v, s)
  after_start (waits username password, s) = after_lookup password (looked_up (lookup username) s)

  -- `validate`
  unfoldable pub validate : Value → Pool → Verdict × Pool
  unfolding start looked_up hashed
  validate credentials s = after_start (start utf8_size credentials s)

pub data Step : Pool → Pool → Type 0 where
  starts :
      (s : Pool) (utf8_size : String → Option ℕ) (credentials : Value)
      → Step s (start utf8_size credentials s).1
  looks_up : (s : Pool) (l : Lookup) → 0 < s.looking → Step s (looked_up l s).1
  cancels_lookup : (s : Pool) → 0 < s.looking → Step s (cancel_lookup s)
  hashes :
      (s : Pool) (h : Hashed) (account : Option Account)
      → 0 < s.hashing
      → Step s (hashed h account s).1
  cancels_hash : (s : Pool) (is_done : Bool) → 0 < s.hashing → Step s (cancel_hash is_done s)
  finishes_orphan : (s : Pool) → 0 < s.orphaned → Step s (finish_orphan s)

pub data Reach (first : Pool) : Pool → Type 0 where
  here : Reach first first
  next : {s t : Pool} → Reach first s → Step s t → Reach first t
