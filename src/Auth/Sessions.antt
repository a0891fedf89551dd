-- ===== src/Auth/Sessions.antt =====
-- wire_rpc/auth/sessions/memory.py: `InMemorySessionStore`. Times are numbers of clock ticks, and an
-- operation is given the readings of the clock that it makes, in order. `heapq` keeps the least pair
-- first: the heap is a list in order of expiry, and pairs of one expiry leave it together. Keys are
-- digests and values JSON records, both texts; `principal_of` reads a record as `json.loads` and the
-- subscript do, and may raise.
pub mod Heap
pub mod Prune
pub mod Invariant
pub mod View
pub mod Revoke
pub mod Traces
mod Examples
use wire_rpc.Prelude.{
  ℕ, zero, suc, ◌+◌, ◌*◌, String, string_eq, Bool, true, false, Option, none, some, List, [], ◌∷◌,
  map, length, ltb, leb, nat_eq, ◌==◌, if◌then◌else◌, option_eq, PyEq,
}
use wire_rpc.Prelude.Dict
use wire_rpc.Prelude.Dict.{Dict}

-- (record, expiry)
abbrev pub Session : Type 0
Session = String × ℕ

-- (expiry, key)
abbrev pub Due : Type 0
Due = ℕ × String

pub record Store : Type 0 where
  pub ttl : ℕ
  pub max_sessions : ℕ
  pub sessions : Dict String Session
  pub expiry : List Due

-- `__init__`, after its checks
abbrev pub empty : ℕ → ℕ → Store
empty ttl max_sessions = record {
  ttl = ttl;
  max_sessions = max_sessions;
  sessions = [];
  expiry = [];
}

-- heapq.heappush
unfoldable pub heappush : Due → List Due → List Due
heappush x [] = x ∷ []
heappush x (y ∷ ys) = if leb x.0 y.0 then x ∷ y ∷ ys else y ∷ heappush x ys

-- heapq.heapify
unfoldable pub heapify : List Due → List Due
heapify [] = []
heapify (x ∷ xs) = heappush x (heapify xs)

-- entry is not None and entry[1] == expiry
abbrev pub is_entry : Option Session → ℕ → Bool
is_entry none expiry = false
is_entry (some (value, e)) expiry = e == expiry

-- The while loop of `_prune`, on the heap and the sessions.
unfoldable pub pop_expired : ℕ → List Due → Dict String Session → List Due × Dict String Session
pop_expired now [] sessions = ([], sessions)
pop_expired now ((expiry, key) ∷ heap) sessions =
    let rest =
      pop_expired now heap
        (if is_entry (Dict.get key sessions) expiry then Dict.pop key sessions else sessions) in
    if leb expiry now then rest else ((expiry, key) ∷ heap, sessions)

-- [(expiry, key) for key, (_, expiry) in self._sessions.items()]
abbrev pub due_of : String × Session → Due
due_of (key, (value, expiry)) = (expiry, key)

-- The rest of `_prune`: a heap that is mostly stale entries is rebuilt.
unfoldable pub rebuild : ℕ → List Due × Dict String Session → List Due × Dict String Session
rebuild max_sessions (heap, sessions) =
    (if ltb (2 * max_sessions) (length heap) then heapify (map due_of sessions) else heap, sessions)

-- `_prune`
unfoldable pub prune : ℕ → Store → Store
unfolding pop_expired rebuild
prune now s =
    let (heap, sessions) = rebuild s.max_sessions (pop_expired now s.expiry s.sessions) in
    record s { sessions = sessions; expiry = heap }

-- The two exceptions, and whatever `json.loads` raises.
pub data Error : Type 0 where
  collision capacity corrupt : Error

pub data Result (T : Type 0) : Type 0 where
  err : Error → Result T
  ok : T → Result T

-- key in self._sessions
abbrev pub is_there : Option Session → Bool
is_there none = false
is_there (some x) = true

-- operation == 'create', after the first `_prune`
unfoldable pub insert : String → String → ℕ → Store → Result Unit × Store
insert key value now s =
    if is_there (Dict.get key s.sessions)
    then (err collision, s)
    else if leb s.max_sessions (length s.sessions)
    then (err capacity, s)
    else let expiry = now + s.ttl in
      (
        ok tt,
        record s {
          sessions = Dict.put key (value, expiry) s.sessions;
          expiry = heappush (expiry, key) s.expiry;
        },
      )

unfoldable pub create : String → String → ℕ → ℕ → Store → Result Unit × Store
unfolding insert prune
create key value t0 t1 s = insert key value t1 (prune t0 s)

abbrev pub record_of : Option Session → Option String
record_of none = none
record_of (some (value, expiry)) = some value

-- operation == 'get'
unfoldable pub get : String → ℕ → Store → Option String × Store
unfolding prune
get key t0 s = let s' = prune t0 s in (record_of (Dict.get key s'.sessions), s')

-- operation == 'destroy'
unfoldable pub destroy : String → ℕ → ℕ → Store → Store
unfolding prune
destroy key t0 t1 s =
    let s' = prune t0 s in prune t1 (record s' { sessions = Dict.pop key s'.sessions })

-- operation == 'rotate', after the first `_prune`; the old session is looked up by then.
unfoldable pub move : String → String → ℕ → Option Session → Store → Result Bool × Store
unfolding prune
move key new_key t1 none s = (ok false, s)
move key new_key t1 (some session) s =
    if is_there (Dict.get new_key s.sessions) then (err collision, s) else (
      ok true,
      prune t1 (record s {
        sessions = Dict.put new_key session (Dict.pop key s.sessions);
        expiry = heappush (session.1, new_key) s.expiry;
      }),
    )

unfoldable pub rotate : String → String → ℕ → ℕ → Store → Result Bool × Store
unfolding move prune
rotate key new_key t0 t1 s =
    let s' = prune t0 s in move key new_key t1 (Dict.get key s'.sessions) s'

-- The keys whose record is of a principal; `none` where a record cannot be read.
abbrev pub select : Option String → String → String → Option (List String) → Option (List String)
select none key user rest = none
select (some p) key user none = none
select (some p) key user (some keys) = some (if p == user then key ∷ keys else keys)

unfoldable pub keys_of :
    (String → Option String) → String → Dict String Session → Option (List String)
keys_of principal_of user [] = some []
keys_of principal_of user ((key, (value, expiry)) ∷ sessions) =
    select (principal_of value) key user (keys_of principal_of user sessions)

-- for k in keys: del self._sessions[k]
unfoldable pub pop_all : List String → Dict String Session → Dict String Session
pop_all [] sessions = sessions
pop_all (key ∷ keys) sessions = pop_all keys (Dict.pop key sessions)

-- operation == 'revoke', after the first `_prune`
unfoldable pub drop_keys : Option (List String) → ℕ → Store → Result ℕ × Store
unfolding prune pop_all
drop_keys none t1 s = (err corrupt, s)
drop_keys (some keys) t1 s =
    (ok (length keys), prune t1 (record s { sessions = pop_all keys s.sessions }))

unfoldable pub revoke : (String → Option String) → String → ℕ → ℕ → Store → Result ℕ × Store
unfolding drop_keys prune keys_of
revoke principal_of user t0 t1 s =
    let s' = prune t0 s in drop_keys (keys_of principal_of user s'.sessions) t1 s'
