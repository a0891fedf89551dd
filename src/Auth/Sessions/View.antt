-- ===== src/Auth/Sessions/View.antt =====
-- What clients see of the store: at each time, the live sessions by key. Each operation is stated by
-- what it does to that view, at every time from its last reading of the clock on.
use wire_rpc.Prelude.{
  ℕ, ◌+◌, ◌≤◌, ◌≡◌, refl, sym, ap, ◌∙◌, String, string_eq, true, Option, none, some, arith, nat_eq,
  ◌==◌, if◌then◌else◌,
}
use wire_rpc.Prelude.Dict
use wire_rpc.Prelude.Dict.{Dict, get-put, get-pop, UniqueKeys}
use wire_rpc.Auth.Sessions.{
  Session, Store, ok, prune, record_of, insert, create, get, destroy, move, rotate,
}
use wire_rpc.Auth.Sessions.Prune.{live, IsKept, get-prune, prune-IsKept}
use wire_rpc.Auth.Sessions.Invariant.{IsValid, pop-IsKept, moved, moved-IsKept}

abbrev pub view : ℕ → Store → String → Option Session
view t s k = live t (Dict.get k s.sessions)

live-live : (t0 t : ℕ) (x : Option Session) → t0 ≤ t → live t (live t0 x) ≡ live t x
live-live t0 t none h = refl
live-live t0 t (some (v, e)) h = ground arith

-- Pruning changes nothing that is seen then or later.
pub view-prune :
    (t0 t : ℕ) (s : Store) (k : String) → IsKept s → t0 ≤ t → view t (prune t0 s) k ≡ view t s k
view-prune t0 t s k h le =
    ap (live t) (get-prune t0 s k h) ∙ live-live t0 t (Dict.get k s.sessions) le

ttl-prune : (t0 : ℕ) (s : Store) → (prune t0 s).ttl ≡ s.ttl
unfolding prune
ttl-prune t0 s = refl

-- `get` at a time returns the record of the session that is live then, and none for one that has
-- expired, was never created or is gone; no view changes from then on.
pub get-view :
    (key : String) (t0 : ℕ) (s : Store)
    → IsValid s
    → ((get key t0 s).0 ≡ record_of (view t0 s key))
      × ((t : ℕ) (k : String) → t0 ≤ t → view t (get key t0 s).1 k ≡ view t s k)
unfolding get
get-view key t0 s h = (ap record_of (get-prune t0 s key h.0), λ t k le. view-prune t0 t s k h.0 le)

-- A session that is created is seen under its key until its ttl has passed since the reading of the
-- clock that set its expiry, and the other sessions are seen as before.
pub create-view :
    (key value : String) (t0 t1 : ℕ) (s : Store)
    → IsValid s
    → (create key value t0 t1 s).0 ≡ ok tt
    → (view t0 s key ≡ none)
      × ((t : ℕ) (k : String)
          → t0 ≤ t
          → view t (create key value t0 t1 s).1 k
            ≡ (if key == k then live t (some (value, t1 + s.ttl)) else view t s k))
unfolding create insert
create-view key value t0 t1 s h done = (
  ground (arith, get-prune t0 s key h.0),
  λ t k le. ground (
    arith,
    view-prune t0 t s k h.0 le,
    get-put key k (value, t1 + (prune t0 s).ttl) (prune t0 s).sessions,
    ttl-prune t0 s,
  ),
)

-- A session that is destroyed is not seen again, and the others are seen as before.
pub destroy-view :
    (key : String) (t0 t1 t : ℕ) (s : Store) (k : String)
    → IsValid s
    → t0 ≤ t1
    → t1 ≤ t
    → view t (destroy key t0 t1 s) k ≡ (if key == k then none else view t s k)
unfolding destroy
destroy-view key t0 t1 t s k h le le' = ground (
  arith,
  view-prune t1 t (record (prune t0 s) { sessions = Dict.pop key (prune t0 s).sessions }) k
      (pop-IsKept key (prune t0 s) (prune-IsKept t0 s h.0)) le',
  get-pop key k (prune t0 s).sessions,
  view-prune t0 t s k h.0 (omega arith),
)

-- What `rotate` leaves to be seen: the session under its new key, with its old expiry.
abbrev pub Rotated : String → String → ℕ → Store → Store → Session → Type 0
Rotated key new_key t1 s s' session =
    (t : ℕ) (k : String)
    → t1 ≤ t
    → view t s' k
      ≡ (if new_key == k then live t (some session) else if key == k then none else view t s k)

move-view :
    (key new_key : String) (t1 : ℕ) (found : Option Session) (s : Store)
    → IsKept s
    → Dict.get key s.sessions ≡ found
    → (move key new_key t1 found s).0 ≡ ok true
    → (session : Session) × (found ≡ some session)
      × (Dict.get new_key s.sessions ≡ none)
      × Rotated key new_key t1 s (move key new_key t1 found s).1 session
unfolding move
move-view key new_key t1 none s h e done = ground arith
move-view key new_key t1 (some (v, x)) s h e done = (
  (v, x),
  refl,
  ground arith,
  λ t k le. ground (
    arith,
    view-prune t1 t (moved key new_key (v, x) s) k (moved-IsKept key new_key v x s e h) le,
    get-put new_key k (v, x) (Dict.pop key s.sessions),
    get-pop key k s.sessions,
  ),
)

-- Where `rotate` succeeds, the session was live under the old key; from then on it is seen under the
-- new key until the expiry that it had, nothing is seen under the old key, and the other sessions
-- are seen as before. So a rotation never extends a session.
pub rotate-view :
    (key new_key : String) (t0 t1 : ℕ) (s : Store)
    → IsValid s
    → t0 ≤ t1
    → (rotate key new_key t0 t1 s).0 ≡ ok true
    → (session : Session) × (view t0 s key ≡ some session)
      × (view t0 s new_key ≡ none)
      × Rotated key new_key t1 s (rotate key new_key t0 t1 s).1 session
unfolding rotate
rotate-view key new_key t0 t1 s h le done =
    let s' = prune t0 s in
    let (session, found, free, after) =
      move-view key new_key t1 _ s' (prune-IsKept t0 s h.0) refl done in
    (
      session,
      sym (get-prune t0 s key h.0) ∙ found,
      sym (get-prune t0 s new_key h.0) ∙ free,
      λ t k le'. ground (arith, after t k le', view-prune t0 t s k h.0 (omega arith)),
    )
