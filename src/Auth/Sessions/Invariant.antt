-- ===== src/Auth/Sessions/Invariant.antt =====
-- Every operation of the store keeps its sessions within the capacity and its heap in step.
use mathlib.Core.List.{Memᴰ}
use mathlib.Core.Path.{subst}
use wire_rpc.Prelude.{
  ℕ, ◌+◌, ◌*◌, ◌≤◌, ◌≡◌, refl, String, string_eq, Bool, Option, none, some, List, [], ◌∷◌, length,
  arith, leb, nat_eq, ◌==◌, if_both, Bool-cases, inl, inr,
}
use wire_rpc.Prelude.Dict
use wire_rpc.Prelude.Dict.{
  Dict, get-put, get-pop, UniqueKeys, put-UniqueKeys, pop-UniqueKeys, length-put, length-pop,
  length-pop_there,
}
use wire_rpc.Auth.Sessions.{
  Session, Due, Store, Result, heappush, prune, is_there, insert, create, get, destroy, move,
  rotate, pop_all, drop_keys, revoke,
}
use wire_rpc.Auth.Sessions.Heap.{
  heappush-IsSorted, length-heappush, mem-heappush_self, mem-heappush,
}
use wire_rpc.Auth.Sessions.Prune.{Covers, IsKept, prune-IsKept, length-prune}

Covers-put :
    (heap : List Due) (d : Dict String Session) (key value : String) (expiry : ℕ)
    → Covers heap d
    → Covers (heappush (expiry, key) heap) (Dict.put key (value, expiry) d)
Covers-put heap d key value expiry c k v e found = elim (Bool-cases (key == k)) [
  | inl same ↦
      let k_eq : k ≡ key = ground (arith, string_eq.beq_iff key k) in
      let e_eq : e ≡ expiry = ground (arith, get-put key k (value, expiry) d) in
      subst (λ (x : Due). Memᴰ x (heappush (expiry, key) heap)) (ground (arith, k_eq, e_eq))
        (mem-heappush_self (expiry, key) heap)
  | inr other ↦
      mem-heappush (expiry, key) (e, k) heap
        (c k v e (ground (arith, get-put key k (value, expiry) d)))
]

Covers-pop :
    (heap : List Due) (d : Dict String Session) (key : String)
    → Covers heap d
    → Covers heap (Dict.pop key d)
Covers-pop heap d key c k v e found = c k v e (ground (arith, get-pop key k d))

-- The heap is at most one pair over the bound at which it is rebuilt.
abbrev pub IsBounded : Store → Type 0
IsBounded s = length s.expiry ≤ 2 * s.max_sessions + 1

abbrev pub IsValid : Store → Type 0
IsValid s = IsKept s × IsBounded s

-- Whatever the heap was, `_prune` bounds it.
max-prune : (now : ℕ) (s : Store) → (prune now s).max_sessions ≡ s.max_sessions
unfolding prune
max-prune now s = refl

prune-IsValid : (now : ℕ) (s : Store) → IsKept s → IsValid (prune now s)
prune-IsValid now s h = (prune-IsKept now s h, omega (arith, length-prune now s h, max-prune now s))

-- Two pairs for each session, after a prune.
abbrev IsPruned : Store → Type 0
IsPruned s = IsKept s × (length s.expiry ≤ 2 * s.max_sessions)

prune-IsPruned : (now : ℕ) (s : Store) → IsKept s → IsPruned (prune now s)
prune-IsPruned now s h =
    (prune-IsKept now s h, omega (arith, length-prune now s h, max-prune now s))

IsPruned-IsValid : (s : Store) → IsPruned s → IsValid s
IsPruned-IsValid s h = (h.0, omega (arith, h.1))

insert-IsValid :
    (key value : String) (now : ℕ) (s : Store) → IsPruned s → IsValid (insert key value now s).1
unfolding insert
insert-IsValid key value now s h =
    if_both (λ (r : Result Unit × Store). IsValid r.1) (is_there (Dict.get key s.sessions))
      (λ _. IsPruned-IsValid s h)
      (λ _.
        if_both (λ (r : Result Unit × Store). IsValid r.1) (leb s.max_sessions (length s.sessions))
          (λ _. IsPruned-IsValid s h)
          (λ room. (
            record {
              sorted = heappush-IsSorted (now + s.ttl, key) s.expiry h.0.sorted;
              covers = Covers-put s.expiry s.sessions key value (now + s.ttl) h.0.covers;
              unique = put-UniqueKeys key (value, now + s.ttl) s.sessions h.0.unique;
              within = ground (arith, room, length-put key (value, now + s.ttl) s.sessions);
            },
            omega (arith, length-heappush (now + s.ttl, key) s.expiry, h.1),
          )))

-- `create` keeps the store valid: no more sessions than allowed, and a heap that covers them.
pub create-IsValid :
    (key value : String) (t0 t1 : ℕ) (s : Store) → IsValid s → IsValid (create key value t0 t1 s).1
unfolding create
create-IsValid key value t0 t1 s h =
    insert-IsValid key value t1 (prune t0 s) (prune-IsPruned t0 s h.0)

pub get-IsValid : (key : String) (t0 : ℕ) (s : Store) → IsValid s → IsValid (get key t0 s).1
unfolding get
get-IsValid key t0 s h = prune-IsValid t0 s h.0

pub pop-IsKept :
    (key : String) (s : Store) → IsKept s → IsKept (record s { sessions = Dict.pop key s.sessions })
pop-IsKept key s h = record {
  sorted = h.sorted;
  covers = Covers-pop s.expiry s.sessions key h.covers;
  unique = pop-UniqueKeys key s.sessions h.unique;
  within = omega (arith, length-pop key s.sessions, h.within);
}

pub destroy-IsValid :
    (key : String) (t0 t1 : ℕ) (s : Store) → IsValid s → IsValid (destroy key t0 t1 s)
unfolding destroy
destroy-IsValid key t0 t1 s h =
    prune-IsValid t1 _ (pop-IsKept key (prune t0 s) (prune-IsKept t0 s h.0))

-- The store between the move of a session and the last prune of `rotate`.
abbrev pub moved : String → String → Session → Store → Store
moved key new_key session s = record s {
  sessions = Dict.put new_key session (Dict.pop key s.sessions);
  expiry = heappush (session.1, new_key) s.expiry;
}

pub moved-IsKept :
    (key new_key v : String) (t : ℕ) (s : Store)
    → Dict.get key s.sessions ≡ some (v, t)
    → IsKept s
    → IsKept (moved key new_key (v, t) s)
moved-IsKept key new_key v t s e h = record {
  sorted = heappush-IsSorted (t, new_key) s.expiry h.sorted;
  covers =
      Covers-put s.expiry (Dict.pop key s.sessions) new_key v t
        (Covers-pop s.expiry s.sessions key h.covers);
  unique = put-UniqueKeys new_key (v, t) _ (pop-UniqueKeys key s.sessions h.unique);
  within = omega (
    arith,
    length-put new_key (v, t) (Dict.pop key s.sessions),
    length-pop_there key s.sessions (λ gone. cc),
    h.within,
  );
}

move-IsValid :
    (key new_key : String) (t1 : ℕ) (found : Option Session) (s : Store)
    → Dict.get key s.sessions ≡ found
    → IsPruned s
    → IsValid (move key new_key t1 found s).1
unfolding move
move-IsValid key new_key t1 none s e h = IsPruned-IsValid s h
move-IsValid key new_key t1 (some (v, t)) s e h =
    if_both (λ (r : Result Bool × Store). IsValid r.1) (is_there (Dict.get new_key s.sessions))
      (λ _. IsPruned-IsValid s h) (λ _. prune-IsValid t1 _ (moved-IsKept key new_key v t s e h.0))

pub rotate-IsValid :
    (key new_key : String) (t0 t1 : ℕ) (s : Store)
    → IsValid s
    → IsValid (rotate key new_key t0 t1 s).1
unfolding rotate
rotate-IsValid key new_key t0 t1 s h =
    move-IsValid key new_key t1 _ (prune t0 s) refl (prune-IsPruned t0 s h.0)

pub pop_all-IsKept :
    (keys : List String) (s : Store)
    → IsKept s
    → IsKept (record s { sessions = pop_all keys s.sessions })
unfolding pop_all
pop_all-IsKept [] s h = h
pop_all-IsKept (key ∷ keys) s h = pop_all-IsKept keys _ (pop-IsKept key s h)

drop_keys-IsValid :
    (keys : Option (List String)) (t1 : ℕ) (s : Store)
    → IsPruned s
    → IsValid (drop_keys keys t1 s).1
unfolding drop_keys
drop_keys-IsValid none t1 s h = IsPruned-IsValid s h
drop_keys-IsValid (some keys) t1 s h = prune-IsValid t1 _ (pop_all-IsKept keys s h.0)

pub revoke-IsValid :
    (principal_of : String → Option String) (user : String) (t0 t1 : ℕ) (s : Store)
    → IsValid s
    → IsValid (revoke principal_of user t0 t1 s).1
unfolding revoke
revoke-IsValid principal_of user t0 t1 s h =
    drop_keys-IsValid _ t1 (prune t0 s) (prune-IsPruned t0 s h.0)
