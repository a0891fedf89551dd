-- ===== src/Auth/Sessions/Prune.antt =====
-- What `_prune` leaves: the sessions that have not expired, and only those.
use mathlib.Core.List.{Memᴰ}
use wire_rpc.Prelude.{
  ℕ, suc, ◌*◌, ◌≤◌, ◌<◌, ◌≡◌, ◌≢◌, refl, sym, ap, ◌∙◌, String, string_eq, Option, none, some, List,
  [], ◌∷◌, map, length, All-mem, arith, leb, ltb, nat_eq, ◌==◌, if◌then◌else◌, if_both, Bool-cases,
  Option-cases, inl, inr,
}
use wire_rpc.Prelude.Dict
use wire_rpc.Prelude.Dict.{Dict, get-pop, UniqueKeys, pop-UniqueKeys, length-pop}
use wire_rpc.Auth.Sessions.{Session, Due, Store, is_entry, pop_expired, due_of, rebuild, prune}
use wire_rpc.Auth.Sessions.Heap.{IsSorted, heapify-IsSorted, length-heapify, mem-heapify}

-- Every session has its pair in the heap.
abbrev pub Covers : List Due → Dict String Session → Type 0
Covers heap d = (k : String) (v : String) (e : ℕ) → Dict.get k d ≡ some (v, e) → Memᴰ (e, k) heap

-- A session that is not expired.
abbrev pub live : ℕ → Option Session → Option Session
live now none = none
live now (some (v, e)) = if ltb now e then some (v, e) else none

-- The sessions after one round of the loop.
abbrev round : ℕ → String → Dict String Session → Dict String Session
round expiry key d = if is_entry (Dict.get key d) expiry then Dict.pop key d else d

round-none :
    (e : ℕ) (k j : String) (d : Dict String Session)
    → Dict.get j d ≡ none
    → Dict.get j (round e k d) ≡ none
round-none e k j d h = ground (arith, get-pop k j d)

-- A round leaves a session alone unless it has the expiry of the round.
round_keeps :
    (e e' : ℕ) (k j v : String) (d : Dict String Session)
    → Dict.get j d ≡ some (v, e')
    → e ≢ e'
    → Dict.get j (round e k d) ≡ some (v, e')
round_keeps e e' k j v d h n = ground (arith, get-pop k j d, string_eq.beq_iff k j)

-- Nor does it change one: what is there after it was there before.
round_sub :
    (e : ℕ) (k j : String) (x : Session) (d : Dict String Session)
    → Dict.get j (round e k d) ≡ some x
    → Dict.get j d ≡ some x
round_sub e k j x d h = ground (arith, get-pop k j d)

round_pops :
    (e : ℕ) (k j v : String) (e' : ℕ) (d : Dict String Session)
    → e' ≡ e
    → j ≡ k
    → Dict.get j d ≡ some (v, e')
    → Dict.get j (round e k d) ≡ none
round_pops e k j v e' d p q h =
    ground (arith, ap (λ (i : String). Dict.get i d) q, get-pop k j d, string_eq.beq_iff k j)

round-UniqueKeys :
    (e : ℕ) (k : String) (d : Dict String Session) → UniqueKeys d → UniqueKeys (round e k d)
round-UniqueKeys e k d u =
    if_both UniqueKeys (is_entry (Dict.get k d) e) (λ _. pop-UniqueKeys k d u) (λ _. u)

length-round : (e : ℕ) (k : String) (d : Dict String Session) → length (round e k d) ≤ length d
length-round e k d = ground (arith, length-pop k d)

module _ (now : ℕ) where
  pop_sub :
      (heap : List Due) (d : Dict String Session) (j : String) (x : Session)
      → Dict.get j (pop_expired now heap d).1 ≡ some x
      → Dict.get j d ≡ some x
  unfolding pop_expired
  pop_sub [] d j x h = h
  pop_sub ((e, k) ∷ heap) d j x h = elim (Bool-cases (leb e now)) [
    | inl due ↦ round_sub e k j x d (pop_sub heap (round e k d) j x (ground arith))
    | inr later ↦ ground arith
  ]

  pop_none :
      (heap : List Due) (d : Dict String Session) (j : String)
      → Dict.get j d ≡ none
      → Dict.get j (pop_expired now heap d).1 ≡ none
  pop_none heap d j h = elim (Option-cases (Dict.get j (pop_expired now heap d).1)) [
    | inl e ↦ e
    | inr (x, e) ↦ absurd (cc (pop_sub heap d j x e))
  ]

  pop_keeps :
      (heap : List Due) (d : Dict String Session) (j v : String) (e' : ℕ)
      → Dict.get j d ≡ some (v, e')
      → now < e'
      → Dict.get j (pop_expired now heap d).1 ≡ some (v, e')
  unfolding pop_expired
  pop_keeps [] d j v e' h lt = h
  pop_keeps ((e, k) ∷ heap) d j v e' h lt = elim (Bool-cases (leb e now)) [
    | inl due ↦ ground (
      arith,
      due,
      pop_keeps heap (round e k d) j v e' (round_keeps e e' k j v d h (ground (arith, due))) lt,
    )
    | inr later ↦ ground (arith, later)
  ]

  -- An expired session that the heap knows is gone.
  pop_drops :
      (heap : List Due) (d : Dict String Session) (j v : String) (e' : ℕ)
      → IsSorted heap
      → Dict.get j d ≡ some (v, e')
      → Memᴰ (e', j) heap
      → e' ≤ now
      → Dict.get j (pop_expired now heap d).1 ≡ none
  unfolding pop_expired
  pop_drops [] d j v e' s h m le = elim m [ ]
  pop_drops ((e, k) ∷ heap) d j v e' s h (Memᴰ.head p) le =
      let same_expiry = ap (λ (x : Due). x.0) p in
      let same_key = ap (λ (x : Due). x.1) p in
      let popped = round_pops e k j v e' d same_expiry same_key h in
      ground (arith, same_expiry, pop_none heap (round e k d) j popped)
  pop_drops ((e, k) ∷ heap) d j v e' s h (Memᴰ.tail m) le =
      let later = All-mem (λ (x : Due). e ≤ x.0) (e', j) heap s.0 m in
      let rest : Dict.get j (pop_expired now heap (round e k d)).1 ≡ none =
        elim (Option-cases (Dict.get j (round e k d))) [
          | inl gone ↦ pop_none heap (round e k d) j gone
          | inr (x, found) ↦
              pop_drops heap (round e k d) j v e' s.1
                (found ∙ (sym (round_sub e k j x d found) ∙ h)) m le
        ] in
      ground (arith, later, rest)

  pop_exact :
      (heap : List Due) (d : Dict String Session) (j : String)
      → IsSorted heap
      → Covers heap d
      → Dict.get j (pop_expired now heap d).1 ≡ live now (Dict.get j d)
  pop_exact heap d j s c = elim (Option-cases (Dict.get j d)) [
    | inl gone ↦ rw gone (pop_none heap d j gone)
    | inr ((v, e), found) ↦ elim (Bool-cases (ltb now e)) [
      | inl alive ↦ ground (arith, pop_keeps heap d j v e found (ground arith))
      | inr dead ↦ ground (arith, pop_drops heap d j v e s found (c j v e found) (ground arith))
    ]
  ]

  pop_mem :
      (heap : List Due) (d : Dict String Session) (j : String) (e' : ℕ)
      → now < e'
      → Memᴰ (e', j) heap
      → Memᴰ (e', j) (pop_expired now heap d).0
  unfolding pop_expired
  pop_mem [] d j e' lt m = m
  pop_mem ((e, k) ∷ heap) d j e' lt (Memᴰ.head p) =
      if_both (λ (r : List Due × Dict String Session). Memᴰ (e', j) r.0) (leb e now)
        (λ due. absurd (ground (arith, due, ap (λ (x : Due). x.0) p))) (λ _. Memᴰ.head p)
  pop_mem ((e, k) ∷ heap) d j e' lt (Memᴰ.tail m) =
      if_both (λ (r : List Due × Dict String Session). Memᴰ (e', j) r.0) (leb e now)
        (λ due. pop_mem heap (round e k d) j e' lt m) (λ _. Memᴰ.tail m)

  pop-Covers :
      (heap : List Due) (d : Dict String Session)
      → IsSorted heap
      → Covers heap d
      → Covers (pop_expired now heap d).0 (pop_expired now heap d).1
  pop-Covers heap d s c k v e found =
      let was = pop_sub heap d k (v, e) found in
      pop_mem heap d k e (ground (arith, pop_exact heap d k s c)) (c k v e was)

  pop-IsSorted :
      (heap : List Due) (d : Dict String Session)
      → IsSorted heap
      → IsSorted (pop_expired now heap d).0
  unfolding pop_expired
  pop-IsSorted [] d s = s
  pop-IsSorted ((e, k) ∷ heap) d s =
      if_both (λ (r : List Due × Dict String Session). IsSorted r.0) (leb e now)
        (λ _. pop-IsSorted heap (round e k d) s.1) (λ _. s)

  pop-UniqueKeys_heap :
      (heap : List Due) (d : Dict String Session)
      → UniqueKeys d
      → UniqueKeys (pop_expired now heap d).1
  unfolding pop_expired
  pop-UniqueKeys_heap [] d u = u
  pop-UniqueKeys_heap ((e, k) ∷ heap) d u =
      if_both (λ (r : List Due × Dict String Session). UniqueKeys r.1) (leb e now)
        (λ _. pop-UniqueKeys_heap heap (round e k d) (round-UniqueKeys e k d u)) (λ _. u)

  length-pop_expired :
      (heap : List Due) (d : Dict String Session) → length (pop_expired now heap d).1 ≤ length d
  unfolding pop_expired
  length-pop_expired [] d = omega arith
  length-pop_expired ((e, k) ∷ heap) d =
      if_both (λ (r : List Due × Dict String Session). length r.1 ≤ length d) (leb e now)
        (λ _. omega (arith, length-pop_expired heap (round e k d), length-round e k d))
        (λ _. omega arith)

due_of-Covers : (d : Dict String Session) → Covers (map due_of d) d
unfolding Dict.get
due_of-Covers [] k v e found = cc
due_of-Covers ((j, (w, t)) ∷ d) k v e found = elim (Bool-cases (j == k)) [
  | inl same ↦ Memᴰ.head (ground (arith, string_eq.beq_iff j k))
  | inr other ↦ Memᴰ.tail (due_of-Covers d k v e (ground arith))
]

length-due_of : (d : Dict String Session) → length (map due_of d) ≡ length d
length-due_of [] = refl
length-due_of (x ∷ d) = ap suc (length-due_of d)

module _ (max_sessions : ℕ) (heap : List Due) (d : Dict String Session) where
  rebuild-Covers : Covers heap d → Covers (rebuild max_sessions (heap, d)).0 d
  unfolding rebuild
  rebuild-Covers c k v e found =
      if_both (Memᴰ (e, k)) (ltb (2 * max_sessions) (length heap))
        (λ _. mem-heapify (e, k) (map due_of d) (due_of-Covers d k v e found)) (λ _. c k v e found)

  rebuild-IsSorted : IsSorted heap → IsSorted (rebuild max_sessions (heap, d)).0
  unfolding rebuild
  rebuild-IsSorted s =
      if_both IsSorted (ltb (2 * max_sessions) (length heap)) (λ _. heapify-IsSorted (map due_of d))
        (λ _. s)

  length-rebuild :
      length d ≤ max_sessions → length (rebuild max_sessions (heap, d)).0 ≤ 2 * max_sessions
  unfolding rebuild
  length-rebuild h = ground (arith, length-heapify (map due_of d), length-due_of d)

  sessions-rebuild : (rebuild max_sessions (heap, d)).1 ≡ d
  unfolding rebuild
  sessions-rebuild = refl

-- What `_prune` relies on and keeps.
pub record IsKept (s : Store) : Type 0 where
  pub sorted : IsSorted s.expiry
  pub covers : Covers s.expiry s.sessions
  pub unique : UniqueKeys s.sessions
  pub within : length s.sessions ≤ s.max_sessions

module _ (now : ℕ) (s : Store) where
  -- The sessions after `_prune` are exactly the live ones.
  pub get-prune :
      (k : String) → IsKept s → Dict.get k (prune now s).sessions ≡ live now (Dict.get k s.sessions)
  unfolding prune rebuild
  get-prune k h = pop_exact now s.expiry s.sessions k h.sorted h.covers

  pub prune-IsKept : IsKept s → IsKept (prune now s)
  unfolding prune
  prune-IsKept h =
      let heap = (pop_expired now s.expiry s.sessions).0 in
      let d = (pop_expired now s.expiry s.sessions).1 in
      record {
        sorted =
            rebuild-IsSorted s.max_sessions heap d (pop-IsSorted now s.expiry s.sessions h.sorted);
        covers =
            rebuild-Covers s.max_sessions heap d
              (pop-Covers now s.expiry s.sessions h.sorted h.covers);
        unique = pop-UniqueKeys_heap now s.expiry s.sessions h.unique;
        within = omega (arith, length-pop_expired now s.expiry s.sessions, h.within);
      }

  -- After `_prune` the heap holds at most two pairs for each session allowed.
  pub length-prune : IsKept s → length (prune now s).expiry ≤ 2 * s.max_sessions
  unfolding prune
  length-prune h =
      length-rebuild s.max_sessions _ _
        (omega (arith, length-pop_expired now s.expiry s.sessions, h.within))
