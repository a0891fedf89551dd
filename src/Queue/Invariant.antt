-- ===== src/Queue/Invariant.antt =====
-- The accounts of `PayloadQueue`: what `_bytes` and `_counts` say of `_items`, within the limits.
use wire_rpc.Prelude.{
  ℕ, zero, suc, ◌+◌, ◌-◌, ◌≤◌, ◌≡◌, refl, true, not, Option, none, some, List, [], ◌∷◌, length,
  length-append, sum_by, sum_by-append, count_by, count_by-append, keep, arith, ltb, ◌==◌, beq_refl,
  if◌then◌else◌, Bool-cases, if_both, inl, inr,
}
use native.Mathlib.Numerals.{add-one}
use wire_rpc.Prelude.Dict
use wire_rpc.Prelude.Dict.{Dict, get-put, get-pop}
use wire_rpc.Queue.{
  Attempt, Peer, peer_eq, peer_beq_iff, Item, peer_of, size_of, Queue, new, or_zero, count_of,
  put_attempt, put, release, get_items, get, drop_items, drop_peer, close,
}

-- How many items a peer holds.
abbrev pub tally : Peer → List Item → ℕ
tally p = count_by (λ item. peer_of item == p)

-- The entry that `_counts` has for a number of items: none for 0.
abbrev pub entry : ℕ → Option ℕ
entry zero = none
entry (suc n) = some (suc n)

pub record IsValid (q : Queue) : Type 0 where
  pub items_fit : length q.items ≤ q.maxsize
  pub bytes_exact : q.bytes ≡ sum_by size_of q.items
  pub bytes_fit : q.bytes ≤ q.max_bytes
  pub counts_exact : (p : Peer) → Dict.get p q.counts ≡ entry (tally p q.items)
  pub peers_fit : (p : Peer) → tally p q.items ≤ q.per_peer
  pub closed_empty : q.closed ≡ true → q.items ≡ []

or_zero-entry : (n : ℕ) → or_zero (entry n) ≡ n
or_zero-entry zero = refl
or_zero-entry (suc n) = refl

pub count_of-exact : (q : Queue) (p : Peer) → IsValid q → count_of p q.counts ≡ tally p q.items
unfolding count_of
count_of-exact q p v = rw (v.counts_exact p) (or_zero-entry _)

-- A queue that the constructor accepts is valid.
pub new-IsValid :
    (maxsize max_bytes per_peer : ℕ) {q : Queue}
    → new maxsize max_bytes per_peer ≡ some q
    → IsValid q
unfolding new Dict.get
new-IsValid m b p h = ground arith

entry-suc : (n : ℕ) → entry (n + 1) ≡ some (n + 1)
entry-suc n = rw add-one

module _ (item : Item) (q : Queue) (v : IsValid q) where
  pub put_attempt-IsValid : IsValid (put_attempt item q).1
  unfolding put_attempt
  put_attempt-IsValid = record {
    items_fit = ground (arith, length-append q.items (item ∷ []), v.items_fit);
    bytes_exact = ground (arith, sum_by-append size_of q.items (item ∷ []), v.bytes_exact);
    bytes_fit = ground (arith, v.bytes_fit);
    counts_exact = λ p. ground (
      arith,
      get-put (peer_of item) p (count_of (peer_of item) q.counts + 1) q.counts,
      count_of-exact q (peer_of item) v,
      count_by-append (λ item. peer_of item == p) q.items (item ∷ []),
      peer_beq_iff (peer_of item) p,
      entry-suc (tally p q.items),
      v.counts_exact p,
    );
    peers_fit = λ p. ground (
      arith,
      count_of-exact q (peer_of item) v,
      count_by-append (λ item. peer_of item == p) q.items (item ∷ []),
      peer_beq_iff (peer_of item) p,
      v.peers_fit p,
    );
    closed_empty = ground (arith, v.closed_empty);
  }

  -- `put` keeps the accounts exact and within the limits, on every branch.
  pub put-IsValid : IsValid (put item q).1
  unfolding put
  put-IsValid = elim (Bool-cases (ltb q.max_bytes (size_of item))) [
    | inl e ↦ rw e v
    | inr e ↦ rw e put_attempt-IsValid
  ]

get-release :
    (peer p : Peer) (d : Dict Peer ℕ) (n : ℕ) (items : List Item)
    → Dict.get peer d ≡ some (suc n)
    → Dict.get p (release peer d) ≡ (if peer == p then entry n else Dict.get p d)
unfolding release count_of
get-release peer p d zero items h = ground (arith, get-pop peer p d)
get-release peer p d (suc n) items h = ground (arith, get-put peer p (suc n) d)

module _ (item : Item) (rest : List Item) (q : Queue) (v : IsValid q)
    (e : q.items ≡ item ∷ rest) where
  get_items-IsValid : IsValid (get_items (item ∷ rest) q).1
  unfolding get_items
  get_items-IsValid = record {
    items_fit = ground (arith, v.items_fit);
    bytes_exact = ground (arith, v.bytes_exact);
    bytes_fit = ground (arith, v.bytes_fit);
    counts_exact = λ p. ground (
      arith,
      get-release (peer_of item) p q.counts (tally (peer_of item) rest) rest,
      beq_refl (peer_of item),
      v.counts_exact (peer_of item),
      peer_beq_iff (peer_of item) p,
      v.counts_exact p,
    );
    peers_fit = λ p. ground (arith, v.peers_fit p);
    closed_empty = λ h. ground (arith, v.closed_empty h);
  }

get_cases :
    (items : List Item) (q : Queue) → IsValid q → q.items ≡ items → IsValid (get_items items q).1
unfolding get_items
get_cases [] q v e = record {
  items_fit = v.items_fit;
  bytes_exact = v.bytes_exact;
  bytes_fit = v.bytes_fit;
  counts_exact = v.counts_exact;
  peers_fit = v.peers_fit;
  closed_empty = v.closed_empty;
}
get_cases (item ∷ rest) q v e = get_items-IsValid item rest q v e

-- `get` keeps the accounts exact.
pub get-IsValid : (q : Queue) → IsValid q → IsValid (get q).1
unfolding get
get-IsValid q v =
    if_both (λ (r : Attempt Item × Queue). IsValid r.1) q.closed (λ _. v)
      (λ _. get_cases q.items q v refl)

abbrev pub others : Peer → List Item → List Item
others peer = keep (λ item. not (peer_of item == peer))

-- The loop of `drop_peer` filters the items and takes the size of each that goes off the total.
drop_items_lem :
    (peer : Peer) (items : List Item) (bytes : ℕ)
    → sum_by size_of items ≤ bytes
    → ((drop_items peer items bytes).0 ≡ others peer items)
      × ((drop_items peer items bytes).1 + sum_by size_of items
          ≡ bytes + sum_by size_of (others peer items))
unfolding drop_items
drop_items_lem peer [] bytes h = ground arith
drop_items_lem peer (item ∷ rest) bytes h = elim (Bool-cases (peer_of item == peer)) [
  | inl e ↦ rw e (
      let ih = drop_items_lem peer rest (bytes - size_of item) (omega arith) in
      (ih.0, omega (arith, ih.1)))
  | inr e ↦
      rw e (let ih = drop_items_lem peer rest bytes (omega arith) in (rw ih.0, omega (arith, ih.1)))
]

tally-others :
    (peer p : Peer) (items : List Item)
    → tally p (others peer items) ≡ (if peer == p then 0 else tally p items)
tally-others peer p [] = ground arith
tally-others peer p (item ∷ rest) = ground (
  arith,
  tally-others peer p rest,
  peer_beq_iff (peer_of item) p,
  peer_beq_iff (peer_of item) peer,
  peer_beq_iff peer p,
)

length-others : (peer : Peer) (items : List Item) → length (others peer items) ≤ length items
length-others peer [] = omega arith
length-others peer (item ∷ rest) = ground (arith, length-others peer rest)

sum-others :
    (peer : Peer) (items : List Item) → sum_by size_of (others peer items) ≤ sum_by size_of items
sum-others peer [] = omega arith
sum-others peer (item ∷ rest) = ground (arith, sum-others peer rest)

pub items-drop_peer :
    (peer : Peer) (q : Queue) → IsValid q → (drop_peer peer q).items ≡ others peer q.items
unfolding drop_peer
items-drop_peer peer q v = (drop_items_lem peer q.items q.bytes (omega (arith, v.bytes_exact))).0

-- `drop_peer` keeps the accounts exact.
pub drop_peer-IsValid : (peer : Peer) (q : Queue) → IsValid q → IsValid (drop_peer peer q)
unfolding drop_peer
drop_peer-IsValid peer q v =
    let dropped = drop_items_lem peer q.items q.bytes (omega (arith, v.bytes_exact)) in
    record {
      items_fit = rw dropped.0 (omega (arith, length-others peer q.items, v.items_fit));
      bytes_exact = rw dropped.0 (omega (arith, dropped.1, v.bytes_exact));
      bytes_fit = omega (arith, dropped.1, v.bytes_exact, v.bytes_fit, sum-others peer q.items);
      counts_exact = λ p.
          rw (dropped.0, get-pop peer p q.counts, tally-others peer p q.items)
            (ground (arith, v.counts_exact p));
      peers_fit = λ p. rw (dropped.0, tally-others peer p q.items) (ground (arith, v.peers_fit p));
      closed_empty = λ h. rw dropped.0 (rw (v.closed_empty h));
    }

-- `close` keeps the accounts exact.
pub close-IsValid : (q : Queue) → IsValid q → IsValid (close q)
unfolding close Dict.get
close-IsValid q v = ground arith
