-- ===== src/Queue/Items.antt =====
-- What holds of every item of a `PayloadQueue` holds after each operation.
use mathlib.Core.Path.{subst}
use wire_rpc.Prelude.{◌≡◌, refl, not, List, [], ◌∷◌, All, All-append, arith, ltb, ◌==◌, if_both}
use wire_rpc.Queue.{
  Peer, peer_eq, Item, peer_of, size_of, Queue, Attempt, finished, has_room, put_attempt, put,
  get_items, get, drop_peer,
}
use wire_rpc.Queue.Invariant.{others}

module _ {ℓ} (P : Item → Type ℓ) where
  pub others-All : (peer : Peer) (items : List Item) → All P items → All P (others peer items)
  others-All peer [] h = tt
  others-All peer (item ∷ items) h =
      if_both (All P) (not (peer_of item == peer)) (λ _. (h.0, others-All peer items h.1))
        (λ _. others-All peer items h.1)

  pub put_attempt-All :
      (item : Item) (q : Queue) → P item → All P q.items → All P (put_attempt item q).1.items
  unfolding put_attempt
  put_attempt-All item q p h =
      if_both (λ (r : Attempt Unit × Queue). All P r.1.items) q.closed (λ _. h)
        (λ _.
          if_both (λ (r : Attempt Unit × Queue). All P r.1.items)
            (has_room q (peer_of item) (size_of item))
            (λ _. All-append P q.items (item ∷ []) h (p, tt)) (λ _. h))

  pub put-All : (item : Item) (q : Queue) → P item → All P q.items → All P (put item q).1.items
  unfolding put
  put-All item q p h =
      if_both (λ (r : Attempt Unit × Queue). All P r.1.items) (ltb q.max_bytes (size_of item))
        (λ _. h) (λ _. put_attempt-All item q p h)

  get_items-All :
      (items : List Item) (q : Queue)
      → All P items
      → All P q.items
      → All P (get_items items q).1.items
        × ((item : Item) → (get_items items q).0 ≡ finished item → P item)
  unfolding get_items
  get_items-All [] q h k = (k, λ item e. absurd (ground (arith, e)))
  get_items-All (i ∷ items) q h k = (h.1, λ item e. subst P (ground (arith, e)) h.0)

  -- What `get` gives was in the queue.
  pub get-All :
      (q : Queue)
      → All P q.items
      → All P (get q).1.items × ((item : Item) → (get q).0 ≡ finished item → P item)
  unfolding get
  get-All q h =
      if_both
        (λ (r : Attempt Item × Queue).
          All P r.1.items × ((item : Item) → r.0 ≡ finished item → P item))
        q.closed (λ _. (h, λ item e. absurd (ground (arith, e)))) (λ _. get_items-All q.items q h h)

-- None of them opens or closes the queue.
pub closed-put_attempt : (item : Item) (q : Queue) → (put_attempt item q).1.closed ≡ q.closed
unfolding put_attempt
closed-put_attempt item q =
    if_both (λ (r : Attempt Unit × Queue). r.1.closed ≡ q.closed) q.closed (λ _. refl)
      (λ _.
        if_both (λ (r : Attempt Unit × Queue). r.1.closed ≡ q.closed)
          (has_room q (peer_of item) (size_of item)) (λ _. refl) (λ _. refl))

pub closed-put : (item : Item) (q : Queue) → (put item q).1.closed ≡ q.closed
unfolding put
closed-put item q =
    if_both (λ (r : Attempt Unit × Queue). r.1.closed ≡ q.closed) (ltb q.max_bytes (size_of item))
      (λ _. refl) (λ _. closed-put_attempt item q)

closed-get_items : (items : List Item) (q : Queue) → (get_items items q).1.closed ≡ q.closed
unfolding get_items
closed-get_items [] q = refl
closed-get_items (i ∷ items) q = refl

pub closed-get : (q : Queue) → (get q).1.closed ≡ q.closed
unfolding get
closed-get q =
    if_both (λ (r : Attempt Item × Queue). r.1.closed ≡ q.closed) q.closed (λ _. refl)
      (λ _. closed-get_items q.items q)

pub closed-drop_peer : (peer : Peer) (q : Queue) → (drop_peer peer q).closed ≡ q.closed
unfolding drop_peer
closed-drop_peer peer q = refl
