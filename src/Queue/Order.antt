-- ===== src/Queue/Order.antt =====
-- The order in which `PayloadQueue` hands its items on, over any sequence of calls.
use wire_rpc.Prelude.{
  ℕ, ltb, some, if_both, ◌≡◌, ◌≢◌, refl, sym, ◌∙◌, Bool, false, List, [], ◌∷◌, ◌++◌, append_assoc,
  append-nil, keep, keep-append, All, arith, ◌==◌, Bool-cases, inl, inr,
}
use wire_rpc.Queue.{
  Attempt, finished, Peer, peer_eq, peer_beq_iff, Item, peer_of, size_of, Queue, new, put_attempt,
  put, get_items, get, drop_peer, close,
}
use wire_rpc.Queue.Invariant.{
  IsValid, new-IsValid, put_attempt-IsValid, close-IsValid, put-IsValid, get-IsValid,
  drop_peer-IsValid, others, items-drop_peer,
}

-- A call on the queue; `put_again_op` is a `put` that goes on after its wait, and `get_op` also a `get`
-- that does.
pub data Op : Type 0 where
  put_op put_again_op : Item → Op
  get_op close_op : Op
  drop_op : Peer → Op

-- The items that went in, in order, the items that came out, in order, and the queue left.
pub record Trace : Type 0 where
  pub accepted : List Item
  pub delivered : List Item
  pub left : Queue

abbrev accepted_by : Attempt Unit → Item → List Item
accepted_by (finished _) item = item ∷ []
accepted_by _ item = []

abbrev delivered_by : Attempt Item → List Item
delivered_by (finished item) = item ∷ []
delivered_by _ = []

unfoldable pub run : List Op → Queue → Trace
run [] q = record { accepted = []; delivered = []; left = q }
run (put_op item ∷ ops) q =
    let (outcome, q') = put item q in
    let t = run ops q' in record t { accepted = accepted_by outcome item ++ t.accepted }
run (put_again_op item ∷ ops) q =
    let (outcome, q') = put_attempt item q in
    let t = run ops q' in record t { accepted = accepted_by outcome item ++ t.accepted }
run (get_op ∷ ops) q =
    let (outcome, q') = get q in
    let t = run ops q' in record t { delivered = delivered_by outcome ++ t.delivered }
run (drop_op peer ∷ ops) q = run ops (drop_peer peer q)
run (close_op ∷ ops) q = run ops (close q)

-- No call of the sequence drops an item that the test selects.
abbrev pub Spares : (Item → Bool) → Op → Type 0
Spares sel (drop_op peer) = (item : Item) → peer_of item ≡ peer → sel item ≡ false
Spares sel close_op = (item : Item) → sel item ≡ false
Spares sel _ = Unit

keep-others :
    (sel : Item → Bool) (peer : Peer) (items : List Item)
    → Spares sel (drop_op peer)
    → keep sel (others peer items) ≡ keep sel items
keep-others sel peer [] h = refl
keep-others sel peer (item ∷ rest) h =
    ground (arith, keep-others sel peer rest h, peer_beq_iff (peer_of item) peer, h item)

keep-nothing : (sel : Item → Bool) (items : List Item) → Spares sel close_op → keep sel items ≡ []
keep-nothing sel [] h = refl
keep-nothing sel (item ∷ rest) h = ground (arith, keep-nothing sel rest h, h item)

put_attempt_order :
    (item : Item) (q : Queue)
    → (put_attempt item q).1.items ≡ q.items ++ accepted_by (put_attempt item q).0 item
unfolding put_attempt
put_attempt_order item q = ground (arith, append-nil q.items)

put_order :
    (item : Item) (q : Queue) → (put item q).1.items ≡ q.items ++ accepted_by (put item q).0 item
unfolding put put_attempt
put_order item q = ground (arith, append-nil q.items)

get_items_order :
    (q : Queue) (items : List Item)
    → q.items ≡ items
    → items ≡ delivered_by (get_items items q).0 ++ (get_items items q).1.items
unfolding get_items
get_items_order q [] e = ground arith
get_items_order q (item ∷ rest) e = refl

get_order : (q : Queue) → q.items ≡ delivered_by (get q).0 ++ (get q).1.items
unfolding get
get_order q = elim (Bool-cases q.closed) [
  | inl e ↦ ground arith
  | inr e ↦ ground (arith, get_items_order q q.items refl)
]

module _ (sel : Item → Bool) where
  -- Selected items come out in the order in which they went in, and none is lost or doubled.
  pub run_order :
      (ops : List Op) (q : Queue)
      → IsValid q
      → All (Spares sel) ops
      → keep sel q.items ++ keep sel (run ops q).accepted
        ≡ keep sel (run ops q).delivered ++ keep sel (run ops q).left.items
  unfolding run close
  run_order [] q v h = append-nil (keep sel q.items)
  run_order (put_op item ∷ ops) q v h =
      let (outcome, q') = put item q in
      let t = run ops q' in
      rw keep-append (
        cc (
          append_assoc (keep sel q.items) (keep sel (accepted_by outcome item))
              (keep sel t.accepted),
          keep-append sel q.items (accepted_by outcome item),
          put_order item q,
          run_order ops q' (put-IsValid item q v) h.1,
        ))
  run_order (put_again_op item ∷ ops) q v h =
      let (outcome, q') = put_attempt item q in
      let t = run ops q' in
      rw keep-append (
        cc (
          append_assoc (keep sel q.items) (keep sel (accepted_by outcome item))
              (keep sel t.accepted),
          keep-append sel q.items (accepted_by outcome item),
          put_attempt_order item q,
          run_order ops q' (put_attempt-IsValid item q v) h.1,
        ))
  run_order (get_op ∷ ops) q v h =
      let (outcome, q') = get q in
      let t = run ops q' in
      rw keep-append (
        cc (
          append_assoc (keep sel (delivered_by outcome)) (keep sel q'.items) (keep sel t.accepted),
          append_assoc (keep sel (delivered_by outcome)) (keep sel t.delivered)
              (keep sel t.left.items),
          keep-append sel (delivered_by outcome) q'.items,
          get_order q,
          run_order ops q' (get-IsValid q v) h.1,
        ))
  run_order (drop_op peer ∷ ops) q v h = cc (
    run_order ops (drop_peer peer q) (drop_peer-IsValid peer q v) h.1,
    items-drop_peer peer q v,
    keep-others sel peer q.items h.0,
  )
  run_order (close_op ∷ ops) q v h =
      cc (run_order ops (close q) (close-IsValid q v) h.1, keep-nothing sel q.items h.0)

abbrev pub from_peer : Peer → Item → Bool
from_peer peer item = peer_of item == peer

-- The call does not drop the peer, nor everything.
abbrev pub KeepsPeer : Peer → Op → Type 0
KeepsPeer peer (drop_op p) = p ≢ peer
KeepsPeer peer close_op = ⊥
KeepsPeer peer _ = Unit

KeepsPeer-Spares :
    (peer : Peer) (ops : List Op) → All (KeepsPeer peer) ops → All (Spares (from_peer peer)) ops
KeepsPeer-Spares peer [] h = h
KeepsPeer-Spares peer (put_op item ∷ ops) h = (tt, KeepsPeer-Spares peer ops h.1)
KeepsPeer-Spares peer (put_again_op item ∷ ops) h = (tt, KeepsPeer-Spares peer ops h.1)
KeepsPeer-Spares peer (get_op ∷ ops) h = (tt, KeepsPeer-Spares peer ops h.1)
KeepsPeer-Spares peer (close_op ∷ ops) h = absurd h.0
KeepsPeer-Spares peer (drop_op p ∷ ops) h = (
  λ item e. elim (Bool-cases (peer_of item == peer)) [
    | inl same ↦ absurd (h.0 (sym e ∙ (peer_beq_iff _ _).0 same))
    | inr other ↦ other
  ],
  KeepsPeer-Spares peer ops h.1,
)

-- Over any calls of `put`, `get` and `drop_peer` on a valid queue, resumed ones included, that do not
-- drop the peer itself and do not close the queue, the items of the peer that were queued and accepted
-- are those delivered and left, in that order.
pub run-fifo :
    (peer : Peer) (ops : List Op) (q : Queue)
    → IsValid q
    → All (KeepsPeer peer) ops
    → keep (from_peer peer) q.items ++ keep (from_peer peer) (run ops q).accepted
      ≡ keep (from_peer peer) (run ops q).delivered ++ keep (from_peer peer) (run ops q).left.items
run-fifo peer ops q v h = run_order (from_peer peer) ops q v (KeepsPeer-Spares peer ops h)

run-IsValid_from : (ops : List Op) (q : Queue) → IsValid q → IsValid (run ops q).left
unfolding run
run-IsValid_from [] q v = v
run-IsValid_from (put_op item ∷ ops) q v =
    run-IsValid_from ops (put item q).1 (put-IsValid item q v)
run-IsValid_from (put_again_op item ∷ ops) q v =
    run-IsValid_from ops (put_attempt item q).1 (put_attempt-IsValid item q v)
run-IsValid_from (get_op ∷ ops) q v = run-IsValid_from ops (get q).1 (get-IsValid q v)
run-IsValid_from (drop_op peer ∷ ops) q v =
    run-IsValid_from ops (drop_peer peer q) (drop_peer-IsValid peer q v)
run-IsValid_from (close_op ∷ ops) q v = run-IsValid_from ops (close q) (close-IsValid q v)

-- No call changes a limit.
abbrev pub SameLimits : Queue → Queue → Type 0
SameLimits q r = (r.maxsize ≡ q.maxsize) × (r.max_bytes ≡ q.max_bytes) × (r.per_peer ≡ q.per_peer)

get_items-SameLimits : (items : List Item) (q : Queue) → SameLimits q (get_items items q).1
unfolding get_items
get_items-SameLimits [] q = (refl, refl, refl)
get_items-SameLimits (item ∷ rest) q = (refl, refl, refl)

put_attempt-SameLimits : (item : Item) (q : Queue) → SameLimits q (put_attempt item q).1
unfolding put_attempt
put_attempt-SameLimits item q = ground arith

put-SameLimits : (item : Item) (q : Queue) → SameLimits q (put item q).1
unfolding put
put-SameLimits item q =
    if_both (λ (r : Attempt Unit × Queue). SameLimits q r.1) (ltb q.max_bytes (size_of item))
      (λ _. (refl, refl, refl)) (λ _. put_attempt-SameLimits item q)

get-SameLimits : (q : Queue) → SameLimits q (get q).1
unfolding get
get-SameLimits q =
    if_both (λ (r : Attempt Item × Queue). SameLimits q r.1) q.closed (λ _. (refl, refl, refl))
      (λ _. get_items-SameLimits q.items q)

SameLimits-trans : (q r t : Queue) → SameLimits q r → SameLimits r t → SameLimits q t
SameLimits-trans q r t (a, b, c) (d, e, f) = (d ∙ a, e ∙ b, f ∙ c)

run-SameLimits : (ops : List Op) (q : Queue) → SameLimits q (run ops q).left
unfolding run drop_peer close
run-SameLimits [] q = (refl, refl, refl)
run-SameLimits (put_op item ∷ ops) q =
    SameLimits-trans q (put item q).1 (run ops (put item q).1).left (put-SameLimits item q)
      (run-SameLimits ops (put item q).1)
run-SameLimits (put_again_op item ∷ ops) q =
    SameLimits-trans q (put_attempt item q).1 (run ops (put_attempt item q).1).left
      (put_attempt-SameLimits item q) (run-SameLimits ops (put_attempt item q).1)
run-SameLimits (get_op ∷ ops) q =
    SameLimits-trans q (get q).1 (run ops (get q).1).left (get-SameLimits q)
      (run-SameLimits ops (get q).1)
run-SameLimits (drop_op peer ∷ ops) q = run-SameLimits ops (drop_peer peer q)
run-SameLimits (close_op ∷ ops) q = run-SameLimits ops (close q)

abbrev pub HasLimits : ℕ → ℕ → ℕ → Queue → Type 0
HasLimits maxsize max_bytes per_peer q =
    (q.maxsize ≡ maxsize) × (q.max_bytes ≡ max_bytes) × (q.per_peer ≡ per_peer)

new-HasLimits :
    (maxsize max_bytes per_peer : ℕ) {q : Queue}
    → new maxsize max_bytes per_peer ≡ some q
    → HasLimits maxsize max_bytes per_peer q
unfolding new
new-HasLimits maxsize max_bytes per_peer h = ground arith

-- A queue that the constructor accepts keeps its three limits and is valid after any calls of `put`,
-- `get`, `drop_peer` and `close`, in any order and with attempts of `put` and `get` that go on after
-- their wait: it has at most `maxsize` items and `max_bytes` bytes, and at most `per_peer` items of each
-- peer; `_bytes` and `_counts` are exact; and a closed queue is empty.
pub run-IsValid :
    (maxsize max_bytes per_peer : ℕ) {q : Queue} (ops : List Op)
    → new maxsize max_bytes per_peer ≡ some q
    → IsValid (run ops q).left × HasLimits maxsize max_bytes per_peer (run ops q).left
run-IsValid maxsize max_bytes per_peer {q} ops made =
    let (a, b, c) = new-HasLimits maxsize max_bytes per_peer made in
    let (d, e, f) = run-SameLimits ops q in
    (run-IsValid_from ops q (new-IsValid maxsize max_bytes per_peer made), (d ∙ a, e ∙ b, f ∙ c))
