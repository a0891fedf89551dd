-- ===== src/Queue/Examples.antt =====
-- Runs of `PayloadQueue` on small inputs, and the theorems about it at such inputs.
use mathlib.Core.List.{Memᴰ}
use wire_rpc.Prelude.{◌≡◌, ◌≢◌, refl, false, some, List, [], ◌∷◌, ◌++◌, All, keep}
use wire_rpc.Prelude.Dict
use wire_rpc.Queue.{
  Peer, Item, plain, tagged, Queue, new, put, put_attempt, get, count_of, drop_peer, close, raised,
  connection_error, value_error, peer_beq, peer_beq_iff, release, drop_items,
}
use wire_rpc.Queue.Invariant.{IsValid, new-IsValid}
use wire_rpc.Queue.Order.{
  Op, put_op, put_again_op, get_op, drop_op, close_op, run, from_peer, run-fifo, HasLimits,
  run-IsValid,
}
use wire_rpc.Queue.Tasks.{System, putting, getting, start, Reach, here, next}
use wire_rpc.Queue.Tasks.Wakeup.{Blocked, no_lost_wakeup, no_deadlock}

abbrev small : Queue
small = record {
  maxsize = 2;
  max_bytes = 4;
  per_peer = 1;
  items = [];
  bytes = 0;
  counts = [];
  changed = false;
  closed = false;
}

new-small : new 2 4 1 ≡ some small
unfolding new
new-small = refl

small-IsValid : IsValid small
small-IsValid = new-IsValid 2 4 1 new-small

abbrev a1 : Item
a1 = tagged "a" (1 ∷ 2 ∷ [])

abbrev b1 : Item
b1 = tagged "b" (3 ∷ [])

abbrev mixed : List Op
mixed = put_op a1 ∷ put_op b1 ∷ put_op a1 ∷ drop_op (some "b") ∷ get_op ∷ put_op a1 ∷ []

-- The second item of "a" has to wait for the first; the item of "b" is dropped.
mixed_runs :
    ((run mixed small).accepted ≡ a1 ∷ b1 ∷ a1 ∷ []) × ((run mixed small).delivered ≡ a1 ∷ [])
unfolding run put get count_of drop_peer peer_beq Dict.get Dict.put Dict.pop release drop_items
mixed_runs = (refl, refl)

too_big : (put (plain (1 ∷ 2 ∷ 3 ∷ 4 ∷ 5 ∷ [])) small).0 ≡ raised value_error
unfolding put
too_big = refl

closed_raises : (get (close small)).0 ≡ raised connection_error
unfolding get close
closed_raises = refl

abbrev then_closed : List Op
then_closed = put_op a1 ∷ put_op a1 ∷ get_op ∷ put_again_op a1 ∷ close_op ∷ put_op b1 ∷ []

closed_run :
    ((run then_closed small).accepted ≡ a1 ∷ a1 ∷ []) × ((run then_closed small).left.items ≡ [])
unfolding run put put_attempt get close count_of peer_beq Dict.get Dict.put Dict.pop release
closed_run = (refl, refl)

run-IsValid_example :
    IsValid (run then_closed small).left × HasLimits 2 4 1 (run then_closed small).left
run-IsValid_example = run-IsValid 2 4 1 then_closed new-small

b_ne_a : ◌≢◌ {A = Peer} (some "b") (some "a")
unfolding peer_beq
b_ne_a e = cc ((peer_beq_iff (some "b") (some "a")).1 e)

run-fifo_example :
    keep (from_peer (some "a")) [] ++ keep (from_peer (some "a")) (run mixed small).accepted
    ≡ keep (from_peer (some "a")) (run mixed small).delivered
      ++ keep (from_peer (some "a")) (run mixed small).left.items
run-fifo_example =
    run-fifo (some "a") mixed small small-IsValid (tt, (tt, (tt, (b_ne_a, (tt, (tt, tt))))))

-- The first `put` is accepted, the second sleeps on the budget of its peer.
abbrev one_waits : System
one_waits = record { queue = (put a1 (put a1 small).1).1; sleepers = putting a1 ∷ []; ready = [] }

Reach-one_waits : Reach small one_waits
unfolding put count_of peer_beq Dict.get Dict.put
Reach-one_waits = next (next here (start _ (putting a1))) (start _ (putting a1))

no_lost_wakeup_example : All (Blocked one_waits.queue) (putting a1 ∷ [])
no_lost_wakeup_example = no_lost_wakeup 2 4 1 new-small Reach-one_waits

no_deadlock_example : ¬ Memᴰ getting one_waits.sleepers
no_deadlock_example = no_deadlock 2 4 1 a1 new-small Reach-one_waits (Memᴰ.head refl)
