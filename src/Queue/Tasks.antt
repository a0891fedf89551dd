-- ===== src/Queue/Tasks.antt =====
-- Tasks that share one `PayloadQueue` on an event loop. Between two waits a coroutine runs alone,
-- so a schedule is a sequence of attempts. `_changed.clear(); await _changed.wait()` puts a task to
-- sleep; `_changed.set()` makes every sleeper ready, in an order that the loop chooses.
pub mod Wakeup
use mathlib.Core.List.{Memᴰ}
use wire_rpc.Prelude.{
  ℕ, ◌+◌, ◌≤◌, ◌<◌, ◌≡◌, refl, Bool, true, false, ◌&&◌, some, List, [], ◌∷◌, ◌++◌, length, sum_by,
  All, All-append, arith, ltb, leb, if◌then◌else◌, Option, count_by, ◌==◌, beq_refl,
}
use wire_rpc.Queue.{
  Attempt, finished, raised, waiting, Peer, Item, peer_of, size_of, Queue, new, count_of, has_room,
  put_attempt, put, get_items, get, drop_peer, close,
}
use wire_rpc.Queue.Invariant.{
  IsValid, new-IsValid, put_attempt-IsValid, put-IsValid, get-IsValid, drop_peer-IsValid,
  close-IsValid, tally, count_of-exact,
}

pub data Call : Type 0 where
  putting : Item → Call
  getting : Call

pub record System : Type 0 where
  pub queue : Queue
  pub sleepers : List Call
  pub ready : List Call

-- What an attempt does to the tasks; the item that `get` returns goes to its task.
pub data Effect : Type 0 where
  done failed asleep : Effect

abbrev pub effect : {A : Type 0} → Attempt A × Queue → Effect × Queue
effect (finished _, q) = (done, q)
effect (raised _, q) = (failed, q)
effect (waiting, q) = (asleep, q)

-- The code of a task from its start to its first wait, and from a wake-up to the next wait.
abbrev pub first_attempt : Call → Queue → Effect × Queue
first_attempt (putting item) q = effect (put item q)
first_attempt getting q = effect (get q)

abbrev pub next_attempt : Call → Queue → Effect × Queue
next_attempt (putting item) q = effect (put_attempt item q)
next_attempt getting q = effect (get q)

-- A finished attempt has called `_changed.set()`, and a waiting one sleeps.
abbrev pub settle : Call → Effect × Queue → List Call → List Call → System
settle call (done, q) sleepers ready = record {
  queue = q;
  sleepers = [];
  ready = ready ++ sleepers;
}
settle call (failed, q) sleepers ready = record { queue = q; sleepers = sleepers; ready = ready }
settle call (asleep, q) sleepers ready = record {
  queue = q;
  sleepers = call ∷ sleepers;
  ready = ready;
}

pub data Step : System → System → Type 0 where
  start :
      (s : System) (call : Call)
      → Step s (settle call (first_attempt call s.queue) s.sleepers s.ready)
  resume :
      (q : Queue) (sleepers before after : List Call) (call : Call)
      → Step
          (record { queue = q; sleepers = sleepers; ready = before ++ call ∷ after })
          (settle call (next_attempt call q) sleepers (before ++ after))
  cancel_sleeper :
      (q : Queue) (before after ready : List Call) (call : Call)
      → Step
          (record { queue = q; sleepers = before ++ call ∷ after; ready = ready })
          (record { queue = q; sleepers = before ++ after; ready = ready })
  cancel_ready :
      (q : Queue) (sleepers before after : List Call) (call : Call)
      → Step
          (record { queue = q; sleepers = sleepers; ready = before ++ call ∷ after })
          (record { queue = q; sleepers = sleepers; ready = before ++ after })
  drop :
      (s : System) (peer : Peer)
      → Step s
          (record { queue = drop_peer peer s.queue; sleepers = []; ready = s.ready ++ s.sleepers })
  shut :
      (s : System)
      → Step s (record { queue = close s.queue; sleepers = []; ready = s.ready ++ s.sleepers })

-- The states that the tasks of a new queue can reach.
pub data Reach (q : Queue) : System → Type 0 where
  here : Reach q (record { queue = q; sleepers = []; ready = [] })
  next : {s t : System} → Reach q s → Step s t → Reach q t
