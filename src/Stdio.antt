-- ===== src/Stdio.antt =====
-- `_StdoutWriter` of wire_rpc/transports/stdio.py. Its thread is modelled by one step for each call that
-- the loop of the app can see between: `queue.get`, each `os.write`, and `_settle`, whose callback runs
-- later on that loop. The future of a write is its number; `posted` has the results whose callback is
-- scheduled and `settled` those of the futures that are done, in their order: true without an error.
-- `written` keeps the data of every `write` that returned, and `output` what the file descriptor has
-- taken. A loop that is closed, where `_settle` does nothing, is not modelled.
pub mod Parts
pub mod Keeps
pub mod Flushed
mod Examples
use wire_rpc.Prelude.{
  ℕ, zero, suc, ◌+◌, ◌≡◌, Bool, true, false, not, Option, none, some, List, [], ◌∷◌, ◌++◌, length,
  take, drop, if◌then◌else◌,
}
use wire_rpc.Envelope.{Bytes}

-- What the thread has taken off its queue: the data, and the view of what is left of it.
pub record Hand : Type 0 where
  pub data_ : Bytes
  pub view : Bytes

pub record Writer : Type 0 where
  pub queue : List (Option Bytes)
  pub closing : Bool
  pub last : Option ℕ
  -- Of `_run`: whether it has an error, and whether it has ended.
  pub error : Bool
  pub finished : Bool
  pub hand : Option Hand
  pub posted : List Bool
  pub settled : List Bool
  pub written : List Bytes
  pub output : Bytes

abbrev pub new : Writer
new = record {
  queue = [];
  closing = false;
  last = none;
  error = false;
  finished = false;
  hand = none;
  posted = [];
  settled = [];
  written = [];
  output = [];
}

pub data Outcome : Type 0 where
  connection_error os_error returned waits : Outcome

-- `write`
unfoldable pub write : Bytes → Writer → Outcome × Writer
write payload w = if w.closing then (connection_error, w) else (
  returned,
  record w {
    last = some (length w.written);
    queue = w.queue ++ some payload ∷ [];
    written = w.written ++ payload ∷ [];
  },
)

-- `close`
unfoldable pub close : Writer → Writer
close w = if w.closing then w else record w { closing = true; queue = w.queue ++ none ∷ [] }

-- item := self._queue.get(); it waits where the queue is empty.
abbrev pub take_first : List (Option Bytes) → Writer → Writer
take_first [] w = w
take_first (none ∷ rest) w = record w { queue = rest; finished = true }
take_first (some payload ∷ rest) w = record w {
  queue = rest;
  hand = some (record { data_ = payload; view = payload });
}

-- `os.write` takes so many bytes of the view, or raises an OSError.
abbrev pub write_out : Option ℕ → Hand → Writer → Writer
write_out (some n) h w = record w {
  output = w.output ++ take n h.view;
  hand = some (record h { view = drop n h.view });
}
write_out none h w = record w { error = true }

-- `_settle` of the future of the data in hand.
abbrev pub settle : Writer → Writer
settle w = record w { hand = none; posted = w.posted ++ not w.error ∷ [] }

-- if error is None, and while view
abbrev pub go_on : Option ℕ → Hand → Bytes → Writer → Writer
go_on wrote h [] w = settle w
go_on wrote h (byte ∷ view) w = if w.error then settle w else write_out wrote h w

abbrev pub handle : Option ℕ → Option Hand → Writer → Writer
handle wrote none w = take_first w.queue w
handle wrote (some h) w = go_on wrote h h.view w

-- A step of the thread: with nothing in hand, `get`; else the next write of it, or its settling.
unfoldable pub run_step : Option ℕ → Writer → Writer
run_step wrote w = handle wrote w.hand w

-- The callback of `_settle`, on the loop.
abbrev pub settle_first : List Bool → Writer → Writer
settle_first [] w = w
settle_first (b ∷ posted) w = record w { posted = posted; settled = w.settled ++ b ∷ [] }

unfoldable pub run_callback : Writer → Writer
run_callback w = settle_first w.posted w

abbrev pub result_at : ℕ → List Bool → Option Bool
result_at n [] = none
result_at zero (b ∷ bs) = some b
result_at (suc n) (b ∷ bs) = result_at n bs

abbrev pub conclude : Option Bool → Writer → Outcome × Writer
conclude none w = (waits, w)
conclude (some true) w = (returned, w)
conclude (some false) w = (os_error, record w { closing = true })

abbrev pub drain_for : Option ℕ → Writer → Outcome × Writer
drain_for none w = (returned, w)
drain_for (some n) w = conclude (result_at n w.settled) w

-- `drain`, with the number of the future that it began to wait for
unfoldable pub drain : Option ℕ → Writer → Outcome × Writer
drain last w = drain_for last w

pub data Step : Writer → Writer → Type 0 where
  writes : (w : Writer) (payload : Bytes) → Step w (write payload w).1
  closes : (w : Writer) → Step w (close w)
  runs : (w : Writer) (wrote : Option ℕ) → w.finished ≡ false → Step w (run_step wrote w)
  calls_back : (w : Writer) → Step w (run_callback w)
  drains : (w : Writer) (last : Option ℕ) → Step w (drain last w).1

pub data Reach (start : Writer) : Writer → Type 0 where
  here : Reach start start
  next : {w t : Writer} → Reach start w → Step w t → Reach start t
