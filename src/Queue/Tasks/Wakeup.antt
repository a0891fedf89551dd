-- ===== src/Queue/Tasks/Wakeup.antt =====
-- No wake-up is lost: in every state that the tasks of a queue reach, a sleeping task could not go
-- on if it were woken.
use mathlib.Core.List.{Memᴰ}
use wire_rpc.Prelude.{
  ℕ, ◌≤◌, ◌<◌, ◌≡◌, refl, true, false, some, List, [], ◌++◌, All, All-append, All-split, All-mem,
  All-map, arith,
}
use wire_rpc.Queue.{
  Attempt, finished, raised, waiting, Peer, Item, peer_of, size_of, Queue, new, has_room,
  put_attempt, put, get, drop_peer, close,
}
use wire_rpc.Queue.Invariant.{
  IsValid, new-IsValid, put_attempt-IsValid, put-IsValid, get-IsValid, drop_peer-IsValid,
  close-IsValid, count_of-exact,
}
use wire_rpc.Queue.Tasks.{
  Call, putting, getting, System, Effect, done, failed, asleep, effect, first_attempt, next_attempt,
  settle, Step, start, resume, cancel_sleeper, cancel_ready, drop, shut, Reach, here, next,
}

-- What a sleeping task waits for is not there.
abbrev pub Blocked : Queue → Call → Type 0
Blocked q (putting item) = (q.closed ≡ false) × (has_room q (peer_of item) (size_of item) ≡ false)
Blocked q getting = (q.closed ≡ false) × (q.items ≡ [])

-- The payload passed the first test of `put`.
abbrev pub Fits : ℕ → Call → Type 0
Fits max_bytes (putting item) = size_of item ≤ max_bytes
Fits max_bytes getting = Unit

effect-queue : {A : Type 0} (r : Attempt A × Queue) → (effect r).1 ≡ r.1
effect-queue (finished a, q) = refl
effect-queue (raised e, q) = refl
effect-queue (waiting, q) = refl

module _ (maxsize max_bytes per_peer : ℕ) where
  pub record HasLimits (q : Queue) : Type 0 where
    pub maxsize_eq : q.maxsize ≡ maxsize
    pub max_bytes_eq : q.max_bytes ≡ max_bytes
    pub per_peer_eq : q.per_peer ≡ per_peer

  pub record IsSound (s : System) : Type 0 where
    pub valid : IsValid s.queue
    pub limits : HasLimits s.queue
    pub blocked : All (Blocked s.queue) s.sleepers
    pub sleepers_fit : All (Fits max_bytes) s.sleepers
    pub ready_fit : All (Fits max_bytes) s.ready

  -- What an attempt leaves, for the task itself and for the sleepers.
  record Attempted (call : Call) (q : Queue) (r : Effect × Queue) : Type 0 where
    valid : IsValid r.1
    limits : HasLimits r.1
    failed_same : r.0 ≡ failed → r.1 ≡ q
    asleep_fits : r.0 ≡ asleep → Fits max_bytes call
    asleep_blocked : r.0 ≡ asleep → Blocked r.1 call
    asleep_same : r.0 ≡ asleep → (c : Call) → Blocked q c → Blocked r.1 c

  get-Attempted : (q : Queue) → IsValid q → HasLimits q → Attempted getting q (effect (get q))
  unfolding get
  get-Attempted q v l = record {
    valid = rw effect-queue (get-IsValid q v);
    limits = ground (arith);
    failed_same = ground (arith);
    asleep_fits = ground (arith);
    asleep_blocked = ground (arith);
    asleep_same = λ h. elim [ putting item ↦ ground arith | getting ↦ ground arith ];
  }

  next_Attempted :
      (call : Call) (q : Queue)
      → IsValid q
      → HasLimits q
      → Fits max_bytes call
      → Attempted call q (next_attempt call q)
  unfolding put_attempt
  next_Attempted getting q v l f = get-Attempted q v l
  next_Attempted (putting item) q v l f = record {
    valid = rw effect-queue (put_attempt-IsValid item q v);
    limits = ground (arith);
    failed_same = ground (arith);
    asleep_fits = λ h. f;
    asleep_blocked = ground (arith);
    asleep_same = λ h. elim [ putting item ↦ ground arith | getting ↦ ground arith ];
  }

  first_Attempted :
      (call : Call) (q : Queue) → IsValid q → HasLimits q → Attempted call q (first_attempt call q)
  unfolding put put_attempt
  first_Attempted getting q v l = get-Attempted q v l
  first_Attempted (putting item) q v l = record {
    valid = rw effect-queue (put-IsValid item q v);
    limits = ground (arith);
    failed_same = ground (arith);
    asleep_fits = ground (arith, l);
    asleep_blocked = ground (arith);
    asleep_same = λ h. elim [ putting item ↦ ground arith | getting ↦ ground arith ];
  }

  settle-IsSound :
      (call : Call) (q : Queue) (r : Effect × Queue) (sleepers ready : List Call)
      → Attempted call q r
      → All (Blocked q) sleepers
      → All (Fits max_bytes) sleepers
      → All (Fits max_bytes) ready
      → IsSound (settle call r sleepers ready)
  settle-IsSound call q (done, q') sleepers ready a b sf rf = record {
    valid = a.valid;
    limits = a.limits;
    blocked = tt;
    sleepers_fit = tt;
    ready_fit = All-append (Fits max_bytes) ready sleepers rf sf;
  }
  settle-IsSound call q (failed, q') sleepers ready a b sf rf = record {
    valid = a.valid;
    limits = a.limits;
    blocked = rw (a.failed_same refl) b;
    sleepers_fit = sf;
    ready_fit = rf;
  }
  settle-IsSound call q (asleep, q') sleepers ready a b sf rf = record {
    valid = a.valid;
    limits = a.limits;
    blocked =
        (a.asleep_blocked refl, All-map (Blocked q) (Blocked q') sleepers (a.asleep_same refl) b);
    sleepers_fit = (a.asleep_fits refl, sf);
    ready_fit = rf;
  }

  drop_peer-HasLimits : (peer : Peer) (q : Queue) → HasLimits q → HasLimits (drop_peer peer q)
  unfolding drop_peer
  drop_peer-HasLimits peer q l = record {
    maxsize_eq = l.maxsize_eq;
    max_bytes_eq = l.max_bytes_eq;
    per_peer_eq = l.per_peer_eq;
  }

  close-HasLimits : (q : Queue) → HasLimits q → HasLimits (close q)
  unfolding close
  close-HasLimits q l = record {
    maxsize_eq = l.maxsize_eq;
    max_bytes_eq = l.max_bytes_eq;
    per_peer_eq = l.per_peer_eq;
  }

  Step-IsSound : {s t : System} → Step s t → IsSound s → IsSound t
  Step-IsSound (start s call) h =
      settle-IsSound call s.queue _ s.sleepers s.ready
        (first_Attempted call s.queue h.valid h.limits) h.blocked h.sleepers_fit h.ready_fit
  Step-IsSound (resume q sleepers before after call) h =
      let (fits, rest) = All-split (Fits max_bytes) before call after h.ready_fit in
      settle-IsSound call q _ sleepers (before ++ after)
        (next_Attempted call q h.valid h.limits fits) h.blocked h.sleepers_fit rest
  Step-IsSound (cancel_sleeper q before after ready call) h = record {
    valid = h.valid;
    limits = h.limits;
    blocked = (All-split (Blocked q) before call after h.blocked).1;
    sleepers_fit = (All-split (Fits max_bytes) before call after h.sleepers_fit).1;
    ready_fit = h.ready_fit;
  }
  Step-IsSound (cancel_ready q sleepers before after call) h = record {
    valid = h.valid;
    limits = h.limits;
    blocked = h.blocked;
    sleepers_fit = h.sleepers_fit;
    ready_fit = (All-split (Fits max_bytes) before call after h.ready_fit).1;
  }
  Step-IsSound (drop s peer) h = record {
    valid = drop_peer-IsValid peer s.queue h.valid;
    limits = drop_peer-HasLimits peer s.queue h.limits;
    blocked = tt;
    sleepers_fit = tt;
    ready_fit = All-append (Fits max_bytes) s.ready s.sleepers h.ready_fit h.sleepers_fit;
  }
  Step-IsSound (shut s) h = record {
    valid = close-IsValid s.queue h.valid;
    limits = close-HasLimits s.queue h.limits;
    blocked = tt;
    sleepers_fit = tt;
    ready_fit = All-append (Fits max_bytes) s.ready s.sleepers h.ready_fit h.sleepers_fit;
  }

  new-HasLimits : {q : Queue} → new maxsize max_bytes per_peer ≡ some q → HasLimits q
  unfolding new
  new-HasLimits h = ground arith

  pub Reach-IsSound :
      {q : Queue} {s : System} → new maxsize max_bytes per_peer ≡ some q → Reach q s → IsSound s
  Reach-IsSound e here = record {
    valid = new-IsValid maxsize max_bytes per_peer e;
    limits = new-HasLimits e;
    blocked = tt;
    sleepers_fit = tt;
    ready_fit = tt;
  }
  Reach-IsSound e (next r st) = Step-IsSound st (Reach-IsSound e r)

  -- From a queue that the constructor accepts, in every state that tasks reach by starting, resuming
  -- in any order, being cancelled, dropping a peer or closing, each sleeping task is one whose next
  -- attempt could not finish: a sleeping `put` has no room, a sleeping `get` no item, and the queue
  -- is open.
  pub no_lost_wakeup :
      {q : Queue} {s : System}
      → new maxsize max_bytes per_peer ≡ some q
      → Reach q s
      → All (Blocked s.queue) s.sleepers
  no_lost_wakeup e r = (Reach-IsSound e r).blocked

  new_positive :
      {q : Queue}
      → new maxsize max_bytes per_peer ≡ some q
      → (0 < maxsize) × (0 < max_bytes) × (0 < per_peer)
  unfolding new
  new_positive h = ground arith

  -- An empty queue has room for every payload that passed the first test of `put`.
  empty_has_room :
      (q : Queue) (item : Item)
      → IsValid q
      → HasLimits q
      → (0 < maxsize) × (0 < max_bytes) × (0 < per_peer)
      → q.items ≡ []
      → size_of item ≤ max_bytes
      → has_room q (peer_of item) (size_of item) ≡ true
  empty_has_room q item v l p e f = ground (
    arith,
    count_of-exact q (peer_of item) v,
    v.bytes_exact,
    l.maxsize_eq,
    l.max_bytes_eq,
    l.per_peer_eq,
  )

  -- In every such state no `put` sleeps while a `get` sleeps: producers and consumers of the queue
  -- cannot wait for one another.
  pub no_deadlock :
      {q : Queue} {s : System} (item : Item)
      → new maxsize max_bytes per_peer ≡ some q
      → Reach q s
      → Memᴰ (putting item) s.sleepers
      → ¬ Memᴰ getting s.sleepers
  no_deadlock {s = s} item e r p g =
      let sound = Reach-IsSound e r in
      let full = All-mem (Blocked s.queue) (putting item) s.sleepers sound.blocked p in
      let empty = All-mem (Blocked s.queue) getting s.sleepers sound.blocked g in
      let fits = All-mem (Fits max_bytes) (putting item) s.sleepers sound.sleepers_fit p in
      cc
        (full.1, empty_has_room s.queue item sound.valid sound.limits (new_positive e) empty.1 fits)
