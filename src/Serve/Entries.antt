-- ===== src/Serve/Entries.antt =====
-- The entries of `_peer_locks` of `MulticastApp` beside the tasks of a client.
use mathlib.Core.List.{Memᴰ}
use mathlib.Core.Path.{subst}
use wire_rpc.Prelude.{
  ℕ, ◌+◌, ◌-◌, ◌<◌, ◌≡◌, refl, sym, ap, String, string_eq, Bool, true, false, not, Option, none,
  some, List, [], ◌∷◌, ◌++◌, ◌==◌, nat_eq, nat_beq_iff, count_by, count_by-append, All, All-split,
  All-mem, arith, beq_refl, if◌then◌else◌, if_both, Bool-cases, inl, inr,
}
use wire_rpc.Serve.{Task, lock_and_count}
use wire_rpc.Serve.Clients.{
  of_client, is_dispatching, HasLock, IsEntry, lock_of, none-HasLock, dispatching-of_client,
}

-- The entry that `_listen` writes, after the one that it found.
abbrev pub task_of : String → ℕ × ℕ → Task
task_of p found = record {
  client_id = p;
  lock = found.0;
  busy = not (found.1 == 0);
  inside = false;
}

pub accept-IsEntry :
    (o : Option (ℕ × ℕ)) (p : String) (made : ℕ) (tasks : List Task)
    → IsEntry o p tasks
    → IsEntry
        (some ((lock_and_count o made).0, (lock_and_count o made).1 + 1))
        p
        (task_of p (lock_and_count o made) ∷ tasks)
accept-IsEntry none p made tasks h = (
  omega arith,
  ground (arith, h, beq_refl p),
  ground (arith, h, beq_refl p, dispatching-of_client p tasks),
  (λ _. refl, none-HasLock p made tasks h),
)
accept-IsEntry (some (lock, count)) p made tasks (some_there, all_there, at_most_one, shared) = (
  omega arith,
  ground (arith, all_there, beq_refl p),
  ground (arith, at_most_one, some_there, beq_refl p),
  (λ _. refl, shared),
)

pub insert-All {ℓ} :
    (P : Task → Type ℓ) (before : List Task) (t : Task) (after : List Task)
    → P t
    → All P (before ++ after)
    → All P (before ++ t ∷ after)
insert-All P [] t after h all = (h, all)
insert-All P (b ∷ before) t after h all = (all.0, insert-All P before t after h all.1)

pub count_by-split :
    (p : Task → Bool) (before : List Task) (t : Task) (after : List Task)
    → count_by p (before ++ t ∷ after) ≡ count_by p (t ∷ []) + count_by p (before ++ after)
count_by-split p before t after =
    ground (arith, count_by-append p before (t ∷ after), count_by-append p before after)

-- Without a task of another client.
pub drop-IsEntry :
    (o : Option (ℕ × ℕ)) (p : String) (before : List Task) (t : Task) (after : List Task)
    → (t.client_id == p) ≡ false
    → IsEntry o p (before ++ t ∷ after)
    → IsEntry o p (before ++ after)
drop-IsEntry none p before t after other h =
    ground (arith, other, h, count_by-split (of_client p) before t after)
drop-IsEntry (some (lock, count)) p before t after other
      (some_there, all_there, at_most_one, shared) =
    (
      some_there,
      ground (arith, other, all_there, count_by-split (of_client p) before t after),
      ground (arith, other, at_most_one, count_by-split (is_dispatching p) before t after),
      (All-split (HasLock p lock) before t after shared).1,
    )

-- Without one of its own tasks.
pub less-IsEntry :
    (lock count : ℕ) (before : List Task) (t : Task) (after : List Task)
    → IsEntry (some (lock, count)) t.client_id (before ++ t ∷ after)
    → IsEntry (if count == 1 then none else some (t.lock, count - 1)) t.client_id (before ++ after)
less-IsEntry lock count before t after (some_there, all_there, at_most_one, shared) =
    let split = All-split (HasLock t.client_id lock) before t after shared in
    if_both (λ o. IsEntry o t.client_id (before ++ after)) (count == 1)
      (λ last. ground (
        arith,
        last,
        all_there,
        beq_refl t.client_id,
        nat_beq_iff count 1,
        count_by-split (of_client t.client_id) before t after,
      ))
      (λ more. (
        ground (arith, more, some_there, nat_beq_iff count 1),
        ground (
          arith,
          all_there,
          beq_refl t.client_id,
          count_by-split (of_client t.client_id) before t after,
        ),
        ground (arith, at_most_one, count_by-split (is_dispatching t.client_id) before t after),
        subst (λ l. All (HasLock t.client_id l) (before ++ after)) (sym (split.0 refl)) split.1,
      ))

-- A task that takes its lock.
pub enter-IsEntry :
    (o : Option (ℕ × ℕ)) (p : String) (before : List Task) (t : Task) (after : List Task)
    → IsEntry o p (before ++ t ∷ after)
    → IsEntry o p (before ++ record t { inside = true } ∷ after)
enter-IsEntry none p before t after h = ground (
  arith,
  h,
  count_by-split (of_client p) before t after,
  count_by-split (of_client p) before (record t { inside = true }) after,
)
enter-IsEntry (some (lock, count)) p before t after (some_there, all_there, at_most_one, shared) =
    let split = All-split (HasLock p lock) before t after shared in
    (
      some_there,
      ground (
        arith,
        all_there,
        count_by-split (of_client p) before t after,
        count_by-split (of_client p) before (record t { inside = true }) after,
      ),
      ground (
        arith,
        at_most_one,
        count_by-split (is_dispatching p) before t after,
        count_by-split (is_dispatching p) before (record t { inside = true }) after,
      ),
      insert-All (HasLock p lock) before (record t { inside = true }) after split.0 split.1,
    )

pub count_by-mem :
    (p : Task → Bool) (t : Task) (tasks : List Task)
    → Memᴰ t tasks
    → p t ≡ true
    → 0 < count_by p tasks
count_by-mem p t [] m h = elim m [ ]
count_by-mem p t (u ∷ tasks) (Memᴰ.head e) h = ground (arith, ap p e, h)
count_by-mem p t (u ∷ tasks) (Memᴰ.tail m) h = ground (arith, count_by-mem p t tasks m h)

-- The entry of the client of a task has the lock of the task.
pub lock_of-entry :
    (o : Option (ℕ × ℕ)) (t : Task) (tasks : List Task)
    → IsEntry o t.client_id tasks
    → Memᴰ t tasks
    → lock_of o ≡ some t.lock
lock_of-entry none t tasks h m =
    absurd
      (ground (arith, h, count_by-mem (of_client t.client_id) t tasks m (beq_refl t.client_id)))
lock_of-entry (some (lock, count)) t tasks h m =
    ap some (sym (All-mem (HasLock t.client_id lock) t tasks h.3 m refl))

-- Beside a task that dispatches, the others of its client are refused.
pub others-busy :
    (o : Option (ℕ × ℕ)) (before : List Task) (t : Task) (after : List Task) (u : Task)
    → IsEntry o t.client_id (before ++ t ∷ after)
    → t.busy ≡ false
    → Memᴰ u (before ++ after)
    → u.client_id ≡ t.client_id
    → u.busy ≡ true
others-busy none before t after u h free m same =
    absurd (
      ground
        (arith, h, count_by-split (of_client t.client_id) before t after, beq_refl t.client_id))
others-busy (some (lock, count)) before t after u h free m same = elim (Bool-cases u.busy) [
  | inl busy ↦ busy
  | inr dispatches ↦ absurd (
      ground (
        arith,
        h.2,
        count_by-split (is_dispatching t.client_id) before t after,
        beq_refl t.client_id,
        count_by-mem (is_dispatching t.client_id) u (before ++ after) m
            (ground (arith, dispatches, (string_eq.beq_iff u.client_id t.client_id).1 same)),
      ))
]

pub mem-insert :
    (before : List Task) (t : Task) (after : List Task) (u : Task)
    → Memᴰ u (before ++ after)
    → Memᴰ u (before ++ t ∷ after)
mem-insert [] t after u m = Memᴰ.tail m
mem-insert (b ∷ before) t after u (Memᴰ.head e) = Memᴰ.head e
mem-insert (b ∷ before) t after u (Memᴰ.tail m) = Memᴰ.tail (mem-insert before t after u m)

pub mem-middle : (before : List Task) (t : Task) (after : List Task) → Memᴰ t (before ++ t ∷ after)
mem-middle [] t after = Memᴰ.head refl
mem-middle (b ∷ before) t after = Memᴰ.tail (mem-middle before t after)
