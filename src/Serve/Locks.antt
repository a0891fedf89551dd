-- ===== src/Serve/Locks.antt =====
-- The locks and slots of `MulticastApp`: what `_peer_locks` says of the tasks.
use mathlib.Core.Path.{subst}
use wire_rpc.Prelude.{
  ℕ, suc, ◌+◌, ◌-◌, ◌<◌, ◌≤◌, ◌≡◌, ◌≢◌, refl, sym, ap, ◌∙◌, String, string_eq, Bool, true, false,
  Option, none, some, List, ◌∷◌, ◌++◌, ◌==◌, nat_eq, length, length-append, count_by, All,
  All-split, All-mem, All-of_mem, arith, beq_refl, if◌then◌else◌, if_both,
}
use wire_rpc.Prelude.Dict
use wire_rpc.Prelude.Dict.{Dict, get-put, get-pop}
use wire_rpc.Serve.{
  Task, Stage, acquiring, receiving, draining, Serve, new, acquired, lock_and_count, received,
  break_off, enter, fine, forget, finish, Step, Reach, here, next,
}
use wire_rpc.Serve.Entries.{
  lock_of-entry, others-busy, mem-insert, mem-middle, task_of, accept-IsEntry, insert-All,
  count_by-split, drop-IsEntry, less-IsEntry, enter-IsEntry,
}
use wire_rpc.Serve.Clients.{
  of_client, HasLock, IsEntry, is_held, IsMade, lock_of, IsHonest, found-IsOld, found-own,
  get-forgotten, IsUnshared, put-IsUnshared, pop-IsUnshared, IsMade-mono, put-IsMade, cons-IsEntry,
}

pub record Serving (max_concurrency free : ℕ) (peer_locks : Dict String (ℕ × ℕ)) (made : ℕ)
    (tasks : List Task) (stage : Stage) : Type 0 where
  pub entries : (p : String) → IsEntry (Dict.get p peer_locks) p tasks
  pub made_before : (p : String) → IsMade made (Dict.get p peer_locks)
  pub unshared :
      (p q : String) (lock : ℕ)
      → lock_of (Dict.get p peer_locks) ≡ some lock
      → lock_of (Dict.get q peer_locks) ≡ some lock
      → p ≡ q
  pub honest : All IsHonest tasks
  pub slots_fit : free + length tasks + is_held stage ≤ max_concurrency
  pub slots_exact : stage ≢ draining → free + length tasks + is_held stage ≡ max_concurrency

abbrev pub IsServing : Serve → Type 0
IsServing s = Serving s.max_concurrency s.free s.peer_locks s.locks_made s.tasks s.stage

-- A task that has this lock without ever taking it.
abbrev pub IsBehind : ℕ → Task → Type 0
IsBehind lock u = u.lock ≡ lock → (u.busy ≡ true) × (u.inside ≡ false)

module _ (s : Serve) (v : IsServing s) where
  acquired-IsServing :
      (has_slot sees_stop : Bool)
      → s.stage ≡ acquiring
      → (has_slot ≡ true → 0 < s.free)
      → IsServing (acquired has_slot sees_stop s)
  unfolding acquired
  acquired-IsServing true true at_start has = record {
    entries = v.entries;
    made_before = v.made_before;
    unshared = v.unshared;
    honest = v.honest;
    slots_fit = ground (arith, v.slots_fit);
    slots_exact = λ h. absurd (h refl);
  }
  acquired-IsServing false true at_start has = record {
    entries = v.entries;
    made_before = v.made_before;
    unshared = v.unshared;
    honest = v.honest;
    slots_fit = ground (arith, v.slots_fit);
    slots_exact = λ h. absurd (h refl);
  }
  acquired-IsServing true false at_start has = record {
    entries = v.entries;
    made_before = v.made_before;
    unshared = v.unshared;
    honest = v.honest;
    slots_fit = ground (arith, v.slots_fit, has refl);
    slots_exact = λ h. ground (arith, v.slots_exact, has refl);
  }
  acquired-IsServing false false at_start has = v

  -- A message that is received, and its task.
  accepted :
      (client_id : String) (stage : Stage)
      → s.stage ≡ receiving
      → is_held stage ≡ 0
      → let found = lock_and_count (Dict.get client_id s.peer_locks) s.locks_made in
        Serving s.max_concurrency s.free
          (Dict.put client_id (found.0, found.1 + 1) s.peer_locks)
          (s.locks_made + 1)
          (task_of client_id found ∷ s.tasks)
          stage
  accepted client_id stage in_hand none_held =
      let found = lock_and_count (Dict.get client_id s.peer_locks) s.locks_made in
      record {
        entries = λ p.
            subst (λ o. IsEntry o p (task_of client_id found ∷ s.tasks))
              (sym (get-put client_id p (found.0, found.1 + 1) s.peer_locks))
              (if_both (λ o. IsEntry o p (task_of client_id found ∷ s.tasks)) (client_id == p)
                (λ same.
                  subst
                    (λ p.
                      IsEntry (some (found.0, found.1 + 1)) p (task_of client_id found ∷ s.tasks))
                    ((string_eq.beq_iff client_id p).0 same)
                    (accept-IsEntry (Dict.get client_id s.peer_locks) client_id s.locks_made s.tasks
                      (v.entries client_id)))
                (λ other.
                  cons-IsEntry (Dict.get p s.peer_locks) p (task_of client_id found) s.tasks other
                    (v.entries p)));
        made_before = λ p.
            put-IsMade (s.locks_made + 1) client_id found.0 (found.1 + 1) s.peer_locks p
              (found-IsOld s.locks_made (Dict.get client_id s.peer_locks) (v.made_before client_id))
              (IsMade-mono s.locks_made (Dict.get p s.peer_locks) (v.made_before p));
        unshared =
            put-IsUnshared client_id found.0 (found.1 + 1) s.peer_locks
              (found-own s.locks_made s.peer_locks client_id (Dict.get client_id s.peer_locks) refl
                v.made_before v.unshared)
              v.unshared;
        honest = (λ e. absurd (ground (arith, e)), v.honest);
        slots_fit = omega (arith, v.slots_fit, none_held, ap is_held in_hand);
        slots_exact = λ h. omega (
          arith,
          none_held,
          v.slots_exact (λ d. absurd (ground (arith, d, in_hand))),
          ap is_held in_hand,
        );
      }

  received-IsServing :
      (client_id : Option String) → s.stage ≡ receiving → IsServing (received client_id s)
  unfolding received
  received-IsServing none in_hand = record {
    entries = v.entries;
    made_before = v.made_before;
    unshared = v.unshared;
    honest = v.honest;
    slots_fit = ground (arith, v.slots_fit);
    slots_exact = λ h. absurd (h refl);
  }
  received-IsServing (some client_id) in_hand =
      accepted client_id (if s.stopping then draining else acquiring) in_hand
        (if_both (λ stage. is_held stage ≡ 0) s.stopping (λ _. refl) (λ _. refl))

  break_off-IsServing : IsServing (break_off s)
  break_off-IsServing = record {
    entries = v.entries;
    made_before = v.made_before;
    unshared = v.unshared;
    honest = v.honest;
    slots_fit = omega (arith, v.slots_fit);
    slots_exact = λ h. absurd (h refl);
  }

  enter-IsServing :
      (before : List Task) (t : Task) (after : List Task)
      → s.tasks ≡ before ++ t ∷ after
      → t.busy ≡ false
      → IsServing (enter before t after s)
  enter-IsServing before t after e free =
      let same_length : length (before ++ record t { inside = true } ∷ after) ≡ length s.tasks =
        ground (
          arith,
          ap length e,
          length-append before (t ∷ after),
          length-append before (record t { inside = true } ∷ after),
        ) in
      record {
        entries = λ p.
            enter-IsEntry (Dict.get p s.peer_locks) p before t after
              (subst (IsEntry (Dict.get p s.peer_locks) p) e (v.entries p));
        made_before = v.made_before;
        unshared = v.unshared;
        honest =
            let split = All-split IsHonest before t after (subst (All IsHonest) e v.honest) in
            insert-All IsHonest before (record t { inside = true }) after (λ _. free) split.1;
        slots_fit = omega (arith, v.slots_fit, same_length);
        slots_exact = λ h. omega (arith, v.slots_exact h, same_length);
      }

  -- The entry that the `finally` reads is there.
  forget-IsServing :
      (o : Option (ℕ × ℕ)) (before : List Task) (t : Task) (after : List Task)
      → s.tasks ≡ before ++ t ∷ after
      → Dict.get t.client_id s.peer_locks ≡ o
      → IsServing (forget o t (before ++ after) s).1 × ((forget o t (before ++ after) s).0 ≡ fine)
  forget-IsServing none before t after e found = absurd (
      ground (
        arith,
        subst (λ o. IsEntry o t.client_id s.tasks) found (v.entries t.client_id),
        ap (count_by (of_client t.client_id)) e,
        count_by-split (of_client t.client_id) before t after,
        beq_refl t.client_id,
      ))
  forget-IsServing (some (lock, count)) before t after e found =
      let booked : (p : String) → IsEntry (Dict.get p s.peer_locks) p (before ++ t ∷ after) =
        λ p. subst (IsEntry (Dict.get p s.peer_locks) p) e (v.entries p) in
      let own : IsEntry (some (lock, count)) t.client_id (before ++ t ∷ after) =
        subst (λ o. IsEntry o t.client_id (before ++ t ∷ after)) found (booked t.client_id) in
      let has_lock : t.lock ≡ lock =
        (All-split (HasLock t.client_id lock) before t after own.3).0 refl in
      let shorter : length s.tasks ≡ suc (length (before ++ after)) =
        ground (arith, ap length e, length-append before (t ∷ after), length-append before after) in
      (
        record {
          entries = λ p.
              subst (λ o. IsEntry o p (before ++ after))
                (sym (get-forgotten t.client_id p t.lock count s.peer_locks))
                (if_both (λ o. IsEntry o p (before ++ after)) (t.client_id == p)
                  (λ same.
                    subst
                      (λ p.
                        IsEntry (if count == 1 then none else some (t.lock, count - 1)) p
                          (before ++ after))
                      ((string_eq.beq_iff t.client_id p).0 same)
                      (less-IsEntry lock count before t after own))
                  (λ other.
                    drop-IsEntry (Dict.get p s.peer_locks) p before t after other (booked p)));
          made_before = λ p.
              subst (IsMade s.locks_made)
                (sym (get-forgotten t.client_id p t.lock count s.peer_locks))
                (if_both (IsMade s.locks_made) (t.client_id == p)
                  (λ same.
                    if_both (IsMade s.locks_made) (count == 1) (λ last. tt)
                      (λ more. omega (
                        arith,
                        has_lock,
                        subst (IsMade s.locks_made) found (v.made_before t.client_id),
                      )))
                  (λ other. v.made_before p));
          unshared =
              if_both IsUnshared (count == 1)
                (λ _. pop-IsUnshared t.client_id s.peer_locks v.unshared)
                (λ _.
                  put-IsUnshared t.client_id t.lock (count - 1) s.peer_locks
                    (λ q h.
                      v.unshared t.client_id q t.lock (ap lock_of found ∙ ap some (sym has_lock)) h)
                    v.unshared);
          honest = (All-split IsHonest before t after (subst (All IsHonest) e v.honest)).1;
          slots_fit = omega (arith, v.slots_fit, shorter);
          slots_exact = λ h. omega (arith, v.slots_exact h, shorter);
        },
        refl,
      )

  finish-IsServing :
      (before : List Task) (t : Task) (after : List Task)
      → s.tasks ≡ before ++ t ∷ after
      → IsServing (finish before t after s).1 × ((finish before t after s).0 ≡ fine)
  unfolding finish
  finish-IsServing before t after e =
      forget-IsServing (Dict.get t.client_id s.peer_locks) before t after e refl

  -- The other tasks that have the lock of a task that is to dispatch are refused ones.
  lock-IsAlone :
      (before : List Task) (t : Task) (after : List Task)
      → s.tasks ≡ before ++ t ∷ after
      → t.busy ≡ false
      → All (IsBehind t.lock) (before ++ after)
  lock-IsAlone before t after e dispatches =
      let booked : (p : String) → IsEntry (Dict.get p s.peer_locks) p (before ++ t ∷ after) =
        λ p. subst (IsEntry (Dict.get p s.peer_locks) p) e (v.entries p) in
      let own =
        lock_of-entry (Dict.get t.client_id s.peer_locks) t (before ++ t ∷ after)
          (booked t.client_id) (mem-middle before t after) in
      All-of_mem (IsBehind t.lock) (before ++ after) (λ u m same_lock.
        let held =
          lock_of-entry (Dict.get u.client_id s.peer_locks) u (before ++ t ∷ after)
            (booked u.client_id) (mem-insert before t after u m) in
        let busy =
          others-busy (Dict.get t.client_id s.peer_locks) before t after u (booked t.client_id)
            dispatches m
            (v.unshared u.client_id t.client_id t.lock (held ∙ ap some same_lock) own) in
        let honest =
          All-mem IsHonest u (before ++ after)
            (All-split IsHonest before t after (subst (All IsHonest) e v.honest)).1 m in
        (busy, ground (arith, honest)))

step-IsServing : {s t : Serve} → Step s t → IsServing s → IsServing t
step-IsServing (Step.stops s) v = v
step-IsServing (Step.acquires s has_slot sees_stop at_start has stopped) v =
    acquired-IsServing s v has_slot sees_stop at_start has
step-IsServing (Step.receives s client_id in_hand) v = received-IsServing s v client_id in_hand
step-IsServing (Step.breaks_off s) v = break_off-IsServing s v
step-IsServing (Step.enters s before t after e free open_) v =
    enter-IsServing s v before t after e free
step-IsServing (Step.finishes s before t after e) v = (finish-IsServing s v before t after e).0

new-IsServing : (max_concurrency : ℕ) → IsServing (new max_concurrency)
unfolding Dict.get
new-IsServing max_concurrency = record {
  entries = λ p. refl;
  made_before = λ p. tt;
  unshared = λ p q lock h k. absurd (ground (arith, h));
  honest = tt;
  slots_fit = omega arith;
  slots_exact = λ h. omega arith;
}

Reach-valid : {start s : Serve} → Reach start s → IsServing start → IsServing s
Reach-valid here v = v
Reach-valid (next r step) v = step-IsServing step (Reach-valid r v)

-- In every state that `_listen` and its tasks reach, a client has an entry in `_peer_locks` just where
-- it has tasks, with their number and the one lock that they have, no two clients share a lock, at most
-- one task of a client is not refused, one that holds its lock is not refused, and the free slots, the
-- tasks and the slot that `_listen` has in hand are together at most `max_concurrency`, and just that
-- until the loop ends.
pub Reach-IsServing :
    (max_concurrency : ℕ) {s : Serve} → Reach (new max_concurrency) s → IsServing s
Reach-IsServing max_concurrency r = Reach-valid r (new-IsServing max_concurrency)

-- In every state that is reached, the `finally` of a task that dispatches finds the entry of its client,
-- and the other tasks that have its lock are refused and never hold it.
pub Reach-IsAlone :
    (max_concurrency : ℕ) {s : Serve} (before : List Task) (t : Task) (after : List Task)
    → Reach (new max_concurrency) s
    → s.tasks ≡ before ++ t ∷ after
    → t.busy ≡ false
    → ((finish before t after s).0 ≡ fine) × All (IsBehind t.lock) (before ++ after)
Reach-IsAlone max_concurrency {s} before t after r e dispatches =
    let v = Reach-IsServing max_concurrency r in
    ((finish-IsServing s v before t after e).1, lock-IsAlone s v before t after e dispatches)
