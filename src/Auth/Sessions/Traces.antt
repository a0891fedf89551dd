-- ===== src/Auth/Sessions/Traces.antt =====
-- Any sequence of calls of `_execute` on a new store.
use wire_rpc.Prelude.{ℕ, ◌+◌, ◌*◌, String, Option, List, [], ◌∷◌, arith}
use wire_rpc.Auth.Sessions.{Store, empty, create, get, destroy, rotate, revoke}
use wire_rpc.Auth.Sessions.Invariant.{
  IsValid, create-IsValid, get-IsValid, destroy-IsValid, rotate-IsValid, revoke-IsValid,
}

-- A call with its arguments and the readings of the clock that it makes.
pub data Operation : Type 0 where
  creating : String → String → ℕ → ℕ → Operation
  getting : String → ℕ → Operation
  destroying : String → ℕ → ℕ → Operation
  rotating : String → String → ℕ → ℕ → Operation
  revoking : String → ℕ → ℕ → Operation

module _ (principal_of : String → Option String) where
  -- The store after `_execute`, on every branch of it.
  unfoldable pub execute : Operation → Store → Store
  execute (creating key value t0 t1) s = (create key value t0 t1 s).1
  execute (getting key t0) s = (get key t0 s).1
  execute (destroying key t0 t1) s = destroy key t0 t1 s
  execute (rotating key new_key t0 t1) s = (rotate key new_key t0 t1 s).1
  execute (revoking user t0 t1) s = (revoke principal_of user t0 t1 s).1

  unfoldable pub execute_all : List Operation → Store → Store
  execute_all [] s = s
  execute_all (x ∷ xs) s = execute_all xs (execute x s)

  execute-IsValid : (x : Operation) (s : Store) → IsValid s → IsValid (execute x s)
  unfolding execute
  execute-IsValid (creating key value t0 t1) s h = create-IsValid key value t0 t1 s h
  execute-IsValid (getting key t0) s h = get-IsValid key t0 s h
  execute-IsValid (destroying key t0 t1) s h = destroy-IsValid key t0 t1 s h
  execute-IsValid (rotating key new_key t0 t1) s h = rotate-IsValid key new_key t0 t1 s h
  execute-IsValid (revoking user t0 t1) s h = revoke-IsValid principal_of user t0 t1 s h

  execute_all-IsValid_from :
      (xs : List Operation) (s : Store) → IsValid s → IsValid (execute_all xs s)
  unfolding execute_all
  execute_all-IsValid_from [] s h = h
  execute_all-IsValid_from (x ∷ xs) s h =
      execute_all-IsValid_from xs (execute x s) (execute-IsValid x s h)

pub empty-IsValid : (ttl max_sessions : ℕ) → IsValid (empty ttl max_sessions)
unfolding wire_rpc.Prelude.Dict.get
empty-IsValid ttl max_sessions = (
  record { sorted = tt; covers = λ k v e found. absurd cc; unique = tt; within = omega arith },
  omega arith,
)

-- Whatever operations are run on a new store, with whatever readings of the clock, it has at most
-- `max_sessions` sessions, one for each key, its heap is in order and knows the expiry of every
-- session, and the heap has at most one pair more than two for each session allowed.
pub execute_all-IsValid :
    (principal_of : String → Option String) (ttl max_sessions : ℕ) (xs : List Operation)
    → IsValid (execute_all principal_of xs (empty ttl max_sessions))
execute_all-IsValid principal_of ttl max_sessions xs =
    execute_all-IsValid_from principal_of xs (empty ttl max_sessions)
      (empty-IsValid ttl max_sessions)
