-- ===== src/Auth/Sessions/Examples.antt =====
-- Runs of the session store on small inputs.
use wire_rpc.Prelude.{
  ℕ, ◌+◌, ◌≤◌, ◌≡◌, refl, String, string_eq, Bool, true, false, Option, none, some, List, [], ◌∷◌,
  length, ltb, leb, nat_eq, ◌==◌, if◌then◌else◌, PyEq, arith,
}
use wire_rpc.Prelude.Dict
use wire_rpc.Auth.Sessions.{
  Session, Store, Result, ok, err, empty, create, insert, get, destroy, rotate, revoke, move, prune,
  rebuild, pop_expired, heappush, heapify, record_of, keys_of, pop_all, drop_keys,
}
use wire_rpc.Auth.Sessions.Revoke.{revoke-view, Revoked}
use wire_rpc.Auth.Sessions.Invariant.{IsValid}
use wire_rpc.Auth.Sessions.Traces.{
  Operation, creating, getting, destroying, rotating, revoking, execute_all, empty-IsValid,
  execute_all-IsValid,
}
use wire_rpc.Auth.Sessions.View.{view, rotate-view, Rotated}

-- Every record is of its own text.
abbrev user_of : String → Option String
user_of value = some value

abbrev ops : List Operation
ops = creating "k1" "ann" 0 1 ∷ creating "k2" "bob" 5 5 ∷ []

execute_all-IsValid_example : IsValid (execute_all user_of (ops) (empty 10 2))
execute_all-IsValid_example = execute_all-IsValid user_of 10 2 ops

-- Two sessions: "k1" until 11, "k2" until 15.
abbrev two : Store
two = execute_all user_of ops (empty 10 2)

two-IsValid : IsValid two
two-IsValid = execute_all-IsValid user_of 10 2 ops

rotate-view_example :
    (session : Session) × (view 6 two "k1" ≡ some session)
    × (view 6 two "k3" ≡ none)
    × Rotated "k1" "k3" 7 two (rotate "k1" "k3" 6 7 two).1 session
unfolding rotate move prune rebuild pop_expired heappush wire_rpc.Prelude.Dict.get
    wire_rpc.Prelude.Dict.put wire_rpc.Prelude.Dict.pop execute_all
    wire_rpc.Auth.Sessions.Traces.execute create insert
rotate-view_example = rotate-view "k1" "k3" 6 7 two two-IsValid (omega arith) refl

-- At 11 the first session has expired, and the second has not.
expired : (get "k1" 11 two).0 ≡ none
unfolding get prune rebuild pop_expired heappush wire_rpc.Prelude.Dict.get wire_rpc.Prelude.Dict.put
    wire_rpc.Prelude.Dict.pop execute_all wire_rpc.Auth.Sessions.Traces.execute create insert
expired = refl

alive : (get "k2" 11 two).0 ≡ some "bob"
unfolding get prune rebuild pop_expired heappush wire_rpc.Prelude.Dict.get wire_rpc.Prelude.Dict.put
    wire_rpc.Prelude.Dict.pop execute_all wire_rpc.Auth.Sessions.Traces.execute create insert
alive = refl

revoke-view_example : Revoked user_of "ann" 6 7 two (revoke user_of "ann" 6 7 two)
revoke-view_example = revoke-view user_of "ann" 6 7 two two-IsValid (omega arith)
