-- ===== src/Http/Examples.antt =====
-- Runs of `HttpServerTransport` on small inputs.
use wire_rpc.Prelude.{ℕ, nat_eq, ◌≡◌, ◌≢◌, ◌≤◌, refl, true, none, some, string_eq, [], ◌∷◌}
use wire_rpc.Prelude.Dict
use wire_rpc.Envelope.{Bytes}
use wire_rpc.Http.{
  Server, new, admit, enqueue, finish, recv, recv_attempt, send, close, status, waits, returned,
  received, runtime_error, value_error, connection_error, key_error, replied, said, got,
  unavailable, principal, permission_error, principal_before, principal_after,
}
use wire_rpc.Http.Steps.{Reach, here, next, Step}
use wire_rpc.Http.Accounts.{Reach-IsAccounted}
use wire_rpc.Http.Queued.{IsAccounted}
use wire_rpc.Http.Given.{AllDelivered, count_got}
use wire_rpc.Http.Delivery.{Reach-AllDelivered}

-- Two requests, of 3 bytes and of 1, for a queue of at most 4 bytes.
abbrev body : Bytes
body = 1 ∷ 2 ∷ 3 ∷ []

abbrev empty : Server
empty = new 2 3 4

abbrev one : Server
one = (enqueue 0 (some "ann") body (admit true empty).1).1

abbrev two : Server
two = (enqueue 1 none (9 ∷ []) (admit true one).1).1

abbrev taken : Server
taken = (recv two).1

-- The first is answered.
abbrev answered : Server
answered = (send (7 ∷ []) taken).1

Reach-taken : Reach empty taken
unfolding admit enqueue Dict.get Dict.put
Reach-taken =
    next
      (next
        (next
          (next (next here (Step.admits _ true)) (Step.enqueues _ 0 (some "ann") body (refl, refl)))
          (Step.admits _ true))
        (Step.enqueues _ 1 none (9 ∷ []) (refl, refl)))
      (Step.receives _)

Reach-IsAccounted_example : IsAccounted taken × ((recv taken).0 ≢ key_error)
Reach-IsAccounted_example = Reach-IsAccounted 2 3 4 Reach-taken

Reach-AllDelivered_example :
    AllDelivered answered.futures answered.log × ((id : ℕ) → count_got id answered.log ≤ 1)
Reach-AllDelivered_example = Reach-AllDelivered 2 3 4 (next Reach-taken (Step.sends _ (7 ∷ [])))

runs :
    ((admit true two).0 ≡ status 503)
    × ((enqueue 0 none (1 ∷ 2 ∷ 3 ∷ 4 ∷ []) (admit true empty).1).0 ≡ status 413)
    × ((enqueue 1 none (1 ∷ 2 ∷ []) (admit true one).1).0 ≡ status 503)
    × ((recv two).0 ≡ received body)
    × ((recv taken).0 ≡ runtime_error)
    × (principal_before taken ≡ waits)
    × (principal_after (some (some "ann")) taken ≡ principal (some "ann"))
    × (principal_after (some (some "bob")) taken ≡ permission_error)
    × (answered.futures ≡ (0, replied (7 ∷ [])) ∷ [])
    × ((recv answered).0 ≡ received (9 ∷ []))
    × ((send [] empty).0 ≡ runtime_error)
    × ((recv (close two)).0 ≡ connection_error)
    × (Dict.get 1 (close two).futures ≡ some unavailable)
    × ((recv (finish 0 two)).0 ≡ received (9 ∷ []))
    × ((finish 0 two).queued_bytes ≡ 1)
unfolding admit enqueue Dict.get Dict.put recv recv_attempt wire_rpc.Http.take_live send close
    wire_rpc.Http.fail_all finish wire_rpc.Http.remove wire_rpc.Http.discard Dict.pop
    principal_before principal_after
runs = (refl, refl, refl, refl, refl, refl, refl, refl, refl, refl, refl, refl, refl, refl, refl)
