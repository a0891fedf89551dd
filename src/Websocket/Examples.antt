-- ===== src/Websocket/Examples.antt =====
-- Runs of the WebSocket servers on small inputs.
use wire_rpc.Prelude.{
  arith, nat_eq, ◌≡◌, ◌≢◌, refl, String, string_eq, Bool, true, false, none, some, [], ◌∷◌,
}
use wire_rpc.Prelude.Dict
use wire_rpc.Queue.{Queue, plain, tagged, or_zero}
use wire_rpc.Websocket.{
  Server, new, handle_ws, register, leave, let_go, offer, recv, send, deliver_failed,
  principal_before, principal_after, close, close_all, connection_error, permission_error,
  transport_error, key_error, writes, waits, received, principal_is, Step, Reach, here, next,
}
use wire_rpc.Websocket.Registered.{Registered, Reach-Registered}

abbrev queue : Queue
queue = record {
  maxsize = 4;
  max_bytes = 10;
  per_peer = 1;
  items = [];
  bytes = 0;
  counts = [];
  changed = false;
  closed = false;
}

abbrev start : Server
start = new true 1 5 queue

abbrev admitted : Server
admitted = (handle_ws start).1

abbrev registered : Server
registered = register (some (some "ann")) 7 "c1" admitted

-- A broadcast fails for the client.
abbrev failed : Server
failed = deliver_failed "c1" registered

abbrev lone : Server
lone = new false 9 5 queue

abbrev lone_registered : Server
lone_registered = register (some none) 7 "c1" (handle_ws lone).1

Reach-failed : Reach start failed
unfolding handle_ws register
Reach-failed =
    next
      (next (next here (Step.handles start))
        (Step.registers admitted (some (some "ann")) 7 "c1" (omega arith)))
      (Step.fails registered "c1" refl)

Reach-Registered_example :
    Registered failed
    × ((has_auth : Bool) (client_id : String)
        → principal_before has_auth client_id failed ≢ key_error)
Reach-Registered_example = Reach-Registered true 1 5 queue Reach-failed

runs :
    ((handle_ws admitted).0 ≡ false)
    × (principal_before true "c1" registered ≡ waits)
    × (principal_before true "c2" registered ≡ permission_error)
    × (principal_after (some (some "ann")) (some "ann") "c1" registered ≡ principal_is (some "ann"))
    × (principal_after (some none) (some "ann") "c1" registered ≡ permission_error)
    × (principal_after none none "c1" failed ≡ permission_error)
    × (send true "c1" (1 ∷ []) registered ≡ writes)
    × (send false "c1" (1 ∷ []) registered ≡ transport_error)
    × (send true "c1" (1 ∷ []) failed ≡ connection_error)
    × ((recv (offer "c1" (7 ∷ []) registered)).0 ≡ received (tagged "c1" (7 ∷ [])))
    × ((offer "c1" (1 ∷ 2 ∷ 3 ∷ 4 ∷ 5 ∷ 6 ∷ []) registered).reading ≡ 0)
    × ((leave "c1" registered).principals ≡ [])
    × ((handle_ws (leave "c1" registered)).0 ≡ false)
    × ((handle_ws (let_go (leave "c1" registered))).0 ≡ true)
    × (lone_registered.session_used ≡ true)
    × ((recv (offer "c1" (7 ∷ []) lone_registered)).0 ≡ received (plain (7 ∷ [])))
    × ((handle_ws (let_go (leave "unicast" lone_registered))).0 ≡ false)
    × ((recv (leave "unicast" lone_registered)).0 ≡ connection_error)
    × ((close_all (close registered)).requests ≡ [])
unfolding handle_ws register leave offer recv send principal_before principal_after deliver_failed
    close Dict.get Dict.put Dict.pop wire_rpc.Queue.put wire_rpc.Queue.put_attempt
    wire_rpc.Queue.get wire_rpc.Queue.drop_peer wire_rpc.Queue.close wire_rpc.Queue.count_of
runs = (
  refl, refl, refl, refl, refl, refl, refl, refl, refl, refl, refl, refl, refl, refl, refl, refl,
  refl, refl, refl,
)

-- The request and the principal of that client stay after its coroutine has ended.
left_behind :
    ((leave "c1" failed).requests ≡ ("c1", 7) ∷ [])
    × ((leave "c1" failed).principals ≡ ("c1", some "ann") ∷ [])
unfolding handle_ws register leave deliver_failed Dict.get Dict.put Dict.pop
left_behind = (refl, refl)
