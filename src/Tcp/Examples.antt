-- ===== src/Tcp/Examples.antt =====
-- Runs of the TCP server on small inputs.
use wire_rpc.Prelude.{nat_eq, ◌≡◌, refl, string_eq, true, false, none, some, [], ◌∷◌}
use wire_rpc.Prelude.Dict
use wire_rpc.Queue.{Queue, tagged, or_zero}
use wire_rpc.Tcp.{
  Reader, Server, new, handle_client, register, offer, leave, let_go, send, send_failed, recv,
  principal_before, principal_after, close, connection_error, permission_error, invalid_frame_size,
  idle_timeout, writes, received, principal_is, Step, Reach, here, next,
}
use wire_rpc.Tcp.Serving.{GivesTagged, Reach-IsServed}
use wire_rpc.Tcp.Slots.{IsServed}

abbrev queue : Queue
queue = record {
  maxsize = 4;
  max_bytes = 10;
  per_peer = 1;
  items = [];
  bytes = 0;
  counts = [];
  changed = false;
  closed = false;
}

abbrev start : Server
start = new 1 5 queue

abbrev joining : Reader
joining = record { client_id = "c1"; registered = false; held = none }

abbrev joined : Reader
joined = record { client_id = "c1"; registered = true; held = none }

-- One client is registered, and one frame of it is queued.
abbrev admitted : Server
admitted = (handle_client "c1" start).1

abbrev registered : Server
registered = register (some (some "ann")) [] joining [] admitted

abbrev offered : Server
offered = offer (7 ∷ []) [] joined [] registered

Reach-offered : Reach start offered
unfolding handle_client register leave Dict.get Dict.put
Reach-offered =
    next
      (next (next here (Step.handles start "c1"))
        (Step.registers admitted (some (some "ann")) [] joining [] refl refl))
      (Step.offers registered (7 ∷ []) [] joined [] refl refl refl)

Reach-IsServed_example : IsServed offered × GivesTagged offered (recv offered)
unfolding wire_rpc.Queue.new
Reach-IsServed_example = Reach-IsServed 1 5 4 10 1 queue refl Reach-offered

runs :
    ((handle_client "c2" admitted).0 ≡ false)
    × ((recv offered).0 ≡ received (tagged "c1" (7 ∷ [])))
    × ((offer (8 ∷ []) [] joined [] offered).readers ≡ record joined { held = some (8 ∷ []) } ∷ [])
    × ((send false "c1" (1 ∷ []) offered).0 ≡ writes)
    × ((send true "c1" (1 ∷ []) offered).0 ≡ idle_timeout)
    × ((send false "c1" [] offered).0 ≡ invalid_frame_size)
    × ((send false "c2" (1 ∷ []) offered).0 ≡ connection_error)
    × ((send_failed "c1" offered).queue.items ≡ [])
    × ((let_go (leave [] joined [] offered)).limiter.active ≡ 0)
    × ((principal_after none "c1" offered).0 ≡ principal_is (some "ann"))
    × ((principal_after (some none) "c1" offered).0 ≡ permission_error)
    × (principal_before "c1" (principal_after (some none) "c1" offered).1 ≡ permission_error)
    × ((recv (close offered)).0 ≡ connection_error)
unfolding handle_client register offer leave send send_failed recv principal_before principal_after
    close Dict.get Dict.put Dict.pop wire_rpc.Queue.put wire_rpc.Queue.put_attempt
    wire_rpc.Queue.get wire_rpc.Queue.drop_peer wire_rpc.Queue.drop_items wire_rpc.Queue.count_of
    wire_rpc.Queue.release wire_rpc.Queue.close wire_rpc.Queue.peer_beq
runs = (refl, refl, refl, refl, refl, refl, refl, refl, refl, refl, refl, refl, refl)
