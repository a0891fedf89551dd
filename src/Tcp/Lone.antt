-- ===== src/Tcp/Lone.antt =====
-- Runs of the TCP server for one client.
use wire_rpc.Prelude.{nat_eq, arith, ◌≡◌, refl, string_eq, true, false, none, some, [], ◌∷◌}
use wire_rpc.Tcp.{
  connection_error, permission_error, invalid_frame_size, idle_timeout, writes, waits, principal_is,
}
use wire_rpc.Tcp.Single.{
  Server, new, handle_client, finish_client, recv_start, recv_end, send, principal_before,
  principal_after, close_start, close_end, Step, Reach, here, next, ServesOne, Reach-ServesOne,
}

abbrev start : Server
start = new 4

abbrev looked_at : Server
looked_at = (handle_client start).1

abbrev kept : Server
kept = (finish_client (some (some "ann")) looked_at).1

Reach-kept : Reach start kept
unfolding handle_client
Reach-kept =
    next (next here (Step.handles start))
      (Step.finishes looked_at (some (some "ann")) (omega arith))

Reach-ServesOne_example : ServesOne kept
Reach-ServesOne_example = Reach-ServesOne 4 Reach-kept

runs :
    ((handle_client looked_at).0 ≡ false)
    × ((handle_client kept).0 ≡ false)
    × ((finish_client (some none) (close_start looked_at)).0 ≡ false)
    × (recv_start start ≡ connection_error)
    × (recv_start kept ≡ waits)
    × (recv_start (recv_end false kept) ≡ connection_error)
    × ((send false [] kept).0 ≡ invalid_frame_size)
    × ((send false (1 ∷ []) kept).0 ≡ writes)
    × ((send true (1 ∷ []) kept).0 ≡ idle_timeout)
    × (principal_before kept ≡ waits)
    × ((principal_after (some (some "ann")) kept).0 ≡ principal_is (some "ann"))
    × ((principal_after (some none) kept).0 ≡ permission_error)
    × (recv_start (close_end (close_start kept)) ≡ connection_error)
unfolding handle_client finish_client recv_start send principal_before principal_after
runs = (refl, refl, refl, refl, refl, refl, refl, refl, refl, refl, refl, refl, refl)
