-- ===== src/Thread/Examples.antt =====
-- Two messages between two threads.
use wire_rpc.Prelude.{◌≡◌, refl, true, false, List, [], ◌∷◌, length}
use wire_rpc.Thread.{
  Channel, Action, connects, turns, receives, closes, loop_closes, sends, act, act_all, send,
  connect, run_callback, recv, close, raised, connection_error,
}
use wire_rpc.Thread.Order.{IsInOrder}
use wire_rpc.Thread.Delivery.{IsOpen, catch_up, act_all-IsInOrder}

-- At most one message in the inbox.
abbrev fresh : Channel
fresh = record {
  max_message_size = 10;
  max_queued = 1;
  sender_closed = false;
  closed = false;
  connected = false;
  loop_closed = false;
  inbox = [];
  scheduled = [];
  sent = [];
  received = [];
}

abbrev actions : List Action
actions = connects ∷ sends (1 ∷ []) true ∷ sends (2 ∷ []) true ∷ turns ∷ receives ∷ []

-- One is received, and the other scheduled.
caught_up : (catch_up (act_all actions fresh)).received ≡ (1 ∷ []) ∷ (2 ∷ []) ∷ []
unfolding act_all act connect send run_callback recv
caught_up = refl

act_all-IsInOrder_example :
    IsInOrder (act_all actions fresh)
    × (IsOpen (act_all actions fresh)
        → (catch_up (act_all actions fresh)).received ≡ (act_all actions fresh).sent)
act_all-IsInOrder_example = act_all-IsInOrder actions fresh refl

-- Messages that are sent before the loop of the receiver turns all pass the test of its inbox, and
-- then the inbox holds more than the limit.
overfull :
    length
      (act_all
        (connects ∷ sends (1 ∷ []) true ∷ sends (2 ∷ []) true ∷ turns ∷ turns ∷ [])
        fresh).inbox
    ≡ 2
unfolding act_all act connect send run_callback
overfull = refl

-- What is not received when the receiver closes, or sent when its loop is closed.
left_behind :
    ((act_all (receives ∷ []) (act_all (turns ∷ closes ∷ []) (act_all actions fresh))).received
      ≡ (1 ∷ []) ∷ [])
    × ((send (3 ∷ []) true (act_all (loop_closes ∷ []) (act_all actions fresh))).0
        ≡ raised connection_error)
unfolding act_all act connect send run_callback recv close
left_behind = (refl, refl)
