-- ===== src/Thread/Delivery.antt =====
-- A receiver that stays open gets all that was sent.
use wire_rpc.Prelude.{
  ℕ, zero, suc, ◌≡◌, refl, sym, ap, ◌∙◌, true, false, ◌||◌, not, Option, none, some, List, [], ◌∷◌,
  ◌++◌, length, append_assoc, append-nil, if◌then◌else◌,
}
use wire_rpc.Envelope.{Bytes}
use wire_rpc.Thread.{
  Channel, raised, connection_error, run_first, run_callback, take_first, recv, Action, turns,
  receives, act, act_all,
}
use wire_rpc.Thread.Order.{messages, messages-append, IsInOrder, act_all-IsInOrder_from}

abbrev pub times : ℕ → Action → List Action
times zero a = []
times (suc n) a = a ∷ times n a

-- The receiver can receive.
pub record IsOpen (c : Channel) : Type 0 where
  pub is_connected : c.connected ≡ true
  pub not_closed : c.closed ≡ false
  pub has_loop : c.loop_closed ≡ false

act_all-append :
    (xs ys : List Action) (c : Channel) → act_all (xs ++ ys) c ≡ act_all ys (act_all xs c)
unfolding act_all
act_all-append [] ys c = refl
act_all-append (a ∷ xs) ys c = act_all-append xs ys (act a c)

act-turns :
    (x : Option Bytes) (rest : List (Option Bytes)) (c : Channel)
    → IsOpen c
    → c.scheduled ≡ x ∷ rest
    → act turns c ≡ record c { inbox = c.inbox ++ x ∷ []; scheduled = rest }
unfolding act run_callback run_first
act-turns x rest c open_ e =
    ap (λ b. if b then c else run_first c.scheduled c) open_.has_loop ∙ ap (λ l. run_first l c) e

turns_all :
    (xs : List (Option Bytes)) (c : Channel)
    → IsOpen c
    → c.scheduled ≡ xs
    → act_all (times (length xs) turns) c ≡ record c { inbox = c.inbox ++ xs; scheduled = [] }
unfolding act_all
turns_all [] c open_ e =
    ap (λ l. record c { scheduled = l }) e
    ∙ ap (λ l. record c { inbox = l; scheduled = [] }) (sym (append-nil c.inbox))
turns_all (x ∷ rest) c open_ e =
    ap (act_all (times (length rest) turns)) (act-turns x rest c open_ e)
    ∙ turns_all rest (record c { inbox = c.inbox ++ x ∷ []; scheduled = rest })
        (record {
          is_connected = open_.is_connected;
          not_closed = open_.not_closed;
          has_loop = open_.has_loop;
        })
        refl
    ∙ ap (λ l. record c { inbox = l; scheduled = [] }) (append_assoc c.inbox (x ∷ []) rest)

taken :
    (x : Option Bytes) (rest : List (Option Bytes)) (c : Channel)
    → (take_first (x ∷ rest) c).1
      ≡ record c { inbox = rest; received = c.received ++ messages (x ∷ []) }
unfolding take_first
taken none rest c = ap (λ l. record c { inbox = rest; received = l }) (sym (append-nil c.received))
taken (some payload) rest c = refl

act-receives :
    (x : Option Bytes) (rest : List (Option Bytes)) (c : Channel)
    → IsOpen c
    → c.inbox ≡ x ∷ rest
    → act receives c ≡ record c { inbox = rest; received = c.received ++ messages (x ∷ []) }
unfolding act recv take_first
act-receives x rest c open_ e =
    ap (λ b. if b then c else (recv c).1) open_.has_loop
    ∙ ap
        (λ b.
          (if b || not c.connected then (raised connection_error, c) else take_first c.inbox c).1)
        open_.not_closed
    ∙ ap (λ b. (if not b then (raised connection_error, c) else take_first c.inbox c).1)
        open_.is_connected
    ∙ ap (λ l. (take_first l c).1) e
    ∙ taken x rest c

receives_all :
    (xs : List (Option Bytes)) (c : Channel)
    → IsOpen c
    → c.inbox ≡ xs
    → act_all (times (length xs) receives) c
      ≡ record c { inbox = []; received = c.received ++ messages xs }
unfolding act_all
receives_all [] c open_ e =
    ap (λ l. record c { inbox = l }) e
    ∙ ap (λ l. record c { inbox = []; received = l }) (sym (append-nil c.received))
receives_all (x ∷ rest) c open_ e =
    ap (act_all (times (length rest) receives)) (act-receives x rest c open_ e)
    ∙ receives_all rest (record c { inbox = rest; received = c.received ++ messages (x ∷ []) })
        (record {
          is_connected = open_.is_connected;
          not_closed = open_.not_closed;
          has_loop = open_.has_loop;
        })
        refl
    ∙ ap (λ l. record c { inbox = []; received = l })
        (append_assoc c.received (messages (x ∷ [])) (messages rest)
          ∙ ap (λ l. c.received ++ l) (sym (messages-append (x ∷ []) rest)))

-- As many turns of the receiver's loop as it has callbacks, and a `recv` for each item there is then.
abbrev pub catch_up : Channel → Channel
catch_up c =
    act_all (times (length c.scheduled) turns ++ times (length (c.inbox ++ c.scheduled)) receives) c

catch_up-received : (c : Channel) → IsOpen c → IsInOrder c → (catch_up c).received ≡ c.sent
catch_up-received c open_ h =
    let turned = record c { inbox = c.inbox ++ c.scheduled; scheduled = [] } in
    ap (λ (d : Channel). d.received)
      (act_all-append (times (length c.scheduled) turns)
          (times (length (c.inbox ++ c.scheduled)) receives) c
        ∙ ap (act_all (times (length (c.inbox ++ c.scheduled)) receives))
            (turns_all c.scheduled c open_ refl)
        ∙ receives_all (c.inbox ++ c.scheduled) turned
            (record {
              is_connected = open_.is_connected;
              not_closed = open_.not_closed;
              has_loop = open_.has_loop;
            })
            refl)
    ∙ ap (λ l. c.received ++ l) (messages-append c.inbox c.scheduled)
    ∙ sym h

-- Whatever the two threads do, in whatever order, from a channel in order: the messages that have been
-- received are the first of those whose `send` returned, in the order of the sends, and the others are in
-- the inbox or scheduled, in that order, so that none is doubled or overtaken. While the receiver is
-- connected, not closed, and its loop runs, as many turns of that as there are callbacks, and then as
-- many calls of `recv` as there are items, receive every one of them.
pub act_all-IsInOrder :
    (actions : List Action) (c : Channel)
    → IsInOrder c
    → IsInOrder (act_all actions c)
      × (IsOpen (act_all actions c)
          → (catch_up (act_all actions c)).received ≡ (act_all actions c).sent)
act_all-IsInOrder actions c h =
    let ordered = act_all-IsInOrder_from actions c h in
    (ordered, λ open_. catch_up-received (act_all actions c) open_ ordered)
