-- ===== src/Thread/Order.antt =====
-- What is received between two threads is what was sent, in order.
use wire_rpc.Prelude.{
  ◌≡◌, refl, sym, ap, ◌∙◌, Bool, true, ◌&&◌, ◌||◌, not, Option, none, some, List, [], ◌∷◌, ◌++◌,
  length, ltb, leb, ◌==◌, nat_eq, if_both, append_assoc, append-nil,
}
use wire_rpc.Envelope.{Bytes}
use wire_rpc.Thread.{
  Channel, connect, send, run_first, run_callback, take_first, recv, close, close_sender, Action,
  connects, turns, receives, resumes, resume, closes, sender_closes, sends, loop_closes, on_loop,
  act, act_all, Outcome,
}

-- The messages of a queue, without the marks.
abbrev pub messages : List (Option Bytes) → List Bytes
messages [] = []
messages (none ∷ xs) = messages xs
messages (some b ∷ xs) = b ∷ messages xs

pub messages-append :
    (xs ys : List (Option Bytes)) → messages (xs ++ ys) ≡ messages xs ++ messages ys
messages-append [] ys = refl
messages-append (none ∷ xs) ys = messages-append xs ys
messages-append (some b ∷ xs) ys = ap (λ (l : List Bytes). b ∷ l) (messages-append xs ys)

-- Every message that was sent has been received, or is on its way, in the order of the sends.
abbrev pub IsInOrder : Channel → Type 0
IsInOrder c = c.sent ≡ c.received ++ (messages c.inbox ++ messages c.scheduled)

marked : (xs : List (Option Bytes)) → messages (xs ++ none ∷ []) ≡ messages xs
marked xs = messages-append xs (none ∷ []) ∙ append-nil (messages xs)

send-IsInOrder :
    (payload : Bytes) (in_time : Bool) (c : Channel)
    → IsInOrder c
    → IsInOrder (send payload in_time c).1
unfolding send
send-IsInOrder payload in_time c h =
    let P = λ (r : Outcome × Channel). IsInOrder r.1 in
    if_both P c.sender_closed (λ _. h)
      (λ _.
        if_both P (length payload == 0 || ltb c.max_message_size (length payload)) (λ _. h)
          (λ _.
            if_both P (not in_time) (λ _. h)
              (λ _.
                if_both P (c.closed || not c.connected) (λ _. h)
                  (λ _.
                    if_both P (leb c.max_queued (length c.inbox)) (λ _. h)
                      (λ _.
                        if_both P c.loop_closed (λ _. h)
                          (λ _.
                            ap (λ (l : List Bytes). l ++ payload ∷ []) h
                            ∙ (append_assoc c.received (messages c.inbox ++ messages c.scheduled)
                                  (payload ∷ [])
                                ∙ ap (λ (l : List Bytes). c.received ++ l)
                                    (append_assoc (messages c.inbox) (messages c.scheduled)
                                        (payload ∷ [])
                                      ∙ ap (λ (l : List Bytes). messages c.inbox ++ l)
                                          (sym (
                                            messages-append c.scheduled
                                              (some payload ∷ [])))))))))))

run_first-IsInOrder :
    (xs : List (Option Bytes)) (c : Channel)
    → c.scheduled ≡ xs
    → IsInOrder c
    → IsInOrder (run_first xs c)
unfolding run_first
run_first-IsInOrder [] c e h = h
run_first-IsInOrder (x ∷ rest) c e h =
    h
    ∙ ap (λ (l : List Bytes). c.received ++ l)
        (ap (λ (l : List (Option Bytes)). messages c.inbox ++ messages l) e
          ∙ (sym (messages-append c.inbox (x ∷ rest))
              ∙ (ap messages (sym (append_assoc c.inbox (x ∷ []) rest))
                  ∙ messages-append (c.inbox ++ x ∷ []) rest)))

take_first-IsInOrder :
    (xs : List (Option Bytes)) (c : Channel)
    → c.inbox ≡ xs
    → IsInOrder c
    → IsInOrder (take_first xs c).1
unfolding take_first
take_first-IsInOrder [] c e h = h
take_first-IsInOrder (none ∷ rest) c e h =
    h ∙ ap (λ (l : List (Option Bytes)). c.received ++ (messages l ++ messages c.scheduled)) e
take_first-IsInOrder (some b ∷ rest) c e h =
    h
    ∙ (ap (λ (l : List (Option Bytes)). c.received ++ (messages l ++ messages c.scheduled)) e
        ∙ sym (append_assoc c.received (b ∷ []) (messages rest ++ messages c.scheduled)))

-- Marks change no message.
inbox-marked : (c : Channel) → IsInOrder c → IsInOrder (record c { inbox = c.inbox ++ none ∷ [] })
inbox-marked c h =
    h ∙ ap (λ (l : List Bytes). c.received ++ (l ++ messages c.scheduled)) (sym (marked c.inbox))

scheduled-marked :
    (c : Channel) → IsInOrder c → IsInOrder (record c { scheduled = c.scheduled ++ none ∷ [] })
scheduled-marked c h =
    h ∙ ap (λ (l : List Bytes). c.received ++ (messages c.inbox ++ l)) (sym (marked c.scheduled))

close-IsInOrder : (c : Channel) → IsInOrder c → IsInOrder (close c)
unfolding close
close-IsInOrder c h =
    if_both IsInOrder c.closed (λ _. h)
      (λ _.
        if_both (λ (l : List (Option Bytes)). IsInOrder (record c { closed = true; inbox = l }))
          c.connected (λ _. inbox-marked c h) (λ _. h))

close_sender-IsInOrder : (c : Channel) → IsInOrder c → IsInOrder (close_sender c)
unfolding close_sender
close_sender-IsInOrder c h =
    if_both IsInOrder c.sender_closed (λ _. h)
      (λ _.
        if_both
          (λ (l : List (Option Bytes)).
            IsInOrder (record c { sender_closed = true; scheduled = l }))
          (c.connected && not c.loop_closed) (λ _. scheduled-marked c h) (λ _. h))

module _ (c : Channel) (h : IsInOrder c) where
  connect-IsInOrder : IsInOrder (connect c).1
  unfolding connect
  connect-IsInOrder =
      if_both (λ (r : Outcome × Channel). IsInOrder r.1) (c.connected || c.closed) (λ _. h) (λ _. h)

  recv-IsInOrder : IsInOrder (recv c).1
  unfolding recv
  recv-IsInOrder =
      if_both (λ (r : Outcome × Channel). IsInOrder r.1) (c.closed || not c.connected) (λ _. h)
        (λ _. take_first-IsInOrder c.inbox c refl h)

  on_loop-IsInOrder : (c' : Channel) → IsInOrder c' → IsInOrder (on_loop c c')
  on_loop-IsInOrder c' h' = if_both IsInOrder c.loop_closed (λ _. h) (λ _. h')

act-IsInOrder : (a : Action) (c : Channel) → IsInOrder c → IsInOrder (act a c)
unfolding act resume run_callback
act-IsInOrder connects c h = on_loop-IsInOrder c h (connect c).1 (connect-IsInOrder c h)
act-IsInOrder turns c h =
    on_loop-IsInOrder c h (run_callback c) (run_first-IsInOrder c.scheduled c refl h)
act-IsInOrder receives c h = on_loop-IsInOrder c h (recv c).1 (recv-IsInOrder c h)
act-IsInOrder resumes c h =
    on_loop-IsInOrder c h (resume c).1 (take_first-IsInOrder c.inbox c refl h)
act-IsInOrder closes c h = on_loop-IsInOrder c h (close c) (close-IsInOrder c h)
act-IsInOrder loop_closes c h = h
act-IsInOrder sender_closes c h = close_sender-IsInOrder c h
act-IsInOrder (sends payload in_time) c h = send-IsInOrder payload in_time c h

pub act_all-IsInOrder_from :
    (actions : List Action) (c : Channel) → IsInOrder c → IsInOrder (act_all actions c)
unfolding act_all
act_all-IsInOrder_from [] c h = h
act_all-IsInOrder_from (a ∷ rest) c h = act_all-IsInOrder_from rest (act a c) (act-IsInOrder a c h)
