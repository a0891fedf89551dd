-- ===== src/Websocket/Registered.antt =====
-- The slots of websocket.py, and what it keeps for a client.
use wire_rpc.Prelude.{
  ℕ, ◌+◌, ◌-◌, ◌<◌, ◌≤◌, ◌≡◌, ◌≢◌, refl, ap, ◌∙◌, sym, String, string_eq, Bool, true, false, ◌&&◌,
  ◌||◌, not, Option, none, some, [], length, ltb, leb, if◌then◌else◌, if_both, arith, Bool-cases,
  inl, inr,
}
use wire_rpc.Prelude.Dict
use wire_rpc.Prelude.Dict.{Dict}
use wire_rpc.Queue.{Queue, Item, Attempt, finished, raised, waiting, put, put_attempt}
use wire_rpc.Tcp.{Limiter}
use wire_rpc.Websocket.{
  Socket, Server, new, add_verifying, handle_ws, give_up, register, remove, leave, let_go,
  after_put, offer, offer_again, item_of, key_error, ask, ask_client, key_of, principal_before,
  deliver_failed, recv, result_of, get, close, close_all, Step, Reach, here, next,
}

abbrev as_number : Bool → ℕ
as_number true = 1
as_number false = 0

-- What is there for each client.
abbrev pub Kept : {V W : Type 0} → Dict String V → Dict String W → Type 0
Kept clients kept = (id : String) → Dict.get id clients ≢ none → Dict.get id kept ≢ none

-- The slots in use are the coroutines of `_serve_ws`, a client's request and principal are kept as long
-- as its socket, and a server for one client registers one at most.
pub record IsRegistered (multicast : Bool) (limiter : Limiter) (clients : Dict String Socket)
    (requests : Dict String ℕ) (principals : Dict String (Option String)) (session_used : Bool)
    (verifying reading leaving made : ℕ) : Type 0 where
  pub has_request : Kept clients requests
  pub has_principal : Kept clients principals
  pub slots : limiter.active ≡ verifying + reading + leaving
  pub bounded : limiter.active ≤ limiter.limit
  pub one_slot : multicast ≡ false → limiter.limit ≡ 1
  pub one_client : multicast ≡ false → made ≡ as_number session_used
  pub none_left : multicast ≡ false → session_used ≡ true → verifying ≡ 0

abbrev pub Registered : Server → Type 0
Registered s =
    IsRegistered s.multicast s.limiter s.clients s.requests s.principals s.session_used s.verifying
      s.reading s.leaving s.made

empty-Kept : {V W : Type 0} (kept : Dict String W) → Kept {V = V} [] kept
unfolding Dict.get
empty-Kept kept id h = absurd (h refl)

module _ {V W : Type 0} (clients : Dict String V) (kept : Dict String W)
    (all_kept : Kept clients kept) where
  put-Kept : (key : String) (v : V) (w : W) → Kept (Dict.put key v clients) (Dict.put key w kept)
  put-Kept key v w id h =
      ground (arith, Dict.get-put key id v clients, Dict.get-put key id w kept, all_kept id, h)

  pop-Kept : (key : String) → Kept (Dict.pop key clients) (Dict.pop key kept)
  pop-Kept key id h =
      ground (arith, Dict.get-pop key id clients, Dict.get-pop key id kept, all_kept id, h)

  pop-Kept_left : (key : String) → Kept (Dict.pop key clients) kept
  pop-Kept_left key id h = ground (arith, Dict.get-pop key id clients, all_kept id, h)

module _ (s : Server) (v : Registered s) where
  handle_ws-Registered : Registered (handle_ws s).1
  unfolding handle_ws
  handle_ws-Registered =
      if_both (λ (r : Bool × Server). Registered r.1)
        (s.closing || not s.multicast && s.session_used) (λ _. v)
        (λ free.
          if_both (λ o. Registered (add_verifying o s).1) (leb s.limiter.limit s.limiter.active)
            (λ _. v)
            (λ room. record {
              has_request = v.has_request;
              has_principal = v.has_principal;
              slots = omega (arith, v.slots);
              bounded = ground (arith, room);
              one_slot = v.one_slot;
              one_client = v.one_client;
              none_left = λ lone used. absurd (ground (arith, free, lone, used));
            }))

  give_up-Registered : 0 < s.verifying → Registered (give_up s)
  give_up-Registered one = record {
    has_request = v.has_request;
    has_principal = v.has_principal;
    slots = omega (arith, v.slots);
    bounded = omega (arith, v.bounded);
    one_slot = v.one_slot;
    one_client = v.one_client;
    none_left = λ lone used. ap (λ n. n - 1) (v.none_left lone used);
  }

  register-Registered :
      (verified : Option (Option String)) (request : ℕ) (uuid : String)
      → 0 < s.verifying
      → Registered (register verified request uuid s)
  unfolding register
  register-Registered none request uuid one = give_up-Registered one
  register-Registered (some principal) request uuid one =
      if_both Registered s.closing (λ _. give_up-Registered one)
        (λ _. record {
          has_request =
              put-Kept s.clients s.requests v.has_request (if s.multicast then uuid else "unicast")
                tt request;
          has_principal =
              put-Kept s.clients s.principals v.has_principal
                (if s.multicast then uuid else "unicast") tt principal;
          slots = omega (arith, v.slots);
          bounded = v.bounded;
          one_slot = v.one_slot;
          one_client = λ lone. elim (Bool-cases s.session_used) [
            | inl used ↦ absurd (omega (arith, v.none_left lone used, one))
            | inr unused ↦
                ap (λ n. n + 1) (v.one_client lone ∙ ap as_number unused)
                ∙ sym (ap (λ b. as_number (not b || s.session_used)) lone)
          ];
          none_left = λ lone used. omega (arith, v.slots, v.bounded, v.one_slot lone);
        })

  remove-Registered :
      (o : Option Socket) (id : String)
      → 0 < s.reading
      → Registered (record (remove o id s) { reading = s.reading - 1; leaving = s.leaving + 1 })
  remove-Registered none id one = record {
    has_request = v.has_request;
    has_principal = v.has_principal;
    slots = omega (arith, v.slots);
    bounded = omega (arith, v.bounded);
    one_slot = v.one_slot;
    one_client = v.one_client;
    none_left = v.none_left;
  }
  remove-Registered (some _) id one = record {
    has_request = pop-Kept s.clients s.requests v.has_request id;
    has_principal = pop-Kept s.clients s.principals v.has_principal id;
    slots = omega (arith, v.slots);
    bounded = omega (arith, v.bounded);
    one_slot = v.one_slot;
    one_client = v.one_client;
    none_left = v.none_left;
  }

  leave-Registered : (id : String) → 0 < s.reading → Registered (leave id s)
  unfolding leave
  leave-Registered id one = remove-Registered (Dict.get id s.clients) id one

  let_go-Registered : 0 < s.leaving → Registered (let_go s)
  let_go-Registered one = record {
    has_request = v.has_request;
    has_principal = v.has_principal;
    slots = omega (arith, v.slots);
    bounded = omega (arith, v.bounded);
    one_slot = v.one_slot;
    one_client = v.one_client;
    none_left = v.none_left;
  }

  deliver_failed-Registered : (id : String) → Registered (deliver_failed id s)
  unfolding deliver_failed
  deliver_failed-Registered id = record {
    has_request = pop-Kept_left s.clients s.requests v.has_request id;
    has_principal = pop-Kept_left s.clients s.principals v.has_principal id;
    slots = v.slots;
    bounded = v.bounded;
    one_slot = v.one_slot;
    one_client = v.one_client;
    none_left = v.none_left;
  }

  close_all-Registered : Registered (close_all s)
  close_all-Registered = record {
    has_request = empty-Kept [];
    has_principal = empty-Kept [];
    slots = v.slots;
    bounded = v.bounded;
    one_slot = v.one_slot;
    one_client = v.one_client;
    none_left = v.none_left;
  }

result_of-Registered :
    (r : Attempt Item × Queue) (s : Server) → Registered s → Registered (result_of r s).1
result_of-Registered (finished item, queue) s v = v
result_of-Registered (raised e, queue) s v = v
result_of-Registered (waiting, queue) s v = v

after_put-Registered :
    (r : Attempt Unit × Queue) (s : Server) (id : String)
    → 0 < s.reading
    → Registered s
    → Registered (after_put id s r)
after_put-Registered (finished ok, queue) s id one v = v
after_put-Registered (raised e, queue) s id one v =
    leave-Registered (record s { queue = queue }) v id one
after_put-Registered (waiting, queue) s id one v = v

step-Registered : {s t : Server} → Step s t → Registered s → Registered t
unfolding offer offer_again recv close
step-Registered (Step.handles s) v = handle_ws-Registered s v
step-Registered (Step.registers s verified request uuid one) v =
    register-Registered s v verified request uuid one
step-Registered (Step.offers s id payload one) v =
    if_both Registered (ltb s.max_msg_size (length payload)) (λ _. leave-Registered s v id one)
      (λ _. after_put-Registered (put (item_of id payload s) s.queue) s id one v)
step-Registered (Step.offers_again s id payload one) v =
    after_put-Registered (put_attempt (item_of id payload s) s.queue) s id one v
step-Registered (Step.leaves s id one) v = leave-Registered s v id one
step-Registered (Step.lets_go s one) v = let_go-Registered s v one
step-Registered (Step.receives s) v = result_of-Registered (get s.queue) s v
step-Registered (Step.fails s id many) v = deliver_failed-Registered s v id
step-Registered (Step.closes s) v = v
step-Registered (Step.ends s closing) v = close_all-Registered s v

Reach-Registered_from : {start s : Server} → Reach start s → Registered start → Registered s
Reach-Registered_from here v = v
Reach-Registered_from (next r step) v = step-Registered step (Reach-Registered_from r v)

ask-no_key_error :
    (has_auth : Bool) (p : Option (Option String)) (r : Option ℕ)
    → p ≢ none
    → r ≢ none
    → ask has_auth p r ≢ key_error
ask-no_key_error has_auth none r has_p has_r e = has_p refl
ask-no_key_error has_auth (some p) none has_p has_r e = has_r refl
ask-no_key_error true (some p) (some r) has_p has_r e = ground (arith, e)
ask-no_key_error false (some p) (some r) has_p has_r e = ground (arith, e)

ask_client-no_key_error :
    (o : Option Socket) (has_auth : Bool) (key : String) (s : Server)
    → Dict.get key s.clients ≡ o
    → Registered s
    → ask_client o has_auth key s ≢ key_error
ask_client-no_key_error none has_auth key s found v e = ground (arith, e)
ask_client-no_key_error (some c) has_auth key s found v e =
    ask-no_key_error has_auth (Dict.get key s.principals) (Dict.get key s.requests)
      (v.has_principal key (ground (arith, found))) (v.has_request key (ground (arith, found))) e

-- In every state that a new transport reaches, the slots in use are the connections that are verified,
-- read or closed by their coroutine, and at most the limit, which is 1 for a server of one client;
-- there, one connection at most has been registered and `_session_used` says whether; and a client that
-- has a socket has its request and its principal, so that `get_principal` ends with no `KeyError`, also
-- after `broadcast` failed.
pub Reach-Registered :
    (multicast : Bool) (max_connections max_msg_size : ℕ) (queue : Queue) {s : Server}
    → Reach (new multicast max_connections max_msg_size queue) s
    → Registered s
      × ((has_auth : Bool) (client_id : String) → principal_before has_auth client_id s ≢ key_error)
unfolding principal_before
Reach-Registered multicast max_connections max_msg_size queue {s} r =
    let v = Reach-Registered_from r (record {
      has_request = empty-Kept [];
      has_principal = empty-Kept [];
      slots = refl;
      bounded = omega arith;
      one_slot = λ lone. ap (λ b. if b then max_connections else 1) lone;
      one_client = λ _. refl;
      none_left = λ _ _. refl;
    }) in
    (
      v,
      λ has_auth client_id.
          ask_client-no_key_error (Dict.get (key_of client_id s) s.clients) has_auth
            (key_of client_id s) s refl v,
    )
