-- ===== src/Websocket.antt =====
-- wire_rpc/transports/websocket.py: `_WsServer`, of which `WsServerTransport` serves one client and
-- `MulticastWsServerTransport` many (`multicast`). The WebSocket itself is outside code, and `clients`
-- has the ids whose socket `_clients` has. A coroutine is modelled by the code between two waits:
-- `verifying` counts those of `_serve_ws` up to `ws.prepare`, `reading` those from there to the
-- `finally`, and `leaving` those that wait there for their socket to close; `made` counts the connections that were registered. The id of a client is a fresh uuid,
-- so that `self._clients.get(client_id) is ws` says that the id is there.
pub mod Registered
mod Examples
use wire_rpc.Prelude.{
  ℕ, ◌+◌, ◌-◌, ◌<◌, ◌≡◌, String, string_eq, Bool, true, false, ◌&&◌, ◌||◌, not, Option, none, some,
  option_eq, List, [], ◌∷◌, length, ltb, leb, ◌==◌, if◌then◌else◌,
}
use wire_rpc.Prelude.Dict
use wire_rpc.Prelude.Dict.{Dict}
use wire_rpc.Execution.{is_some}
use wire_rpc.Queue.{
  Bytes, Queue, Item, plain, tagged, Attempt, finished, raised, waiting, put, put_attempt, get,
  drop_peer,
}
use wire_rpc.Tcp.{Limiter, reserve, give_back}

abbrev pub Socket : Type 0
Socket = Unit {0}

pub record Server : Type 0 where
  pub multicast : Bool
  pub limiter : Limiter
  pub max_msg_size : ℕ
  pub queue : Queue
  pub clients : Dict String Socket
  pub requests : Dict String ℕ
  pub principals : Dict String (Option String)
  pub has_ws : Bool
  pub closing : Bool
  pub session_used : Bool
  pub verifying : ℕ
  pub reading : ℕ
  pub leaving : ℕ
  pub made : ℕ

-- `_configure`; the server for one client gives 1 as `max_connections`.
abbrev pub new : Bool → ℕ → ℕ → Queue → Server
new multicast max_connections max_msg_size queue = record {
  multicast = multicast;
  limiter = record { limit = if multicast then max_connections else 1; active = 0 };
  max_msg_size = max_msg_size;
  queue = queue;
  clients = [];
  requests = [];
  principals = [];
  has_ws = false;
  closing = false;
  session_used = false;
  verifying = 0;
  reading = 0;
  leaving = 0;
  made = 0;
}

abbrev pub add_verifying : Option Limiter → Server → Bool × Server
add_verifying none s = (false, s)
add_verifying (some limiter) s = (true, record s { limiter = limiter; verifying = s.verifying + 1 })

-- `_handle_ws`, after the check of the origin: whether the request is admitted, or answered by 503.
unfoldable pub handle_ws : Server → Bool × Server
handle_ws s =
    if s.closing || not s.multicast && s.session_used
    then (false, s)
    else add_verifying (reserve s.limiter) s

-- `_serve_ws` ends before the connection is registered.
abbrev pub give_up : Server → Server
give_up s = record s { limiter = give_back s.limiter; verifying = s.verifying - 1 }

-- `_serve_ws`, after `ws.prepare`; `none` where it or `verify` failed, else the principal.
unfoldable pub register : Option (Option String) → ℕ → String → Server → Server
register none request uuid s = give_up s
register (some principal) request uuid s =
    if s.closing
    then give_up s
    else let client_id = if s.multicast then uuid else "unicast" in
      record s {
        clients = Dict.put client_id tt s.clients;
        requests = Dict.put client_id request s.requests;
        principals = Dict.put client_id principal s.principals;
        has_ws = not s.multicast || s.has_ws;
        session_used = not s.multicast || s.session_used;
        verifying = s.verifying - 1;
        reading = s.reading + 1;
        made = s.made + 1;
      }

abbrev pub remove : Option Socket → String → Server → Server
remove none client_id s = s
remove (some _) client_id s = record s {
  clients = Dict.pop client_id s.clients;
  requests = Dict.pop client_id s.requests;
  principals = Dict.pop client_id s.principals;
}

-- The `finally` of `_serve_ws`, up to `await self._close_ws(ws)`.
unfoldable pub leave : String → Server → Server
leave client_id s =
    let left = remove (Dict.get client_id s.clients) client_id s in
    let dropped = drop_peer (if s.multicast then some client_id else none) s.queue in
    record left {
      queue = if s.multicast then dropped else wire_rpc.Queue.close dropped;
      has_ws = s.multicast && s.has_ws;
      reading = s.reading - 1;
      leaving = s.leaving + 1;
    }

-- From there: the slot that `_handle_ws` gives back.
abbrev pub let_go : Server → Server
let_go s = record s { limiter = give_back s.limiter; leaving = s.leaving - 1 }

abbrev pub item_of : String → Bytes → Server → Item
item_of client_id payload s = if s.multicast then tagged client_id payload else plain payload

-- After an attempt of `self._recv_queue.put`; a coroutine that waits goes on by `offer_again`.
abbrev pub after_put : String → Server → Attempt Unit × Queue → Server
after_put client_id s (finished ok, queue) = record s { queue = queue }
after_put client_id s (raised e, queue) = leave client_id (record s { queue = queue })
after_put client_id s (waiting, queue) = record s { queue = queue }

-- The body of the loop of `_serve_ws`, with the bytes of a message.
unfoldable pub offer : String → Bytes → Server → Server
unfolding leave
offer client_id payload s =
    if ltb s.max_msg_size (length payload)
    then leave client_id s
    else after_put client_id s (put (item_of client_id payload s) s.queue)

-- `put` goes on after its wait.
unfoldable pub offer_again : String → Bytes → Server → Server
unfolding leave
offer_again client_id payload s =
    after_put client_id s (put_attempt (item_of client_id payload s) s.queue)

pub data Result : Type 0 where
  connection_error permission_error transport_error key_error : Result
  writes waits : Result
  received : Item → Result
  principal_is : Option String → Result

abbrev pub result_of : Attempt Item × Queue → Server → Result × Server
result_of (finished item, queue) s = (received item, record s { queue = queue })
result_of (raised e, queue) s = (connection_error, record s { queue = queue })
result_of (waiting, queue) s = (waits, record s { queue = queue })

-- `recv`
unfoldable pub recv : Server → Result × Server
recv s = result_of (get s.queue) s

-- `_send`, up to the wait for `send_str`; whether the payload is UTF-8 is an argument.
abbrev pub send_on : Bool → Bytes → Bool → Server → Result
send_on is_utf8 payload has_peer s =
    if ltb s.max_msg_size (length payload)
    then transport_error
    else if not has_peer
    then connection_error
    else if not is_utf8
    then transport_error
    else writes

-- `send` of both servers
unfoldable pub send : Bool → String → Bytes → Server → Result
send is_utf8 client_id payload s =
    send_on is_utf8 payload
      (if s.multicast then is_some (Dict.get client_id s.clients) else s.has_ws) s

-- `deliver` in `broadcast`, where `_send` raises ConnectionError or TimeoutError.
unfoldable pub deliver_failed : String → Server → Server
deliver_failed client_id s = record s { clients = Dict.pop client_id s.clients }

abbrev pub key_of : String → Server → String
key_of client_id s = if s.multicast then client_id else "unicast"

-- self._principals[key] and self._requests[key]; the second is read only to be verified.
abbrev pub ask : Bool → Option (Option String) → Option ℕ → Result
ask has_auth none request = key_error
ask has_auth (some principal) request =
    if has_auth && not (is_some request) then key_error else waits

abbrev pub ask_client : Option Socket → Bool → String → Server → Result
ask_client none has_auth key s = permission_error
ask_client (some _) has_auth key s =
    ask has_auth (Dict.get key s.principals) (Dict.get key s.requests)

-- `get_principal`, up to its wait for `verify`
unfoldable pub principal_before : Bool → String → Server → Result
principal_before has_auth client_id s =
    ask_client (Dict.get (key_of client_id s) s.clients) has_auth (key_of client_id s) s

-- current is None or current != principal; no `current` where there is no authenticator
abbrev pub is_revoked : Option (Option String) → Option String → Bool
is_revoked none principal = false
is_revoked (some current) principal = current == none || not (current == principal)

-- `get_principal`, from there, with the principal that it has read.
unfoldable pub principal_after : Option (Option String) → Option String → String → Server → Result
principal_after checked principal client_id s =
    if is_revoked checked principal
    then permission_error
    else if s.closing || not (is_some (Dict.get (key_of client_id s) s.clients))
    then permission_error
    else principal_is principal

-- `close`, up to its wait, and from there.
unfoldable pub close : Server → Server
close s = record s { closing = true; queue = wire_rpc.Queue.close s.queue }

abbrev pub close_all : Server → Server
close_all s = record s { clients = []; requests = []; principals = []; has_ws = false }

-- The steps that change the state.
pub data Step : Server → Server → Type 0 where
  handles : (s : Server) → Step s (handle_ws s).1
  registers :
      (s : Server) (verified : Option (Option String)) (request : ℕ) (uuid : String)
      → 0 < s.verifying
      → Step s (register verified request uuid s)
  offers :
      (s : Server) (client_id : String) (payload : Bytes)
      → 0 < s.reading
      → Step s (offer client_id payload s)
  offers_again :
      (s : Server) (client_id : String) (payload : Bytes)
      → 0 < s.reading
      → Step s (offer_again client_id payload s)
  leaves : (s : Server) (client_id : String) → 0 < s.reading → Step s (leave client_id s)
  lets_go : (s : Server) → 0 < s.leaving → Step s (let_go s)
  receives : (s : Server) → Step s (recv s).1
  fails :
      (s : Server) (client_id : String) → s.multicast ≡ true → Step s (deliver_failed client_id s)
  closes : (s : Server) → Step s (close s)
  ends : (s : Server) → s.closing ≡ true → Step s (close_all s)

pub data Reach (start : Server) : Server → Type 0 where
  here : Reach start start
  next : {s t : Server} → Reach start s → Step s t → Reach start t
