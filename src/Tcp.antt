-- ===== src/Tcp.antt =====
-- wire_rpc/transports/tcp/tcp.py, `TcpMulticastServerTransport`, with `ConnectionLimiter` of
-- _connection_limiter.py and the parts of `TcpConnection` that it uses. A coroutine is modelled by the
-- code between two waits. A reader is a task of `_handle_client` that has its slot, and it stands
-- between two lists, `before` and `after`, of the others. A client's id is a fresh uuid, so that
-- `self._clients.get(client_id) is connection` says that the id is there.
-- Tcp.Single is `TcpServerTransport`.
pub mod Single
pub mod Readers
pub mod Slots
pub mod Serving
mod Examples
mod Lone
use wire_rpc.Prelude.{
  ℕ, ◌+◌, ◌-◌, ◌<◌, ◌≡◌, String, string_eq, Bool, true, false, ◌&&◌, ◌||◌, not, Option, none, some,
  option_eq, List, [], ◌∷◌, ◌++◌, length, ltb, leb, ◌==◌, nat_eq, if◌then◌else◌,
}
use wire_rpc.Prelude.Dict
use wire_rpc.Prelude.Dict.{Dict}
use wire_rpc.Queue.{
  Bytes, Queue, Item, tagged, Attempt, finished, raised, waiting, put, put_attempt, get, drop_peer,
}

-- `TcpConnection`, as the server sees it; `is_closing` is that of its writer.
pub record Connection : Type 0 where
  pub principal : Option String
  pub is_closing : Bool

-- A reader, before and after it is in `_clients`; `held` is a frame that waits for room in the queue.
pub record Reader : Type 0 where
  pub client_id : String
  pub registered : Bool
  pub held : Option Bytes

-- `ConnectionLimiter`
pub record Limiter : Type 0 where
  pub limit : ℕ
  pub active : ℕ

pub record Server : Type 0 where
  pub limiter : Limiter
  pub max_frame_size : ℕ
  pub clients : Dict String Connection
  pub queue : Queue
  pub readers : List Reader
  -- Readers that are through and wait for their connection to close, with their slot.
  pub leaving : ℕ
  pub closing : Bool

abbrev pub new : ℕ → ℕ → Queue → Server
new max_connections max_frame_size queue = record {
  limiter = record { limit = max_connections; active = 0 };
  max_frame_size = max_frame_size;
  clients = [];
  queue = queue;
  readers = [];
  leaving = 0;
  closing = false;
}

-- `slot`, up to its `yield`; `none` is ConnectionLimitExceeded
abbrev pub reserve : Limiter → Option Limiter
reserve l = if leb l.limit l.active then none else some (record l { active = l.active + 1 })

-- The `finally` of `slot`.
abbrev pub give_back : Limiter → Limiter
give_back l = record l { active = l.active - 1 }

abbrev pub add_reader : Option Limiter → String → Server → Bool × Server
add_reader none client_id s = (false, s)
add_reader (some limiter) client_id s = (
  true,
  record s {
    limiter = limiter;
    readers = record { client_id = client_id; registered = false; held = none } ∷ s.readers;
  },
)

-- `_handle_client`, up to the call of `_serve_client`: whether the connection is admitted.
unfoldable pub handle_client : String → Server → Bool × Server
handle_client client_id s =
    if s.closing then (false, s) else add_reader (reserve s.limiter) client_id s

-- The `finally` of `_serve_client`, up to `await connection.close()`; without that, the slot that
-- `_handle_client` gives back.
unfoldable pub leave : List Reader → Reader → List Reader → Server → Server
leave before r after s =
    let left = record s { readers = before ++ after } in
    if r.registered && s.closing
    then record left { limiter = give_back s.limiter }
    else if r.registered
    then record left {
      clients = Dict.pop r.client_id s.clients;
      queue = drop_peer (some r.client_id) s.queue;
      leaving = s.leaving + 1;
    }
    else record left { leaving = s.leaving + 1 }

-- After `await connection.close()`: the slot.
abbrev pub let_go : Server → Server
let_go s = record s { limiter = give_back s.limiter; leaving = s.leaving - 1 }

-- `_serve_client`, after `verify`: `verified` is none where it failed, else its principal.
unfoldable pub register :
    Option (Option String) → List Reader → Reader → List Reader → Server → Server
unfolding leave
register none before r after s = leave before r after s
register (some principal) before r after s =
    if s.closing then leave before r after s else record s {
      clients =
          Dict.put r.client_id (record { principal = principal; is_closing = false }) s.clients;
      readers = before ++ record r { registered = true; held = none } ∷ after;
    }

-- After an attempt of `await self._recv_queue.put((client_id, payload))`.
abbrev pub after_put :
    Bytes → List Reader → Reader → List Reader → Server → Attempt Unit × Queue → Server
after_put payload before r after s (finished ok, queue) = record s {
  queue = queue;
  readers = before ++ record r { held = none } ∷ after;
}
after_put payload before r after s (raised e, queue) =
    leave before r after (record s { queue = queue })
after_put payload before r after s (waiting, queue) = record s {
  queue = queue;
  readers = before ++ record r { held = some payload } ∷ after;
}

-- After `_read_frame`.
unfoldable pub offer : Bytes → List Reader → Reader → List Reader → Server → Server
unfolding leave
offer payload before r after s =
    if s.closing
    then leave before r after s
    else after_put payload before r after s (put (tagged r.client_id payload) s.queue)

-- `put` goes on after its wait.
unfoldable pub offer_again : Bytes → List Reader → Reader → List Reader → Server → Server
unfolding leave
offer_again payload before r after s =
    after_put payload before r after s (put_attempt (tagged r.client_id payload) s.queue)

pub data Result : Type 0 where
  connection_error permission_error invalid_frame_size idle_timeout : Result
  writes : Result
  received : Item → Result
  waits : Result
  principal_is : Option String → Result

abbrev pub result_of : Attempt Item × Queue → Server → Result × Server
result_of (finished item, queue) s = (received item, record s { queue = queue })
result_of (raised e, queue) s = (connection_error, record s { queue = queue })
result_of (waiting, queue) s = (waits, record s { queue = queue })

-- `recv`; one that goes on after its wait has been let in already.
unfoldable pub recv : Server → Result × Server
recv s = if s.closing then (connection_error, s) else result_of (get s.queue) s

abbrev pub recv_again : Server → Result × Server
recv_again s = result_of (get s.queue) s

abbrev pub send_to : Option Connection → Bool → String → Bytes → Server → Result × Server
send_to none is_idle client_id payload s = (connection_error, s)
send_to (some connection) is_idle client_id payload s =
    if length payload == 0 || ltb s.max_frame_size (length payload)
    then (invalid_frame_size, s)
    else if is_idle
    then (idle_timeout, record s { clients = Dict.pop client_id s.clients })
    else (writes, s)

-- `send`, up to its wait for the write lock.
unfoldable pub send : Bool → String → Bytes → Server → Result × Server
send is_idle client_id payload s =
    if s.closing
    then (connection_error, s)
    else send_to (Dict.get client_id s.clients) is_idle client_id payload s

-- `except (asyncio.CancelledError, ConnectionError, OSError)` in `send`
abbrev pub forget : Option Connection → String → Server → Server
forget none client_id s = s
forget (some connection) client_id s = record s {
  clients = Dict.pop client_id s.clients;
  queue = drop_peer (some client_id) s.queue;
}

unfoldable pub send_failed : String → Server → Server
send_failed client_id s = forget (Dict.get client_id s.clients) client_id s

-- connection.writer.close(), or its peer is gone
abbrev pub close_connection :
    Option Connection → String → Dict String Connection → Dict String Connection
close_connection none client_id clients = clients
close_connection (some connection) client_id clients =
    Dict.put client_id (record connection { is_closing = true }) clients

unfoldable pub break_connection : String → Server → Server
break_connection client_id s = record s {
  clients = close_connection (Dict.get client_id s.clients) client_id s.clients;
}

-- `get_principal`, up to its wait for `revalidate`
abbrev pub may_ask : Option Connection → Result
may_ask none = permission_error
may_ask (some connection) = if connection.is_closing then permission_error else waits

unfoldable pub principal_before : String → Server → Result
principal_before client_id s = may_ask (Dict.get client_id s.clients)

-- principal is None or principal != connection.principal; `none` where there is no `revalidate`
abbrev pub is_revoked : Option (Option String) → Connection → Bool
is_revoked none connection = false
is_revoked (some principal) connection =
    principal == none || not (principal == connection.principal)

-- `get_principal`, from there; a connection that has left `_clients` is closed.
abbrev pub tell : Option Connection → Option (Option String) → String → Server → Result × Server
tell none checked client_id s = (permission_error, s)
tell (some connection) checked client_id s =
    if is_revoked checked connection
    then (
      permission_error,
      record s { clients = close_connection (some connection) client_id s.clients },
    )
    else (
      if s.closing || connection.is_closing
          then permission_error
          else principal_is connection.principal,
      s,
    )

unfoldable pub principal_after : Option (Option String) → String → Server → Result × Server
principal_after checked client_id s = tell (Dict.get client_id s.clients) checked client_id s

-- `close`, up to its wait, and from where the readers are gone.
unfoldable pub close : Server → Server
close s = record s { closing = true; queue = wire_rpc.Queue.close s.queue }

abbrev pub close_all : Server → Server
close_all s = record s { clients = [] }

pub data Step : Server → Server → Type 0 where
  handles : (s : Server) (client_id : String) → Step s (handle_client client_id s).1
  registers :
      (s : Server) (verified : Option (Option String)) (before : List Reader) (r : Reader)
      (after : List Reader)
      → s.readers ≡ before ++ r ∷ after
      → r.registered ≡ false
      → Step s (register verified before r after s)
  offers :
      (s : Server) (payload : Bytes) (before : List Reader) (r : Reader) (after : List Reader)
      → s.readers ≡ before ++ r ∷ after
      → r.registered ≡ true
      → r.held ≡ none
      → Step s (offer payload before r after s)
  offers_again :
      (s : Server) (payload : Bytes) (before : List Reader) (r : Reader) (after : List Reader)
      → s.readers ≡ before ++ r ∷ after
      → r.registered ≡ true
      → r.held ≡ some payload
      → Step s (offer_again payload before r after s)
  leaves :
      (s : Server) (before : List Reader) (r : Reader) (after : List Reader)
      → s.readers ≡ before ++ r ∷ after
      → Step s (leave before r after s)
  lets_go : (s : Server) → 0 < s.leaving → Step s (let_go s)
  receives : (s : Server) → Step s (recv s).1
  receives_again : (s : Server) → Step s (recv_again s).1
  sends :
      (s : Server) (is_idle : Bool) (client_id : String) (payload : Bytes)
      → Step s (send is_idle client_id payload s).1
  fails : (s : Server) (client_id : String) → Step s (send_failed client_id s)
  asks :
      (s : Server) (checked : Option (Option String)) (client_id : String)
      → Step s (principal_after checked client_id s).1
  breaks : (s : Server) (client_id : String) → Step s (break_connection client_id s)
  closes : (s : Server) → Step s (close s)
  ends : (s : Server) → s.closing ≡ true → s.readers ≡ [] → s.leaving ≡ 0 → Step s (close_all s)

pub data Reach (start : Server) : Server → Type 0 where
  here : Reach start start
  next : {s t : Server} → Reach start s → Step s t → Reach start t
