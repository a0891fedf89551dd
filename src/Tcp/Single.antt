-- ===== src/Tcp/Single.antt =====
-- `TcpServerTransport` of wire_rpc/transports/tcp/tcp.py, which serves one client. A handler of a
-- connection is `handle_client`, up to the end of `verify`, and `finish_client`, from there with its
-- `finally`. `reserved` counts the handlers between the two and `made` the connections that were kept.
use wire_rpc.Prelude.{
  ℕ, ◌+◌, ◌-◌, ◌<◌, ◌≤◌, ◌≡◌, refl, ◌∙◌, sym, String, string_eq, option_eq, Bool, true, false, ◌||◌,
  Option, none, some, length, ltb, ◌==◌, nat_eq, if◌then◌else◌, if_both, arith,
}
use wire_rpc.Queue.{Bytes}
use wire_rpc.Execution.{is_some}
use wire_rpc.Tcp.{
  Connection, is_revoked, may_ask, Result, connection_error, permission_error, invalid_frame_size,
  idle_timeout, writes, waits, principal_is,
}

pub record Server : Type 0 where
  pub max_frame_size : ℕ
  pub accepting : Bool
  pub closing : Bool
  pub connection : Option Connection
  pub reserved : ℕ
  pub made : ℕ

abbrev pub new : ℕ → Server
new max_frame_size = record {
  max_frame_size = max_frame_size;
  accepting = false;
  closing = false;
  connection = none;
  reserved = 0;
  made = 0;
}

-- `_handle_client`, up to `verify`: whether the connection is looked at.
unfoldable pub handle_client : Server → Bool × Server
handle_client s =
    if s.closing || s.accepting || is_some s.connection
    then (false, s)
    else (true, record s { accepting = true; reserved = s.reserved + 1 })

-- `_handle_client`, after `verify`; `none` is a failure, or a client that is not known.
unfoldable pub finish_client : Option (Option String) → Server → Bool × Server
finish_client none s = (false, record s { accepting = false; reserved = s.reserved - 1 })
finish_client (some principal) s =
    if s.closing then (false, record s { accepting = false; reserved = s.reserved - 1 }) else (
      true,
      record s {
        connection = some (record { principal = principal; is_closing = false });
        accepting = false;
        reserved = s.reserved - 1;
        made = s.made + 1;
      },
    )

abbrev pub closed_connection : Option Connection → Option Connection
closed_connection none = none
closed_connection (some c) = some (record c { is_closing = true })

-- connection.close(), or its peer is gone
abbrev pub break_connection : Server → Server
break_connection s = record s { connection = closed_connection s.connection }

abbrev pub open_for : Option Connection → Result
open_for none = connection_error
open_for (some c) = if c.is_closing then connection_error else waits

-- `recv`, once there is a connection, up to the reading of a frame
unfoldable pub recv_start : Server → Result
recv_start s = if s.closing then connection_error else open_for s.connection

-- `_read_frame`, which has succeeded or not
abbrev pub recv_end : Bool → Server → Server
recv_end has_frame s = if has_frame then s else break_connection s

-- After the test of the size, in `send`; the idle connection is closed.
abbrev pub send_on : Option Connection → Bool → Bytes → Server → Result × Server
send_on none is_idle payload s = (connection_error, s)
send_on (some c) is_idle payload s =
    if length payload == 0 || ltb s.max_frame_size (length payload)
    then (invalid_frame_size, s)
    else if is_idle
    then (idle_timeout, break_connection s)
    else if c.is_closing
    then (connection_error, break_connection s)
    else (writes, s)

-- `send`, up to the wait for the writer
unfoldable pub send : Bool → Bytes → Server → Result × Server
send is_idle payload s =
    if s.closing then (connection_error, s) else send_on s.connection is_idle payload s

-- `get_principal`, before and after the wait for `revalidate`
unfoldable pub principal_before : Server → Result
principal_before s = may_ask s.connection

abbrev pub tell : Option Connection → Option (Option String) → Server → Result × Server
tell none checked s = (permission_error, s)
tell (some c) checked s =
    if is_revoked checked c
    then (permission_error, break_connection s)
    else (if s.closing || c.is_closing then permission_error else principal_is c.principal, s)

unfoldable pub principal_after : Option (Option String) → Server → Result × Server
principal_after checked s = tell s.connection checked s

-- `close`, up to its wait, and after it
abbrev pub close_start : Server → Server
close_start s = record s { closing = true }

abbrev pub close_end : Server → Server
close_end s = record s { connection = none }

pub data Step : Server → Server → Type 0 where
  handles : (s : Server) → Step s (handle_client s).1
  finishes :
      (s : Server) (verified : Option (Option String))
      → 0 < s.reserved
      → Step s (finish_client verified s).1
  reads : (s : Server) (has_frame : Bool) → Step s (recv_end has_frame s)
  sends : (s : Server) (is_idle : Bool) (payload : Bytes) → Step s (send is_idle payload s).1
  breaks : (s : Server) → Step s (break_connection s)
  asks : (s : Server) (checked : Option (Option String)) → Step s (principal_after checked s).1
  closes : (s : Server) → Step s (close_start s)
  ends : (s : Server) → s.closing ≡ true → s.reserved ≡ 0 → Step s (close_end s)

pub data Reach (start : Server) : Server → Type 0 where
  here : Reach start start
  next : {s t : Server} → Reach start s → Step s t → Reach start t

abbrev pub count : Option Connection → ℕ
count none = 0
count (some c) = 1

abbrev as_number : Bool → ℕ
as_number true = 1
as_number false = 0

pub record IsSingle (accepting closing : Bool) (connection : Option Connection) (reserved made : ℕ)
    : Type 0 where
  pub accepting_one : reserved ≡ as_number accepting
  pub one_at_most : reserved + made ≤ 1
  pub kept : closing ≡ false → made ≡ count connection
  pub held : count connection ≤ made

abbrev pub ServesOne : Server → Type 0
ServesOne s = IsSingle s.accepting s.closing s.connection s.reserved s.made

count-closed : (o : Option Connection) → count (closed_connection o) ≡ count o
count-closed none = refl
count-closed (some c) = refl

module _ (s : Server) (v : ServesOne s) where
  break-ServesOne : ServesOne (break_connection s)
  break-ServesOne = record {
    accepting_one = v.accepting_one;
    one_at_most = v.one_at_most;
    kept = λ open_. v.kept open_ ∙ sym (count-closed s.connection);
    held = omega (arith, v.held, count-closed s.connection);
  }

  handle_client-ServesOne : ServesOne (handle_client s).1
  unfolding handle_client
  handle_client-ServesOne =
      if_both (λ (r : Bool × Server). ServesOne r.1)
        (s.closing || s.accepting || is_some s.connection) (λ _. v)
        (λ free. record {
          accepting_one = ground (arith, free, v.accepting_one);
          one_at_most = ground (arith, free, v.accepting_one, v.kept);
          kept = v.kept;
          held = v.held;
        })

  finish_client-ServesOne :
      (verified : Option (Option String)) → 0 < s.reserved → ServesOne (finish_client verified s).1
  unfolding finish_client
  finish_client-ServesOne none one = record {
    accepting_one = omega (arith, v.one_at_most);
    one_at_most = omega (arith, v.one_at_most);
    kept = v.kept;
    held = v.held;
  }
  finish_client-ServesOne (some principal) one =
      if_both (λ (r : Bool × Server). ServesOne r.1) s.closing
        (λ _. record {
          accepting_one = omega (arith, v.one_at_most);
          one_at_most = omega (arith, v.one_at_most);
          kept = v.kept;
          held = v.held;
        })
        (λ _. record {
          accepting_one = omega (arith, v.one_at_most);
          one_at_most = omega (arith, v.one_at_most, one);
          kept = λ _. omega (arith, v.one_at_most, one);
          held = omega arith;
        })

  send_on-ServesOne :
      (o : Option Connection) (is_idle : Bool) (payload : Bytes)
      → ServesOne (send_on o is_idle payload s).1
  send_on-ServesOne none is_idle payload = v
  send_on-ServesOne (some c) is_idle payload =
      if_both (λ (r : Result × Server). ServesOne r.1)
        (length payload == 0 || ltb s.max_frame_size (length payload)) (λ _. v)
        (λ _.
          if_both (λ (r : Result × Server). ServesOne r.1) is_idle (λ _. break-ServesOne)
            (λ _.
              if_both (λ (r : Result × Server). ServesOne r.1) c.is_closing (λ _. break-ServesOne)
                (λ _. v)))

  tell-ServesOne :
      (o : Option Connection) (checked : Option (Option String)) → ServesOne (tell o checked s).1
  tell-ServesOne none checked = v
  tell-ServesOne (some c) checked =
      if_both (λ (r : Result × Server). ServesOne r.1) (is_revoked checked c) (λ _. break-ServesOne)
        (λ _. v)

step-ServesOne : {s t : Server} → Step s t → ServesOne s → ServesOne t
unfolding send principal_after
step-ServesOne (Step.handles s) v = handle_client-ServesOne s v
step-ServesOne (Step.finishes s verified one) v = finish_client-ServesOne s v verified one
step-ServesOne (Step.reads s has_frame) v =
    if_both ServesOne has_frame (λ _. v) (λ _. break-ServesOne s v)
step-ServesOne (Step.sends s is_idle payload) v =
    if_both (λ (r : Result × Server). ServesOne r.1) s.closing (λ _. v)
      (λ _. send_on-ServesOne s v s.connection is_idle payload)
step-ServesOne (Step.breaks s) v = break-ServesOne s v
step-ServesOne (Step.asks s checked) v = tell-ServesOne s v s.connection checked
step-ServesOne (Step.closes s) v = record {
  accepting_one = v.accepting_one;
  one_at_most = v.one_at_most;
  kept = λ e. absurd (ground (arith, e));
  held = v.held;
}
step-ServesOne (Step.ends s closing none_left) v = record {
  accepting_one = v.accepting_one;
  one_at_most = v.one_at_most;
  kept = λ e. absurd (ground (arith, e, closing));
  held = omega arith;
}

Reach-ServesOne_from : {start s : Server} → Reach start s → ServesOne start → ServesOne s
Reach-ServesOne_from here v = v
Reach-ServesOne_from (next r step) v = step-ServesOne step (Reach-ServesOne_from r v)

-- In every state that a new server reaches, `_accepting` is set exactly while one handler looks at a
-- connection, those handlers and the connections that were kept since the start are at most one together,
-- and until `close` the number of connections that were kept is the number that the server holds.
pub Reach-ServesOne : (max_frame_size : ℕ) {s : Server} → Reach (new max_frame_size) s → ServesOne s
Reach-ServesOne max_frame_size r = Reach-ServesOne_from r (record {
  accepting_one = refl;
  one_at_most = omega arith;
  kept = λ _. refl;
  held = omega arith;
})
