-- ===== src/Http/Steps.antt =====
-- The turns of the event loop for one `HttpServerTransport`: handlers of requests, one or more callers
-- of `recv` and `send`, and `close`, in any order. A handler is before its queueing while its future
-- is pending and has no principal.
use wire_rpc.Prelude.{
  ℕ, ◌≡◌, String, Bool, true, false, Option, none, List, [], ◌∷◌, ◌==◌, nat_eq, if◌then◌else◌,
}
use wire_rpc.Prelude.Dict
use wire_rpc.Envelope.{Bytes}
use wire_rpc.Http.{
  Server, admit, enqueue, finish, abort, recv, recv_attempt, cancel_recv, finish_notification, send,
  close,
}

abbrev pub has : ℕ → List ℕ → Bool
has id [] = false
has id (j ∷ ids) = if j == id then true else has id ids

abbrev pub IsReading : ℕ → Server → Type 0
IsReading id s = (has id s.pending ≡ true) × (Dict.get id s.principals ≡ none)

pub data Step : Server → Server → Type 0 where
  admits : (s : Server) (origin_allowed : Bool) → Step s (admit origin_allowed s).1
  enqueues :
      (s : Server) (id : ℕ) (user_id : Option String) (body : Bytes)
      → IsReading id s
      → Step s (enqueue id user_id body s).1
  aborts : (s : Server) (id : ℕ) → Step s (abort id s)
  finishes : (s : Server) (id : ℕ) → has id s.pending ≡ true → Step s (finish id s)
  receives : (s : Server) → Step s (recv s).1
  resumes : (s : Server) → s.receiving ≡ true → Step s (recv_attempt s).1
  gives_up : (s : Server) → Step s (cancel_recv s)
  sends : (s : Server) (payload : Bytes) → Step s (send payload s).1
  notifies : (s : Server) → Step s (finish_notification s)
  closes : (s : Server) → Step s (close s)

pub data Reach (start : Server) : Server → Type 0 where
  here : Reach start start
  next : {s t : Server} → Reach start s → Step s t → Reach start t
