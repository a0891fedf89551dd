-- ===== src/Http/Client.antt =====
-- `HttpClientTransport` of wire_rpc/transports/http.py. The session and its responses are outside code;
-- a response has its status, its length header and the chunks of its body, with whether they end well.
-- `send_start` and `send_end` are `send` up to the wait for the response and from there.
use wire_rpc.Prelude.{
  ℕ, ◌+◌, ◌≤◌, ◌≡◌, ap, ◌∙◌, append_assoc, Bool, true, false, ◌||◌, not, Option, none, some, List,
  [], ◌∷◌, ◌++◌, append-nil, length, length-append, ltb, ◌==◌, nat_eq, if◌then◌else◌, arith,
  Bool-cases, inl, inr,
}
use wire_rpc.Envelope.{Bytes}
use wire_rpc.Execution.{is_some}

pub record Response : Type 0 where
  pub status : ℕ
  pub content_length : Option ℕ
  pub chunks : List Bytes
  pub ends_well : Bool

pub record Client : Type 0 where
  pub max_body_size : ℕ
  pub connected : Bool
  pub pending : Option Response
  pub sending : Bool

pub data Outcome : Type 0 where
  connection_error runtime_error value_error other_error : Outcome
  returned waits : Outcome
  received : Bytes → Outcome

-- `connect`
unfoldable pub connect : Client → Outcome × Client
connect c = if c.connected then (runtime_error, c) else (returned, record c { connected = true })

unfoldable pub send_start : Bytes → Client → Outcome × Client
send_start payload c =
    if not c.connected
    then (connection_error, c)
    else if is_some c.pending || c.sending
    then (runtime_error, c)
    else if ltb c.max_body_size (length payload)
    then (value_error, c)
    else (waits, record c { sending = true })

-- `none` is an exception of `post`
unfoldable pub send_end : Option Response → Client → Outcome × Client
send_end none c = (other_error, record c { sending = false })
send_end (some r) c =
    if r.status == 204
    then (returned, record c { sending = false })
    else if not (r.status == 200)
    then (connection_error, record c { sending = false })
    else (returned, record c { pending = some r; sending = false })

-- async for chunk in response.content.iter_chunked(65536)
unfoldable pub read_chunks : ℕ → Bool → List Bytes → Bytes → Outcome
read_chunks maximum ends_well [] body = if ends_well then received body else other_error
read_chunks maximum ends_well (chunk ∷ chunks) body =
    let rest = read_chunks maximum ends_well chunks (body ++ chunk) in
    if ltb maximum (length body + length chunk) then connection_error else rest

abbrev pub is_announced_long : ℕ → Option ℕ → Bool
is_announced_long maximum none = false
is_announced_long maximum (some n) = ltb maximum n

abbrev pub body_of : ℕ → Option Response → Outcome
body_of maximum none = runtime_error
body_of maximum (some r) =
    if is_announced_long maximum r.content_length
    then connection_error
    else read_chunks maximum r.ends_well r.chunks []

-- `recv`
unfoldable pub recv : Client → Outcome × Client
unfolding read_chunks
recv c = (body_of c.max_body_size c.pending, record c { pending = none })

-- `close`
abbrev pub close : Client → Client
close c = record c { pending = none; connected = false }

abbrev pub joined : List Bytes → Bytes
joined [] = []
joined (chunk ∷ chunks) = chunk ++ joined chunks

-- The loop gives the chunks put together where they fit, and stops at the first that does not.
read_chunks_lem :
    (maximum : ℕ) (chunks : List Bytes) (body : Bytes)
    → length body ≤ maximum
    → read_chunks maximum true chunks body ≡ (
        if ltb maximum (length (body ++ joined chunks))
        then connection_error
        else received (body ++ joined chunks))
unfolding read_chunks
read_chunks_lem maximum [] body h = ground (arith, append-nil body, h)
read_chunks_lem maximum (chunk ∷ chunks) body h =
    elim (Bool-cases (ltb maximum (length body + length chunk))) [
      | inl long ↦ ground (
        arith,
        long,
        length-append body (chunk ++ joined chunks),
        length-append chunk (joined chunks),
      )
      | inr short ↦
          ap (λ b. if b then connection_error else read_chunks maximum true chunks (body ++ chunk))
            short
          ∙ read_chunks_lem maximum chunks (body ++ chunk)
              (ground (arith, short, length-append body chunk))
          ∙ ap (λ x. if ltb maximum (length x) then connection_error else received x)
              (append_assoc body chunk (joined chunks))
    ]
