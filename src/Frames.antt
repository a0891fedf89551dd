-- ===== src/Frames.antt =====
-- The framing of the TCP and stdio transports and of the handshakes, wire_rpc/transports/tcp/tcp.py,
-- wire_rpc/transports/stdio.py and wire_rpc/auth/tcp.py: a length of four bytes, the highest first,
-- then the payload. Bytes are numbers below 256. What a stream delivers is a list of bytes, and then
-- its end: the peer closes, or the deadline passes. `readexactly` gets its bytes or raises.
pub mod Reading
mod Examples
use Prim.Native.Nat.{◌/◌, ◌%◌}
use wire_rpc.Prelude.{
  ℕ, zero, suc, ◌+◌, ◌*◌, Bool, true, false, ◌||◌, List, [], ◌∷◌, ◌++◌, length, take, drop, ltb,
  leb, ◌==◌, nat_eq, if◌then◌else◌,
}
use wire_rpc.Envelope.{Bytes}

pub data Error : Type 0 where
  invalid_frame_size idle_timeout timeout_error incomplete_read connection_error permission_error
        unicode_error :
      Error

pub data Result (T : Type 0) : Type 0 where
  err : Error → Result T
  ok : T → Result T

-- How a stream ends: the peer has closed it, or nothing more arrives before the deadline.
pub data End : Type 0 where
  eof late : End

abbrev pub error_at : End → Error
error_at eof = incomplete_read
error_at late = timeout_error

-- While the idle deadline applies, a timeout is an idle timeout.
abbrev pub idle_error_at : End → Error
idle_error_at eof = incomplete_read
idle_error_at late = idle_timeout

-- int.from_bytes(bytes, "big")
unfoldable pub from_bytes_onto : ℕ → Bytes → ℕ
from_bytes_onto n [] = n
from_bytes_onto n (b ∷ bs) = from_bytes_onto (n * 256 + b) bs

abbrev pub from_bytes : Bytes → ℕ
from_bytes = from_bytes_onto 0

-- n.to_bytes(4, "big"), for n below 2 ^ 32
abbrev pub to_bytes : ℕ → Bytes
to_bytes n = n / 16777216 % 256 ∷ n / 65536 % 256 ∷ n / 256 % 256 ∷ n % 256 ∷ []

-- reader.readexactly(n), with what follows it
unfoldable pub readexactly : (End → Error) → End → ℕ → Bytes → Result (Bytes × Bytes)
readexactly error end n stream =
    if ltb (length stream) n then err (error end) else ok (take n stream, drop n stream)

abbrev pub then_read : {A : Type 0} → (Bytes → Bytes → Result A) → Result (Bytes × Bytes) → Result A
then_read f (err e) = err e
then_read f (ok (b, rest)) = f b rest

-- length == 0 or length > max_frame_size
abbrev pub is_bad_length : ℕ → ℕ → Bool
is_bad_length max_frame_size n = n == 0 || ltb max_frame_size n

-- After the header: the test of the length, and the payload.
unfoldable pub read_payload : Error → ℕ → End → Bytes → Bytes → Result (Bytes × Bytes)
unfolding readexactly
read_payload bad maximum end header stream =
    if is_bad_length maximum (from_bytes header)
    then err bad
    else readexactly error_at end (from_bytes header) stream

-- `_read_frame` of tcp.py. `expired` says that the connection has been idle for too long already.
unfoldable pub read_frame : ℕ → Bool → End → Bytes → Result (Bytes × Bytes)
unfolding readexactly read_payload
read_frame max_frame_size expired end stream =
    if expired
    then err idle_timeout
    else then_read
        (λ first stream'.
          then_read
            (λ header stream''.
              read_payload invalid_frame_size max_frame_size end (first ++ header) stream'')
            (readexactly error_at end 3 stream'))
        (readexactly idle_error_at end 1 stream)

-- `_read` of auth/tcp.py; `_read_frame` of stdio.py is the same but for the class of the error.
unfoldable pub read_bounded : Error → ℕ → End → Bytes → Result (Bytes × Bytes)
unfolding readexactly read_payload
read_bounded bad maximum end stream =
    then_read (λ header rest. read_payload bad maximum end header rest)
      (readexactly error_at end 4 stream)

-- A writer: whether it is closing, and the bytes written so far.
pub record Writer : Type 0 where
  pub closing : Bool
  pub written : Bytes

abbrev pub frame_of : Bytes → Bytes
frame_of payload = to_bytes (length payload) ++ payload

-- The writes of `send` in tcp.py, and of `_write_frame` in stdio.py, to a writer that drains.
unfoldable pub write_frame : ℕ → Bytes → Writer → Result Unit × Writer
write_frame max_frame_size payload w =
    if is_bad_length max_frame_size (length payload)
    then (err invalid_frame_size, w)
    else if w.closing
    then (err connection_error, w)
    else (ok tt, record w { written = w.written ++ frame_of payload })

abbrev pub and_more : Bytes → Result (List Bytes × Bytes) → Result (List Bytes × Bytes)
and_more payload (err e) = err e
and_more payload (ok (more, rest)) = ok (payload ∷ more, rest)

-- `recv` as often as told, on a connection in use.
unfoldable pub read_frames : ℕ → End → ℕ → Bytes → Result (List Bytes × Bytes)
unfolding read_frame
read_frames max_frame_size end zero stream = ok ([], stream)
read_frames max_frame_size end (suc n) stream =
    then_read (λ payload rest. and_more payload (read_frames max_frame_size end n rest))
      (read_frame max_frame_size false end stream)
