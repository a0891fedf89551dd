-- ===== src/Frames/Reading.antt =====
-- Frames are read back as they were written.
use mathlib.Core.Path.{subst}
use Prim.Native.Nat.{◌/◌, ◌%◌}
use wire_rpc.Prelude.{
  ℕ, zero, suc, ◌≤◌, ◌<◌, ◌≡◌, refl, sym, ap, ◌∙◌, arith, Bool, false, List, [], ◌∷◌, ◌++◌, length,
  take, drop, take-append, drop-append, length-append, append_assoc, append-nil, ltb, nat_eq,
  if_both, All,
}
use wire_rpc.Envelope.{Bytes}
use wire_rpc.Frames.{
  Error, invalid_frame_size, Result, ok, err, End, error_at, idle_error_at, from_bytes_onto,
  from_bytes, to_bytes, readexactly, then_read, is_bad_length, read_payload, read_frame,
  read_bounded, Writer, frame_of, write_frame, and_more, read_frames,
}

from_bytes-to_bytes : (n : ℕ) → n < 4294967296 → from_bytes (to_bytes n) ≡ n
unfolding from_bytes_onto
from_bytes-to_bytes n h = omega arith

readexactly-append :
    (error : End → Error) (end : End) (xs ys : Bytes)
    → readexactly error end (length xs) (xs ++ ys) ≡ ok (xs, ys)
unfolding readexactly
readexactly-append error end xs ys =
    ground (arith, length-append xs ys, take-append xs ys, drop-append xs ys)

-- A payload that the limit allows.
abbrev pub IsSendable : ℕ → Bytes → Type 0
IsSendable max_frame_size payload = (0 < length payload) × (length payload ≤ max_frame_size)

module _ (maximum : ℕ) (limit : maximum < 4294967296) (end : End) where
  read_payload-frame_of :
      (bad : Error) (payload rest : Bytes)
      → IsSendable maximum payload
      → read_payload bad maximum end (to_bytes (length payload)) (payload ++ rest)
        ≡ ok (payload, rest)
  unfolding read_payload
  read_payload-frame_of bad payload rest h =
      let size = from_bytes-to_bytes (length payload) (omega (arith, h.1)) in
      rw size (ground (arith, h, readexactly-append error_at end payload rest))

  -- What `_read_frame` reads first from a stream that starts with a frame is its payload, and the
  -- rest of the stream is left.
  read_frame-frame_of :
      (payload rest : Bytes)
      → IsSendable maximum payload
      → read_frame maximum false end (frame_of payload ++ rest) ≡ ok (payload, rest)
  unfolding read_frame
  read_frame-frame_of payload rest h =
      let n = length payload in
      let tail = n / 65536 % 256 ∷ n / 256 % 256 ∷ n % 256 ∷ [] in
      let first =
        readexactly-append idle_error_at end (n / 16777216 % 256 ∷ [])
          (tail ++ (payload ++ rest)) in
      let header = readexactly-append error_at end tail (payload ++ rest) in
      rw (first, header) (read_payload-frame_of invalid_frame_size payload rest h)

  -- The same for the frames of the handshakes and of stdio.
  pub read_bounded-frame_of :
      (bad : Error) (payload rest : Bytes)
      → IsSendable maximum payload
      → read_bounded bad maximum end (frame_of payload ++ rest) ≡ ok (payload, rest)
  unfolding read_bounded
  read_bounded-frame_of bad payload rest h =
      let header = readexactly-append error_at end (to_bytes (length payload)) (payload ++ rest) in
      rw header (read_payload-frame_of bad payload rest h)

  -- The bytes of the frames of some payloads.
  abbrev pub stream_of : List Bytes → Bytes
  stream_of [] = []
  stream_of (p ∷ ps) = frame_of p ++ stream_of ps

  read_frames-stream_of :
      (ps : List Bytes) (rest : Bytes)
      → All (IsSendable maximum) ps
      → read_frames maximum end (length ps) (stream_of ps ++ rest) ≡ ok (ps, rest)
  unfolding read_frames
  read_frames-stream_of [] rest h = refl
  read_frames-stream_of (p ∷ ps) rest h =
      let first = read_frame-frame_of p (stream_of ps ++ rest) h.0 in
      let others = read_frames-stream_of ps rest h.1 in
      ap (λ (s : Bytes). read_frames maximum end (suc (length ps)) s)
        (append_assoc (frame_of p) (stream_of ps) rest)
      ∙ (ap
            (then_read
              (λ payload left. and_more payload (read_frames maximum end (length ps) left)))
            first
          ∙ ap (and_more p) others)

  -- The writer after a `send` of each payload.
  abbrev pub write_all : List Bytes → Writer → Writer
  write_all [] w = w
  write_all (p ∷ ps) w = write_all ps (write_frame maximum p w).1

  write_frame-written :
      (p : Bytes) (w : Writer)
      → w.closing ≡ false
      → IsSendable maximum p
      → (write_frame maximum p w).1 ≡ record w { written = w.written ++ frame_of p }
  unfolding write_frame
  write_frame-written p w c h = ground (arith, c, h)

  write_all-written :
      (ps : List Bytes) (w : Writer)
      → w.closing ≡ false
      → All (IsSendable maximum) ps
      → (write_all ps w).written ≡ w.written ++ stream_of ps
  write_all-written [] w c h = sym (append-nil w.written)
  write_all-written (p ∷ ps) w c h =
      ap (λ (x : Writer). (write_all ps x).written) (write_frame-written p w c h.0)
      ∙ (write_all-written ps (record w { written = w.written ++ frame_of p }) c h.1
          ∙ append_assoc w.written (frame_of p) (stream_of ps))

  -- Whatever payloads are sent in turn on a new connection, each within the limit on frames, which
  -- fits four bytes, the peer that reads as many frames gets the same payloads in the same order, and
  -- what is written after them is left on the stream.
  pub read_frames-write_all :
      (ps : List Bytes) (rest : Bytes)
      → All (IsSendable maximum) ps
      → read_frames maximum end
          (length ps)
          ((write_all ps (record { closing = false; written = [] })).written ++ rest)
        ≡ ok (ps, rest)
  read_frames-write_all ps rest h =
      ap (λ (s : Bytes). read_frames maximum end (length ps) (s ++ rest))
        (write_all-written ps (record { closing = false; written = [] }) refl h)
      ∙ read_frames-stream_of ps rest h

take-drop : (n : ℕ) (xs : Bytes) → take n xs ++ drop n xs ≡ xs
take-drop zero xs = refl
take-drop (suc n) [] = refl
take-drop (suc n) (x ∷ xs) = ap (λ (ys : Bytes). x ∷ ys) (take-drop n xs)

length-take : (n : ℕ) (xs : Bytes) → n ≤ length xs → length (take n xs) ≡ n
length-take zero xs h = refl
length-take (suc n) [] h = absurd (omega (arith, h))
length-take (suc n) (x ∷ xs) h = ap suc (length-take n xs (omega (arith, h)))

-- A successful read: its bytes, and the rest, are those of the stream.
abbrev Split : ℕ → Bytes → Result (Bytes × Bytes) → Type 0
Split n stream (err e) = Unit
Split n stream (ok (b, rest)) = (length b ≡ n) × (stream ≡ b ++ rest)

readexactly-Split :
    (error : End → Error) (end : End) (n : ℕ) (stream : Bytes)
    → Split n stream (readexactly error end n stream)
unfolding readexactly
readexactly-Split error end n stream =
    if_both (Split n stream) (ltb (length stream) n) (λ _. tt)
      (λ enough. (length-take n stream (ground (arith, enough)), sym (take-drop n stream)))

-- A frame that is read: a header of four bytes that tells the length of the payload, which the limit
-- allows, then the payload and the rest of the stream.
abbrev pub IsFramed : ℕ → Bytes → Result (Bytes × Bytes) → Type 0
IsFramed maximum stream (err e) = Unit
IsFramed maximum stream (ok (payload, rest)) =
    IsSendable maximum payload
    × ((header : Bytes) × (length header ≡ 4)
        × (from_bytes header ≡ length payload)
        × (stream ≡ header ++ (payload ++ rest)))

module _ (maximum : ℕ) (end : End) where
  read_payload-IsFramed :
      (bad : Error) (header stream : Bytes) (r : Result (Bytes × Bytes))
      → length header ≡ 4
      → Split (from_bytes header) stream r
      → is_bad_length maximum (from_bytes header) ≡ false
      → IsFramed maximum (header ++ stream) r
  read_payload-IsFramed bad header stream (err e) four s fine = tt
  read_payload-IsFramed bad header stream (ok (b, rest)) four s fine = (
    (ground (arith, fine, s.0), ground (arith, fine, s.0)),
    (header, four, sym s.0, ap (λ (x : Bytes). header ++ x) s.1),
  )

  payload-IsFramed :
      (bad : Error) (header stream : Bytes)
      → length header ≡ 4
      → IsFramed maximum (header ++ stream) (read_payload bad maximum end header stream)
  unfolding read_payload
  payload-IsFramed bad header stream four =
      if_both (IsFramed maximum (header ++ stream)) (is_bad_length maximum (from_bytes header))
        (λ _. tt)
        (λ fine.
          read_payload-IsFramed bad header stream _ four
            (readexactly-Split error_at end (from_bytes header) stream) fine)

  header-IsFramed :
      (first stream : Bytes) (r : Result (Bytes × Bytes))
      → length first ≡ 1
      → Split 3 stream r
      → IsFramed maximum (first ++ stream) (
          then_read
            (λ header rest. read_payload invalid_frame_size maximum end (first ++ header) rest)
            r)
  header-IsFramed first stream (err e) one s = tt
  header-IsFramed first stream (ok (header, rest)) one s =
      subst
        (λ (x : Bytes).
          IsFramed maximum x (read_payload invalid_frame_size maximum end (first ++ header) rest))
        (append_assoc first header rest ∙ ap (λ (x : Bytes). first ++ x) (sym s.1))
        (payload-IsFramed invalid_frame_size (first ++ header) rest
          (omega (arith, length-append first header, one, s.0)))

  first-IsFramed :
      (stream : Bytes) (r : Result (Bytes × Bytes))
      → Split 1 stream r
      → IsFramed maximum stream (
          then_read
            (λ first stream'.
              then_read
                (λ header rest. read_payload invalid_frame_size maximum end (first ++ header) rest)
                (readexactly error_at end 3 stream'))
            r)
  first-IsFramed stream (err e) s = tt
  first-IsFramed stream (ok (first, rest)) s =
      subst
        (λ (x : Bytes). IsFramed maximum x (
          then_read
            (λ header rest'. read_payload invalid_frame_size maximum end (first ++ header) rest')
            (readexactly error_at end 3 rest)))
        (sym s.1) (header-IsFramed first rest _ s.0 (readexactly-Split error_at end 3 rest))

  -- Whatever bytes a peer sends, a payload that `_read_frame` returns is not empty and within the
  -- limit, its length is what the four bytes before it say, and no byte after it has been consumed.
  pub read_frame-IsFramed :
      (expired : Bool) (stream : Bytes)
      → IsFramed maximum stream (read_frame maximum expired end stream)
  unfolding read_frame
  read_frame-IsFramed expired stream =
      if_both (IsFramed maximum stream) expired (λ _. tt)
        (λ _. first-IsFramed stream _ (readexactly-Split idle_error_at end 1 stream))
