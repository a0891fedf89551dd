-- ===== src/Frames/Examples.antt =====
-- Frames of small payloads.
use wire_rpc.Prelude.{◌≡◌, refl, arith, false, List, [], ◌∷◌, ◌++◌}
use wire_rpc.Envelope.{Bytes}
use wire_rpc.Frames.{
  ok, err, late, eof, invalid_frame_size, read_frame, read_payload, readexactly, from_bytes_onto,
  read_frames,
}
use wire_rpc.Frames.Reading.{IsFramed, read_frame-IsFramed, write_all, read_frames-write_all}

abbrev payloads : List Bytes
payloads = (7 ∷ 8 ∷ []) ∷ (9 ∷ []) ∷ []

read_frames-write_all_example :
    read_frames 1024 late 2 (
      (write_all 1024
        (omega arith)
        late
        payloads
        (record { closing = false; written = [] })).written
      ++ 1 ∷ [])
    ≡ ok (payloads, 1 ∷ [])
read_frames-write_all_example =
    read_frames-write_all 1024 (omega arith) late payloads (1 ∷ [])
      ((omega arith, omega arith), ((omega arith, omega arith), tt))

abbrev input : Bytes
input = 0 ∷ 0 ∷ 0 ∷ 2 ∷ 7 ∷ 8 ∷ 9 ∷ []

read_frame-IsFramed_example : IsFramed 1024 input (read_frame 1024 false eof input)
read_frame-IsFramed_example = read_frame-IsFramed 1024 eof false input

-- A length above the limit is refused before any of the payload is awaited.
oversized : read_frame 1024 false eof (1 ∷ 0 ∷ 0 ∷ 0 ∷ []) ≡ err invalid_frame_size
unfolding read_frame readexactly read_payload from_bytes_onto
oversized = refl
