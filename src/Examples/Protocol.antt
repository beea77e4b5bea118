-- ===== src/Examples/Protocol.antt =====
-- The frames of crates/maestro-protocol/src/lib.rs and crates/maestrod/src/ipc.rs at concrete bytes.
use maestro_app.Prelude.{
  ℕ, ◌≡◌, ◌↔◌, ◌≤◌, refl, String, List, [], ◌∷◌, ◌++◌, arith, length, Result, ok, err, concat, All,
}
use maestro_app.Protocol.Frame.{
  encode_frame, decode_frame, to_be_bytes, from_be_bytes, max_frame_bytes, read_frame_with_limit,
  incomplete_frame,
}
use maestro_app.Protocol.Frame.RoundTrip.{IsCodec, framed, decode_frame_iff}
use maestro_app.Protocol.Frame.Words.{IsByte}
use maestro_app.Protocol.Frame.Reader.{IsOpen, read_bytes, read_frame_with_limit-bytes}
use maestro_app.Protocol.Frame.Stream.{ReadsAll, reads-encode_frame}

-- A value is a number, and its one byte encodes it.
abbrev to_vec : ℕ → Result (List ℕ) String
to_vec n = ok (n ∷ [])

abbrev from_read : List ℕ → Result ℕ String
from_read (n ∷ []) = ok n
from_read _ = err "length"

codec : IsCodec to_vec from_read
codec value bytes e = ground (arith, e)

abbrev frame : List ℕ
frame = 0 ∷ 0 ∷ 0 ∷ 1 ∷ 42 ∷ []

encodes : encode_frame to_vec 42 ≡ ok frame
unfolding encode_frame to_be_bytes
encodes = refl

trailing_byte_is_refused : decode_frame from_read (frame ++ 9 ∷ []) ≡ err (incomplete_frame 5 6)
unfolding decode_frame from_be_bytes
trailing_byte_is_refused = refl

abbrev pieces : List (List ℕ)
pieces = (0 ∷ 0 ∷ 0 ∷ []) ∷ (1 ∷ 42 ∷ 0 ∷ 0 ∷ []) ∷ (0 ∷ 1 ∷ 42 ∷ []) ∷ []

pieces-IsOpen : IsOpen pieces
pieces-IsOpen = (omega arith, (omega arith, (omega arith, tt)))

reads-encode_frame_example : ReadsAll from_read (42 ∷ 42 ∷ []) pieces 8
reads-encode_frame_example =
    reads-encode_frame to_vec from_read (42 ∷ 42 ∷ []) (frame ∷ frame ∷ []) pieces 8 codec
      (encodes, omega arith, (encodes, omega arith, tt)) pieces-IsOpen refl

frame_bytes : All IsByte frame
frame_bytes = (omega arith, (omega arith, (omega arith, (omega arith, (omega arith, tt)))))

decode_frame_iff_example : (decode_frame from_read frame ≡ ok 42) ↔ (
    (payload : List ℕ) × (frame ≡ framed payload)
    × (length payload ≤ max_frame_bytes)
    × (from_read payload ≡ ok 42))
decode_frame_iff_example = decode_frame_iff from_read frame 42 frame_bytes

read_frame_with_limit-bytes_example :
    (read_frame_with_limit from_read pieces 8).0 ≡ read_bytes from_read (concat pieces) 8
read_frame_with_limit-bytes_example = read_frame_with_limit-bytes from_read pieces 8 pieces-IsOpen
