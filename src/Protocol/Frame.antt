-- ===== src/Protocol/Frame.antt =====
-- The length-prefixed frames of the local protocol: `encode_frame`, `decode_frame` and
-- `decode_payload` of crates/maestro-protocol/src/lib.rs, and `read_frame_with_limit` of
-- crates/maestrod/src/ipc.rs. The MessagePack of the `rmp_serde` crate is a pair of parameters whose
-- errors are texts. A reader is the list of the pieces that the socket delivers; an empty piece, or
-- none, is the end of input.
pub mod Words
pub mod RoundTrip
pub mod Reader
pub mod Stream
use maestro_app.Prelude.{
  ℕ, ◌+◌, ◌-◌, ◌*◌, ◌/◌, ◌%◌, ◌^◌, min, String, Bool, Option, none, some, List, [], ◌∷◌, ◌++◌, ltb,
  leb, ◌==◌, not, if◌then◌else◌, length, take, drop, Result, ok, err, ◌>>=◌,
}

abbrev pub max_frame_bytes : ℕ
max_frame_bytes = 16 * 1024 * 1024

pub data CodecError : Type 0 where
  frame_too_large : (actual maximum : ℕ) → CodecError
  incomplete_frame : (expected actual : ℕ) → CodecError
  encode decode : String → CodecError

-- `u32::to_be_bytes` and `u32::from_be_bytes`.
unfoldable pub to_be_bytes : ℕ → List ℕ
to_be_bytes n = n / 2 ^ 24 % 256 ∷ n / 2 ^ 16 % 256 ∷ n / 2 ^ 8 % 256 ∷ n % 256 ∷ []

unfoldable pub from_be_bytes : List ℕ → ℕ
from_be_bytes (a ∷ b ∷ c ∷ d ∷ []) = a * 2 ^ 24 + b * 2 ^ 16 + c * 2 ^ 8 + d
from_be_bytes _ = 0

module _ {Value : Type 0} (to_vec_named : Value → Result (List ℕ) String) where
  abbrev encoded : Result (List ℕ) String → Result (List ℕ) CodecError
  encoded (ok payload) = ok payload
  encoded (err error) = err (encode error)

  -- The second conversion to `u32` is the test against `2 ^ 32`.
  unfoldable pub encode_frame : Value → Result (List ℕ) CodecError
  unfolding to_be_bytes
  encode_frame value = do
    payload ← encoded (to_vec_named value)
    if ltb max_frame_bytes (length payload)
        then err (frame_too_large (length payload) max_frame_bytes)
        else if leb (2 ^ 32) (length payload)
        then err (frame_too_large (length payload) max_frame_bytes)
        else ok (to_be_bytes (length payload) ++ payload)

module _ {Value : Type 0} (from_read : List ℕ → Result Value String) where
  abbrev decoded : Result Value String → Result Value CodecError
  decoded (ok value) = ok value
  decoded (err error) = err (decode error)

  unfoldable pub decode_payload : List ℕ → Result Value CodecError
  decode_payload payload =
      if ltb max_frame_bytes (length payload)
      then err (frame_too_large (length payload) max_frame_bytes)
      else decoded (from_read payload)

  unfoldable pub decode_frame : List ℕ → Result Value CodecError
  decode_frame frame =
      let announced = from_be_bytes (take 4 frame) in
      if ltb (length frame) 4
      then err (incomplete_frame 4 (length frame))
      else if ltb max_frame_bytes announced
      then err (frame_too_large announced max_frame_bytes)
      else if not (length frame == announced + 4)
      then err (incomplete_frame (announced + 4) (length frame))
      else decode_payload (drop 4 frame)

-- `IpcError` as far as reading goes; a codec error keeps its value where the source keeps its text.
pub data IpcError : Type 0 where
  truncated_prefix : (actual : ℕ) → IpcError
  frame_exceeds : (actual maximum : ℕ) → IpcError
  unexpected_eof : IpcError
  codec : CodecError → IpcError

-- The loop of reads that fills a buffer of `missing` bytes: what it holds at the end, which is short
-- of that only at the end of input, and what the socket delivers after it. It is both the loop over
-- the prefix and `read_exact`.
unfoldable pub fill : ℕ → List (List ℕ) → List ℕ × List (List ℕ)
fill missing [] = ([], [])
fill missing (piece ∷ pieces) =
    let (more, rest) = fill (missing - length piece) pieces in
    if missing == 0
    then ([], piece ∷ pieces)
    else if length piece == 0
    then ([], pieces)
    else if leb (length piece) missing
    then (piece ++ more, rest)
    else (take missing piece, drop missing piece ∷ pieces)

module _ {Value : Type 0} (from_read : List ℕ → Result Value String) where
  abbrev pub received : Result Value CodecError → Result (Option Value) IpcError
  received (ok value) = ok (some value)
  received (err error) = err (codec error)

  abbrev pub read_payload :
      ℕ → List ℕ × List (List ℕ) → Result (Option Value) IpcError × List (List ℕ)
  read_payload announced (payload, rest) =
      if ltb (length payload) announced
      then (err unexpected_eof, rest)
      else (received (decode_payload from_read payload), rest)

  abbrev pub read_body : ℕ → List ℕ × List (List ℕ) → Result (Option Value) IpcError × List (List ℕ)
  read_body maximum_bytes (prefix, rest) =
      let announced = from_be_bytes prefix in
      let maximum = min maximum_bytes max_frame_bytes in
      if length prefix == 0
      then (ok none, rest)
      else if ltb (length prefix) 4
      then (err (truncated_prefix (length prefix)), rest)
      else if ltb maximum announced
      then (err (frame_exceeds announced maximum), rest)
      else read_payload announced (fill announced rest)

  unfoldable pub read_frame_with_limit :
      List (List ℕ) → ℕ → Result (Option Value) IpcError × List (List ℕ)
  unfolding fill
  read_frame_with_limit reader maximum_bytes = read_body maximum_bytes (fill 4 reader)
