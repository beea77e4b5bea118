-- ===== src/Adapter/Jsonl.antt =====
-- crates/maestro-adapter/src/jsonl.rs: the bounded decoder of newline-delimited JSON, and the encoder.
-- Bytes are numbers. The parser and the printer of the `serde_json` crate are parameters, and what
-- they return for an error is its text.
pub mod Lines
pub mod Bounds
pub mod Chunks
pub mod Frames
use maestro_app.Prelude.{
  ℕ, ◌+◌, ◌-◌, ◌*◌, ◌<◌, min, String, Bool, true, false, ◌||◌, Option, none, some, List, [], ◌∷◌,
  ◌++◌, ltb, leb, ◌==◌, if◌then◌else◌, length, take, Result, ok, err, ◌>>=◌, ◌>>◌, saturating_add,
  saturating_mul,
}

abbrev pub maximum_jsonl_frame_bytes : ℕ
maximum_jsonl_frame_bytes = 1024 * 1024

abbrev pub maximum_jsonl_frames_per_push : ℕ
maximum_jsonl_frames_per_push = 1024

abbrev pub maximum_jsonl_batch_bytes : ℕ
maximum_jsonl_batch_bytes = (maximum_jsonl_frame_bytes + 1) * 4

pub data JsonLineError : Type 0 where
  invalid_frame_limit : (requested maximum : ℕ) → JsonLineError
  frame_too_large batch_too_large too_many_frames : (limit : ℕ) → JsonLineError
  invalid_json : String → JsonLineError
  incomplete_frame poisoned_error : JsonLineError

pub record Decoder : Type 0 where
  pub maximum_frame_bytes : ℕ
  pub maximum_batch_bytes : ℕ
  pub maximum_frames_per_push : ℕ
  pub buffer : List ℕ
  pub poisoned : Bool

unfoldable pub validate_frame_limit : ℕ → Result (Unit {0}) JsonLineError
validate_frame_limit maximum_frame_bytes =
    if maximum_frame_bytes == 0 || ltb maximum_jsonl_frame_bytes maximum_frame_bytes
    then err (invalid_frame_limit maximum_frame_bytes maximum_jsonl_frame_bytes)
    else ok tt

unfoldable pub new : ℕ → Result Decoder JsonLineError
unfolding validate_frame_limit
new maximum_frame_bytes = do
  validate_frame_limit maximum_frame_bytes
  ok (record {
    maximum_frame_bytes = maximum_frame_bytes;
    maximum_batch_bytes =
        min (saturating_mul (saturating_add maximum_frame_bytes 1) 4) maximum_jsonl_batch_bytes;
    maximum_frames_per_push = maximum_jsonl_frames_per_push;
    buffer = [];
    poisoned = false;
  })

abbrev pub clear_buffer : Decoder → Decoder
clear_buffer d = record d { buffer = [] }

abbrev pub poison : Decoder → Decoder
poison d = clear_buffer (record d { poisoned = true })

-- The decoder comes back beside the error too.
unfoldable pub extend_checked : Decoder → List ℕ → Decoder × Option JsonLineError
extend_checked d bytes =
    if ltb (d.maximum_frame_bytes - length d.buffer) (length bytes)
    then (poison d, some (frame_too_large d.maximum_frame_bytes))
    else (record d { buffer = d.buffer ++ bytes }, none)

-- A trailing carriage return is popped.
unfoldable pub pop_cr : List ℕ → List ℕ
pop_cr [] = []
pop_cr (b ∷ []) = if b == b'\r' then [] else b ∷ []
pop_cr (b ∷ c ∷ bs) = b ∷ pop_cr (c ∷ bs)

-- What the rounds of the `while let` loop see: the segment before each newline, and what remains.
abbrev pub prepend : ℕ → List (List ℕ) × List ℕ → List (List ℕ) × List ℕ
prepend b ([], rest) = ([], b ∷ rest)
prepend b (l ∷ ls, rest) = ((b ∷ l) ∷ ls, rest)

unfoldable pub split_lines : List ℕ → List (List ℕ) × List ℕ
split_lines [] = ([], [])
split_lines (b ∷ bs) =
    let (ls, rest) = split_lines bs in if b == b'\n' then ([] ∷ ls, rest) else prepend b (ls, rest)

-- `DecodedJsonLines`, with the decoder that the call leaves.
pub record Decoded (Value : Type 0) : Type 0 where
  pub decoder : Decoder
  pub frames : List Value
  pub terminal_error : Option JsonLineError

-- One round of the loop either goes on or returns.
pub data Round (Value : Type 0) : Type 0 where
  going : Decoder → List Value → Round Value
  returned : Decoded Value → Round Value

module _ {Value : Type 0} where
  abbrev pub clean : Decoder → List Value → Decoded Value
  clean d frames = record { decoder = d; frames = frames; terminal_error = none }

  abbrev pub failed : Decoder → List Value → JsonLineError → Decoded Value
  failed d frames error = record { decoder = d; frames = frames; terminal_error = some error }

module _ {Value : Type 0} (from_slice : List ℕ → Result Value String) where
  abbrev pub accept_frame : Decoder → List Value → Result Value String → Round Value
  accept_frame d frames (ok frame) = going (clear_buffer d) (frames ++ frame ∷ [])
  accept_frame d frames (err error) = returned (failed (poison d) frames (invalid_json error))

  abbrev pub after_extend : List Value → Decoder × Option JsonLineError → Round Value
  after_extend frames (d, some error) = returned (failed d frames error)
  after_extend frames (d, none) =
      let popped = record d { buffer = pop_cr d.buffer } in
      accept_frame popped frames (from_slice (pop_cr d.buffer))

  unfoldable pub push_line : Decoder → List Value → List ℕ → Round Value
  push_line d frames segment =
      if leb d.maximum_frames_per_push (length frames)
      then returned (failed (poison d) frames (too_many_frames d.maximum_frames_per_push))
      else after_extend frames (extend_checked d segment)

  abbrev pub and_then : Round Value → (Decoder → List Value → Round Value) → Round Value
  and_then (going d frames) k = k d frames
  and_then (returned r) k = returned r

  unfoldable pub push_lines : Decoder → List Value → List (List ℕ) → Round Value
  unfolding push_line
  push_lines d frames [] = going d frames
  push_lines d frames (segment ∷ segments) =
      and_then (push_line d frames segment) (λ d' frames'. push_lines d' frames' segments)

  abbrev pub after_remaining : List Value → Decoder × Option JsonLineError → Decoded Value
  after_remaining frames (d, some error) = failed d frames error
  after_remaining frames (d, none) = clean d frames

  abbrev pub after_loop : Bool → List ℕ → Round Value → Decoded Value
  after_loop batch_too_large' remaining (returned r) = r
  after_loop batch_too_large' remaining (going d frames) =
      if batch_too_large'
      then failed (poison d) frames (batch_too_large d.maximum_batch_bytes)
      else after_remaining frames (extend_checked d remaining)

  unfoldable pub push : Decoder → List ℕ → Decoded Value
  unfolding push_lines split_lines extend_checked pop_cr
  push d chunk =
      let (segments, remaining) =
        split_lines (take (min (length chunk) d.maximum_batch_bytes) chunk) in
      if d.poisoned
      then failed d [] poisoned_error
      else after_loop (ltb d.maximum_batch_bytes (length chunk)) remaining
          (push_lines d [] segments)

abbrev finish_buffer : Decoder → List ℕ → Decoder × Result (Unit {0}) JsonLineError
finish_buffer d [] = (d, ok tt)
finish_buffer d (b ∷ bs) = (poison d, err incomplete_frame)

unfoldable pub finish : Decoder → Decoder × Result (Unit {0}) JsonLineError
finish d = if d.poisoned then (d, err poisoned_error) else finish_buffer d d.buffer

module _ {Value : Type 0} (to_vec : Value → Result (List ℕ) String) where
  abbrev printed : Result (List ℕ) String → Result (List ℕ) JsonLineError
  printed (ok bytes) = ok bytes
  printed (err error) = err (invalid_json error)

  unfoldable pub encode_json_line : Value → ℕ → Result (List ℕ) JsonLineError
  unfolding validate_frame_limit
  encode_json_line value maximum_frame_bytes = do
    validate_frame_limit maximum_frame_bytes
    bytes ← printed (to_vec value)
    if ltb maximum_frame_bytes (length bytes)
        then err (frame_too_large maximum_frame_bytes)
        else ok (bytes ++ b'\n' ∷ [])
