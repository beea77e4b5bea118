-- ===== src/Daemon/Frames.antt =====
-- `JsonLineDecoder` of crates/maestrod/src/fake_session.rs: the supervisor's decoder of a run's
-- stdout, byte by byte. `from_slice` is the parser of the `serde_json` crate, `none` where it fails.
pub mod Chunks
pub mod Lines
use maestro_app.Prelude.{
  ℕ, String, Bool, true, false, Option, none, some, List, [], ◌∷◌, ◌++◌, leb, ◌==◌, if◌then◌else◌,
  length, Result, ok, err,
}

pub record ProtocolFailure : Type 0 where
  pub category : String
  pub incompatible : Bool

abbrev pub failure : String → ProtocolFailure
failure category = record { category = category; incompatible = false }

pub record JsonLineDecoder : Type 0 where
  pub frame : List ℕ
  pub maximum_frame_bytes : ℕ
  pub failed : Bool

unfoldable pub new : ℕ → JsonLineDecoder
new maximum_frame_bytes = record {
  frame = [];
  maximum_frame_bytes = maximum_frame_bytes;
  failed = false;
}

-- `if self.frame.last() == Some(&b'\r') { self.frame.pop(); }`
unfoldable pub pop_return : List ℕ → List ℕ
pop_return [] = []
pop_return (b ∷ []) = if b == b'\r' then [] else b ∷ []
pop_return (b ∷ c ∷ bs) = b ∷ pop_return (c ∷ bs)

-- `DecodeBatch`, with the decoder that the call leaves.
pub record DecodeBatch (Value : Type 0) : Type 0 where
  pub decoder : JsonLineDecoder
  pub frames : List Value
  pub failed_with : Option ProtocolFailure

abbrev pub with_frame : JsonLineDecoder → List ℕ → JsonLineDecoder
with_frame d frame = record d { frame = frame }

abbrev pub fail : JsonLineDecoder → JsonLineDecoder
fail d = record d { frame = []; failed = true }

module _ {Value : Type 0} where
  abbrev pub batch : JsonLineDecoder → List Value → DecodeBatch Value
  batch d frames = record { decoder = d; frames = frames; failed_with = none }

  abbrev pub fails : JsonLineDecoder → List Value → String → DecodeBatch Value
  fails d frames category = record {
    decoder = fail d;
    frames = frames;
    failed_with = some (failure category);
  }

  -- The loop goes on after a batch without a failure.
  abbrev pub continue :
      DecodeBatch Value
      → Option ProtocolFailure
      → (JsonLineDecoder → List Value → DecodeBatch Value)
      → DecodeBatch Value
  continue b none rest = rest b.decoder b.frames
  continue b (some f) rest = b

module _ {Value : Type 0} (from_slice : List ℕ → Option Value) where
  abbrev pub parsed : JsonLineDecoder → List Value → Option Value → DecodeBatch Value
  parsed d frames none = fails d frames "malformed_json"
  parsed d frames (some value) = batch (with_frame d []) (frames ++ value ∷ [])

  -- The newline's branch, after the carriage return is popped.
  abbrev pub end_line : JsonLineDecoder → List Value → List ℕ → DecodeBatch Value
  end_line d frames [] = fails d frames "empty_frame"
  end_line d frames (b ∷ bs) = parsed d frames (from_slice (b ∷ bs))

  -- One round of the `for` loop.
  unfoldable pub push_byte : JsonLineDecoder → List Value → ℕ → DecodeBatch Value
  unfolding pop_return
  push_byte d frames byte =
      if byte == b'\n'
      then end_line d frames (pop_return d.frame)
      else if leb d.maximum_frame_bytes (length d.frame)
      then fails d frames "oversized_frame"
      else batch (with_frame d (d.frame ++ byte ∷ [])) frames

  unfoldable pub push_bytes : JsonLineDecoder → List Value → List ℕ → DecodeBatch Value
  push_bytes d frames [] = batch d frames
  push_bytes d frames (byte ∷ bytes) =
      let b = push_byte d frames byte in
      continue b b.failed_with (λ d' frames'. push_bytes d' frames' bytes)

  unfoldable pub push : JsonLineDecoder → List ℕ → DecodeBatch Value
  push d bytes =
      if d.failed
      then record {
        decoder = d;
        frames = [];
        failed_with = some (failure "decoder_already_failed");
      }
      else push_bytes d [] bytes

unfoldable pub finish : JsonLineDecoder → Result (Unit {0}) ProtocolFailure
finish d = if d.failed then err (failure "decoder_already_failed") else at_end d.frame
  where
    at_end : List ℕ → Result (Unit {0}) ProtocolFailure
    at_end [] = ok tt
    at_end (b ∷ bs) = err (failure "truncated_frame")
