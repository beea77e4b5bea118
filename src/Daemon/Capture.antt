-- ===== src/Daemon/Capture.antt =====
-- The bounded byte buffers of crates/maestrod/src/fake_session.rs: `BoundedBytes`, the tail of a
-- run's stderr, and `RawProtocolCaptureState`, the head of its stdout.
pub mod Stderr
pub mod Raw
use maestro_app.Prelude.{
  ℕ, ◌-◌, min, Bool, true, false, not, ◌||◌, ◌&&◌, List, [], ◌∷◌, ◌++◌, ltb, leb, ◌==◌,
  if◌then◌else◌, length, take, drop, saturating_add, u64_max,
}

pub record BoundedBytes : Type 0 where
  pub bytes : List ℕ
  pub truncated : Bool

abbrev pub empty_bytes : BoundedBytes
empty_bytes = record { bytes = []; truncated = false }

abbrev pub is_empty : List ℕ → Bool
is_empty [] = true
is_empty (b ∷ bs) = false

-- The loop that pops the oldest byte while there are more than `limit`.
unfoldable pub pop_excess : ℕ → List ℕ → Bool → BoundedBytes
pop_excess limit [] truncated = record { bytes = []; truncated = truncated }
pop_excess limit (b ∷ bs) truncated =
    let rest = pop_excess limit bs true in
    if ltb limit (length (b ∷ bs)) then rest else record { bytes = b ∷ bs; truncated = truncated }

unfoldable pub push_bytes : BoundedBytes → List ℕ → ℕ → BoundedBytes
unfolding pop_excess
push_bytes s input limit =
    if limit == 0
    then record s { truncated = s.truncated || not (is_empty input) }
    else if leb limit (length input)
    then record { bytes = drop (length input - limit) input; truncated = true }
    else pop_excess limit (s.bytes ++ input) s.truncated

pub record RawProtocolCaptureState : Type 0 where
  pub run_id : ℕ
  pub bytes : List ℕ
  pub observed_byte_count : ℕ
  pub truncated : Bool
  pub complete : Bool

unfoldable pub new_capture : ℕ → RawProtocolCaptureState
new_capture run_id = record {
  run_id = run_id;
  bytes = [];
  observed_byte_count = 0;
  truncated = false;
  complete = false;
}

-- `u64::try_from(input.len()).unwrap_or(u64::MAX)` is the first minimum.
unfoldable pub push_capture : RawProtocolCaptureState → List ℕ → ℕ → RawProtocolCaptureState
push_capture c input limit =
    let input_length = min (length input) u64_max in
    let next_observed = saturating_add c.observed_byte_count input_length in
    let retained = min (limit - length c.bytes) (length input) in
    record c {
      bytes = c.bytes ++ take retained input;
      observed_byte_count = next_observed;
      truncated =
          c.truncated
          || (next_observed == u64_max && not (input_length == 0))
          || ltb retained (length input);
    }
