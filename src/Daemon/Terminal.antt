-- ===== src/Daemon/Terminal.antt =====
-- `OutputBuffer` of crates/maestrod/src/terminal.rs: the bounded output of a terminal, which a
-- client polls by a cursor. The sum of the lengths of live vectors does not reach `usize::MAX`, so
-- `buffered_bytes` and the count of `poll` add without a bound.
pub mod Buffer
pub mod Stream
pub mod Cursor
use maestro_app.Prelude.{
  ℕ, ◌+◌, ◌-◌, ◌*◌, max, Bool, Option, none, some, List, [], ◌∷◌, ◌++◌, ltb, if◌then◌else◌, length,
  Result, ok, err, saturating_add, retain,
}
use maestro_app.Daemon.Sequence.{last_or, after}

abbrev pub terminal_read_chunk_bytes : ℕ
terminal_read_chunk_bytes = 4 * 1024

abbrev pub max_buffered_terminal_bytes : ℕ
max_buffered_terminal_bytes = 1024 * 1024

pub record TerminalOutputChunk : Type 0 where
  pub sequence : ℕ
  pub bytes : List ℕ

pub record OutputBuffer : Type 0 where
  pub chunks : List TerminalOutputChunk
  pub buffered_bytes : ℕ
  pub latest_sequence : ℕ
  pub dropped_through_sequence : ℕ

abbrev pub default_buffer : OutputBuffer
default_buffer = record {
  chunks = [];
  buffered_bytes = 0;
  latest_sequence = 0;
  dropped_through_sequence = 0;
}

-- The `while` loop of `push`; with no chunk left it breaks.
unfoldable pub drop_oldest : ℕ → List TerminalOutputChunk → ℕ → ℕ → OutputBuffer
drop_oldest latest [] buffered dropped = record {
  chunks = [];
  buffered_bytes = buffered;
  latest_sequence = latest;
  dropped_through_sequence = dropped;
}
drop_oldest latest (chunk ∷ chunks) buffered dropped =
    let rest = drop_oldest latest chunks (buffered - length chunk.bytes) chunk.sequence in
    if ltb max_buffered_terminal_bytes buffered then rest else record {
      chunks = chunk ∷ chunks;
      buffered_bytes = buffered;
      latest_sequence = latest;
      dropped_through_sequence = dropped;
    }

unfoldable pub push : OutputBuffer → List ℕ → OutputBuffer × Option ℕ
unfolding drop_oldest
push b [] = (b, none)
push b (x ∷ xs) =
    let sequence = saturating_add b.latest_sequence 1 in
    (
      drop_oldest sequence (b.chunks ++ record { sequence = sequence; bytes = x ∷ xs } ∷ [])
          (b.buffered_bytes + length (x ∷ xs)) b.dropped_through_sequence,
      some sequence,
    )

pub record PollResult : Type 0 where
  pub chunks : List TerminalOutputChunk
  pub next_sequence : ℕ
  pub latest_sequence : ℕ
  pub overflowed : Bool
  pub dropped_through_sequence : Option ℕ

pub data PollError : Type 0 where
  cursor_newer : PollError

-- The `for` loop of `poll`, from `bytes` on.
unfoldable pub collect : ℕ → ℕ → List TerminalOutputChunk → List TerminalOutputChunk
collect maximum bytes [] = []
collect maximum bytes (chunk ∷ chunks) =
    let rest = collect maximum (bytes + length chunk.bytes) chunks in
    if ltb maximum (bytes + length chunk.bytes) then [] else chunk ∷ rest

unfoldable pub poll : OutputBuffer → ℕ → ℕ → Result PollResult PollError
unfolding collect after last_or
poll b after_sequence maximum_bytes =
    let overflowed = ltb after_sequence b.dropped_through_sequence in
    let cursor = max after_sequence b.dropped_through_sequence in
    let chunks = collect maximum_bytes 0 (after (λ chunk. chunk.sequence) cursor b.chunks) in
    if ltb b.latest_sequence after_sequence
    then err cursor_newer
    else ok (record {
      chunks = chunks;
      next_sequence = last_or (λ chunk. chunk.sequence) cursor chunks;
      latest_sequence = b.latest_sequence;
      overflowed = overflowed;
      dropped_through_sequence = if overflowed then some b.dropped_through_sequence else none;
    })
