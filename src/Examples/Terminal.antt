-- ===== src/Examples/Terminal.antt =====
-- `OutputBuffer` of crates/maestrod/src/terminal.rs at concrete reads.
use maestro_app.Prelude.{
  ℕ, ◌≡◌, ◌≤◌, ◌<◌, refl, List, [], ◌∷◌, arith, false, none, ok, All, drop, length,
}
use maestro_app.Daemon.Sequence.{after}
use maestro_app.Daemon.Terminal.{
  OutputBuffer, PollResult, default_buffer, push, drop_oldest, poll, collect,
  max_buffered_terminal_bytes,
}
use maestro_app.Daemon.Terminal.Buffer.{Inv, default-Inv, push-Inv, total_bytes}
use maestro_app.Daemon.Terminal.Stream.{pushes, written, contents, pushes-Retained}
use maestro_app.Daemon.Terminal.Cursor.{FitsRead}

abbrev reads : List (List ℕ)
reads = (1 ∷ 2 ∷ []) ∷ [] ∷ (3 ∷ []) ∷ []

abbrev buffer : OutputBuffer
buffer = pushes default_buffer reads

two_chunks : contents buffer ≡ (1 ∷ 2 ∷ []) ∷ (3 ∷ []) ∷ []
unfolding push drop_oldest
two_chunks = refl

pushes-Retained_example :
    (contents buffer ≡ drop buffer.dropped_through_sequence (written reads))
    × (buffer.latest_sequence ≡ length (written reads))
    × (total_bytes buffer.chunks ≤ max_buffered_terminal_bytes)
pushes-Retained_example = pushes-Retained reads (omega arith)

abbrev small : OutputBuffer
small = (push (push default_buffer (1 ∷ 2 ∷ [])).0 (3 ∷ [])).0

first-Inv : Inv (push default_buffer (1 ∷ 2 ∷ [])).0
first-Inv = push-Inv default_buffer (1 ∷ 2 ∷ []) default-Inv (omega arith)

small-Inv : Inv small
unfolding push drop_oldest
small-Inv = push-Inv (push default_buffer (1 ∷ 2 ∷ [])).0 (3 ∷ []) first-Inv (omega arith)

abbrev polled : PollResult
polled = record {
  chunks = record { sequence = 2; bytes = 3 ∷ [] } ∷ [];
  next_sequence = 2;
  latest_sequence = 2;
  overflowed = false;
  dropped_through_sequence = none;
}

polls : poll small 1 4096 ≡ ok polled
unfolding push drop_oldest poll collect after
polls = refl

small_fits : All FitsRead small.chunks
unfolding push drop_oldest
small_fits = (omega arith, (omega arith, tt))

small_behind : 1 < small.latest_sequence
unfolding push drop_oldest
small_behind = omega arith
