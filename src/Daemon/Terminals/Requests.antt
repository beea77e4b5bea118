-- ===== src/Daemon/Terminals/Requests.antt =====
-- The requests of a client to a terminal: `write`, `resize`, `read`, `status`, the attachments and
-- `list_for_project` of crates/maestrod/src/terminal.rs.
use maestro_app.Prelude.{
  ℕ, String, Bool, true, false, not, ◌&&◌, ◌||◌, Option, none, some, List, [], ◌∷◌, ltb, ◌==◌,
  if◌then◌else◌, length, str_eq, Result, ok, err, ◌>>=◌, ◌>>◌, nat_order,
}
use maestro_app.Daemon.Terminal.{PollResult, PollError, poll}
use maestro_app.Daemon.Terminals.{
  id_eq, max_terminal_input_bytes, max_terminal_poll_bytes, min_terminal_poll_bytes,
  max_terminal_read_wait_milliseconds, is_running, TerminalMetadata, TerminalSession,
  TerminalManager, TerminalError, terminal_not_running, input_too_large, poll_size, read_wait,
  permission_denied, newer_cursor, process_operation, session, validate_dimensions, TerminalStatus,
  status_of,
}

unfoldable pub require_running : TerminalSession → Result (Unit {0}) TerminalError
require_running s = if is_running s.runtime.state then ok tt else err terminal_not_running

abbrev pub process_result : Bool → Result (Unit {0}) TerminalError
process_result true = ok tt
process_result false = err process_operation

-- Whether the process takes the bytes is the argument `written`.
unfoldable pub write :
    TerminalManager → ℕ → List ℕ → (written : Bool) → Result (Unit {0}) TerminalError
unfolding session require_running
write m terminal_id data_bytes written =
    if ltb max_terminal_input_bytes (length data_bytes)
    then err input_too_large
    else do s ← session m terminal_id; require_running s; process_result written

unfoldable pub resize :
    TerminalManager → ℕ → ℕ → ℕ → (resized : Bool) → Result (Unit {0}) TerminalError
unfolding session require_running validate_dimensions
resize m terminal_id columns rows resized = do
  validate_dimensions columns rows
  s ← session m terminal_id
  require_running s
  process_result resized

pub record TerminalReadResult : Type 0 where
  pub read : PollResult
  pub status : TerminalStatus

abbrev pub polled : Result PollResult PollError → Result PollResult TerminalError
polled (err failure) = err newer_cursor
polled (ok read) = ok read

unfoldable pub terminal_read_snapshot :
    TerminalSession → ℕ → ℕ → Result TerminalReadResult TerminalError
unfolding poll
terminal_read_snapshot s after_sequence maximum_bytes = do
  read ← polled (poll s.output after_sequence maximum_bytes)
  ok record { read = read; status = status_of s }

abbrev is_empty_list {ℓ} : {A : Type ℓ} → List A → Bool
is_empty_list [] = true
is_empty_list (x ∷ xs) = false

-- A first snapshot is returned at once when there is something to tell.
unfoldable pub returns_at_once : ℕ → TerminalReadResult → Bool
returns_at_once wait_milliseconds initial =
    wait_milliseconds == 0
    || (not (is_empty_list initial.read.chunks)
        || (initial.read.overflowed || not (is_running initial.status.state)))

unfoldable pub read_session :
    (s later : TerminalSession) → ℕ → ℕ → ℕ → Result TerminalReadResult TerminalError
unfolding terminal_read_snapshot returns_at_once
read_session s later after_sequence maximum_bytes wait_milliseconds = do
  initial ← terminal_read_snapshot s after_sequence maximum_bytes
  if returns_at_once wait_milliseconds initial
      then ok initial
      else terminal_read_snapshot later after_sequence maximum_bytes

-- The session after the wait, by a notice or by the timeout, is the argument `later`.
unfoldable pub read :
    TerminalManager
    → ℕ
    → (later : TerminalSession) → ℕ
    → ℕ
    → ℕ
    → Result TerminalReadResult TerminalError
unfolding session read_session
read m terminal_id later after_sequence maximum_bytes wait_milliseconds =
    if ltb maximum_bytes min_terminal_poll_bytes || ltb max_terminal_poll_bytes maximum_bytes
    then err poll_size
    else if ltb max_terminal_read_wait_milliseconds wait_milliseconds
    then err read_wait
    else do
      s ← session m terminal_id
      read_session s later after_sequence maximum_bytes wait_milliseconds

unfoldable pub status : TerminalManager → ℕ → Result TerminalStatus TerminalError
unfolding session
status m terminal_id = do s ← session m terminal_id; ok (status_of s)

abbrev pub belongs_to : Option TerminalMetadata → ℕ → String → Bool
belongs_to none project_id kind = false
belongs_to (some metadata) project_id kind =
    (metadata.project_id == project_id) && str_eq metadata.kind kind

unfoldable pub attach_for_project_kind :
    TerminalManager → ℕ → ℕ → String → Result TerminalSession TerminalError
unfolding session
attach_for_project_kind m project_id terminal_id expected_kind = do
  s ← session m terminal_id
  if belongs_to s.metadata project_id expected_kind then ok s else err permission_denied
