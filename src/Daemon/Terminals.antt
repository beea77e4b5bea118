-- ===== src/Daemon/Terminals.antt =====
-- `TerminalManager` and `TerminalSession` of crates/maestrod/src/terminal.rs: who holds a slot and a
-- writer's lease, and in which state a terminal is. The process behind a terminal is a parameter.
pub mod Sessions
pub mod Slots
pub mod Steps
pub mod Leases
pub mod Close
pub mod Requests
use maestro_app.Prelude.{
  ℕ, ◌+◌, ◌-◌, ◌*◌, ◌≡◌, ◌↔◌, String, Bool, true, false, not, ◌&&◌, ◌||◌, Option, none, some, List,
  [], ◌∷◌, ◌++◌, arith, ltb, leb, ◌==◌, ==_iff, if◌then◌else◌, length, take, retain, str_eq, codes,
  byte_length, Result, ok, err, ◌>>=◌, ◌>>◌, Eq, get, nat_order, sort_by_key,
}
use maestro_app.Daemon.Terminal.{
  OutputBuffer, PollResult, TerminalOutputChunk, default_buffer, poll,
}

instance abbrev pub id_eq : Eq ℕ
id_eq = record { beq = ◌==◌; beq_iff = ==_iff }

abbrev pub max_terminal_input_bytes : ℕ
max_terminal_input_bytes = 64 * 1024

abbrev pub max_terminal_poll_bytes : ℕ
max_terminal_poll_bytes = 256 * 1024

abbrev pub min_terminal_poll_bytes : ℕ
min_terminal_poll_bytes = 4 * 1024

abbrev pub max_terminal_read_wait_milliseconds : ℕ
max_terminal_read_wait_milliseconds = 30000

abbrev pub max_terminal_path_bytes : ℕ
max_terminal_path_bytes = 4 * 1024

abbrev pub max_terminal_dimension : ℕ
max_terminal_dimension = 1000

abbrev pub max_terminal_index_entries : ℕ
max_terminal_index_entries = 64

pub data TerminalState : Type 0 where
  running : TerminalState
  exited : TerminalState
  closing : TerminalState
  closed : TerminalState
  failed : TerminalState

abbrev pub is_running : TerminalState → Bool
is_running running = true
is_running state = false

-- The codes and signals of an exit.
pub record TerminalExit : Type 0 where
  pub code : Option ℕ
  pub signal : Option ℕ

pub record TerminalRuntime : Type 0 where
  pub state : TerminalState
  pub exit : Option TerminalExit
  pub close_requested : Bool

abbrev pub default_runtime : TerminalRuntime
default_runtime = record { state = running; exit = none; close_requested = false }

pub record TerminalMetadata : Type 0 where
  pub project_id : ℕ
  pub kind : String
  pub title : String

-- How far a task that holds the guard of finalization has come: it may have dropped the lease, and
-- then published the state as well.
pub data FinalizePhase : Type 0 where
  idle : FinalizePhase
  lease_dropped : FinalizePhase
  published : FinalizePhase

-- The lease of the vendor's binding and the slot are held or not.
pub record TerminalSession : Type 0 where
  pub runtime : TerminalRuntime
  pub writer_lease : Bool
  pub terminal_permit : Bool
  pub retained : Bool
  pub phase : FinalizePhase
  pub canonical_cwd : String
  pub output : OutputBuffer
  pub metadata : Option TerminalMetadata

abbrev pub Terminals : Type 0
Terminals = List (ℕ × TerminalSession)

-- The slots are those of the semaphore that nobody holds.
pub record TerminalManager : Type 0 where
  pub terminals : Terminals
  pub completed : List ℕ
  pub slots : ℕ
  pub limit : ℕ

pub data TerminalError : Type 0 where
  invalid_dimensions : TerminalError
  invalid_path : TerminalError
  terminal_limit : (limit : ℕ) → TerminalError
  terminal_not_found : (terminal_id : ℕ) → TerminalError
  terminal_not_running : TerminalError
  input_too_large : TerminalError
  poll_size : TerminalError
  read_wait : TerminalError
  index_limit : TerminalError
  permission_denied : TerminalError
  newer_cursor : TerminalError
  process_operation : TerminalError
  terminal_storage : TerminalError

unfoldable pub new_manager : ℕ → TerminalManager
new_manager limit = record { terminals = []; completed = []; slots = limit; limit = limit }

-- A session is shared: a change of it is seen where the map holds it.
unfoldable pub modify : ℕ → TerminalSession → Terminals → Terminals
modify terminal_id s [] = []
modify terminal_id s ((j, old) ∷ terminals) =
    let rest = modify terminal_id s terminals in
    if j == terminal_id then (j, s) ∷ terminals else (j, old) ∷ rest

-- `HashMap::remove`, where a key stands once.
unfoldable pub take_out : ℕ → Terminals → Terminals
take_out terminal_id [] = []
take_out terminal_id ((j, s) ∷ terminals) =
    let rest = take_out terminal_id terminals in
    if j == terminal_id then terminals else (j, s) ∷ rest

unfoldable pub session : TerminalManager → ℕ → Result TerminalSession TerminalError
unfolding get
session m terminal_id = elim (get m.terminals terminal_id) [
  | none ↦ err (terminal_not_found terminal_id)
  | some s ↦ ok s
]

abbrev pub final_state : TerminalRuntime → TerminalExit → TerminalRuntime
final_state runtime exit = record runtime {
  exit = some exit;
  state = if runtime.close_requested then closed else exited;
}

-- What a completion makes of the runtime: none is a completion that failed.
abbrev pub completed_runtime : TerminalRuntime → Option TerminalExit → TerminalRuntime
completed_runtime runtime (some exit) = final_state runtime exit
completed_runtime runtime none = record runtime { state = failed; exit = none }

-- The parts of `finalize_reaped`, in the order in which the holder of the guard runs them. Each takes
-- a lock of its own, and what it leaves can be seen before the next.
unfoldable pub finalize_part :
    FinalizePhase → TerminalSession → Option TerminalExit → TerminalSession
finalize_part idle s completion = record s { writer_lease = false; phase = lease_dropped }
finalize_part lease_dropped s completion = record s {
  runtime = completed_runtime s.runtime completion;
  phase = published;
}
finalize_part published s completion = record s { terminal_permit = false; phase = idle }

-- The last part takes the slot, if the session still holds it.
unfoldable pub taken_permit : FinalizePhase → Bool → Bool
taken_permit idle permit = false
taken_permit lease_dropped permit = false
taken_permit published permit = permit

-- The first finalization gives the slot back, and a terminal that is retained is completed.
unfoldable pub release_slot : TerminalManager → ℕ → (permit retained : Bool) → TerminalManager
release_slot m terminal_id false retained = m
release_slot m terminal_id true retained = record m {
  completed = if retained then m.completed ++ terminal_id ∷ [] else m.completed;
  slots = m.slots + 1;
}

unfoldable pub finalize_found :
    TerminalManager → ℕ → TerminalSession → Option TerminalExit → TerminalManager
unfolding finalize_part taken_permit modify release_slot
finalize_found m terminal_id s completion =
    release_slot
      (record m { terminals = modify terminal_id (finalize_part s.phase s completion) m.terminals })
      terminal_id (taken_permit s.phase s.terminal_permit) s.retained

-- The next part of a finalization.
unfoldable pub finalize_next : TerminalManager → ℕ → Option TerminalExit → TerminalManager
unfolding get finalize_found
finalize_next m terminal_id completion = elim (get m.terminals terminal_id) [
  | none ↦ m
  | some s ↦ finalize_found m terminal_id s completion
]

-- The three parts, run by one task with no other in between.
unfoldable pub finalize_reaped : TerminalManager → ℕ → Option TerminalExit → TerminalManager
unfolding finalize_next
finalize_reaped m terminal_id completion =
    let dropped = finalize_next m terminal_id completion in
    let shown = finalize_next dropped terminal_id completion in
    finalize_next shown terminal_id completion

unfoldable pub prune_completed : ℕ → Terminals → List ℕ → Terminals × List ℕ
unfolding take_out
prune_completed limit terminals [] = (terminals, [])
prune_completed limit terminals (terminal_id ∷ completed) =
    let rest = prune_completed limit (take_out terminal_id terminals) completed in
    if ltb (length terminals) limit then (terminals, terminal_id ∷ completed) else rest

unfoldable pub prune_completed_for_insert : TerminalManager → TerminalManager
unfolding prune_completed
prune_completed_for_insert m =
    let kept = prune_completed m.limit m.terminals m.completed in
    record m { terminals = kept.0; completed = kept.1 }

unfoldable pub validate_dimensions : ℕ → ℕ → Result (Unit {0}) TerminalError
validate_dimensions columns rows =
    if columns == 0
      || (rows == 0 || (ltb max_terminal_dimension columns || ltb max_terminal_dimension rows))
    then err invalid_dimensions
    else ok tt

abbrev starts_at_root : List ℕ → Bool
starts_at_root [] = false
starts_at_root (c ∷ text) = c == b'/'

unfoldable pub validate_path : String → Result (Unit {0}) TerminalError
validate_path cwd =
    if byte_length cwd == 0
      || (ltb max_terminal_path_bytes (byte_length cwd) || not (starts_at_root (codes cwd)))
    then err invalid_path
    else ok tt

abbrev pub path_result : Option String → Result String TerminalError
path_result none = err invalid_path
path_result (some canonical) = ok canonical

unfoldable pub acquire : TerminalManager → Result TerminalManager TerminalError
unfolding prune_completed_for_insert
acquire m =
    if m.slots == 0
    then err (terminal_limit m.limit)
    else ok (prune_completed_for_insert (record m { slots = m.slots - 1 }))

-- `prepare_launch`: `canonical_directory` stands for `canonicalize`, `is_dir` and `to_str`. The manager
-- that is returned has one slot less.
unfoldable pub prepare_launch :
    (String → Option String)
    → TerminalManager
    → String
    → ℕ
    → ℕ
    → Result (TerminalManager × String) TerminalError
unfolding validate_dimensions validate_path acquire
prepare_launch canonical_directory m cwd columns rows = do
  validate_dimensions columns rows
  validate_path cwd
  canonical ← path_result (canonical_directory cwd)
  later ← acquire m
  ok (later, canonical)

abbrev pub new_session : String → Bool → Option TerminalMetadata → TerminalSession
new_session canonical_cwd writer_lease metadata = record {
  runtime = default_runtime;
  writer_lease = writer_lease;
  terminal_permit = true;
  retained = true;
  phase = idle;
  canonical_cwd = canonical_cwd;
  output = default_buffer;
  metadata = metadata;
}

-- The rest of `spawn_inner`: whether the process started and the terminal was registered. On an error the
-- slot is given back.
unfoldable pub spawn_inner :
    TerminalManager
    → (started registered : Bool) → ℕ
    → TerminalSession
    → TerminalManager × Result (Unit {0}) TerminalError
spawn_inner m false registered terminal_id s =
    (record m { slots = m.slots + 1 }, err process_operation)
spawn_inner m true false terminal_id s = (record m { slots = m.slots + 1 }, err terminal_storage)
spawn_inner m true true terminal_id s =
    (record m { terminals = (terminal_id, s) ∷ m.terminals }, ok tt)

abbrev pub requested_state : TerminalState → TerminalState
requested_state exited = exited
requested_state closed = closed
requested_state state = closing

-- The steps of `close`: the request, a termination that failed, and the removal.
unfoldable pub request_close : TerminalSession → TerminalSession
request_close s = record s {
  runtime = record s.runtime { close_requested = true; state = requested_state s.runtime.state };
}

abbrev pub note_failure : TerminalSession → TerminalSession
note_failure s = record s { runtime = record s.runtime { state = failed; exit = none } }

unfoldable pub with_session :
    TerminalManager → ℕ → (TerminalSession → TerminalSession) → TerminalManager
unfolding get modify
with_session m terminal_id change = elim (get m.terminals terminal_id) [
  | none ↦ m
  | some s ↦ record m { terminals = modify terminal_id (change s) m.terminals }
]

-- `mark_removed` and the removal from the map.
unfoldable pub remove_terminal : TerminalManager → ℕ → TerminalManager
unfolding take_out
remove_terminal m terminal_id = record m {
  terminals = take_out terminal_id m.terminals;
  completed = retain (λ candidate. not (candidate == terminal_id)) m.completed;
}

abbrev pub permit_held : Option TerminalSession → Bool
permit_held none = false
permit_held (some s) = s.terminal_permit

pub record TerminalStatus : Type 0 where
  pub state : TerminalState
  pub exit : Option TerminalExit

abbrev pub status_of : TerminalSession → TerminalStatus
status_of s = record { state = s.runtime.state; exit = s.runtime.exit }

abbrev pub set_closed : TerminalSession → TerminalSession
set_closed s = record s { runtime = record s.runtime { state = closed } }

-- The end of `close`, once the process is gone.
unfoldable pub finish_close :
    TerminalManager → ℕ → TerminalManager × Result TerminalStatus TerminalError
unfolding with_session session remove_terminal
finish_close m terminal_id =
    let later = with_session m terminal_id set_closed in
    elim (session later terminal_id) [
      | err failure ↦ (later, err failure)
      | ok s ↦ (remove_terminal later terminal_id, ok (status_of s))
    ]

abbrev pub reader_finalizes : TerminalManager → ℕ → Option (Option TerminalExit) → TerminalManager
unfolding finalize_reaped
reader_finalizes m terminal_id none = m
reader_finalizes m terminal_id (some completion) = finalize_reaped m terminal_id completion

-- What `terminate` says, after the reader may have finalized the session in the meantime.
unfoldable pub close_terminated :
    TerminalManager
    → ℕ
    → Result TerminalExit (Unit {0})
    → TerminalManager × Result TerminalStatus TerminalError
unfolding get finalize_reaped finish_close with_session
close_terminated m terminal_id (ok exit) =
    finish_close (finalize_reaped m terminal_id (some exit)) terminal_id
close_terminated m terminal_id (err failure) =
    if permit_held (get m.terminals terminal_id)
    then (with_session m terminal_id note_failure, err process_operation)
    else finish_close m terminal_id

unfoldable pub close_requested_terminal :
    TerminalManager
    → ℕ
    → Option (Option TerminalExit)
    → Result TerminalExit (Unit {0})
    → TerminalManager × Result TerminalStatus TerminalError
unfolding get finish_close reader_finalizes close_terminated
close_requested_terminal m terminal_id reader terminated =
    if permit_held (get m.terminals terminal_id)
    then close_terminated (reader_finalizes m terminal_id reader) terminal_id terminated
    else finish_close m terminal_id

unfoldable pub close :
    TerminalManager
    → ℕ
    → Option (Option TerminalExit)
    → Result TerminalExit (Unit {0})
    → TerminalManager × Result TerminalStatus TerminalError
unfolding session with_session request_close close_requested_terminal
close m terminal_id reader terminated = elim (session m terminal_id) [
  | err failure ↦ (m, err failure)
  | ok s ↦
      close_requested_terminal (with_session m terminal_id request_close) terminal_id reader
        terminated
]

unfoldable pub count : TerminalManager → ℕ
count m = m.limit - m.slots
