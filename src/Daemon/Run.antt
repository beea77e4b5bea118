-- ===== src/Daemon/Run.antt =====
-- The state of a session while its run goes on and ends: `SessionData`, `set_state`,
-- `update_waiting_state`, `classify_completion` and the changes that `record_protocol_failure` and
-- `finalize_run` make (crates/maestrod/src/fake_session.rs). An error is named by its code and
-- message; its details, user action and fresh correlation id are left out.
pub mod States
pub mod Completion
use maestro_app.Prelude.{
  ℕ, zero, String, Bool, true, false, ◌||◌, Option, none, some, ◌==◌, if◌then◌else◌, Result, ok,
  err,
}
use maestro_app.Domain.Session.{
  SessionState, starting, ready, running, awaiting_permission, awaiting_user_input, completed,
  stopped, failed, incompatible, SessionTransitionError, state_eq, transition_to,
}
use maestro_app.Daemon.Pending.{PendingTracker}
use maestro_app.Daemon.Pending.Resolve.{waiting_state, clear_active}
use maestro_app.Daemon.Frames.{ProtocolFailure}
use maestro_app.Daemon.Capture.{RawProtocolCaptureState}
use maestro_app.Daemon.Bindings.{Writers, release_binding}

-- crates/maestro-process/src/structured.rs; the numbers are the exit code and the signal, of which
-- only the code 0 is told apart.
pub data ExitCause : Type 0 where
  exited signaled : ℕ → ExitCause
  unknown : ExitCause

-- The codes of crates/maestro-domain/src/error.rs that are used here.
pub data ErrorCode : Type 0 where
  cli_protocol_incompatible process_crashed : ErrorCode

pub record RunError : Type 0 where
  pub code : ErrorCode
  pub message : String

-- `active_run` is the id of the run.
pub record SessionData : Type 0 where
  pub state : SessionState
  pub binding : Option String
  pub active_run : Option ℕ
  pub last_exit : Option ExitCause
  pub last_error : Option RunError

abbrev is_ok : Result SessionState SessionTransitionError → Bool
is_ok (ok s) = true
is_ok (err e) = false

unfoldable pub bridged : SessionState → SessionState → Bool
bridged starting awaiting_permission = true
bridged starting awaiting_user_input = true
bridged ready completed = true
bridged awaiting_permission completed = true
bridged awaiting_user_input completed = true
bridged _ _ = false

unfoldable pub set_state : SessionState → SessionState → SessionState
unfolding bridged transition_to
set_state state target =
    if state_eq state target
    then state
    else if is_ok (transition_to state target) || (bridged state target || state_eq target starting)
    then target
    else state

-- `next.unwrap_or(SessionState::Running)`
abbrev pub or_running : Option SessionState → SessionState
or_running none = running
or_running (some waiting) = waiting

unfoldable pub update_waiting_state : SessionState → PendingTracker → SessionState
unfolding set_state waiting_state
update_waiting_state state pending = set_state state (or_running (waiting_state pending))

abbrev failure_code : ProtocolFailure → ErrorCode
failure_code f = if f.incompatible then cli_protocol_incompatible else process_crashed

abbrev failure_state : ProtocolFailure → SessionState
failure_state f = if f.incompatible then incompatible else failed

unfoldable pub record_protocol_failure : SessionData → ProtocolFailure → SessionData
record_protocol_failure session f = record session {
  state = failure_state f;
  last_error = some (record {
    code = failure_code f;
    message =
        if f.incompatible
        then "the fake CLI protocol version is unsupported"
        else "the fake CLI emitted an invalid structured frame";
  });
}

abbrev crashed : String → Option RunError
crashed message = some (record { code = process_crashed; message = message })

abbrev by_exit : Option ExitCause → SessionState × Option ExitCause × Option RunError
by_exit (some (exited zero)) = (completed, some (exited 0), none)
by_exit (some cause) = (failed, some cause, crashed "the fake CLI process exited unsuccessfully")
by_exit none = (failed, none, crashed "the fake CLI process could not be reaped")

abbrev by_failure :
    Option ProtocolFailure
    → Bool
    → Option ExitCause
    → SessionState × Option ExitCause × Option RunError
by_failure (some f) stderr_failed exit = (
  failure_state f,
  exit,
  some (record {
    code = failure_code f;
    message = "the structured fake CLI run failed protocol validation";
  }),
)
by_failure none stderr_failed exit =
    if stderr_failed
    then (failed, exit, crashed "the fake CLI stderr stream could not be read")
    else by_exit exit

-- `exit.ok()` is the last argument.
unfoldable pub classify_completion :
    Bool
    → Option ProtocolFailure
    → Bool
    → Option ExitCause
    → SessionState × Option ExitCause × Option RunError
classify_completion stop_requested protocol_failure stderr_failed exit =
    if stop_requested then (stopped, exit, none) else by_failure protocol_failure stderr_failed exit

abbrev or_last : Option RunError → Option RunError → Option RunError
or_last none last = last
or_last (some e) last = some e

abbrev pub without_run : Option ℕ → ℕ → Option ℕ
without_run none run_id = none
without_run (some active) run_id = if active == run_id then none else some active

-- What `finalize_run` reads and changes: the session's data, the run's flag, requests, capture and
-- leased binding, and the supervisor's map of writers.
pub record Finalizing : Type 0 where
  pub session : SessionData
  pub finalized : Bool
  pub pending : PendingTracker
  pub raw_capture : Option RawProtocolCaptureState
  pub leased_binding : Option String
  pub binding_writers : Writers

abbrev complete_capture : Option RawProtocolCaptureState → Option RawProtocolCaptureState
complete_capture none = none
complete_capture (some capture) = some (record capture { complete = true })

abbrev pub release_leased : Writers → Option String → ℕ → Writers
release_leased writers none lease_token = writers
release_leased writers (some binding) lease_token = release_binding writers binding lease_token

-- Up to the event that is published at the end.
unfoldable pub finalize_run :
    Finalizing → ℕ → ℕ → Bool → Option ProtocolFailure → Bool → Option ExitCause → Finalizing
unfolding classify_completion
finalize_run s run_id lease_token stop_requested protocol_failure stderr_failed exit =
    let (state, exit_cause, error) =
      classify_completion stop_requested protocol_failure stderr_failed exit in
    if s.finalized then s else record {
      finalized = true;
      pending = clear_active s.pending;
      raw_capture = complete_capture s.raw_capture;
      leased_binding = none;
      binding_writers = release_leased s.binding_writers s.leased_binding lease_token;
      session = record {
        state = state;
        binding = s.session.binding;
        active_run = without_run s.session.active_run run_id;
        last_exit = exit_cause;
        last_error = or_last error s.session.last_error;
      };
    }
