-- ===== src/Daemon/Dispatch.antt =====
-- The frames of a run's stdout: `handle_frame`, `register_pending`, `required_string` and
-- `is_supported_event_kind` of crates/maestrod/src/fake_session.rs. The values of the `serde_json`
-- crate are of any type `Value`, with what it says a value is as parameters (an object is the list of
-- its fields). The times and the fresh id that a frame is handled with are an argument; the timer
-- that `register_pending` starts runs `expire_request`, and no other task runs between.
pub mod Recorded
pub mod Held
use maestro_app.Prelude.{
  ℕ, ◌+◌, String, Bool, true, false, ◌||◌, not, List, [], ◌∷◌, any, Option, none, some, ◌==◌,
  if◌then◌else◌, Result, ok, err, str_eq, string_eq, get, byte_length,
}
use maestro_app.Domain.Session.{
  SessionState, starting, ready, running, awaiting_permission, awaiting_user_input, state_eq,
}
use maestro_app.Daemon.Bindings.{BindingError, Writers, validate_identifier, claim_binding}
use maestro_app.Daemon.Pending.{
  PendingKind, permission, user_input, gui_action, PendingTracker, PendingError, register,
}
use maestro_app.Daemon.Pending.Resolve.{confirm_resolved, resolve_active}
use maestro_app.Daemon.Run.{SessionData, set_state, update_waiting_state}
use maestro_app.Daemon.Frames.{ProtocolFailure, failure}
use maestro_app.Daemon.Events.{
  EventLog, EventEnvelope, EventError, EventVisibility, user, sensitive, cli, Publication, publish,
}

-- `run_id`, `lease_token` and the session's id do not change during a run.
pub record RunIdentity : Type 0 where
  pub run_id : ℕ
  pub lease_token : ℕ
  pub session_id : ℕ

-- The clock (`Instant`) for requests, and the id and time of the event.
pub record Arrival : Type 0 where
  pub now : ℕ
  pub event_id : ℕ
  pub timestamp : ℕ

-- What the frames of a run read and change.
pub record Handling (Value : Type 0) : Type 0 where
  pub session : SessionData
  pub pending : PendingTracker
  pub leased_binding : Option String
  pub binding_writers : Writers
  pub log : EventLog Value

pub data RegisterError : Type 0 where
  invalid_request_id : BindingError → RegisterError
  not_registered : PendingError → RegisterError

abbrev pub supported_fake_protocol_version : ℕ
supported_fake_protocol_version = 1

-- The kinds whose frames change nothing but the events.
abbrev plain_kinds : List String
plain_kinds =
    "init" ∷ "message_delta" ∷ "tool_start" ∷ "tool_end" ∷ "artifact" ∷ "usage" ∷ "result" ∷ "ready"
    ∷ "message" ∷ "delta" ∷ "child_started" ∷ "signal_ignored" ∷ []

unfoldable pub is_supported_event_kind : String → Bool
is_supported_event_kind kind = any (str_eq kind) (
    "init" ∷ "message_delta" ∷ "tool_start" ∷ "tool_end" ∷ "artifact" ∷ "usage" ∷ "result"
    ∷ "permission_request" ∷ "permission_result" ∷ "user_input_request" ∷ "user_input_result"
    ∷ "ready" ∷ "action_ack" ∷ "message" ∷ "delta" ∷ "binding" ∷ "resumed" ∷ "child_started"
    ∷ "signal_ignored" ∷ [])

abbrev invalid_field : String → ProtocolFailure
invalid_field field =
    if str_eq field "binding_id" then failure "invalid_binding" else failure "invalid_request_id"

-- The argument is `value.and_then(Value::as_str)`.
unfoldable pub required_string : Option String → String → Result String ProtocolFailure
required_string none field = err (invalid_field field)
required_string (some value) field =
    if byte_length value == 0 then err (invalid_field field) else ok value

abbrev pub registered :
    PendingTracker × Result (Unit {0}) PendingError
    → PendingTracker × Result (Unit {0}) RegisterError
registered (pending, err e) = (pending, err (not_registered e))
registered (pending, ok tt) = (pending, ok tt)

abbrev pub register_checked :
    PendingTracker
    → String
    → PendingKind
    → ℕ
    → Result (Unit {0}) BindingError
    → PendingTracker × Result (Unit {0}) RegisterError
register_checked t request_id kind deadline (err e) = (t, err (invalid_request_id e))
register_checked t request_id kind deadline (ok tt) =
    registered (register t request_id kind deadline)

unfoldable pub register_pending :
    PendingTracker
    → String
    → PendingKind
    → (request_timeout now : ℕ) → PendingTracker × Result (Unit {0}) RegisterError
register_pending t request_id kind request_timeout now =
    register_checked t request_id kind (now + request_timeout) (validate_identifier request_id)

unfoldable pub visibility_of : String → EventVisibility
visibility_of kind =
    if str_eq kind "user_input_result" || str_eq kind "action_ack" then sensitive else user

abbrev pub Handled : Type 0 → Type 0
Handled Value = Handling Value × Result (Unit {0}) ProtocolFailure

module _ {Value : Type 0} where
  abbrev pub refuse : Handling Value → String → Handled Value
  refuse s category = (s, err (failure category))

  abbrev pub with_state : Handling Value → SessionState → Handling Value
  with_state s target = record s {
    session = record s.session { state = set_state s.session.state target };
  }

  abbrev pub bound : Handling Value → String → Handling Value
  bound s binding = record s { session = record s.session { binding = some binding } }

  abbrev pub claimed :
      Handling Value → String → Writers × Result (Unit {0}) BindingError → Handled Value
  claimed s binding (writers, err e) =
      refuse (record s { binding_writers = writers }) "binding_writer_conflict"
  claimed s binding (writers, ok tt) =
      (bound (record s { binding_writers = writers; leased_binding = some binding }) binding, ok tt)

  abbrev pub lease : Handling Value → RunIdentity → String → Option String → Handled Value
  lease s run binding (some existing) =
      if str_eq existing binding then (bound s binding, ok tt) else refuse s "binding_mismatch"
  lease s run binding none =
      claimed s binding (claim_binding s.binding_writers binding run.lease_token run.session_id)

  abbrev pub identified :
      Handling Value → RunIdentity → String → Result (Unit {0}) BindingError → Handled Value
  identified s run binding (err e) = refuse s "invalid_binding"
  identified s run binding (ok tt) = lease s run binding s.leased_binding

  -- The frames "binding" and "resumed".
  unfoldable pub handle_binding : Handling Value → RunIdentity → String → Handled Value
  handle_binding s run binding = identified s run binding (validate_identifier binding)

  abbrev pub asked :
      Handling Value
      → String
      → SessionState
      → PendingTracker × Result (Unit {0}) RegisterError
      → Handled Value
  asked s category target (pending, err e) = refuse (record s { pending = pending }) category
  asked s category target (pending, ok tt) =
      (with_state (record s { pending = pending }) target, ok tt)

  -- The frames "permission_request" and "user_input_request".
  unfoldable pub handle_request :
      Handling Value
      → PendingKind
      → (category : String) → SessionState
      → (request_timeout now : ℕ) → String
      → Handled Value
  handle_request s kind category target request_timeout now request_id =
      asked s category target (register_pending s.pending request_id kind request_timeout now)

  abbrev pub answered : Handling Value → String → PendingTracker × Bool → Handled Value
  answered s category (pending, false) = refuse (record s { pending = pending }) category
  answered s category (pending, true) = (
    record s {
      pending = pending;
      session = record s.session { state = update_waiting_state s.session.state pending };
    },
    ok tt,
  )

  -- The frames "permission_result" and "user_input_result".
  unfoldable pub handle_result :
      Handling Value → PendingKind → (category : String) → String → Handled Value
  handle_result s kind category request_id =
      answered s category (confirm_resolved s.pending request_id kind)

  abbrev pub acknowledged :
      Handling Value → PendingTracker × Result (Unit {0}) PendingError → Handled Value
  acknowledged s (pending, err e) =
      refuse (record s { pending = pending }) "uncorrelated_action_ack"
  acknowledged s (pending, ok tt) = (record s { pending = pending }, ok tt)

  -- The frame "action_ack".
  unfoldable pub handle_ack : Handling Value → ℕ → Option String → Handled Value
  handle_ack s now none = refuse s "uncorrelated_action_ack"
  handle_ack s now (some action_id) =
      acknowledged s (resolve_active s.pending action_id gui_action now)

  -- The operator `?` on a required field.
  abbrev pub with_string :
      Handling Value → Result String ProtocolFailure → (String → Handled Value) → Handled Value
  with_string s (err f) rest = (s, err f)
  with_string s (ok value) rest = rest value

  abbrev pub then_string : Option Value → (Value → Option String) → Option String
  then_string none as_str = none
  then_string (some value) as_str = as_str value

  -- The end of `handle_frame`: the first event starts the session.
  unfoldable pub mark_started : Handling Value → String → Handling Value
  mark_started s kind =
      if state_eq s.session.state starting
      then with_state s (if str_eq kind "ready" then ready else running)
      else s

  abbrev pub recorded :
      Handling Value
      → String
      → EventLog Value × Result (EventEnvelope Value) EventError
      → Handled Value
  recorded s kind (log, err e) = refuse (record s { log = log }) "event_sequence_failure"
  recorded s kind (log, ok e) = (mark_started (record s { log = log }) kind, ok tt)

  -- The rest of the handler runs only after an arm that succeeds.
  abbrev pub and_then : Handled Value → (Handling Value → Handled Value) → Handled Value
  and_then (s, err f) rest = (s, err f)
  and_then (s, ok tt) rest = rest s

module _ {Value : Type 0} (redact_json : Value → Value)
    (as_object : Value → Option (List (String × Value))) (as_str : Value → Option String)
    (as_u64 : Value → Option ℕ) (replay_events request_timeout : ℕ) (run : RunIdentity) where
  abbrev pub field : List (String × Value) → String → Option String
  field object name = then_string (get object name) as_str

  abbrev then_field : Option (List (String × Value)) → String → Option String
  then_field none name = none
  then_field (some action) name = field action name

  abbrev then_object : Option Value → Option (List (String × Value))
  then_object none = none
  then_object (some value) = as_object value

  abbrev pub action_id : List (String × Value) → Option String
  action_id object = then_field (then_object (get object "action")) "action_id"

  -- The arms of the match on the kind.
  unfoldable pub handle_kind : Handling Value → String → List (String × Value) → ℕ → Handled Value
  handle_kind s kind object now =
      if str_eq kind "binding" || str_eq kind "resumed"
      then with_string s (required_string (field object "binding_id") "binding_id")
          (handle_binding s run)
      else if str_eq kind "permission_request"
      then with_string s (required_string (field object "request_id") "request_id") (
          handle_request s permission "invalid_permission_request" awaiting_permission
            request_timeout now)
      else if str_eq kind "user_input_request"
      then with_string s (required_string (field object "request_id") "request_id") (
          handle_request s user_input "invalid_user_input_request" awaiting_user_input
            request_timeout now)
      else if str_eq kind "permission_result"
      then with_string s (required_string (field object "request_id") "request_id")
          (handle_result s permission "uncorrelated_permission_result")
      else if str_eq kind "user_input_result"
      then with_string s (required_string (field object "request_id") "request_id")
          (handle_result s user_input "uncorrelated_user_input_result")
      else if str_eq kind "action_ack"
      then handle_ack s now (action_id object)
      else if any (str_eq kind) plain_kinds
      then (s, ok tt)
      else refuse s "unknown_event_type"

  abbrev pub publication : String → List (String × Value) → Value → Arrival → Publication Value
  publication kind object value arrival = record {
    session_id = run.session_id;
    run_id = some run.run_id;
    source = cli;
    event = record {
      kind = kind;
      visibility = visibility_of kind;
      payload = value;
      vendor_event_id = field object "event_id";
      raw_segment_reference = none;
    };
    event_id = arrival.event_id;
    now = arrival.timestamp;
  }

  unfoldable pub publish_frame :
      Handling Value → String → List (String × Value) → Value → Arrival → Handled Value
  publish_frame s kind object value arrival =
      recorded s kind
        (publish redact_json replay_events s.log (publication kind object value arrival))

  abbrev is_version : Option ℕ → Bool
  is_version none = false
  is_version (some version) = version == supported_fake_protocol_version

  -- A frame without a version is accepted.
  abbrev pub version_fits : Option Value → Bool
  version_fits none = true
  version_fits (some version) = is_version (as_u64 version)

  abbrev pub handle_typed :
      Handling Value → Value → List (String × Value) → Arrival → Option String → Handled Value
  handle_typed s value object arrival none = refuse s "invalid_event_type"
  handle_typed s value object arrival (some kind) =
      if not (version_fits (get object "protocol_version"))
      then (s, err (record { category = "unsupported_protocol_version"; incompatible = true }))
      else if not (is_supported_event_kind kind)
      then refuse s "unknown_event_type"
      else and_then (handle_kind s kind object arrival.now)
          (λ s'. publish_frame s' kind object value arrival)

  abbrev pub handle_object :
      Handling Value → Value → Arrival → Option (List (String × Value)) → Handled Value
  handle_object s value arrival none = refuse s "non_object_frame"
  handle_object s value arrival (some object) =
      handle_typed s value object arrival (field object "type")

  unfoldable pub handle_frame : Handling Value → Value → Arrival → Handled Value
  handle_frame s value arrival = handle_object s value arrival (as_object value)

  -- The loop over the frames of a batch, left at the first failure.
  unfoldable pub handle_frames : Handling Value → List (Value × Arrival) → Handled Value
  handle_frames s [] = (s, ok tt)
  handle_frames s ((value, arrival) ∷ frames) =
      and_then (handle_frame s value arrival) (λ s'. handle_frames s' frames)
