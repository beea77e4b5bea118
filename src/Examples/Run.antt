-- ===== src/Examples/Run.antt =====
-- The states of a run (crates/maestrod/src/fake_session.rs) at concrete histories.
use maestro_app.Prelude.{
  ◌≡◌, ◌≢◌, ◌⊎◌, refl, inl, inr, true, false, Option, none, some, [], ◌∷◌, string_eq, get, String,
}
use maestro_app.Domain.Session.{
  SessionState, running, awaiting_permission, transition_to, can_transition_to,
}
use maestro_app.Daemon.Pending.{PendingTracker, user_input}
use maestro_app.Daemon.Pending.Resolve.{waiting_state}
use maestro_app.Daemon.Frames.{ProtocolFailure, failure}
use maestro_app.Daemon.Bindings.{is_owner}
use maestro_app.Daemon.Run.{
  exited, classify_completion, Finalizing, finalize_run, set_state, bridged, update_waiting_state,
}
use maestro_app.Daemon.Run.States.{CallsFor, update_waiting_state-waiting}
use maestro_app.Daemon.Run.Completion.{finalize_run_once}

-- A tracker in which one question to the user is open.
abbrev asked : PendingTracker
asked = record {
  active = ("one", record { kind = user_input; deadline = 9 }) ∷ [];
  in_flight = [];
  resolved_order = [];
  resolved = [];
  delivery_uncertain = [];
  capacity = 4;
}

-- The permission was answered, and the state keeps saying that one is awaited.
stays_on_permission : update_waiting_state awaiting_permission asked ≡ awaiting_permission
unfolding update_waiting_state set_state waiting_state transition_to can_transition_to bridged
stays_on_permission = refl

update_waiting_state-waiting_example :
    (called : SessionState) × CallsFor asked called
    × ((update_waiting_state awaiting_permission asked ≡ called)
          × ((awaiting_permission ≡ running)
              ⊎ ((called ≡ running) ⊎ (called ≡ awaiting_permission)))
        ⊎ (update_waiting_state awaiting_permission asked ≡ awaiting_permission)
          × (awaiting_permission ≢ running)
          × (called ≢ running)
          × (called ≢ awaiting_permission))
update_waiting_state-waiting_example =
    update_waiting_state-waiting awaiting_permission asked (inr (inl refl))

abbrev no_failure : Option ProtocolFailure
no_failure = none

abbrev ending : Finalizing
ending = record {
  session = record {
    state = running;
    binding = none;
    active_run = some 3;
    last_exit = none;
    last_error = none;
  };
  finalized = false;
  pending = asked;
  raw_capture = none;
  leased_binding = some "thread";
  binding_writers = ("thread", record { token = 8; session_id = 1 }) ∷ [];
}

abbrev ended : Finalizing
ended = finalize_run ending 3 8 false none false (some (exited 0))

finalize_run_once_example :
    (ended.session.state ≡ (classify_completion false none false (some (exited 0))).0)
    × (ended.session.active_run ≢ some 3)
    × (waiting_state ended.pending ≡ none)
    × ((binding : String)
        → ending.leased_binding ≡ some binding
        → is_owner (get ended.binding_writers binding) 8 ≡ false)
    × (finalize_run ended 3 8 true (some (failure "binding_mismatch")) true none ≡ ended)
finalize_run_once_example =
    finalize_run_once ending 3 8 false true none (some (failure "binding_mismatch")) false true
      (some (exited 0)) none refl
