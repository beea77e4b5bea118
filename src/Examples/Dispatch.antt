-- ===== src/Examples/Dispatch.antt =====
-- The frames of a run (crates/maestrod/src/fake_session.rs) at a binding, a request and its answer.
use maestro_app.Prelude.{ℕ, ◌≡◌, refl, String, List, [], ◌∷◌, Option, none, some, string_eq, get}
use maestro_app.Domain.Session.{starting}
use maestro_app.Daemon.Pending.{new}
use maestro_app.Daemon.Pending.Invariant.{new-Inv}
use maestro_app.Daemon.Bindings.{BindingWriter}
use maestro_app.Daemon.Events.{empty_log}
use maestro_app.Daemon.Dispatch.{RunIdentity, Arrival, Handling, handle_frame, handle_frames}
use maestro_app.Daemon.Dispatch.Held.{IsHeld}
use maestro_app.Daemon.Dispatch.Recorded.{IsRecorded, handle_frame-IsRecorded, handle_frames-IsHeld}

-- Values without nested objects.
data Flat : Type 0 where
  text : String → Flat
  number : ℕ → Flat
  fields : List (String × String) → Flat

abbrev texts : List (String × String) → List (String × Flat)
texts [] = []
texts ((name, value) ∷ rest) = (name, text value) ∷ texts rest

abbrev as_object : Flat → Option (List (String × Flat))
as_object (fields entries) = some (texts entries)
as_object _ = none

abbrev as_str : Flat → Option String
as_str (text value) = some value
as_str _ = none

abbrev as_u64 : Flat → Option ℕ
as_u64 (number n) = some n
as_u64 _ = none

abbrev same : Flat → Flat
same value = value

abbrev run : RunIdentity
run = record { run_id = 7; lease_token = 5; session_id = 1 }

abbrev other : BindingWriter
other = record { token = 6; session_id = 2 }

abbrev fresh : Handling Flat
fresh = record {
  session = record {
    state = starting;
    binding = none;
    active_run = some 7;
    last_exit = none;
    last_error = none;
  };
  pending = new 4;
  leased_binding = none;
  binding_writers = ("taken", other) ∷ [];
  log = empty_log;
}

abbrev arrival : Arrival
arrival = record { now = 100; event_id = 1; timestamp = 50 }

abbrev binding_frame : Flat
binding_frame = fields (("type", "binding") ∷ ("binding_id", "thread") ∷ [])

abbrev request_frame : Flat
request_frame = fields (("type", "permission_request") ∷ ("request_id", "r1") ∷ [])

abbrev frames : List (Flat × Arrival)
frames = (binding_frame, arrival) ∷ (request_frame, arrival) ∷ []

fresh-IsHeld : IsHeld run fresh
fresh-IsHeld = record { requests = new-Inv 4; shown = refl; owned = λ b e. cc }

handle_frame-IsRecorded_example :
    IsRecorded same as_object as_str as_u64 10 30 run fresh binding_frame arrival
      (handle_frame same as_object as_str as_u64 10 30 run fresh binding_frame arrival)
handle_frame-IsRecorded_example =
    handle_frame-IsRecorded same as_object as_str as_u64 10 30 run fresh binding_frame arrival

owned : get fresh.binding_writers "taken" ≡ some other
unfolding get
owned = refl

handle_frames-IsHeld_example :
    IsHeld run (handle_frames same as_object as_str as_u64 10 30 run fresh frames).0
    × (get
          (handle_frames same as_object as_str as_u64 10 30 run fresh frames).0.binding_writers
          "taken"
        ≡ some other)
handle_frames-IsHeld_example =
    handle_frames-IsHeld same as_object as_str as_u64 10 30 run frames fresh "taken" other
      fresh-IsHeld owned
