-- ===== src/Daemon/Run/Completion.antt =====
-- How a run ends: `classify_completion` and `finalize_run` of crates/maestrod/src/fake_session.rs.
use maestro_app.Prelude.{
  String, get, string_eq, get-remove, eq_iff, Bool-cases, inl, inr, ℕ, ◌≡◌, ◌≢◌, ◌↔◌, ◌⊎◌, refl,
  Bool, true, false, Option, none, some, arith,
}
use maestro_app.Domain.Session.{completed, stopped}
use maestro_app.Daemon.Pending.Resolve.{waiting_state, clear_active}
use maestro_app.Daemon.Frames.{ProtocolFailure}
use maestro_app.Daemon.Bindings.{Writers, is_owner, release_binding}
use maestro_app.Daemon.Run.{
  ExitCause, exited, classify_completion, Finalizing, finalize_run, without_run, release_leased,
}

-- A run counts as completed exactly if nobody asked it to stop, its protocol and its stderr were
-- sound, and it exited with code 0; an error is recorded exactly if it neither completed nor was
-- stopped, and then its state is failed or incompatible.
pub classify_completion_iff :
    (stop : Bool) (f : Option ProtocolFailure) (stderr : Bool) (exit : Option ExitCause)
    → (((classify_completion stop f stderr exit).0 ≡ completed)
        ↔ ((stop ≡ false) × (f ≡ none) × (stderr ≡ false) × (exit ≡ some (exited 0))))
      × (((classify_completion stop f stderr exit).0 ≡ stopped) ↔ (stop ≡ true))
      × (((classify_completion stop f stderr exit).2 ≡ none)
          ↔ (((classify_completion stop f stderr exit).0 ≡ completed) ⊎ (stop ≡ true)))
      × ((classify_completion stop f stderr exit).1 ≡ exit)
unfolding classify_completion
classify_completion_iff stop f stderr exit = ground arith

without_run-other : (active : Option ℕ) (run_id : ℕ) → without_run active run_id ≢ some run_id
without_run-other active run_id = ground arith

released :
    (w : Writers) (leased : Option String) (token : ℕ) (binding : String)
    → leased ≡ some binding
    → is_owner (get (release_leased w leased token) binding) token ≡ false
unfolding release_binding
released w none token binding e = cc
released w (some b) token binding e = elim (Bool-cases (is_owner (get w b) token)) [
  | inl owned ↦ rw owned (ground (arith, e, get-remove w b binding, eq_iff b binding))
  | inr other ↦ ground (arith, e, other)
]

-- Finalizing a run that is not finalized gives the state of its completion, and then the run is no
-- longer named as active, waits for no request, and holds its leased binding no more; finalizing it
-- again changes nothing, whatever the second attempt says.
pub finalize_run_once :
    (s : Finalizing) (run_id token : ℕ) (stop stop' : Bool) (f f' : Option ProtocolFailure)
    (stderr stderr' : Bool) (exit exit' : Option ExitCause)
    → s.finalized ≡ false
    → ((finalize_run s run_id token stop f stderr exit).session.state
        ≡ (classify_completion stop f stderr exit).0)
      × ((finalize_run s run_id token stop f stderr exit).session.active_run ≢ some run_id)
      × (waiting_state (finalize_run s run_id token stop f stderr exit).pending ≡ none)
      × ((binding : String)
          → s.leased_binding ≡ some binding
          → is_owner
              (get (finalize_run s run_id token stop f stderr exit).binding_writers binding)
              token
            ≡ false)
      × (finalize_run
            (finalize_run s run_id token stop f stderr exit)
            run_id
            token
            stop'
            f'
            stderr'
            exit'
          ≡ finalize_run s run_id token stop f stderr exit)
unfolding finalize_run waiting_state clear_active
finalize_run_once s run_id token stop stop' f f' stderr stderr' exit exit' h = simp h (
  refl,
  ground (arith, without_run-other s.session.active_run run_id),
  refl,
  released s.binding_writers s.leased_binding token,
  refl,
)
