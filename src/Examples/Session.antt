-- ===== src/Examples/Session.antt =====
-- crates/maestro-domain/src/session.rs: its unit tests, and the theorems at concrete states.
use maestro_app.Prelude.{◌≡◌, ◌⊎◌, ◌≢◌, refl, true, false, ok, err}
use maestro_app.Domain.Session.{
  starting, running, awaiting_permission, completed, stopped, is_terminal, can_transition_to,
  transition_to,
}
use maestro_app.Domain.Session.Moves.{Moves, here, next, transition_to_cases, Moves-terminal}

running_session_can_wait : transition_to running awaiting_permission ≡ ok awaiting_permission
unfolding transition_to can_transition_to
running_session_can_wait = refl

completed_session_cannot_restart :
    transition_to completed starting ≡ err (record { from = completed; to = starting })
unfolding transition_to can_transition_to
completed_session_cannot_restart = refl

transition_to_cases_example :
    ((completed ≡ running) ⊎ (can_transition_to completed running ≡ true))
      × (transition_to completed running ≡ ok running)
    ⊎ (completed ≢ running)
      × (can_transition_to completed running ≡ false)
      × (transition_to completed running ≡ err (record { from = completed; to = running }))
transition_to_cases_example = transition_to_cases completed running

stopped_again : Moves stopped stopped
unfolding transition_to can_transition_to
stopped_again = next here refl

Moves-terminal_example : stopped ≡ stopped
unfolding is_terminal
Moves-terminal_example = Moves-terminal refl stopped_again
