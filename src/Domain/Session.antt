-- ===== src/Domain/Session.antt =====
-- crates/maestro-domain/src/session.rs: the durable state machine of a session.
pub mod Moves
use maestro_app.Prelude.{
  ℕ, ◌≡◌, ◌↔◌, refl, Bool, true, false, ◌||◌, List, [], ◌∷◌, arith, ◌==◌, any, if◌then◌else◌,
  Result, ok, err,
}

pub data SessionState : Type 0 where
  created starting ready running awaiting_permission awaiting_user_input : SessionState
  background interrupting completed stopped failed : SessionState
  interrupted recoverable incompatible : SessionState

-- The derived `PartialEq` compares discriminants.
abbrev pub discriminant : SessionState → ℕ
discriminant created = 0
discriminant starting = 1
discriminant ready = 2
discriminant running = 3
discriminant awaiting_permission = 4
discriminant awaiting_user_input = 5
discriminant background = 6
discriminant interrupting = 7
discriminant completed = 8
discriminant stopped = 9
discriminant failed = 10
discriminant interrupted = 11
discriminant recoverable = 12
discriminant incompatible = 13

abbrev pub state_eq : SessionState → SessionState → Bool
state_eq a b = discriminant a == discriminant b

unfoldable pub is_terminal : SessionState → Bool
is_terminal completed = true
is_terminal stopped = true
is_terminal incompatible = true
is_terminal _ = false

abbrev one_of : SessionState → List SessionState → Bool
one_of next = any (state_eq next)

-- `matches!((self, next), …)`: each row lists the targets of its states.
unfoldable pub can_transition_to : SessionState → SessionState → Bool
can_transition_to created next = one_of next (starting ∷ stopped ∷ [])
can_transition_to starting next =
    one_of next (ready ∷ running ∷ failed ∷ interrupted ∷ incompatible ∷ stopped ∷ [])
can_transition_to ready next = one_of next (running ∷ background ∷ stopped ∷ failed ∷ [])
can_transition_to running next = one_of next (
    awaiting_permission ∷ awaiting_user_input ∷ background ∷ interrupting ∷ completed ∷ failed
    ∷ interrupted ∷ stopped ∷ [])
can_transition_to awaiting_permission next =
    one_of next (running ∷ background ∷ interrupting ∷ failed ∷ interrupted ∷ stopped ∷ [])
can_transition_to awaiting_user_input next =
    one_of next (running ∷ background ∷ interrupting ∷ failed ∷ interrupted ∷ stopped ∷ [])
can_transition_to background next = one_of next (
    ready ∷ running ∷ awaiting_permission ∷ awaiting_user_input ∷ interrupting ∷ completed ∷ failed
    ∷ interrupted ∷ stopped ∷ [])
can_transition_to interrupting next =
    one_of next (ready ∷ interrupted ∷ completed ∷ failed ∷ stopped ∷ [])
can_transition_to failed next = one_of next (recoverable ∷ starting ∷ stopped ∷ [])
can_transition_to interrupted next = one_of next (recoverable ∷ starting ∷ stopped ∷ [])
can_transition_to recoverable next = one_of next (starting ∷ stopped ∷ incompatible ∷ [])
can_transition_to _ next = false

pub record SessionTransitionError : Type 0 where
  pub from : SessionState
  pub to : SessionState

unfoldable pub transition_to :
    SessionState → SessionState → Result SessionState SessionTransitionError
transition_to self next =
    if state_eq self next || can_transition_to self next
    then ok next
    else err (record { from = self; to = next })
