-- ===== src/Domain/Session/Moves.antt =====
-- What the table of crates/maestro-domain/src/session.rs allows, along whole histories.
use maestro_app.Prelude.{
  ◌≡◌, ◌≢◌, ◌↔◌, ◌⊎◌, refl, true, false, arith, ok, err, subst, ◌∙◌, Bool-cases, inl, inr,
}
use maestro_app.Domain.Session.{
  SessionState, created, starting, ready, running, awaiting_permission, awaiting_user_input,
  background, interrupting, stopped, failed, interrupted, recoverable, is_terminal,
  can_transition_to, transition_to, state_eq,
}

state_eq-eq : (a b : SessionState) → state_eq a b ≡ true → a ≡ b
state_eq-eq a b h = ground arith

eq_false : (a b : SessionState) → state_eq a b ≡ false → a ≡ b → ⊥
eq_false a b h e = ground arith

-- A state other than the three terminal ones can always be stopped, and a terminal one moves nowhere.
pub stoppable_iff :
    (s : SessionState) → (is_terminal s ≡ false) ↔ (can_transition_to s stopped ≡ true)
unfolding is_terminal can_transition_to
stoppable_iff s = ground arith

-- `transition_to` accepts exactly the state itself and the targets of the table, and then returns
-- the target; otherwise the error names both states.
pub transition_to_cases :
    (s t : SessionState)
    → ((s ≡ t) ⊎ (can_transition_to s t ≡ true)) × (transition_to s t ≡ ok t)
      ⊎ (s ≢ t)
        × (can_transition_to s t ≡ false)
        × (transition_to s t ≡ err (record { from = s; to = t }))
unfolding transition_to
transition_to_cases s t = elim (Bool-cases (state_eq s t)) [
  | inl same ↦ inl (inl (state_eq-eq s t same), rw (same, transition_to))
  | inr other ↦ elim (Bool-cases (can_transition_to s t)) [
    | inl allowed ↦ inl (inr allowed, rw (other, allowed, transition_to))
    | inr refused ↦ inr (λ e. eq_false s t other e, refused, rw (other, refused, transition_to))
  ]
]

-- A history: each state is followed by one that `transition_to` accepts.
pub data Moves (s : SessionState) : SessionState → Type 0 where
  here : Moves s s
  next : {t u : SessionState} → Moves s t → transition_to t u ≡ ok u → Moves s u

terminal_step : (s t : SessionState) → is_terminal s ≡ true → transition_to s t ≡ ok t → s ≡ t
unfolding is_terminal transition_to can_transition_to
terminal_step s t h e = ground arith

-- No history of changes that `transition_to` accepts leaves a terminal state: it ends in the very state
-- in which it began. (The daemon's `set_state` starts a session anew without `transition_to`.)
pub Moves-terminal : {s t : SessionState} → is_terminal s ≡ true → Moves s t → s ≡ t
Moves-terminal h here = refl
Moves-terminal {s} h (next {t} {u} m e) =
    let same = Moves-terminal h m in
    same ∙ terminal_step t u (subst (λ r. is_terminal r ≡ true) same h) e

into_created : (t : SessionState) → transition_to t created ≡ ok created → t ≡ created
unfolding transition_to can_transition_to
into_created t e = ground arith

-- A session is never created again: only a history without any change ends in `created`.
pub Moves-created : {s t : SessionState} → t ≡ created → Moves s t → s ≡ created
Moves-created e here = e
Moves-created {s} {t} e (next {t = r} {u} m step) =
    Moves-created (into_created r (subst (λ x. transition_to r x ≡ ok x) e step)) m

-- Every state that is not terminal has a history that brings the session to `running`.
pub Moves-running : (s : SessionState) → is_terminal s ≡ false → Moves s running
unfolding is_terminal transition_to can_transition_to
Moves-running created h = next {t = starting} (next here refl) refl
Moves-running starting h = next here refl
Moves-running ready h = next here refl
Moves-running running h = here
Moves-running awaiting_permission h = next here refl
Moves-running awaiting_user_input h = next here refl
Moves-running background h = next here refl
Moves-running interrupting h = next {t = ready} (next here refl) refl
Moves-running failed h = next {t = starting} (next here refl) refl
Moves-running interrupted h = next {t = starting} (next here refl) refl
Moves-running recoverable h = next {t = starting} (next here refl) refl
Moves-running _ h = cc
