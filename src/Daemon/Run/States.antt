-- ===== src/Daemon/Run/States.antt =====
-- Which states `set_state` of crates/maestrod/src/fake_session.rs can bring a session to.
use maestro_app.Prelude.{
  ◌≡◌, ◌≢◌, ◌⊎◌, Bool, true, false, Option, none, some, arith, String, List, [], ◌∷◌, ◌++◌, inl,
  inr, Bool-cases,
}
use maestro_app.Domain.Session.{
  SessionState, starting, ready, running, awaiting_permission, awaiting_user_input, background,
  is_terminal, transition_to, can_transition_to,
}
use mathlib.Core.List.{append-nil}
use maestro_app.Daemon.Pending.{
  PendingKind, permission, user_input, kind_eq, PendingRequest, PendingTracker,
}
use maestro_app.Daemon.Pending.Resolve.{any_kind, waiting_state}
use maestro_app.Daemon.Run.{bridged, or_running, set_state, update_waiting_state}

-- A state that a live run may be in.
abbrev pub is_live : SessionState → Bool
is_live starting = true
is_live ready = true
is_live running = true
is_live awaiting_permission = true
is_live awaiting_user_input = true
is_live background = true
is_live SessionState.interrupting = true
is_live _ = false

-- Setting a state gives the target or keeps the state; from a terminal state only a new start takes
-- effect.
pub set_state-terminal :
    (s t : SessionState)
    → is_terminal s ≡ true
    → (t ≡ starting) × (set_state s t ≡ starting) ⊎ (t ≢ starting) × (set_state s t ≡ s)
unfolding set_state bridged transition_to can_transition_to is_terminal
set_state-terminal s t h = ground arith

waiting_state-cases :
    (p : PendingTracker)
    → (waiting_state p ≡ none)
      ⊎ ((waiting_state p ≡ some awaiting_permission)
          ⊎ (waiting_state p ≡ some awaiting_user_input))
unfolding waiting_state
waiting_state-cases p = ground arith

update_to :
    (s : SessionState) (waiting : Option SessionState)
    → is_live s ≡ false
    → (waiting ≡ none)
      ⊎ ((waiting ≡ some awaiting_permission) ⊎ (waiting ≡ some awaiting_user_input))
    → set_state s (or_running waiting) ≡ s
unfolding set_state bridged transition_to can_transition_to
update_to s waiting h w = ground arith

-- An answer or a timeout that comes after the run has ended, or before it starts, does not change
-- the state of the session.
pub update_waiting_state-ended :
    (s : SessionState) (p : PendingTracker) → is_live s ≡ false → update_waiting_state s p ≡ s
unfolding update_waiting_state
update_waiting_state-ended s p h = update_to s (waiting_state p) h (waiting_state-cases p)

-- A request of the kind is among the entries.
abbrev pub HasKind : PendingKind → List (String × PendingRequest) → Type 0
HasKind kind [] = ⊥
HasKind kind ((id, request) ∷ entries) = (request.kind ≡ kind) ⊎ HasKind kind entries

-- It waits for an answer, or its answer is being delivered.
abbrev pub Waits : PendingKind → PendingTracker → Type 0
Waits kind p = HasKind kind p.active ⊎ HasKind kind p.in_flight

-- The state that the pending requests call for: a permission comes before a question to the user, and
-- without either the run goes on.
pub data CallsFor (p : PendingTracker) : SessionState → Type 0 where
  for_permission : Waits permission p → CallsFor p awaiting_permission
  for_user_input : ¬ Waits permission p → Waits user_input p → CallsFor p awaiting_user_input
  for_none : ¬ Waits permission p → ¬ Waits user_input p → CallsFor p running

any_kind-HasKind :
    (kind : PendingKind) (entries later : List (String × PendingRequest))
    → any_kind kind (entries ++ later) ≡ true
    → HasKind kind entries ⊎ (any_kind kind later ≡ true)
any_kind-HasKind kind [] later h = inr h
any_kind-HasKind kind ((id, request) ∷ entries) later h =
    elim (Bool-cases (kind_eq request.kind kind)) [
      | inl same ↦ inl (inl (ground (arith, same)))
      | inr other ↦ elim (any_kind-HasKind kind entries later (ground (arith, other))) [
        | inl first ↦ inl (inr first)
        | inr second ↦ inr second
      ]
    ]

no_kind :
    (kind : PendingKind) (entries later : List (String × PendingRequest))
    → any_kind kind (entries ++ later) ≡ false
    → ¬ HasKind kind entries × (any_kind kind later ≡ false)
no_kind kind [] later h = ((λ e. e), h)
no_kind kind ((id, request) ∷ entries) later h =
    let (none_first, none_later) = no_kind kind entries later (ground (arith, h)) in
    let other : kind_eq request.kind kind ≡ false = ground (arith, h) in
    (
      (λ e. elim e [ inl same ↦ ground (arith, same, other) | inr first ↦ none_first first ]),
      none_later,
    )

Waits-cases :
    (kind : PendingKind) (p : PendingTracker)
    → (any_kind kind (p.active ++ p.in_flight) ≡ true) × Waits kind p
      ⊎ (any_kind kind (p.active ++ p.in_flight) ≡ false) × ¬ Waits kind p
Waits-cases kind p = elim (Bool-cases (any_kind kind (p.active ++ p.in_flight))) [
  | inl some_waits ↦ inl (
    some_waits,
    elim (any_kind-HasKind kind p.active p.in_flight some_waits) [
      | inl first ↦ inl first
      | inr later ↦
          elim (any_kind-HasKind kind p.in_flight [] (rw (append-nil p.in_flight) later)) [
            | inl second ↦ inr second
            | inr nothing ↦ cc
          ]
    ],
  )
  | inr none_waits ↦
      let (first, later) = no_kind kind p.active p.in_flight none_waits in
      let (second, nothing) = no_kind kind p.in_flight [] (rw (append-nil p.in_flight) later) in
      inr (none_waits, λ w. elim w [ inl active ↦ first active | inr flying ↦ second flying ])
]

-- Of `waiting_state`, against what the pending requests call for.
waiting_state-CallsFor : (p : PendingTracker) → CallsFor p (or_running (waiting_state p))
unfolding waiting_state
waiting_state-CallsFor p = elim (Waits-cases permission p) [
  | inl (granted, w) ↦ rw granted (for_permission w)
  | inr (unasked, n) ↦ elim (Waits-cases user_input p) [
    | inl (asked, w) ↦ rw (unasked, asked) (for_user_input n w)
    | inr (none_waits, n') ↦ rw (unasked, none_waits) (for_none n n')
  ]
]

follows :
    (s : SessionState) (waiting : Option SessionState)
    → (s ≡ running) ⊎ ((s ≡ awaiting_permission) ⊎ (s ≡ awaiting_user_input))
    → (waiting ≡ none)
      ⊎ ((waiting ≡ some awaiting_permission) ⊎ (waiting ≡ some awaiting_user_input))
    → (set_state s (or_running waiting) ≡ or_running waiting)
        × ((s ≡ running) ⊎ ((or_running waiting ≡ running) ⊎ (or_running waiting ≡ s)))
      ⊎ (set_state s (or_running waiting) ≡ s)
        × (s ≢ running)
        × (or_running waiting ≢ running)
        × (or_running waiting ≢ s)
unfolding set_state bridged transition_to can_transition_to
follows s waiting h w = ground (arith, h, w)

-- While the run waits for answers or works, the state follows the requests still pending, open or in
-- flight, where a permission comes before a question to the user, except that it never moves between
-- the two waiting states: with the other one called for it stays.
pub update_waiting_state-waiting :
    (s : SessionState) (p : PendingTracker)
    → (s ≡ running) ⊎ ((s ≡ awaiting_permission) ⊎ (s ≡ awaiting_user_input))
    → (called : SessionState) × CallsFor p called
      × ((update_waiting_state s p ≡ called) × ((s ≡ running) ⊎ ((called ≡ running) ⊎ (called ≡ s)))
          ⊎ (update_waiting_state s p ≡ s) × (s ≢ running) × (called ≢ running) × (called ≢ s))
unfolding update_waiting_state
update_waiting_state-waiting s p h = (
  or_running (waiting_state p),
  waiting_state-CallsFor p,
  follows s (waiting_state p) h (waiting_state-cases p),
)
