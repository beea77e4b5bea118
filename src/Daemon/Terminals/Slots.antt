-- ===== src/Daemon/Terminals/Slots.antt =====
-- The slots of crates/maestrod/src/terminal.rs: each is free, held by a launch or held by a terminal.
use maestro_app.Prelude.{
  ℕ, suc, ◌+◌, ◌-◌, ◌≡◌, ◌≤◌, refl, ap, ◌∙◌, inl, inr, Bool, true, false, not, Option, some, List,
  [], ◌∷◌, arith, ltb, ◌==◌, ==_iff, length, retain, ok, get, contains, IsDistinct,
  IsDistinct-append_one, All, All-append, Bool-cases, Option-cases,
}
use maestro_app.Daemon.Terminals.{
  id_eq, TerminalSession, Terminals, TerminalManager, TerminalExit, modify, take_out, FinalizePhase,
  idle, lease_dropped, published, finalize_part, taken_permit, release_slot, finalize_found,
  finalize_next, prune_completed, prune_completed_for_insert, acquire, with_session,
  remove_terminal,
}
use maestro_app.Daemon.Terminals.Sessions.{
  one_if, held, held-modify, get-modify, held-take_out, get-take_out, IsDone, All-IsDone-take_out,
}

-- The completed terminals are in the map, each once, without a slot.
abbrev pub AreDone : Terminals → List ℕ → Type 0
AreDone terminals completed = IsDistinct completed × All (IsDone terminals) completed

-- Every slot is free, held by a launch that is under way, or held by a terminal of the map.
abbrev pub Inv : TerminalManager → ℕ → Type 0
Inv m launching =
    (m.slots + launching + held m.terminals ≡ m.limit) × AreDone m.terminals m.completed

abbrev Kept : Terminals → Terminals × List ℕ → Type 0
Kept terminals kept = (held kept.0 ≡ held terminals) × AreDone kept.0 kept.1

held_done :
    (terminal_id : ℕ) (terminals : Terminals)
    → IsDone terminals terminal_id
    → held (take_out terminal_id terminals) ≡ held terminals
held_done terminal_id terminals (s, found, given) =
    ground (arith, held-take_out terminal_id s terminals found, given)

prune_completed-AreDone :
    (limit : ℕ) (terminals : Terminals) (completed : List ℕ)
    → AreDone terminals completed
    → Kept terminals (prune_completed limit terminals completed)
unfolding prune_completed
prune_completed-AreDone limit terminals [] h = (refl, (tt, tt))
prune_completed-AreDone limit terminals (j ∷ completed) ((n, d), (first, h)) =
    elim (Bool-cases (ltb (length terminals) limit)) [
      | inl room ↦ rw room (refl, ((n, d), (first, h)))
      | inr full ↦
          let (same, done) =
            prune_completed-AreDone limit (take_out j terminals) completed
              (d, All-IsDone-take_out j terminals completed n h) in
          rw full (same ∙ held_done j terminals first, done)
    ]

-- A terminal with a slot is not among the completed.
not_completed :
    (terminals : Terminals) (completed : List ℕ) (terminal_id : ℕ) (s : TerminalSession)
    → get terminals terminal_id ≡ some s
    → s.terminal_permit ≡ true
    → All (IsDone terminals) completed
    → contains completed terminal_id ≡ false
unfolding contains
not_completed terminals [] terminal_id s e p h = refl
not_completed terminals (j ∷ completed) terminal_id s e p ((t, found, given), h) =
    elim (Bool-cases (j == terminal_id)) [
      | inr differ ↦ rw differ (not_completed terminals completed terminal_id s e p h)
      | inl same ↦
          let at_id : j ≡ terminal_id = ground arith in
          absurd (ground (arith, rw at_id at found, e, p, given))
    ]

-- Changing a terminal that is done leaves those that are done as they are, if it stays so.
All-IsDone-modify :
    (terminals : Terminals) (completed : List ℕ) (terminal_id : ℕ) (s later : TerminalSession)
    → get terminals terminal_id ≡ some s
    → (s.terminal_permit ≡ false → later.terminal_permit ≡ false)
    → All (IsDone terminals) completed
    → All (IsDone (modify terminal_id later terminals)) completed
All-IsDone-modify terminals [] terminal_id s later e k h = tt
All-IsDone-modify terminals (j ∷ completed) terminal_id s later e k ((t, found, given), h) =
    (one, All-IsDone-modify terminals completed terminal_id s later e k h)
  where
    one : IsDone (modify terminal_id later terminals) j
    one = elim (Bool-cases (terminal_id == j)) [
      | inr differ ↦ (t, get-modify terminal_id s later terminals j e ∙ rw differ found, given)
      | inl same ↦
          let at_id : terminal_id ≡ j = ground arith in
          let both : s ≡ t = ground (arith, rw at_id at e, found) in
          (later, get-modify terminal_id s later terminals j e ∙ rw same refl, k (rw both given))
    ]

-- A part of a finalization leaves the slot with the session, or takes it.
part_permit :
    (phase : FinalizePhase) (s : TerminalSession) (completion : Option TerminalExit)
    → (one_if (finalize_part phase s completion).terminal_permit
          + one_if (taken_permit phase s.terminal_permit)
        ≡ one_if s.terminal_permit)
      × (s.terminal_permit ≡ false → (finalize_part phase s completion).terminal_permit ≡ false)
      × (taken_permit phase s.terminal_permit ≡ true
          → (finalize_part phase s completion).terminal_permit ≡ false)
      × (taken_permit phase s.terminal_permit ≡ true → s.terminal_permit ≡ true)
unfolding finalize_part taken_permit
part_permit idle s completion = (omega arith, (λ e. e), (λ e. cc), λ e. cc)
part_permit lease_dropped s completion = (omega arith, (λ e. e), (λ e. cc), λ e. cc)
part_permit published s completion = (omega arith, (λ e. refl), (λ e. refl), λ e. e)

release_slot-Inv :
    (m : TerminalManager) (launching terminal_id : ℕ) (permit retained : Bool)
    → m.slots + launching + held m.terminals + one_if permit ≡ m.limit
    → AreDone m.terminals m.completed
    → (permit ≡ true → IsDone m.terminals terminal_id)
    → (permit ≡ true → contains m.completed terminal_id ≡ false)
    → Inv (release_slot m terminal_id permit retained) launching
unfolding release_slot
release_slot-Inv m launching terminal_id false retained balance done here new =
    (omega (arith, balance), done)
release_slot-Inv m launching terminal_id true false balance done here new =
    (omega (arith, balance), done)
release_slot-Inv m launching terminal_id true true balance (distinct, done) here new = (
  omega (arith, balance),
  (
    IsDistinct-append_one m.completed terminal_id (new refl) distinct,
    All-append (IsDone m.terminals) m.completed (terminal_id ∷ []) done (here refl, tt),
  ),
)

modify_here :
    (terminals : Terminals) (terminal_id : ℕ) (s later : TerminalSession)
    → get terminals terminal_id ≡ some s
    → get (modify terminal_id later terminals) terminal_id ≡ some later
modify_here terminals terminal_id s later e =
    get-modify terminal_id s later terminals terminal_id e
    ∙ rw ((==_iff terminal_id terminal_id).1 refl) refl

pub finalize_found-Inv :
    (m : TerminalManager) (launching terminal_id : ℕ) (s : TerminalSession)
    (completion : Option TerminalExit)
    → get m.terminals terminal_id ≡ some s
    → Inv m launching
    → Inv (finalize_found m terminal_id s completion) launching
unfolding finalize_found
finalize_found-Inv m launching terminal_id s completion e (balance, (distinct, done)) =
    let later = finalize_part s.phase s completion in
    let (counted, given, done_when, held_when) = part_permit s.phase s completion in
    let moved = held-modify terminal_id s later m.terminals e in
    release_slot-Inv (record m { terminals = modify terminal_id later m.terminals }) launching
      terminal_id (taken_permit s.phase s.terminal_permit) s.retained
      (omega (arith, moved, counted, balance))
      (distinct, All-IsDone-modify m.terminals m.completed terminal_id s later e given done)
      (λ p. (later, modify_here m.terminals terminal_id s later e, done_when p))
      (λ p. not_completed m.terminals m.completed terminal_id s e (held_when p) done)

pub finalize_next-Inv :
    (m : TerminalManager) (launching terminal_id : ℕ) (completion : Option TerminalExit)
    → Inv m launching
    → Inv (finalize_next m terminal_id completion) launching
unfolding finalize_next
finalize_next-Inv m launching terminal_id completion h =
    elim (Option-cases (get m.terminals terminal_id)) [
      | inl missing ↦ rw (missing, finalize_next) h
      | inr (s, e) ↦
          rw (e, finalize_next) (finalize_found-Inv m launching terminal_id s completion e h)
    ]

-- A change of a session that leaves its slot alone.
pub with_session-Inv :
    (m : TerminalManager) (launching terminal_id : ℕ) (change : TerminalSession → TerminalSession)
    → ((s : TerminalSession) → (change s).terminal_permit ≡ s.terminal_permit)
    → Inv m launching
    → Inv (with_session m terminal_id change) launching
unfolding with_session
with_session-Inv m launching terminal_id change keeps (balance, (distinct, done)) =
    elim (Option-cases (get m.terminals terminal_id)) [
      | inl missing ↦ rw (missing, with_session) (balance, (distinct, done))
      | inr (s, e) ↦
          let moved = held-modify terminal_id s (change s) m.terminals e in
          let counted : one_if (change s).terminal_permit ≡ one_if s.terminal_permit =
            ap one_if (keeps s) in
          rw (e, with_session)
            (
              omega (arith, moved, counted, balance),
              (
                distinct,
                All-IsDone-modify m.terminals m.completed terminal_id s (change s) e
                    (λ given. keeps s ∙ given) done,
              ),
            )
    ]

-- The other identifiers stay, each once.
retain_done :
    (terminals : Terminals) (terminal_id : ℕ) (completed : List ℕ)
    → AreDone terminals completed
    → AreDone (take_out terminal_id terminals) (retain (λ j. not (j == terminal_id)) completed)
      × ((j : ℕ)
          → contains completed j ≡ false
          → contains (retain (λ j. not (j == terminal_id)) completed) j ≡ false)
unfolding contains
retain_done terminals terminal_id [] h = ((tt, tt), λ j e. refl)
retain_done terminals terminal_id (j ∷ completed) ((n, d), ((s, found, given), h)) =
    let ((distinct, done), sub) = retain_done terminals terminal_id completed (d, h) in
    elim (Bool-cases (j == terminal_id)) [
      | inl same ↦ rw same ((distinct, done), λ i e. sub i (ground arith))
      | inr differ ↦
          let other : (terminal_id == j) ≡ false = ground arith in
          rw differ (
            (
              (sub j n, distinct),
              ((s, get-take_out terminal_id j terminals other ∙ found, given), done),
            ),
            λ i e. ground (arith, e, sub i),
          )
    ]

pub remove_terminal-Inv :
    (m : TerminalManager) (launching terminal_id : ℕ) (s : TerminalSession)
    → get m.terminals terminal_id ≡ some s
    → s.terminal_permit ≡ false
    → Inv m launching
    → Inv (remove_terminal m terminal_id) launching
unfolding remove_terminal
remove_terminal-Inv m launching terminal_id s e given (balance, done) =
    let same = held_done terminal_id m.terminals (s, e, given) in
    (omega (arith, same, balance), (retain_done m.terminals terminal_id m.completed done).0)

pub acquire-Inv :
    (m later : TerminalManager) (launching : ℕ)
    → acquire m ≡ ok later
    → Inv m launching
    → Inv later (suc launching)
unfolding acquire prune_completed_for_insert
acquire-Inv m later launching e (balance, done) = elim (Bool-cases (m.slots == 0)) [
  | inl none_left ↦ absurd (ground (arith, none_left))
  | inr some_left ↦
      let (same, kept) = prune_completed-AreDone m.limit m.terminals m.completed done in
      let found : prune_completed_for_insert (record m { slots = m.slots - 1 }) ≡ later =
        ground (arith, some_left) in
      let positive : 1 ≤ m.slots = ground (arith, some_left) in
      rw (← found) (omega (arith, same, balance, positive), kept)
]
