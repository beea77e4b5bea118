-- ===== src/Daemon/Terminals/Close.antt =====
-- `close` of crates/maestrod/src/terminal.rs, as steps of the life of a terminal.
use maestro_app.Prelude.{
  ℕ, ◌≡◌, refl, inl, inr, ◌∙◌, Bool, true, false, Option, none, some, arith, ==_iff, Result, ok,
  err, get, Option-cases, Bool-cases, Result-cases,
}
use maestro_app.Daemon.Terminals.{
  id_eq, TerminalSession, TerminalManager, TerminalExit, session, modify, FinalizePhase, idle,
  lease_dropped, published, finalize_part, taken_permit, release_slot, finalize_found,
  finalize_next, finalize_reaped, with_session, request_close, set_closed, permit_held,
  finish_close, reader_finalizes, close_terminated, close_requested_terminal, close,
}
use maestro_app.Daemon.Terminals.Sessions.{get-modify}
use maestro_app.Daemon.Terminals.Steps.{
  System, finalize, request, terminate_failed, close_state, remove, Reach, here, next,
}

-- From one manager to another, with the launches as they are.
abbrev pub Steps : TerminalManager → TerminalManager → ℕ → Type 0
Steps m later launching =
    Reach (record { manager = m; launching = launching })
      (record { manager = later; launching = launching })

reach_trans : {s t u : System} → Reach s t → Reach t u → Reach s u
reach_trans r here = r
reach_trans r (next q step) = next (reach_trans r q) step

-- A session that is there, by whether it holds its slot.
found_by :
    (m : TerminalManager) (terminal_id : ℕ)
    → permit_held (get m.terminals terminal_id) ≡ true
    → (s : TerminalSession) × (get m.terminals terminal_id ≡ some s) × (s.terminal_permit ≡ true)
found_by m terminal_id h = elim (Option-cases (get m.terminals terminal_id)) [
  | inl missing ↦ absurd (ground (arith, rw missing at h))
  | inr (s, e) ↦ (s, e, rw e at h)
]

get_here :
    (m : TerminalManager) (terminal_id : ℕ) (s later : TerminalSession)
    → get m.terminals terminal_id ≡ some s
    → get (modify terminal_id later m.terminals) terminal_id ≡ some later
get_here m terminal_id s later e =
    get-modify terminal_id s later m.terminals terminal_id e
    ∙ rw ((==_iff terminal_id terminal_id).1 refl) refl

get-with_session :
    (m : TerminalManager) (terminal_id : ℕ) (change : TerminalSession → TerminalSession)
    (s : TerminalSession)
    → get m.terminals terminal_id ≡ some s
    → get (with_session m terminal_id change).terminals terminal_id ≡ some (change s)
unfolding with_session
get-with_session m terminal_id change s e =
    rw (e, with_session) (get_here m terminal_id s (change s) e)

unchanged :
    (m : TerminalManager) (terminal_id : ℕ) (change : TerminalSession → TerminalSession)
    → get m.terminals terminal_id ≡ none
    → with_session m terminal_id change ≡ m
unfolding with_session
unchanged m terminal_id change e = rw (e, with_session) refl

finish_close-Steps :
    (m : TerminalManager) (launching terminal_id : ℕ)
    → permit_held (get m.terminals terminal_id) ≡ false
    → Steps m (finish_close m terminal_id).0 launching
unfolding finish_close session
finish_close-Steps m launching terminal_id h = elim (Option-cases (get m.terminals terminal_id)) [
  | inl missing ↦
      let same : with_session m terminal_id set_closed ≡ m =
        unchanged m terminal_id set_closed missing in
      rw (same, missing, finish_close) (rw same here)
  | inr (s, e) ↦
      let given : s.terminal_permit ≡ false = rw e at h in
      let found = get-with_session m terminal_id set_closed s e in
      rw (found, finish_close)
        (next (next here (close_state terminal_id s e given))
          (remove terminal_id (set_closed s) found given))
]

get-release_slot :
    (m : TerminalManager) (terminal_id : ℕ) (permit retained : Bool)
    → (release_slot m terminal_id permit retained).terminals ≡ m.terminals
unfolding release_slot
get-release_slot m terminal_id false retained = refl
get-release_slot m terminal_id true retained = refl

get-finalize_next :
    (m : TerminalManager) (terminal_id : ℕ) (completion : Option TerminalExit) (s : TerminalSession)
    → get m.terminals terminal_id ≡ some s
    → get (finalize_next m terminal_id completion).terminals terminal_id
      ≡ some (finalize_part s.phase s completion)
unfolding finalize_next finalize_found
get-finalize_next m terminal_id completion s e =
    let later = finalize_part s.phase s completion in
    rw
      (
        e,
        finalize_next,
        get-release_slot (record m { terminals = modify terminal_id later m.terminals }) terminal_id
            (taken_permit s.phase s.terminal_permit) s.retained,
      )
      (get_here m terminal_id s later e)

missing_next :
    (m : TerminalManager) (terminal_id : ℕ) (completion : Option TerminalExit)
    → get m.terminals terminal_id ≡ none
    → finalize_next m terminal_id completion ≡ m
unfolding finalize_next
missing_next m terminal_id completion e = rw (e, finalize_next) refl

-- One of three parts in a row, from whichever on, takes the slot.
three_parts :
    (phase : FinalizePhase) (s : TerminalSession) (completion : Option TerminalExit)
    → let s1 = finalize_part phase s completion in
      let s2 = finalize_part s1.phase s1 completion in
      (finalize_part s2.phase s2 completion).terminal_permit ≡ false
unfolding finalize_part
three_parts idle s completion = refl
three_parts lease_dropped s completion = refl
three_parts published s completion = refl

finalized_permit :
    (m : TerminalManager) (terminal_id : ℕ) (completion : Option TerminalExit)
    → permit_held (get (finalize_reaped m terminal_id completion).terminals terminal_id) ≡ false
unfolding finalize_reaped
finalized_permit m terminal_id completion = elim (Option-cases (get m.terminals terminal_id)) [
  | inl missing ↦
      let same = missing_next m terminal_id completion missing in
      rw (same, same, same, missing) refl
  | inr (s, e) ↦
      let m1 = finalize_next m terminal_id completion in
      let m2 = finalize_next m1 terminal_id completion in
      let e1 = get-finalize_next m terminal_id completion s e in
      let e2 = get-finalize_next m1 terminal_id completion _ e1 in
      let e3 = get-finalize_next m2 terminal_id completion _ e2 in
      rw e3 (three_parts s.phase s completion)
]

finalize_reaped-Steps :
    (m : TerminalManager) (launching terminal_id : ℕ) (completion : Option TerminalExit)
    → Steps m (finalize_reaped m terminal_id completion) launching
unfolding finalize_reaped
finalize_reaped-Steps m launching terminal_id completion =
    next (next (next here (finalize terminal_id completion)) (finalize terminal_id completion))
      (finalize terminal_id completion)

reader_finalizes-Steps :
    (m : TerminalManager) (launching terminal_id : ℕ) (reader : Option (Option TerminalExit))
    → Steps m (reader_finalizes m terminal_id reader) launching
unfolding reader_finalizes
reader_finalizes-Steps m launching terminal_id none = here
reader_finalizes-Steps m launching terminal_id (some completion) =
    finalize_reaped-Steps m launching terminal_id completion

close_terminated-Steps :
    (m : TerminalManager) (launching terminal_id : ℕ) (terminated : Result TerminalExit (Unit {0}))
    → Steps m (close_terminated m terminal_id terminated).0 launching
unfolding close_terminated
close_terminated-Steps m launching terminal_id (ok exit) =
    reach_trans (finalize_reaped-Steps m launching terminal_id (some exit)) (
      finish_close-Steps (finalize_reaped m terminal_id (some exit)) launching terminal_id
        (finalized_permit m terminal_id (some exit)))
close_terminated-Steps m launching terminal_id (err failure) =
    elim (Bool-cases (permit_held (get m.terminals terminal_id))) [
      | inl holds ↦
          let (s, e, p) = found_by m terminal_id holds in
          rw holds (next here (terminate_failed terminal_id s e p))
      | inr given ↦ rw given (finish_close-Steps m launching terminal_id given)
    ]

close_requested-Steps :
    (m : TerminalManager) (launching terminal_id : ℕ) (reader : Option (Option TerminalExit))
    (terminated : Result TerminalExit (Unit {0}))
    → Steps m (close_requested_terminal m terminal_id reader terminated).0 launching
unfolding close_requested_terminal
close_requested-Steps m launching terminal_id reader terminated =
    elim (Bool-cases (permit_held (get m.terminals terminal_id))) [
      | inl holds ↦ rw holds (
          reach_trans (reader_finalizes-Steps m launching terminal_id reader) (
            close_terminated-Steps (reader_finalizes m terminal_id reader) launching terminal_id
              terminated))
      | inr given ↦ rw given (finish_close-Steps m launching terminal_id given)
    ]

-- Closing a terminal, on every branch, with the reader finalizing it in the meantime or not, is a
-- sequence of the steps of its life, so that what holds along these steps holds after it.
pub close-Steps :
    (m : TerminalManager) (launching terminal_id : ℕ) (reader : Option (Option TerminalExit))
    (terminated : Result TerminalExit (Unit {0}))
    → Steps m (close m terminal_id reader terminated).0 launching
unfolding close
close-Steps m launching terminal_id reader terminated =
    elim (Result-cases (session m terminal_id)) [
      | inr (failure, e) ↦ rw (e, close) here
      | inl (s, e) ↦
          rw (e, close)
            (reach_trans (next here (request terminal_id)) (
              close_requested-Steps (with_session m terminal_id request_close) launching terminal_id
                reader terminated))
    ]
