-- ===== src/Daemon/Terminals/Leases.antt =====
-- When the writer's lease of a terminal is released (crates/maestrod/src/terminal.rs).
use maestro_app.Prelude.{
  ℕ, ◌-◌, ◌≡◌, refl, inl, inr, Bool, true, false, Option, some, List, [], ◌∷◌, arith, ltb, ◌==◌,
  length, String, ok, get, All, Option-cases, Bool-cases,
}
use maestro_app.Daemon.Terminals.{
  id_eq, TerminalState, exited, closed, running, closing, failed, TerminalSession, TerminalMetadata,
  Terminals, TerminalManager, TerminalExit, new_manager, new_session, modify, take_out,
  requested_state, FinalizePhase, idle, lease_dropped, published, finalize_part, taken_permit,
  release_slot, finalize_found, finalize_next, prune_completed, prune_completed_for_insert, acquire,
  spawn_inner, with_session, request_close, note_failure, set_closed, remove_terminal,
}
use maestro_app.Daemon.Terminals.Steps.{
  System, Step, launch, spawn, finalize, request, terminate_failed, close_state, remove, start,
  Reach, here, next,
}

abbrev pub is_final : TerminalState → Bool
is_final exited = true
is_final closed = true
is_final state = false

-- While the lease is held, so is the slot, no final state is shown, and no finalization has begun.
abbrev LeaseHeld : TerminalSession → Type 0
LeaseHeld s =
    s.writer_lease ≡ true
    → (s.terminal_permit ≡ true) × (is_final s.runtime.state ≡ false) × (s.phase ≡ idle)

abbrev AllHeld : Terminals → Type 0
AllHeld terminals = All (λ (entry : ℕ × TerminalSession). LeaseHeld entry.1) terminals

get_held :
    (terminals : Terminals) (terminal_id : ℕ) (s : TerminalSession)
    → get terminals terminal_id ≡ some s
    → AllHeld terminals
    → LeaseHeld s
unfolding get
get_held [] terminal_id s e h = cc
get_held ((j, t) ∷ terminals) terminal_id s e h = elim (Bool-cases (j == terminal_id)) [
  | inl same ↦ let first : t ≡ s = ground (arith, same) in rw (← first) (h.0)
  | inr differ ↦ get_held terminals terminal_id s (ground (arith, differ)) h.1
]

modify_held :
    (terminals : Terminals) (terminal_id : ℕ) (later : TerminalSession)
    → LeaseHeld later
    → AllHeld terminals
    → AllHeld (modify terminal_id later terminals)
unfolding modify
modify_held [] terminal_id later k h = tt
modify_held ((j, t) ∷ terminals) terminal_id later k h = elim (Bool-cases (j == terminal_id)) [
  | inl same ↦ rw same (k, h.1)
  | inr differ ↦ rw differ (h.0, modify_held terminals terminal_id later k h.1)
]

take_out_held :
    (terminals : Terminals) (terminal_id : ℕ)
    → AllHeld terminals
    → AllHeld (take_out terminal_id terminals)
unfolding take_out
take_out_held [] terminal_id h = tt
take_out_held ((j, t) ∷ terminals) terminal_id h = elim (Bool-cases (j == terminal_id)) [
  | inl same ↦ rw same (h.1)
  | inr differ ↦ rw differ (h.0, take_out_held terminals terminal_id h.1)
]

prune_held :
    (limit : ℕ) (terminals : Terminals) (completed : List ℕ)
    → AllHeld terminals
    → AllHeld (prune_completed limit terminals completed).0
unfolding prune_completed
prune_held limit terminals [] h = h
prune_held limit terminals (j ∷ completed) h = elim (Bool-cases (ltb (length terminals) limit)) [
  | inl room ↦ rw room h
  | inr full ↦
      rw full (prune_held limit (take_out j terminals) completed (take_out_held terminals j h))
]

acquire_held :
    (m later : TerminalManager)
    → acquire m ≡ ok later
    → AllHeld m.terminals
    → AllHeld later.terminals
unfolding acquire prune_completed_for_insert
acquire_held m later e h = elim (Bool-cases (m.slots == 0)) [
  | inl none_left ↦ absurd (ground (arith, none_left))
  | inr some_left ↦
      let found : prune_completed_for_insert (record m { slots = m.slots - 1 }) ≡ later =
        ground (arith, some_left) in
      rw (← found) (prune_held m.limit m.terminals m.completed h)
]

part_held :
    (phase : FinalizePhase) (s : TerminalSession) (completion : Option TerminalExit)
    → s.phase ≡ phase
    → LeaseHeld s
    → LeaseHeld (finalize_part phase s completion)
unfolding finalize_part
part_held idle s completion at_phase h e = cc
part_held lease_dropped s completion at_phase h e = absurd (cc (at_phase, (h e).2))
part_held published s completion at_phase h e = absurd (cc (at_phase, (h e).2))

release_slot_held :
    (m : TerminalManager) (terminal_id : ℕ) (permit retained : Bool)
    → AllHeld m.terminals
    → AllHeld (release_slot m terminal_id permit retained).terminals
unfolding release_slot
release_slot_held m terminal_id false retained h = h
release_slot_held m terminal_id true retained h = h

finalize_next_held :
    (m : TerminalManager) (terminal_id : ℕ) (completion : Option TerminalExit)
    → AllHeld m.terminals
    → AllHeld (finalize_next m terminal_id completion).terminals
unfolding finalize_next finalize_found
finalize_next_held m terminal_id completion h = elim (Option-cases (get m.terminals terminal_id)) [
  | inl missing ↦ rw (missing, finalize_next) h
  | inr (s, e) ↦
      let later = finalize_part s.phase s completion in
      let kept = part_held s.phase s completion refl (get_held m.terminals terminal_id s e h) in
      rw (e, finalize_next)
        (release_slot_held (record m { terminals = modify terminal_id later m.terminals })
          terminal_id (taken_permit s.phase s.terminal_permit) s.retained
          (modify_held m.terminals terminal_id later kept h))
]

with_session_held :
    (m : TerminalManager) (terminal_id : ℕ) (change : TerminalSession → TerminalSession)
    → ((s : TerminalSession)
        → get m.terminals terminal_id ≡ some s
        → LeaseHeld s
        → LeaseHeld (change s))
    → AllHeld m.terminals
    → AllHeld (with_session m terminal_id change).terminals
unfolding with_session
with_session_held m terminal_id change keeps h = elim (Option-cases (get m.terminals terminal_id)) [
  | inl missing ↦ rw (missing, with_session) h
  | inr (s, e) ↦
      rw (e, with_session)
        (modify_held m.terminals terminal_id (change s)
          (keeps s e (get_held m.terminals terminal_id s e h)) h)
]

spawn_held :
    (m : TerminalManager) (started registered lease : Bool) (terminal_id : ℕ) (cwd : String)
    (metadata : Option TerminalMetadata)
    → AllHeld m.terminals
    → AllHeld
        (spawn_inner m started registered terminal_id (new_session cwd lease metadata)).0.terminals
unfolding spawn_inner
spawn_held m false registered lease terminal_id cwd metadata h = h
spawn_held m true false lease terminal_id cwd metadata h = h
spawn_held m true true lease terminal_id cwd metadata h = ((λ e. (refl, refl, refl)), h)

request_held : (s : TerminalSession) → LeaseHeld s → LeaseHeld (request_close s)
unfolding request_close
request_held s h e = ((h e).0, shown s.runtime.state ((h e).1), (h e).2)
  where
    shown :
        (state : TerminalState) → is_final state ≡ false → is_final (requested_state state) ≡ false
    shown running f = refl
    shown exited f = f
    shown closing f = refl
    shown closed f = f
    shown failed f = refl

Step_held : {t u : System} → Step t u → AllHeld t.manager.terminals → AllHeld u.manager.terminals
unfolding remove_terminal
Step_held {t} (launch m e) h = acquire_held t.manager m e h
Step_held {t} (spawn started registered lease terminal_id launching cwd metadata n new) h =
    spawn_held t.manager started registered lease terminal_id cwd metadata h
Step_held {t} (finalize terminal_id completion) h =
    finalize_next_held t.manager terminal_id completion h
Step_held {t} (request terminal_id) h =
    with_session_held t.manager terminal_id request_close (λ s e. request_held s) h
Step_held {t} (terminate_failed terminal_id s e p) h =
    with_session_held t.manager terminal_id note_failure (λ s' e' k l. ((k l).0, refl, (k l).2)) h
Step_held {t} (close_state terminal_id s e p) h =
    with_session_held t.manager terminal_id set_closed
      (λ s' e' k l. absurd (ground (arith, e, e', p, k l))) h
Step_held {t} (remove terminal_id s e p) h = take_out_held t.manager.terminals terminal_id h

Reach_held : (limit : ℕ) {t : System} → Reach (start limit) t → AllHeld t.manager.terminals
unfolding new_manager
Reach_held limit here = tt
Reach_held limit (next r step) = Step_held step (Reach_held limit r)

-- Whatever the order in which terminals are launched, finalized and closed, and also between the parts
-- of a finalization, a terminal that is seen as exited or closed has released its writer's lease.
pub Reach-writer_lease :
    (limit : ℕ) {t : System} (terminal_id : ℕ) (s : TerminalSession)
    → Reach (start limit) t
    → get t.manager.terminals terminal_id ≡ some s
    → is_final s.runtime.state ≡ true
    → s.writer_lease ≡ false
Reach-writer_lease limit {t} terminal_id s r e final =
    let k = get_held t.manager.terminals terminal_id s e (Reach_held limit r) in
    elim (Bool-cases s.writer_lease) [
      | inr released ↦ released
      | inl leased ↦ absurd (ground (arith, final, k leased))
    ]
