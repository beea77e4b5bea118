-- ===== src/Daemon/Terminals/Steps.antt =====
-- The life of the terminals of crates/maestrod/src/terminal.rs as steps, each under the locks that the
-- code takes: tasks that open, close and read terminals may be interleaved in any way.
use maestro_app.Prelude.{
  ℕ, suc, ◌≡◌, refl, inl, inr, Bool, true, false, Option, none, some, List, [], ◌∷◌, arith, ◌==◌,
  String, ok, get, All, Bool-cases,
}
use maestro_app.Daemon.Terminals.{
  id_eq, TerminalSession, TerminalMetadata, Terminals, TerminalManager, TerminalExit, new_manager,
  new_session, acquire, spawn_inner, finalize_next, with_session, request_close, note_failure,
  set_closed, remove_terminal,
}
use maestro_app.Daemon.Terminals.Sessions.{IsDone}
use maestro_app.Daemon.Terminals.Slots.{
  Inv, acquire-Inv, finalize_next-Inv, with_session-Inv, remove_terminal-Inv,
}

-- The manager, and the launches that hold a slot and have no terminal yet.
pub record System : Type 0 where
  pub manager : TerminalManager
  pub launching : ℕ

-- The manager after a step that leaves the launches alone.
abbrev pub with_manager : System → TerminalManager → System
with_manager t m = record t { manager = m }

pub data Step (t : System) : System → Type 0 where
  launch :
      (m : TerminalManager)
      → acquire t.manager ≡ ok m
      → Step t (record { manager = m; launching = suc t.launching })
  -- The identifier of a new terminal is a fresh one.
  spawn :
      (started registered lease : Bool) (terminal_id launching : ℕ) (cwd : String)
      (metadata : Option TerminalMetadata)
      → t.launching ≡ suc launching
      → get t.manager.terminals terminal_id ≡ none
      → Step t (record {
        manager =
            (spawn_inner t.manager started registered terminal_id
              (new_session cwd lease metadata)).0;
        launching = launching;
      })
  -- One part of `finalize_reaped`: any other step may come before the next part.
  finalize :
      (terminal_id : ℕ) (completion : Option TerminalExit)
      → Step t (with_manager t (finalize_next t.manager terminal_id completion))
  request :
      (terminal_id : ℕ) → Step t (with_manager t (with_session t.manager terminal_id request_close))
  -- A termination failed, and the session still holds its slot. In the code this step waits for a
  -- finalization that has begun; here it may come between its parts as well.
  terminate_failed :
      (terminal_id : ℕ) (s : TerminalSession)
      → get t.manager.terminals terminal_id ≡ some s
      → s.terminal_permit ≡ true
      → Step t (with_manager t (with_session t.manager terminal_id note_failure))
  -- The session was finalized, so `close` publishes its end and removes it.
  close_state :
      (terminal_id : ℕ) (s : TerminalSession)
      → get t.manager.terminals terminal_id ≡ some s
      → s.terminal_permit ≡ false
      → Step t (with_manager t (with_session t.manager terminal_id set_closed))
  remove :
      (terminal_id : ℕ) (s : TerminalSession)
      → get t.manager.terminals terminal_id ≡ some s
      → s.terminal_permit ≡ false
      → Step t (with_manager t (remove_terminal t.manager terminal_id))

abbrev pub start : ℕ → System
start limit = record { manager = new_manager limit; launching = 0 }

pub data Reach (s : System) : System → Type 0 where
  here : Reach s s
  next : {t u : System} → Reach s t → Step t u → Reach s u

spawned-IsDone :
    (terminals : Terminals) (completed : List ℕ) (terminal_id : ℕ) (s : TerminalSession)
    → get terminals terminal_id ≡ none
    → All (IsDone terminals) completed
    → All (IsDone ((terminal_id, s) ∷ terminals)) completed
unfolding get
spawned-IsDone terminals [] terminal_id s new h = tt
spawned-IsDone terminals (j ∷ completed) terminal_id s new ((t, found, given), h) =
    (one, spawned-IsDone terminals completed terminal_id s new h)
  where
    one : IsDone ((terminal_id, s) ∷ terminals) j
    one = elim (Bool-cases (terminal_id == j)) [
      | inr differ ↦ (t, rw differ found, given)
      | inl same ↦
          let at_id : terminal_id ≡ j = ground arith in
          absurd (ground (arith, rw at_id at new, found))
    ]

spawn_inner-Inv :
    (m : TerminalManager) (started registered lease : Bool) (terminal_id launching : ℕ)
    (cwd : String) (metadata : Option TerminalMetadata)
    → get m.terminals terminal_id ≡ none
    → Inv m (suc launching)
    → Inv
        (spawn_inner m started registered terminal_id (new_session cwd lease metadata)).0
        launching
unfolding spawn_inner
spawn_inner-Inv m false registered lease terminal_id launching cwd metadata new (balance, done) =
    (omega (arith, balance), done)
spawn_inner-Inv m true false lease terminal_id launching cwd metadata new (balance, done) =
    (omega (arith, balance), done)
spawn_inner-Inv m true true lease terminal_id launching cwd metadata new (balance, (d, h)) = (
  omega (arith, balance),
  (d, spawned-IsDone m.terminals m.completed terminal_id (new_session cwd lease metadata) new h),
)

abbrev pub SystemInv : System → Type 0
SystemInv t = Inv t.manager t.launching

start-SystemInv : (limit : ℕ) → SystemInv (start limit)
unfolding new_manager
start-SystemInv limit = (omega arith, (tt, tt))

same_permit : (s : TerminalSession) → (request_close s).terminal_permit ≡ s.terminal_permit
unfolding request_close
same_permit s = refl

Step-SystemInv : {t u : System} → Step t u → SystemInv t → SystemInv u
Step-SystemInv {t} (launch m e) h = acquire-Inv t.manager m t.launching e h
Step-SystemInv {t} (spawn started registered lease terminal_id launching cwd metadata n new) h =
    spawn_inner-Inv t.manager started registered lease terminal_id launching cwd metadata new
      (rw n at h)
Step-SystemInv {t} (finalize terminal_id completion) h =
    finalize_next-Inv t.manager t.launching terminal_id completion h
Step-SystemInv {t} (request terminal_id) h =
    with_session-Inv t.manager t.launching terminal_id request_close same_permit h
Step-SystemInv {t} (terminate_failed terminal_id s e p) h =
    with_session-Inv t.manager t.launching terminal_id note_failure (λ s. refl) h
Step-SystemInv {t} (close_state terminal_id s e p) h =
    with_session-Inv t.manager t.launching terminal_id set_closed (λ s. refl) h
Step-SystemInv {t} (remove terminal_id s e p) h =
    remove_terminal-Inv t.manager t.launching terminal_id s e p h

-- Whatever the order in which terminals are launched, finalized and closed, every slot of the limit is
-- free, held by a launch that is under way, or held by a terminal of the map; and the completed
-- terminals are in the map, each once, without a slot.
pub Reach-SystemInv : (limit : ℕ) {t : System} → Reach (start limit) t → SystemInv t
Reach-SystemInv limit here = start-SystemInv limit
Reach-SystemInv limit (next r step) = Step-SystemInv step (Reach-SystemInv limit r)
