-- ===== src/Examples/Terminals.antt =====
-- The life of a terminal (crates/maestrod/src/terminal.rs) at concrete steps.
use maestro_app.Prelude.{◌≡◌, refl, true, false, none, some, [], ◌∷◌, ok, err, get}
use maestro_app.Daemon.Terminals.{
  id_eq, exited, TerminalSession, TerminalManager, TerminalExit, terminal_limit,
  terminal_not_running, new_manager, new_session, acquire, spawn_inner, finalize_reaped, close,
}
use maestro_app.Daemon.Terminals.Steps.{
  System, launch, spawn, finalize, start, Reach, here, next, SystemInv, Reach-SystemInv,
}
use maestro_app.Daemon.Terminals.Leases.{Reach-writer_lease}
use maestro_app.Daemon.Terminals.Close.{Steps, close-Steps}
use maestro_app.Daemon.Terminals.Requests.{write}

abbrev opened : TerminalSession
opened = new_session "/work" true none

-- One slot: it is taken by a launch, and held by the terminal 7.
abbrev one_launch : TerminalManager
one_launch = record { terminals = []; completed = []; slots = 0; limit = 1 }

abbrev one_terminal : TerminalManager
one_terminal = record { terminals = (7, opened) ∷ []; completed = []; slots = 0; limit = 1 }

abbrev exit : TerminalExit
exit = record { code = some 0; signal = none }

abbrev ended : TerminalManager
ended = finalize_reaped one_terminal 7 (some exit)

acquired : acquire (new_manager 1) ≡ ok one_launch
unfolding acquire new_manager
acquired = refl

refused : acquire one_launch ≡ err (terminal_limit 1)
unfolding acquire
refused = refl

spawned : (spawn_inner one_launch true true 7 opened).0 ≡ one_terminal
unfolding spawn_inner
spawned = refl

abbrev system : TerminalManager → System
system m = record { manager = m; launching = 0 }

reached : Reach (start 1) (system ended)
unfolding spawn_inner get finalize_reaped
reached =
    let open_one =
      next (next here (launch one_launch acquired))
        (spawn true true true 7 0 "/work" none refl refl) in
    next (next (next open_one (finalize 7 (some exit))) (finalize 7 (some exit)))
      (finalize 7 (some exit))

Reach-SystemInv_example : SystemInv (system ended)
Reach-SystemInv_example = Reach-SystemInv 1 reached

-- The terminal has exited, it is completed, and its slot is free again.
ended_state : (ended.completed ≡ 7 ∷ []) × (ended.slots ≡ 1)
unfolding finalize_reaped
ended_state = (refl, refl)

abbrev ended_session : TerminalSession
ended_session = record opened {
  writer_lease = false;
  terminal_permit = false;
  runtime = record { state = exited; exit = some exit; close_requested = false };
}

found : get ended.terminals 7 ≡ some ended_session
unfolding finalize_reaped get
found = refl

Reach-writer_lease_example : ended_session.writer_lease ≡ false
Reach-writer_lease_example = Reach-writer_lease 1 7 ended_session reached found refl

-- The terminal is closed while it runs, and the reader finalizes it first.
close-Steps_example : Steps one_terminal (close one_terminal 7 (some (some exit)) (err tt)).0 0
close-Steps_example = close-Steps one_terminal 0 7 (some (some exit)) (err tt)

gone : (close one_terminal 7 (some (some exit)) (err tt)).0 ≡ new_manager 1
unfolding close get new_manager
gone = refl

not_written : write ended 7 (1 ∷ []) true ≡ err terminal_not_running
unfolding write finalize_reaped get
not_written = refl
