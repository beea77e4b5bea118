-- ===== src/Daemon/Terminals/Sessions.antt =====
-- The map of terminals of crates/maestrod/src/terminal.rs: the slots that its sessions hold.
use maestro_app.Prelude.{
  ℕ, ◌+◌, ◌≡◌, refl, ◌∙◌, Bool, true, false, some, List, [], ◌∷◌, arith, ◌==◌, if◌then◌else◌, get,
  contains, All,
}
use maestro_app.Daemon.Terminals.{id_eq, TerminalSession, Terminals, modify, take_out}

abbrev pub one_if : Bool → ℕ
one_if true = 1
one_if false = 0

-- The slots that are held by the sessions of the map.
abbrev pub held : Terminals → ℕ
held [] = 0
held ((j, s) ∷ terminals) = one_if s.terminal_permit + held terminals

pub held-modify :
    (terminal_id : ℕ) (s later : TerminalSession) (terminals : Terminals)
    → get terminals terminal_id ≡ some s
    → held (modify terminal_id later terminals) + one_if s.terminal_permit
      ≡ held terminals + one_if later.terminal_permit
unfolding get modify
held-modify terminal_id s later [] e = cc
held-modify terminal_id s later ((j, old) ∷ terminals) e =
    ground (arith, held-modify terminal_id s later terminals)

pub get-modify :
    (terminal_id : ℕ) (s later : TerminalSession) (terminals : Terminals) (j : ℕ)
    → get terminals terminal_id ≡ some s
    → get (modify terminal_id later terminals) j
      ≡ (if terminal_id == j then some later else get terminals j)
unfolding get modify
get-modify terminal_id s later [] j e = cc
get-modify terminal_id s later ((i, old) ∷ terminals) j e =
    ground (arith, get-modify terminal_id s later terminals j)

pub held-take_out :
    (terminal_id : ℕ) (s : TerminalSession) (terminals : Terminals)
    → get terminals terminal_id ≡ some s
    → held (take_out terminal_id terminals) + one_if s.terminal_permit ≡ held terminals
unfolding get take_out
held-take_out terminal_id s [] e = cc
held-take_out terminal_id s ((j, old) ∷ terminals) e =
    ground (arith, held-take_out terminal_id s terminals)

pub get-take_out :
    (terminal_id j : ℕ) (terminals : Terminals)
    → (terminal_id == j) ≡ false
    → get (take_out terminal_id terminals) j ≡ get terminals j
unfolding get take_out
get-take_out terminal_id j [] e = refl
get-take_out terminal_id j ((i, s) ∷ terminals) e =
    ground (arith, get-take_out terminal_id j terminals)

-- A terminal that is in the map and has given its slot back.
abbrev pub IsDone : Terminals → ℕ → Type 0
IsDone terminals terminal_id =
    (s : TerminalSession) × (get terminals terminal_id ≡ some s) × (s.terminal_permit ≡ false)

-- An identifier that is not in a list differs from those that are.
pub All-IsDone-take_out :
    (terminal_id : ℕ) (terminals : Terminals) (completed : List ℕ)
    → contains completed terminal_id ≡ false
    → All (IsDone terminals) completed
    → All (IsDone (take_out terminal_id terminals)) completed
unfolding contains
All-IsDone-take_out terminal_id terminals [] n h = tt
All-IsDone-take_out terminal_id terminals (j ∷ completed) n ((s, found, given), h) =
    let differ : (terminal_id == j) ≡ false = ground arith in
    (
      (s, get-take_out terminal_id j terminals differ ∙ found, given),
      All-IsDone-take_out terminal_id terminals completed (ground arith) h,
    )
