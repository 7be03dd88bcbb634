-- ===== src/Shell/Exec/Tests.antt =====
-- Concrete command lists (lab2/cmdrun.c).
use neu_cs5600_cmpsys.Base.{ℕ, ◌≡◌, refl, [], ◌∷◌, none, some, arith, ◌≢◌, true, if◌then◌else◌}
use neu_cs5600_cmpsys.Base.Int.{pos}
use neu_cs5600_cmpsys.Base.Bytes.{Bytes, codes, streq}
use neu_cs5600_cmpsys.Shell.Parse.{
  ControlOp, cmd_end, cmd_semicolon, cmd_or, cmd_pipe, Command, command, Redirects, CommandList,
  null, cons, operator,
}
use neu_cs5600_cmpsys.Shell.Exec.{returns, exited, cmd_line_exec, parent_exits, aborts, Os}
use neu_cs5600_cmpsys.Shell.Exec.Status.{exec_first_success}
use neu_cs5600_cmpsys.Shell.Exec.Pipe.{exec_never_aborts}
use neu_cs5600_cmpsys.Shell.Parse.Shape.{IsCommand, simple, IsLine, last, more}

abbrev no_files : Redirects
no_files = record { stdin = none; stdout = none; stderr = none }

-- A simple command without redirections.
abbrev bare : Bytes → ControlOp → Command
bare name op = command (name ∷ []) no_files null op

-- `false` with status 1, and any other command with 0.
abbrev status_of : ℕ → Command → ℕ
status_of i (command [] r l op) = 0
status_of i (command (a ∷ args) r l op) = if streq a (codes "false") then 1 else 0

abbrev in_order : CommandList
in_order = cons (bare (codes "ls") cmd_semicolon) (cons (bare (codes "false") cmd_end) null)

abbrev choice : CommandList
choice =
    cons (bare (codes "false") cmd_or)
      (cons (bare (codes "ls") cmd_or) (cons (bare (codes "pwd") cmd_end) null))

exec_first_success_example :
    cmd_line_exec (pos 0) (λ i c. some (exited (status_of i c))) 0 0 choice ≡ returns 0 2
unfolding parent_exits streq
exec_first_success_example =
    exec_first_success (pos 0) status_of 0 0 choice (refl, (refl, refl)) (refl, (refl, (refl, tt)))

-- `exit 3`, and the answers of a system where everything succeeds.
abbrev leave : Command
leave = command (codes "exit" ∷ codes "3" ∷ []) no_files null cmd_end

abbrev willing : Os
willing = record { chdir_ok = λ a. true; getcwd_ok = true; execvp_ok = λ argv. true; errno = pos 0 }

leave-IsCommand : IsCommand leave
leave-IsCommand = simple _ no_files cmd_end (omega arith) (omega arith)

piped-IsLine : IsLine (cons (bare (codes "ls") cmd_pipe) (cons (bare (codes "wc") cmd_end) null))
unfolding operator
piped-IsLine =
    more _ _ (simple _ no_files cmd_pipe (omega arith) (omega arith)) refl
      (last _ (simple _ no_files cmd_end (omega arith) (omega arith)) refl)

exec_never_aborts_example :
    cmd_line_exec
      (pos 0)
      (λ k c. some (exited (status_of k c)))
      0
      0
      (cons (bare (codes "ls") cmd_pipe) (cons (bare (codes "wc") cmd_end) null))
    ≢ aborts 1
exec_never_aborts_example =
    exec_never_aborts (pos 0) (λ k c. exited (status_of k c)) 0 0 1 _ piped-IsLine
