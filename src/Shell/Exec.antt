-- ===== src/Shell/Exec.antt =====
-- The execution of a command list (lab2/cmdrun.c): what the shell does itself, with the answers of
-- the operating system as arguments. `Wait` is what `waitpid` reports of a child.
pub mod Status
pub mod Builtin
pub mod Pipe
pub mod Fds
mod Tests
use neu_cs5600_cmpsys.Base.{
  ℕ, zero, suc, ◌+◌, ◌-◌, ◌%◌, Bool, true, false, not, ◌&&◌, ◌||◌, List, [], ◌∷◌, Option, none,
  some, ◌==◌, if◌then◌else◌, get_elem?,
}
use neu_cs5600_cmpsys.Base.Bytes.{Bytes, codes, streq, atoi}
use neu_cs5600_cmpsys.Base.Int.{ℤ, pos, negsuc}
use neu_cs5600_cmpsys.Shell.Parse.{
  ControlOp, cmd_end, cmd_semicolon, cmd_background, cmd_pipe, cmd_and, cmd_or, Redirects, Command,
  command, CommandList, null, cons, is_null,
}

-- `WIFEXITED` with its status, or else the whole of `wp_status`.
pub data Wait : Type 0 where
  exited : ℕ → Wait
  unexited : ℕ → Wait

-- The status that a process leaves by `exit(code)`: the low byte.
pub exit_status : ℤ → ℕ
exit_status (pos n) = n % 256
exit_status (negsuc n) = (255 - n % 256)

abbrev pub is_command : Bytes → List Bytes → Bool
is_command name [] = false
is_command name (a ∷ args) = streq a name

abbrev pub is_zero : ℤ → Bool
is_zero (pos n) = n == 0
is_zero (negsuc n) = false

-- What the builtin `exit` leaves when it has at most one argument; `errno` is what stands there
-- when `strtol` gives 0.
pub exit_code : ℤ → Option Bytes → ℕ
unfolding exit_status
exit_code errno none = 0
exit_code errno (some a) =
    if streq a (codes "0")
    then 0
    else (let code = atoi a in if is_zero code then exit_status errno else exit_status code)

-- What the system calls of the child return: `chdir`, `getcwd` (NULL or not), and `execvp`, which
-- returns if it fails.
pub record Os : Type 0 where
  pub chdir_ok : Bytes → Bool
  pub getcwd_ok : Bool
  pub execvp_ok : List Bytes → Bool
  pub errno : ℤ

-- The child exits with a status, or becomes the program that its arguments name. If `execvp` fails
-- it returns from `cmd_exec` with the 0 of `fork`, and goes on as a second shell.
pub data Child : Type 0 where
  exits : ℕ → Child
  execs : List Bytes → Child
  returns_zero : Child

abbrev pub is_none : Option Bytes → Bool
is_none none = true
is_none (some a) = false

-- `cd` wants one argument.
abbrev pub cd_status : Os → Option Bytes → Option Bytes → ℕ
cd_status os none b = 1
cd_status os (some a) none = if os.chdir_ok a then 0 else 1
cd_status os (some a) (some b) = 1

-- The child's half of `cmd_exec`, redirections and pipes aside. `sub` is what `cmd_line_exec`
-- returned for the subshell.
pub child : Os → ℕ → Command → Child
unfolding exit_code
child os sub (command argv r subshell op) =
    if is_null subshell && is_none (get_elem? argv 0)
    then exits 0
    else if not (is_null subshell)
    then exits (if sub == 0 then 0 else 5)
    else if is_command (codes "cd") argv
    then exits (cd_status os (get_elem? argv 1) (get_elem? argv 2))
    else if is_command (codes "exit") argv
    then exits (if is_none (get_elem? argv 2) then exit_code os.errno (get_elem? argv 1) else 1)
    else if is_command (codes "our_pwd") argv
    then exits (if is_none (get_elem? argv 1) && os.getcwd_ok then 0 else 1)
    else if os.execvp_ok argv
    then execs argv
    else returns_zero

-- The parent's half: the status with which the whole shell exits, if the command is `exit` with at
-- most one argument.
pub parent_exits : ℤ → Command → Option ℕ
unfolding exit_code
parent_exits errno (command argv r subshell op) =
    if is_command (codes "exit") argv
    then elim (get_elem? argv 2) [
      | some _ ↦ none
      | none ↦ some (exit_code errno (get_elem? argv 1))
    ]
    else none

-- How the execution of a list ends: `abort()`, the exit of the shell, or a returned status. All
-- count the commands that were started.
pub data Run : Type 0 where
  aborts : ℕ → Run
  shell_exits : ℕ → ℕ → Run
  returns : ℕ → ℕ → Run

-- A pipe needs a command behind it: `cmd_exec` returns -1 if there is none.
pub bad_pipe : ControlOp → CommandList → Bool
bad_pipe cmd_pipe null = true
bad_pipe _ _ = false

abbrev pub op_of : Command → ControlOp
op_of (command argv r sub op) = op

-- What one command leads to: a failed system call, the exit of the shell, a return, or the next
-- command with a new `cmd_status`.
pub data Next : Type 0 where
  fails : Next
  leaves : ℕ → Next
  stops : ℕ → Next
  goes_on : ℕ → Next

-- The `switch` of `cmd_line_exec` on the operator behind a command, with what `waitpid` reports and
-- `cmd_status`.
pub after : ControlOp → Wait → ℕ → Next
after cmd_end (exited n) status = goes_on n
after cmd_end (unexited n) status = stops n
after cmd_semicolon (exited n) status = goes_on n
after cmd_semicolon (unexited n) status = stops n
after cmd_background w status = goes_on 0
after cmd_pipe w status = goes_on 0
after cmd_and (exited n) status = if n == 0 then goes_on 0 else stops status
after cmd_and (unexited n) status = stops status
after cmd_or (exited n) status = if n == 0 then stops 0 else goes_on n
after cmd_or (unexited n) status = if status == 0 then stops status else goes_on status

-- The body of the loop, `reply` being what becomes of the command, `none` if a system call of
-- `cmd_exec` fails.
pub body : ℤ → Option Wait → Command → CommandList → ℕ → Next
unfolding after parent_exits bad_pipe
body errno none c rest status = fails
body errno (some w) c rest status =
    if bad_pipe (op_of c) rest
    then fails
    else elim (parent_exits errno c) [ some code ↦ leaves code | none ↦ after (op_of c) w status ]

-- `reply i c`: what becomes of the command `c` as the `i`-th that is started. `status` is
-- `cmd_status`.
module _ (errno : ℤ) (reply : ℕ → Command → Option Wait) where
  pub cmd_line_exec : ℕ → ℕ → CommandList → Run
  unfolding body
  cmd_line_exec i status null = returns status i
  cmd_line_exec i status (cons c rest) = elim (body errno (reply i c) c rest status) [
    | fails ↦ aborts i
    | leaves code ↦ shell_exits code (i + 1)
    | stops s ↦ returns s (i + 1)
    | goes_on s ↦ cmd_line_exec (i + 1) s rest
  ]
