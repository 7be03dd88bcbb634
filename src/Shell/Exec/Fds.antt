-- ===== src/Shell/Exec/Fds.antt =====
-- The file descriptors of `cmd_exec` (lab2/cmdrun.c): the pipe between two commands and the
-- redirections, in the child and in the shell. `pipe` and `open` are parameters that choose
-- descriptors, `none` for a call that fails.
pub mod Tables
pub mod Redirection
pub mod Wiring
pub mod Parent
pub mod Pipeline
pub mod Line
mod Tests
use neu_cs5600_cmpsys.Base.{
  ℕ, suc, ◌≡◌, ◌≢◌, Bool, true, false, not, List, [], ◌∷◌, Option, none, some, ◌==◌, if◌then◌else◌,
}
use neu_cs5600_cmpsys.Base.Bytes.{Bytes}
use neu_cs5600_cmpsys.Base.Chain.{◌>>=◌}
use neu_cs5600_cmpsys.Shell.Parse.{
  ControlOp, cmd_end, cmd_semicolon, cmd_background, cmd_pipe, cmd_and, cmd_or, Redirects, Command,
  command, CommandList, null, cons, is_null,
}
use neu_cs5600_cmpsys.Shell.Exec.{bad_pipe, op_of}

-- What `open` is called with: O_RDONLY, or O_WRONLY | O_CREAT | O_TRUNC and the mode 0666.
pub data Flags : Type 0 where
  o_rdonly o_creat : Flags

-- What a descriptor stands for: something the shell was started with, an end of the `n`-th pipe, or
-- a file that was opened.
pub data File : Type 0 where
  inherited pipe_read pipe_write : ℕ → File
  opened : Flags → Bytes → File

abbrev pub Fds : Type 0
Fds = ℕ → Option File

abbrev pub put : Fds → ℕ → Option File → Fds
put fds d f i = if i == d then f else fds i

abbrev pub close : Fds → ℕ → Fds
close fds d = put fds d none

-- `dup2(from, to)`; a `from` that is not open changes nothing.
abbrev pub dup2 : Fds → ℕ → ℕ → Fds
dup2 fds from to = elim (fds from) [ none ↦ fds | some f ↦ put fds to (some f) ]

-- The descriptors that `pipe` returns are not in use, nor is the one that `open` returns.
abbrev pub IsPipe : (Fds → Option (ℕ × ℕ)) → Type 0
IsPipe pipe =
    (fds : Fds) (r w : ℕ) → pipe fds ≡ some (r, w) → (fds r ≡ none) × (fds w ≡ none) × (r ≢ w)

abbrev pub IsOpen : (Fds → Flags → Bytes → Option ℕ) → Type 0
IsOpen opens =
    (fds : Fds) (flags : Flags) (name : Bytes) (d : ℕ)
    → opens fds flags name ≡ some d
    → fds d ≡ none

-- The pipe that `cmd_exec` has made, if any.
pub data Made : Type 0 where
  no_pipe : Made
  made : ℕ → ℕ → Made

-- The ends of the `n`-th pipe.
abbrev pub with_pipe : ℕ → Fds → Made → Fds
with_pipe n fds no_pipe = fds
with_pipe n fds (made r w) = put (put fds r (some (pipe_read n))) w (some (pipe_write n))

-- The child on the two pipes, `pass` being `*pass_pipefd`.
abbrev pub child_pipes : Fds → ℕ → Made → Fds
child_pipes fds pass m =
    let f₁ = dup2 fds pass 0 in
    let f₂ = if pass == 0 then f₁ else close f₁ pass in
    elim m [ no_pipe ↦ f₂ | made r w ↦ close (close (dup2 f₂ w 1) r) w ]

module _ (opens : Fds → Flags → Bytes → Option ℕ) where
  -- `open`, `dup2` and `close` for one redirection. When `open` fails the other two do nothing.
  abbrev pub redirect : Fds → ℕ → Flags → Option Bytes → Fds
  redirect fds to flags none = fds
  redirect fds to flags (some name) = elim (opens fds flags name) [
    | none ↦ fds
    | some d ↦ close (dup2 (put fds d (some (opened flags name))) d to) d
  ]

  unfoldable pub child_fds : Fds → ℕ → Made → Redirects → Fds
  child_fds fds pass m r =
      let f₀ = redirect (child_pipes fds pass m) 0 o_rdonly r.stdin in
      let f₁ = redirect f₀ 1 o_creat r.stdout in redirect f₁ 2 o_creat r.stderr

-- The shell after the fork: its table, and the new `*pass_pipefd`.
pub record Kept : Type 0 where
  pub fds : Fds
  pub pass : ℕ

unfoldable pub parent_fds : Fds → ℕ → Made → Kept
parent_fds fds pass m =
    let f = if pass == 0 then fds else close fds pass in
    elim m [
      | no_pipe ↦ record { fds = f; pass = 0 }
      | made r w ↦ record { fds = close f w; pass = r }
    ]

-- How `cmd_exec` goes: a call fails, with the table that is left; or there are two processes.
pub data Forked : Type 0 where
  call_fails : Fds → Forked
  forked : Fds → Kept → Forked

abbrev pub redirects_of : Command → Redirects
redirects_of (command argv r sub op) = r

abbrev pub is_pipe : ControlOp → Bool
is_pipe cmd_pipe = true
is_pipe cmd_end = false
is_pipe cmd_semicolon = false
is_pipe cmd_background = false
is_pipe cmd_and = false
is_pipe cmd_or = false

module _ (pipe : Fds → Option (ℕ × ℕ)) (opens : Fds → Flags → Bytes → Option ℕ) where
  -- Fork and what follows. When it fails and there is no pipe, the code closes two numbers that it
  -- has not set: `none`.
  unfoldable pub fork_fds : Bool → ℕ → Made → Redirects → Fds → ℕ → Option Forked
  unfolding child_fds parent_fds
  fork_fds true n m r fds pass =
      let f = with_pipe n fds m in some (forked (child_fds opens f pass m r) (parent_fds f pass m))
  fork_fds false n no_pipe r fds pass = none
  fork_fds false n (made a b) r fds pass =
      some (call_fails (close (close (with_pipe n fds (made a b)) a) b))

  -- `cmd_exec` for the `n`-th command, `rest` being the commands behind it.
  unfoldable pub cmd_fds : Bool → ℕ → Command → CommandList → Fds → ℕ → Option Forked
  unfolding fork_fds
  cmd_fds fork_ok n c rest fds pass =
      if is_pipe (op_of c)
      then (if is_null rest then some (call_fails fds) else elim (pipe fds) [
        | none ↦ some (call_fails fds)
        | some p ↦ fork_fds fork_ok n (made p.0 p.1) (redirects_of c) fds pass
      ])
      else fork_fds fork_ok n no_pipe (redirects_of c) fds pass

  -- The loop of `cmd_line_exec` over a list all of whose commands are started, on the descriptors
  -- alone. `none` when a call fails, which aborts the shell.
  unfoldable pub line_fds : ℕ → CommandList → Fds → ℕ → Option Kept
  unfolding cmd_fds
  line_fds n null fds pass = some (record { fds = fds; pass = pass })
  line_fds n (cons c rest) fds pass = elim (cmd_fds true n c rest fds pass) [
    | none ↦ none
    | some f ↦ elim f [
      | call_fails left ↦ none
      | forked child kept ↦ line_fds (suc n) rest kept.fds kept.pass
    ]
  ]
