-- ===== src/Shell/Exec/Fds/Pipeline.antt =====
-- A pipeline: the ends of the pipes meet, and none is left open (lab2/cmdrun.c, cmd_exec).
use mathlib.Core.Path.{subst}
use neu_cs5600_cmpsys.Base.{
  ℕ, ◌≡◌, ◌≢◌, ◌⊎◌, refl, inl, inr, arith, Bool, true, false, [], Option, none, some, Bool-cases,
  Option-cases, if◌then◌else◌,
}
use neu_cs5600_cmpsys.Base.Bytes.{Bytes}
use neu_cs5600_cmpsys.Shell.Parse.{Redirects, Command, CommandList, is_null}
use neu_cs5600_cmpsys.Shell.Exec.{op_of}
use neu_cs5600_cmpsys.Shell.Exec.Fds.{
  File, pipe_read, pipe_write, Flags, o_rdonly, o_creat, Fds, IsPipe, IsOpen, Made, no_pipe, made,
  with_pipe, child_pipes, redirect, child_fds, Kept, parent_fds, Forked, call_fails, forked,
  redirects_of, is_pipe, fork_fds, cmd_fds,
}
use neu_cs5600_cmpsys.Shell.Exec.Fds.Tables.{Table, Between}
use neu_cs5600_cmpsys.Shell.Exec.Fds.Redirection.{
  Gets, redirect_input, redirect_output, redirect_error,
}
use neu_cs5600_cmpsys.Shell.Exec.Fds.Wiring.{
  or_else, IsMade, write_end, read_end, child_pipes-Table,
}
use neu_cs5600_cmpsys.Shell.Exec.Fds.Parent.{parent_fds-Between, unmade-Between}

-- The ends of the `n`-th pipe, if the operator behind the command is a pipe.
abbrev pub own_write : ℕ → Bool → Option File
own_write n piped = if piped then some (pipe_write n) else none

abbrev pub own_read : ℕ → Bool → Option File
own_read n piped = if piped then some (pipe_read n) else none

-- The child has its standard descriptors and no others, and they are what the pipes and the
-- redirections make them; the shell is as before, with the read end of the command's own pipe for
-- the next.
pub record Wired (opens : Fds → Flags → Bytes → Option ℕ) (n : ℕ) (piped : Bool) (r : Redirects)
    (k : Option File) (i o e : File) (child : Fds) (kept : Kept) : Type 0 where
  pub input : File
  pub output : File
  pub error : File
  pub table : Table child input output error []
  pub gets_input : Gets opens o_rdonly r.stdin (or_else k i) input
  pub gets_output : Gets opens o_creat r.stdout (or_else (own_write n piped) o) output
  pub gets_error : Gets opens o_creat r.stderr e error
  pub shell : Between kept.fds kept.pass (own_read n piped) i o e

abbrev is_made : Made → Bool
is_made no_pipe = false
is_made (made r w) = true

write_own : (n : ℕ) (m : Made) → write_end n m ≡ own_write n (is_made m)
write_own n no_pipe = refl
write_own n (made r w) = refl

read_own : (n : ℕ) (m : Made) → read_end n m ≡ own_read n (is_made m)
read_own n no_pipe = refl
read_own n (made r w) = refl

-- How the calls of `cmd_exec` go: the fork; whether the operator behind the command is a pipe; if
-- it is, whether a command is missing behind it, and what `pipe` returns.
pub record Calls : Type 0 where
  pub fork_ok : Bool
  pub piped : Bool
  pub last : Bool
  pub ends : Option (ℕ × ℕ)

-- The command is started; a call fails, or the command behind a pipe is missing; two numbers are
-- closed that were never set. Each set of calls is one of the three.
abbrev pub Starts : Calls → Type 0
Starts c = (c.fork_ok ≡ true) × ((c.piped ≡ false) ⊎ ((c.last ≡ false) × (c.ends ≢ none)))

abbrev pub Fails : Calls → Type 0
Fails c = (c.piped ≡ true) × ((c.last ≡ true) ⊎ ((c.ends ≡ none) ⊎ (c.fork_ok ≡ false)))

abbrev pub IsUnset : Calls → Type 0
IsUnset c = (c.piped ≡ false) × (c.fork_ok ≡ false)

-- What `cmd_exec` comes to, and by which calls: a command that is wired, the table as it was, or
-- something undefined.
abbrev pub Wires :
    (Fds → Flags → Bytes → Option ℕ)
    → Calls
    → ℕ
    → Redirects
    → ℕ
    → Option File
    → File
    → File
    → File
    → Option Forked
    → Type 0
Wires opens c n r pass k i o e none = IsUnset c
Wires opens c n r pass k i o e (some (call_fails fds)) = Between fds pass k i o e × Fails c
Wires opens c n r pass k i o e (some (forked child kept)) =
    Wired opens n c.piped r k i o e child kept × Starts c

abbrev pub calls_of : (Fds → Option (ℕ × ℕ)) → Bool → Command → CommandList → Fds → Calls
calls_of pipe fork_ok c rest fds = record {
  fork_ok = fork_ok;
  piped = is_pipe (op_of c);
  last = is_null rest;
  ends = pipe fds;
}

-- A pipe is made only where it can be.
abbrev IsReady : Bool → Option (ℕ × ℕ) → Made → Type 0
IsReady last ends no_pipe = Unit
IsReady last ends (made a w) = (last ≡ false) × (ends ≢ none)

starts :
    (last : Bool) (ends : Option (ℕ × ℕ)) (m : Made)
    → IsReady last ends m
    → Starts (record { fork_ok = true; piped = is_made m; last = last; ends = ends })
starts last ends no_pipe h = (refl, inl refl)
starts last ends (made a w) h = (refl, inr h)

module _ (opens : Fds → Flags → Bytes → Option ℕ) (law : IsOpen opens) where
  fork_fds-Wires :
      (fork_ok : Bool) (n : ℕ) (m : Made) (r : Redirects) (fds : Fds) (pass : ℕ) (k : Option File)
      (i o e : File) (pipe : Fds → Option (ℕ × ℕ)) (missing : Bool) (ends : Option (ℕ × ℕ))
      → Between fds pass k i o e
      → IsMade fds m
      → IsReady missing ends m
      → Wires opens
          (record { fork_ok = fork_ok; piped = is_made m; last = missing; ends = ends })
          n
          r
          pass
          k
          i
          o
          e
          (fork_fds pipe opens fork_ok n m r fds pass)
  unfolding fork_fds child_fds
  fork_fds-Wires true n m r fds pass k i o e pipe missing ends b made_ok ready =
      let t = child_pipes-Table n fds pass k m i o e b made_ok in
      let f = child_pipes (with_pipe n fds m) pass m in
      let (i', ti, gi) =
        redirect_input opens law f (or_else k i) (or_else (write_end n m) o) e r.stdin t in
      let g = redirect opens f 0 o_rdonly r.stdin in
      let (o', to, go) = redirect_output opens law g i' (or_else (write_end n m) o) e r.stdout ti in
      let h = redirect opens g 1 o_creat r.stdout in
      let (e', te, ge) = redirect_error opens law h i' o' e r.stderr to in
      (
        record {
          input = i';
          output = o';
          error = e';
          table = te;
          gets_input = gi;
          gets_output =
              subst (λ x. Gets opens o_creat r.stdout (or_else x o) o') (write_own n m) go;
          gets_error = ge;
          shell =
              subst
                (λ x.
                  Between (parent_fds (with_pipe n fds m) pass m).fds
                    (parent_fds (with_pipe n fds m) pass m).pass x i o e)
                (read_own n m) (parent_fds-Between n fds pass k m i o e b made_ok);
        },
        starts missing ends m ready,
      )
  fork_fds-Wires false n no_pipe r fds pass k i o e pipe missing ends b made_ok ready = (refl, refl)
  fork_fds-Wires false n (made a w) r fds pass k i o e pipe missing ends b made_ok ready =
      (unmade-Between n fds pass k a w i o e b made_ok, (refl, inr (inr refl)))

  -- One command of a list, from a shell with its standard descriptors and perhaps the read end of
  -- the last pipe. Exactly when the fork succeeds, and for a pipe a command is behind it and `pipe`
  -- succeeds, the command is started. The child then has three descriptors and no others: its input
  -- is the file of `<`, else the last pipe, else the shell's; its output is the file of `>`, else
  -- its own pipe, else the shell's; its error output is the file of `2>`, else the shell's; a file
  -- that cannot be opened leaves what was there. The shell keeps the read end of the new pipe and
  -- nothing else. Exactly when the command ends in a pipe and a command is missing behind it,
  -- `pipe` fails or the fork fails, the call fails, with the shell's descriptors as they were. A
  -- fork that fails where there is no pipe is undefined, and nothing else.
  pub cmd_fds-Wires :
      (pipe : Fds → Option (ℕ × ℕ))
      → IsPipe pipe
      → (fork_ok : Bool) (n : ℕ) (c : Command) (rest : CommandList) (fds : Fds) (pass : ℕ)
        (k : Option File) (i o e : File)
      → Between fds pass k i o e
      → Wires opens
          (calls_of pipe fork_ok c rest fds)
          n
          (redirects_of c)
          pass
          k
          i
          o
          e
          (cmd_fds pipe opens fork_ok n c rest fds pass)
  unfolding cmd_fds
  cmd_fds-Wires pipe is_pipe_law fork_ok n c rest fds pass k i o e b =
      elim (Bool-cases (is_pipe (op_of c))) [
        | inr plain ↦ rw plain (
            fork_fds-Wires fork_ok n no_pipe (redirects_of c) fds pass k i o e pipe (is_null rest)
              (pipe fds) b tt tt)
        | inl piped ↦ elim (Bool-cases (is_null rest)) [
          | inl last ↦ rw (piped, last) (b, (refl, inl refl))
          | inr more ↦ elim (Option-cases (pipe fds)) [
            | inl fails ↦ rw (piped, more, fails) (b, (refl, inr (inl refl)))
            | inr (p, q) ↦
                rw (piped, more, q)
                  (fork_fds-Wires fork_ok n (made p.0 p.1) (redirects_of c) fds pass k i o e pipe
                    false (some p) b (is_pipe_law fds p.0 p.1 q)
                    (refl, λ h. absurd (ground (arith, h))))
          ]
        ]
      ]
