-- ===== src/Shell/Exec/Fds/Line.antt =====
-- The shell's descriptors over a whole line (lab2/cmdrun.c, cmd_line_exec).
use mathlib.Core.Path.{subst}
use neu_cs5600_cmpsys.Base.{ℕ, suc, ◌≡◌, true, false, Option, none, some, arith}
use neu_cs5600_cmpsys.Base.Bytes.{Bytes}
use neu_cs5600_cmpsys.Shell.Parse.{Command, command, CommandList, null, cons, operator}
use neu_cs5600_cmpsys.Shell.Parse.Shape.{ends_line, IsLine, last, more}
use neu_cs5600_cmpsys.Shell.Exec.{op_of}
use neu_cs5600_cmpsys.Shell.Exec.Fds.{
  Flags, File, Fds, IsPipe, IsOpen, Kept, Forked, call_fails, forked, redirects_of, is_pipe,
  cmd_fds, line_fds,
}
use neu_cs5600_cmpsys.Shell.Exec.Fds.Tables.{Between}
use neu_cs5600_cmpsys.Shell.Exec.Fds.Pipeline.{own_read, calls_of, Wires, cmd_fds-Wires}

last_plain : (c : Command) → ends_line (operator c) ≡ true → is_pipe (op_of c) ≡ false
unfolding operator
last_plain (command argv r sub op) e = ground arith

-- The standard descriptors alone, if no call has failed.
abbrev pub OnlyThree : Option Kept → File → File → File → Type 0
OnlyThree none i o e = Unit
OnlyThree (some kept) i o e = Between kept.fds kept.pass none i o e

module _ (pipe : Fds → Option (ℕ × ℕ)) (opens : Fds → Flags → Bytes → Option ℕ)
    (pipes : IsPipe pipe) (law : IsOpen opens) where
  -- A command started, and what its shell then comes to.
  line_step :
      (n : ℕ) (c : Command) (rest : CommandList) (fds : Fds) (pass : ℕ) (k : Option File)
      (i o e : File)
      → Between fds pass k i o e
      → ((kept : Kept)
          → Between kept.fds kept.pass (own_read n (is_pipe (op_of c))) i o e
          → OnlyThree (line_fds pipe opens (suc n) rest kept.fds kept.pass) i o e)
      → OnlyThree (line_fds pipe opens n (cons c rest) fds pass) i o e
  unfolding line_fds
  line_step n c rest fds pass k i o e b next =
      at_outcome (cmd_fds pipe opens true n c rest fds pass)
        (cmd_fds-Wires opens law pipe pipes true n c rest fds pass k i o e b)
    where
      at_outcome :
          (f : Option Forked)
          → Wires opens (calls_of pipe true c rest fds) n (redirects_of c) pass k i o e f
          → OnlyThree
              (elim f [
                | none ↦ none
                | some g ↦ elim g [
                  | call_fails left ↦ none
                  | forked child kept ↦ line_fds pipe opens (suc n) rest kept.fds kept.pass
                ]
              ])
              i
              o
              e
      at_outcome none h = tt
      at_outcome (some (call_fails left)) h = tt
      at_outcome (some (forked child kept)) h = next kept h.0.shell

  line_end :
      (n : ℕ) (kept : Kept) (i o e : File)
      → Between kept.fds kept.pass none i o e
      → OnlyThree (line_fds pipe opens n null kept.fds kept.pass) i o e
  unfolding line_fds
  line_end n kept i o e b = b

  -- A line that the parser makes, from a shell with its standard descriptors and perhaps the read
  -- end of a pipe: when all its commands have been started, the shell has its standard descriptors
  -- and no others. The next command reads from the shell's own input.
  pub line_fds-OnlyThree :
      (n : ℕ) (l : CommandList) (fds : Fds) (pass : ℕ) (k : Option File) (i o e : File)
      → IsLine l
      → Between fds pass k i o e
      → OnlyThree (line_fds pipe opens n l fds pass) i o e
  line_fds-OnlyThree n l fds pass k i o e (last c w plain) b =
      line_step n c null fds pass k i o e b (λ kept h.
        line_end (suc n) kept i o e
          (subst (λ p. Between kept.fds kept.pass (own_read n p) i o e) (last_plain c plain) h))
  line_fds-OnlyThree n l fds pass k i o e (more c rest w w' v) b =
      line_step n c rest fds pass k i o e b (λ kept h.
        line_fds-OnlyThree (suc n) rest kept.fds kept.pass (own_read n (is_pipe (op_of c))) i o e v
          h)
