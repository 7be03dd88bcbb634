-- ===== src/Shell/Exec/Pipe.antt =====
-- Lists of the parser never fail at a pipe (lab2/cmdrun.c).
use neu_cs5600_cmpsys.Base.{
  ℕ, ◌+◌, ◌≡◌, ◌≢◌, refl, some, arith, true, false, ◌∙◌, sym, inl, inr, Option-cases,
}
use neu_cs5600_cmpsys.Base.Int.{ℤ}
use neu_cs5600_cmpsys.Shell.Parse.{
  ControlOp, cmd_end, cmd_semicolon, cmd_background, cmd_pipe, cmd_and, cmd_or, Command, command,
  CommandList, null, cons, operator,
}
use neu_cs5600_cmpsys.Shell.Parse.Shape.{ends_line, IsLine, last, more, not-IsLine-null}
use neu_cs5600_cmpsys.Shell.Exec.{
  Wait, exited, unexited, aborts, shell_exits, returns, Next, fails, leaves, stops, goes_on, after,
  body, op_of, bad_pipe, parent_exits, cmd_line_exec,
}

after_never_fails : (op : ControlOp) (w : Wait) (status : ℕ) → after op w status ≢ fails
unfolding after
after_never_fails cmd_end (exited n) status e = ground arith
after_never_fails cmd_end (unexited n) status e = ground arith
after_never_fails cmd_semicolon (exited n) status e = ground arith
after_never_fails cmd_semicolon (unexited n) status e = ground arith
after_never_fails cmd_background w status e = ground arith
after_never_fails cmd_pipe w status e = ground arith
after_never_fails cmd_and (exited n) status e = ground arith
after_never_fails cmd_and (unexited n) status e = ground arith
after_never_fails cmd_or (exited n) status e = ground arith
after_never_fails cmd_or (unexited n) status e = ground arith

closed : (c : Command) → ends_line (operator c) ≡ true → bad_pipe (op_of c) null ≡ false
unfolding bad_pipe operator
closed (command argv r sub op) e = ground arith

followed : (c : Command) (l : CommandList) → IsLine l → bad_pipe (op_of c) l ≡ false
unfolding bad_pipe
followed (command argv r sub op) (cons d l) w = ground arith
followed c null w = absurd (let h : true ≡ false = not-IsLine-null null w in cc)

module _ (errno : ℤ) (wait : ℕ → Command → Wait) where
  body_never_fails :
      (i status : ℕ) (c : Command) (l : CommandList)
      → bad_pipe (op_of c) l ≡ false
      → body errno (some (wait i c)) c l status ≢ fails
  unfolding body
  body_never_fails i status c l b e = elim (Option-cases (parent_exits errno c)) [
    | inl q ↦ after_never_fails (op_of c) (wait i c) status (
        let r : body errno (some (wait i c)) c l status ≡ after (op_of c) (wait i c) status =
          rw (b, q) refl in
        sym r ∙ e)
    | inr (code, q) ↦ ground arith
  ]

  step_never_aborts :
      (i status j : ℕ) (c : Command) (l : CommandList)
      → bad_pipe (op_of c) l ≡ false
      → ((s : ℕ) → cmd_line_exec errno (λ k d. some (wait k d)) (i + 1) s l ≢ aborts j)
      → cmd_line_exec errno (λ k d. some (wait k d)) i status (cons c l) ≢ aborts j
  unfolding cmd_line_exec
  step_never_aborts i status j c l b h =
      at_next (body errno (some (wait i c)) c l status) (body_never_fails i status c l b)
    where
      at_next :
          (n : Next)
          → n ≢ fails
          → elim n [
            | fails ↦ aborts i
            | leaves code ↦ shell_exits code (i + 1)
            | stops s ↦ returns s (i + 1)
            | goes_on s ↦ cmd_line_exec errno (λ k d. some (wait k d)) (i + 1) s l
          ]
            ≢ aborts j
      at_next fails ok e = absurd (ok refl)
      at_next (leaves code) ok e = absurd (ground arith)
      at_next (stops s) ok e = absurd (ground arith)
      at_next (goes_on s) ok e = h s e

  -- A list that the parser makes is not aborted when no system call fails: no pipe is without a
  -- command behind it.
  pub exec_never_aborts :
      (i status j : ℕ) (l : CommandList)
      → IsLine l
      → cmd_line_exec errno (λ k c. some (wait k c)) i status l ≢ aborts j
  unfolding cmd_line_exec bad_pipe
  exec_never_aborts i status j _ (last c w e) =
      step_never_aborts i status j c null (closed c e) λ s q. absurd (ground arith)
  exec_never_aborts i status j _ (more c l w e v) =
      step_never_aborts i status j c l (followed c l v) λ s. exec_never_aborts (i + 1) s j l v
