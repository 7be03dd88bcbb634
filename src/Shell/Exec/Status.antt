-- ===== src/Shell/Exec/Status.antt =====
-- The status that a command list returns (lab2/cmdrun.c, `cmd_line_exec`).
use neu_cs5600_cmpsys.Base.{
  ℕ, ◌+◌, ◌≡◌, ◌≢◌, refl, ap, ◌∙◌, false, Option, none, some, ◌==◌, if◌then◌else◌, arith,
}
use neu_cs5600_cmpsys.Base.Int.{ℤ}
use neu_cs5600_cmpsys.Shell.Parse.{
  ControlOp, cmd_end, cmd_semicolon, cmd_and, cmd_or, Command, CommandList, null, cons,
}
use neu_cs5600_cmpsys.Shell.Exec.{
  Wait, exited, parent_exits, Next, fails, leaves, stops, goes_on, after, body, aborts, shell_exits,
  returns, bad_pipe, op_of, cmd_line_exec,
}

-- All commands of the list have the operator, the last one aside, which ends the list.
abbrev pub Chains : ControlOp → CommandList → Type 0
Chains op null = Unit
Chains op (cons c null) = op_of c ≡ cmd_end
Chains op (cons c (cons d l)) = (op_of c ≡ op) × Chains op (cons d l)

-- No command of the list is the builtin that ends the shell.
abbrev pub Stays : ℤ → CommandList → Type 0
Stays errno null = Unit
Stays errno (cons c l) = (parent_exits errno c ≡ none) × Stays errno l

module _ (errno : ℤ) (status_of : ℕ → Command → ℕ) where
  -- Every command starts, and exits with the status given for it.
  abbrev all_exit : ℕ → Command → Option Wait
  all_exit i c = some (exited (status_of i c))

  -- The specification: every command in turn; the status of the last.
  abbrev pub in_turn : ℕ → ℕ → CommandList → ℕ × ℕ
  in_turn i status null = (status, i)
  in_turn i status (cons c l) = in_turn (i + 1) (status_of i c) l

  -- The specification of `||`: the first command that succeeds ends the list.
  abbrev pub first_success : ℕ → ℕ → CommandList → ℕ × ℕ
  first_success i status null = (status, i)
  first_success i status (cons c l) =
      let later = first_success (i + 1) (status_of i c) l in
      if status_of i c == 0 then (0, i + 1) else later

  pub exec_step :
      (i status : ℕ) (c : Command) (l : CommandList) (w : Next)
      → body errno (all_exit i c) c l status ≡ w
      → cmd_line_exec errno all_exit i status (cons c l) ≡ elim w [
        | fails ↦ aborts i
        | leaves code ↦ shell_exits code (i + 1)
        | stops s ↦ returns s (i + 1)
        | goes_on s ↦ cmd_line_exec errno all_exit (i + 1) s l
      ]
  unfolding cmd_line_exec
  exec_step i status c l w e = rw (e, cmd_line_exec) refl

  body_stays :
      (i status : ℕ) (c : Command) (l : CommandList) (op : ControlOp)
      → op_of c ≡ op
      → bad_pipe op l ≡ false
      → parent_exits errno c ≡ none
      → body errno (all_exit i c) c l status ≡ after op (exited (status_of i c)) status
  unfolding body
  body_stays i status c l op e b p =
      rw (e, b, p) (ap (λ (o : ControlOp). after o (exited (status_of i c)) status) e)

  -- A list joined by `;`, whose commands all exit and are not the builtin `exit`, runs every
  -- command and returns the status of the last.
  pub exec_in_turn :
      (i status : ℕ) (l : CommandList)
      → Chains cmd_semicolon l
      → Stays errno l
      → cmd_line_exec errno all_exit i status l
        ≡ returns (in_turn i status l).0 (in_turn i status l).1
  unfolding cmd_line_exec after bad_pipe
  exec_in_turn i status null ch st = refl
  exec_in_turn i status (cons c null) ch st =
      exec_step i status c null _ (body_stays i status c null cmd_end ch refl st.0)
  exec_in_turn i status (cons c (cons d l)) ch st =
      exec_step i status c (cons d l) _
        (body_stays i status c (cons d l) cmd_semicolon ch.0 refl st.0)
      ∙ exec_in_turn (i + 1) (status_of i c) (cons d l) ch.1 st.1

  -- A list joined by `||`, whose commands all exit and are not the builtin `exit`, stops at the
  -- first command that succeeds, with status 0, and else returns the status of the last.
  pub exec_first_success :
      (i status : ℕ) (l : CommandList)
      → Chains cmd_or l
      → Stays errno l
      → cmd_line_exec errno all_exit i status l
        ≡ returns (first_success i status l).0 (first_success i status l).1
  unfolding cmd_line_exec after bad_pipe
  exec_first_success i status null ch st = refl
  exec_first_success i status (cons c null) ch st =
      exec_step i status c null _ (body_stays i status c null cmd_end ch refl st.0) ∙ ground arith
  exec_first_success i status (cons c (cons d l)) ch st =
      exec_step i status c (cons d l) _ (body_stays i status c (cons d l) cmd_or ch.0 refl st.0)
      ∙ ground (arith, exec_first_success (i + 1) (status_of i c) (cons d l) ch.1 st.1)

  -- The defect: a command before `&&` that exits with a status other than 0 ends the list, and the
  -- list returns the status that stood before it, which at the start of a list is 0.
  pub exec_and_fails :
      (i status : ℕ) (c : Command) (l : CommandList)
      → op_of c ≡ cmd_and
      → parent_exits errno c ≡ none
      → status_of i c ≢ 0
      → cmd_line_exec errno all_exit i status (cons c l) ≡ returns status (i + 1)
  unfolding after bad_pipe
  exec_and_fails i status c l op p bad =
      exec_step i status c l _ (body_stays i status c l cmd_and op refl p) ∙ ground arith
