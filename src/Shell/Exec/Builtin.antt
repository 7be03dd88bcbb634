-- ===== src/Shell/Exec/Builtin.antt =====
-- The builtin `exit`, which the parent and the child both act on (lab2/cmdrun.c, `cmd_exec`).
use neu_cs5600_cmpsys.Base.{◌≡◌, ℕ, some, arith, [], ◌∷◌, List, inl, inr, Bool-cases}
use neu_cs5600_cmpsys.Base.Bytes.{codes, Bytes, streq, streq_iff}
use neu_cs5600_cmpsys.Shell.Parse.{Command, command, null, Redirects, ControlOp}
use neu_cs5600_cmpsys.Shell.Parse.Shape.{IsCommand, simple, grouped}
use neu_cs5600_cmpsys.Shell.Exec.{Os, exits, child, parent_exits}

exit_argv :
    (os : Os) (sub code : ℕ) (argv : List Bytes) (r : Redirects) (op : ControlOp)
    → parent_exits os.errno (command (codes "exit" ∷ argv) r null op) ≡ some code
    → child os sub (command (codes "exit" ∷ argv) r null op) ≡ exits code
unfolding child parent_exits streq
exit_argv os sub code [] r op e = ground arith
exit_argv os sub code (a ∷ []) r op e = ground arith
exit_argv os sub code (a ∷ b ∷ argv) r op e = absurd (ground arith)

-- When the builtin `exit` ends the shell, its child exits with the same status.
pub child-parent_exits :
    (os : Os) (sub code : ℕ) (c : Command)
    → IsCommand c
    → parent_exits os.errno c ≡ some code
    → child os sub c ≡ exits code
unfolding child parent_exits
child-parent_exits os sub code _ (simple [] r op lo hi) e = absurd (omega arith)
child-parent_exits os sub code _ (simple (a ∷ argv) r op lo hi) e =
    elim (Bool-cases (streq a (codes "exit"))) [
      | inl q ↦
          let same : a ≡ codes "exit" = ((streq_iff a (codes "exit")).0 q) in
          let h : parent_exits os.errno (command (a ∷ argv) r null op) ≡ some code
              → child os sub (command (a ∷ argv) r null op) ≡ exits code =
            rw same (exit_argv os sub code argv r op) in
          h e
      | inr q ↦ absurd (ground arith)
    ]
child-parent_exits os sub code _ (grouped r l op w) e = absurd (ground arith)
