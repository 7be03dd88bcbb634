-- ===== src/Shell/Tests.antt =====
-- A concrete command list, printed and given back (lab2/cmdparse.c).
use neu_cs5600_cmpsys.Base.{ℕ, ◌+◌, ◌≡◌, refl, [], ◌∷◌, none, some, arith, length}
use neu_cs5600_cmpsys.Base.Bytes.{Bytes, codes}
use neu_cs5600_cmpsys.Shell.Parse.{
  cmd_semicolon, cmd_end, command, CommandList, null, cons, Redirects, operator,
}
use neu_cs5600_cmpsys.Shell.Parse.Shape.{simple, grouped, IsLine, last, more}
use neu_cs5600_cmpsys.Shell.Print.{cmd_print}
use neu_cs5600_cmpsys.Shell.Free.{blocks, cmd_free, leaks, blocks-cmd_free}

-- The digits of a number below ten.
abbrev digits : ℕ → Bytes
digits n = (b'0' + n) ∷ []

abbrev no_files : Redirects
no_files = record { stdin = none; stdout = none; stderr = none }

abbrev to_f : Redirects
to_f = record { stdin = none; stdout = some (codes "f"); stderr = none }

-- `ls; (pwd) > f`
abbrev two : CommandList
two = cons (command (codes "ls" ∷ []) no_files null cmd_semicolon) (
    cons (command [] to_f (cons (command (codes "pwd" ∷ []) no_files null cmd_end) null) cmd_end)
      null)

two-IsLine : IsLine two
unfolding operator
two-IsLine = more _ _ (simple _ no_files cmd_semicolon (omega arith) (omega arith)) refl (
    last _
      (grouped to_f _ cmd_end (last _ (simple _ no_files cmd_end (omega arith) (omega arith)) refl))
      refl)

printed :
    cmd_print digits two 0
    ≡ some (codes "[1 args \"ls\"] ;\n[0 args >f\n  [1 args \"pwd\"] .\n] .\n")
unfolding cmd_print
printed = refl

one_leak : leaks two ≡ 1
unfolding leaks
one_leak = refl

blocks-cmd_free_example : length (blocks two) ≡ length (cmd_free two) + leaks two
blocks-cmd_free_example = blocks-cmd_free two two-IsLine
