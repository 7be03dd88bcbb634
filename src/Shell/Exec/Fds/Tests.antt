-- ===== src/Shell/Exec/Fds/Tests.antt =====
-- A pipeline's descriptors on a system that gives the lowest one that is free (lab2/cmdrun.c).
use neu_cs5600_cmpsys.Base.{
  ℕ, zero, suc, ◌≡◌, ◌≢◌, refl, sym, ap, ◌∙◌, true, false, [], ◌∷◌, Option, none, some, arith,
  Option-cases, Bool-cases, inl, inr, ◌==◌, if◌then◌else◌,
}
use neu_cs5600_cmpsys.Base.Bytes.{Bytes, codes}
use neu_cs5600_cmpsys.Base.Chain.{◌>>=◌, >>=-eq-some}
use neu_cs5600_cmpsys.Shell.Parse.{
  cmd_end, cmd_pipe, Command, command, Redirects, CommandList, null, cons, operator,
}
use neu_cs5600_cmpsys.Shell.Parse.Shape.{simple, IsLine, last, more}
use neu_cs5600_cmpsys.Shell.Exec.Fds.{
  Flags, inherited, File, Fds, put, IsPipe, IsOpen, Kept, cmd_fds, line_fds, fork_fds, child_fds,
  parent_fds,
}
use neu_cs5600_cmpsys.Shell.Exec.Fds.Tables.{Between}
use neu_cs5600_cmpsys.Shell.Exec.Fds.Pipeline.{Wires, cmd_fds-Wires}
use neu_cs5600_cmpsys.Shell.Exec.Fds.Line.{OnlyThree, line_fds-OnlyThree}

-- The lowest free descriptor from `d` on.
abbrev lowest : ℕ → ℕ → Fds → Option ℕ
lowest zero d fds = none
lowest (suc f) d fds = elim (fds d) [ none ↦ some d | some g ↦ lowest f (suc d) fds ]

lowest_free : (f d a : ℕ) (fds : Fds) → lowest f d fds ≡ some a → fds a ≡ none
lowest_free zero d a fds h = absurd (ground arith)
lowest_free (suc f) d a fds h = elim (Option-cases (fds d)) [
  | inl free ↦
      let e : some d ≡ some a = rw (free, lowest) at h in
      let q : d ≡ a = ground (arith, e) in ap fds (sym q) ∙ free
  | inr (g, used) ↦ lowest_free f (suc d) a fds (rw (used, lowest) at h)
]

abbrev lowest_two : Fds → Option (ℕ × ℕ)
lowest_two fds =
    lowest 16 0 fds >>= λ r. (lowest 16 0 (put fds r (some (inherited 0))) >>= λ w. some (r, w))

abbrev lowest_one : Fds → Flags → Bytes → Option ℕ
lowest_one fds flags name = lowest 16 0 fds

lowest_one-IsOpen : IsOpen lowest_one
lowest_one-IsOpen fds flags name d h = lowest_free 16 0 d fds h

free_other :
    (fds : Fds) (r w : ℕ) → put fds r (some (inherited 0)) w ≡ none → (fds w ≡ none) × (r ≢ w)
free_other fds r w h = elim (Bool-cases (w == r)) [
  | inl same ↦ absurd (let q : some (inherited 0) ≡ none = rw (same, put) at h in ground (arith, q))
  | inr other ↦ (rw (other, put) at h, λ q. absurd (ground arith))
]

lowest_two-IsPipe : IsPipe lowest_two
lowest_two-IsPipe fds r w h =
    let (a, first, h₁) = >>=-eq-some (lowest 16 0 fds) _ h in
    let (b, second, h₂) = >>=-eq-some (lowest 16 0 (put fds a (some (inherited 0)))) _ h₁ in
    let (free, ne) =
      free_other fds a b (lowest_free 16 0 b (put fds a (some (inherited 0))) second) in
    let ea : a ≡ r = ground (arith, h₂) in
    let eb : b ≡ w = ground (arith, h₂) in
    (
      ap fds (sym ea) ∙ lowest_free 16 0 a fds first,
      ap fds (sym eb) ∙ free,
      λ q. ne (ea ∙ q ∙ sym eb),
    )

-- The shell as it was started.
abbrev at_start : Fds
at_start d =
    if d == 0
    then some (inherited 0)
    else if d == 1
    then some (inherited 1)
    else if d == 2
    then some (inherited 2)
    else none

at_start-Between : Between at_start 0 none (inherited 0) (inherited 1) (inherited 2)
at_start-Between =
    (refl, record { input = refl; output = refl; error = refl; others = λ d h n. ground arith })

abbrev no_files : Redirects
no_files = record { stdin = none; stdout = none; stderr = none }

abbrev to_file : Redirects
to_file = record { stdin = none; stdout = some (codes "f"); stderr = none }

abbrev list_command : Command
list_command = command (codes "ls" ∷ []) no_files null cmd_pipe

abbrev count_command : Command
count_command = command (codes "wc" ∷ []) to_file null cmd_end

-- `ls | wc > f`
abbrev pipeline : CommandList
pipeline = cons list_command (cons count_command null)

pipeline-IsLine : IsLine pipeline
unfolding operator
pipeline-IsLine =
    more _ _ (simple _ no_files cmd_pipe (omega arith) (omega arith)) refl
      (last _ (simple _ to_file cmd_end (omega arith) (omega arith)) refl)

cmd_fds-Wires_example :
    Wires lowest_one
      (record { fork_ok = true; last = false; piped = true; ends = some (3, 4) })
      0
      no_files
      0
      none
      (inherited 0)
      (inherited 1)
      (inherited 2)
      (cmd_fds lowest_two lowest_one true 0 list_command (cons count_command null) at_start 0)
cmd_fds-Wires_example =
    cmd_fds-Wires lowest_one lowest_one-IsOpen lowest_two lowest_two-IsPipe true 0 list_command
      (cons count_command null) at_start 0 none (inherited 0) (inherited 1) (inherited 2)
      at_start-Between

line_fds-OnlyThree_example :
    OnlyThree
      (line_fds lowest_two lowest_one 0 pipeline at_start 0)
      (inherited 0)
      (inherited 1)
      (inherited 2)
line_fds-OnlyThree_example =
    line_fds-OnlyThree lowest_two lowest_one lowest_two-IsPipe lowest_one-IsOpen 0 pipeline at_start
      0 none (inherited 0) (inherited 1) (inherited 2) pipeline-IsLine at_start-Between

-- No call fails, and the next pipe would get descriptors 3 and 4 again.
abbrev fds_of : Option Kept → ℕ → Option File
fds_of none d = some (inherited 9)
fds_of (some kept) d = kept.fds d

runs : fds_of (line_fds lowest_two lowest_one 0 pipeline at_start 0) 3 ≡ none
unfolding line_fds cmd_fds fork_fds child_fds parent_fds
runs = refl
