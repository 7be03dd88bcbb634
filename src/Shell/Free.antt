-- ===== src/Shell/Free.antt =====
-- Which blocks of a command list are given back (lab2/cmdparse.c, `cmd_free`).
use neu_cs5600_cmpsys.Base.{
  ℕ, ◌+◌, ◌≡◌, ◌≤◌, refl, List, [], ◌∷◌, ◌++◌, Option, none, some, take, map, length, length-append,
  length-map, length-take, arith,
}
use neu_cs5600_cmpsys.Base.Bytes.{Bytes}
use neu_cs5600_cmpsys.Shell.Parse.{
  max_tokens, ControlOp, Redirects, command, CommandList, null, cons,
}
use neu_cs5600_cmpsys.Shell.Parse.Shape.{simple, grouped, IsLine, last, more}

-- A block that the parser allocated: the copy of an argument, of a file name, or a command.
pub data Block : Type 0 where
  arg : Bytes → Block
  file : Bytes → Block
  node : Block

-- The loop over `redirect_filename` stops at the first NULL.
abbrev pub free_files : List (Option Bytes) → List Block
free_files [] = []
free_files (none ∷ names) = []
free_files (some name ∷ names) = file name ∷ free_files names

abbrev pub names : Redirects → List (Option Bytes)
names r = r.stdin ∷ r.stdout ∷ r.stderr ∷ []

-- The calls of `free`, in their order.
pub cmd_free : CommandList → List Block
cmd_free null = []
cmd_free (cons (command argv r subshell op) next) =
    map (λ a. arg a) (take max_tokens argv)
    ++ free_files (names r)
    ++ cmd_free subshell
    ++ cmd_free next
    ++ node ∷ []

-- What the parser allocated for a list: the specification.
abbrev pub all_files : List (Option Bytes) → List Block
all_files [] = []
all_files (none ∷ names) = all_files names
all_files (some name ∷ names) = file name ∷ all_files names

pub blocks : CommandList → List Block
blocks null = []
blocks (cons (command argv r subshell op) next) =
    map (λ a. arg a) argv ++ all_files (names r) ++ blocks subshell ++ blocks next ++ node ∷ []

-- The file names that stand behind the first NULL.
abbrev pub behind_gap : List (Option Bytes) → ℕ
behind_gap [] = 0
behind_gap (none ∷ names) = length (all_files names)
behind_gap (some name ∷ names) = behind_gap names

unfoldable pub leaks : CommandList → ℕ
leaks null = 0
leaks (cons (command argv r subshell op) next) = behind_gap (names r) + leaks subshell + leaks next

free_files_lem :
    (files : List (Option Bytes))
    → length (all_files files) ≡ length (free_files files) + behind_gap files
free_files_lem [] = refl
free_files_lem (none ∷ files) = omega arith
free_files_lem (some name ∷ files) = omega (arith, free_files_lem files)

-- Five parts, one behind the other.
length_parts :
    (a b c d e : List Block)
    → length (a ++ b ++ c ++ d ++ e) ≡ length a + length b + length c + length d + length e
length_parts a b c d e = omega (
  arith,
  length-append (a ++ b ++ c ++ d) e,
  length-append (a ++ b ++ c) d,
  length-append (a ++ b) c,
  length-append a b,
)

freed_node :
    (argv : List Bytes) (r : Redirects) (sub : CommandList) (op : ControlOp) (next : CommandList)
    → length argv ≤ max_tokens
    → length (blocks sub) ≡ length (cmd_free sub) + leaks sub
    → length (blocks next) ≡ length (cmd_free next) + leaks next
    → length (blocks (cons (command argv r sub op) next))
      ≡ length (cmd_free (cons (command argv r sub op) next))
        + leaks (cons (command argv r sub op) next)
unfolding blocks cmd_free leaks
freed_node argv r sub op next few s n = omega (
  arith,
  length_parts (map (λ a. arg a) argv) (all_files (names r)) (blocks sub) (blocks next) (node ∷ []),
  length_parts (map (λ a. arg a) (take max_tokens argv)) (free_files (names r)) (cmd_free sub)
      (cmd_free next) (node ∷ []),
  length-map argv (λ a. arg a),
  length-map (take max_tokens argv) (λ a. arg a),
  length-take max_tokens argv,
  free_files_lem (names r),
  few,
  s,
  n,
)

-- For a list that the parser makes, `cmd_free` gives back all blocks, except the names of files
-- that stand behind a missing redirection: `cmd > f` leaks the name `f`, since its input is not
-- redirected.
pub blocks-cmd_free :
    (l : CommandList) → IsLine l → length (blocks l) ≡ length (cmd_free l) + leaks l
unfolding blocks cmd_free leaks
blocks-cmd_free _ (last _ (simple argv r op lo hi) e) = freed_node argv r null op null hi refl refl
blocks-cmd_free _ (last _ (grouped r sub op w) e) =
    freed_node [] r sub op null (omega arith) (blocks-cmd_free sub w) refl
blocks-cmd_free _ (more _ l (simple argv r op lo hi) j w) =
    freed_node argv r null op l hi refl (blocks-cmd_free l w)
blocks-cmd_free _ (more _ l (grouped r sub op v) j w) =
    freed_node [] r sub op l (omega arith) (blocks-cmd_free sub v) (blocks-cmd_free l w)
