-- ===== src/Shell/Print.antt =====
-- How a command list is printed (lab2/cmdparse.c, `cmd_print`). The digits that `printf` writes for
-- `%d` are a parameter.
use neu_cs5600_cmpsys.Base.{
  ℕ, ◌+◌, ◌≡◌, refl, ◌∙◌, true, false, List, [], ◌∷◌, ◌++◌, Option, none, some, if◌then◌else◌,
  length, replicate, take,
}
use neu_cs5600_cmpsys.Base.Bytes.{Bytes, codes}
use neu_cs5600_cmpsys.Base.Chain.{◌>>=◌}
use neu_cs5600_cmpsys.Shell.Parse.{
  max_tokens, ControlOp, cmd_end, cmd_semicolon, cmd_background, cmd_pipe, cmd_and, cmd_or,
  Redirects, command, CommandList, null, cons, is_null, closes, operator,
}
use neu_cs5600_cmpsys.Shell.Parse.Shape.{
  closes-ends_line, simple, grouped, IsLine, last, more, not-IsLine-null,
}

abbrev pub print_op : ControlOp → Bytes
print_op cmd_semicolon = codes ";"
print_op cmd_background = codes "&"
print_op cmd_pipe = codes "|"
print_op cmd_and = codes "&&"
print_op cmd_or = codes "||"
print_op cmd_end = codes "."

-- ` "%s"` for each argument
abbrev pub print_args : List Bytes → Bytes
print_args [] = []
print_args (a ∷ argv) = codes " \"" ++ a ++ codes "\"" ++ print_args argv

abbrev pub print_redirect : Bytes → Option Bytes → Bytes
print_redirect sign none = []
print_redirect sign (some file) = sign ++ file

abbrev pub print_redirects : Redirects → Bytes
print_redirects r =
    print_redirect (codes " <") r.stdin
    ++ print_redirect (codes " >") r.stdout
    ++ print_redirect (codes " 2>") r.stderr

-- `%*s` of the empty string
abbrev pub spaces : ℕ → Bytes
spaces indent = replicate indent b' '

-- A subshell stands on a line of its own.
abbrev pub print_subshell : CommandList → Option Bytes → Option Bytes
print_subshell null printed = some []
print_subshell (cons c l) printed = do text ← printed; some (codes "\n" ++ text)

-- `none`: the assertion on the last operator of a list fails.
module _ (decimal : ℕ → Bytes) where
  unfoldable pub cmd_print : CommandList → ℕ → Option Bytes
  cmd_print null indent = some (spaces indent ++ codes "[NULL]\n")
  cmd_print (cons (command argv r subshell op) next) indent =
      let args = take max_tokens argv in
      let inside = cmd_print subshell (indent + 2) in
      let rest = cmd_print next indent in
      do
        inner ← print_subshell subshell inside
        let text =
            spaces indent
            ++ codes "["
            ++ decimal (length args)
            ++ codes " args"
            ++ print_args args
            ++ print_redirects r
            ++ inner
            ++ codes "] "
            ++ print_op op
            ++ codes "\n"
        (if is_null next
            then (if closes op then some text else none)
            else (rest >>= λ more. some (text ++ more)))

  abbrev Prints : CommandList → ℕ → Type 0
  Prints l indent = (text : Bytes) × (cmd_print l indent ≡ some text)

  subshell_text :
      (sub : CommandList) (indent : ℕ)
      → Prints sub (indent + 2)
      → (text : Bytes) × (print_subshell sub (cmd_print sub (indent + 2)) ≡ some text)
  subshell_text null indent p = ([], refl)
  subshell_text (cons c l) indent p = (codes "\n" ++ p.0, rw p.1 refl)

  last_text :
      (argv : List Bytes) (r : Redirects) (sub : CommandList) (op : ControlOp) (indent : ℕ)
      → Prints sub (indent + 2)
      → closes op ≡ true
      → Prints (cons (command argv r sub op) null) indent
  unfolding cmd_print
  last_text argv r sub op indent p e =
      let (text, q) = subshell_text sub indent p in rw (q, e) (_, refl)

  longer_text :
      (argv : List Bytes) (r : Redirects) (sub : CommandList) (op : ControlOp) (next : CommandList)
      (indent : ℕ)
      → Prints sub (indent + 2)
      → Prints next indent
      → is_null next ≡ false
      → Prints (cons (command argv r sub op) next) indent
  unfolding cmd_print
  longer_text argv r sub op next indent p n e =
      let (text, q) = subshell_text sub indent p in rw (q, e, n.1) (_, refl)

  -- The list that the parser gives for a line is printed: the assertion on the operator behind the
  -- last command of a list holds, in every subshell too.
  pub cmd_print_total :
      (l : CommandList) (indent : ℕ) → IsLine l → (text : Bytes) × (cmd_print l indent ≡ some text)
  unfolding operator cmd_print
  cmd_print_total _ indent (last (command _ _ _ _) (simple argv r op lo hi) e) =
      last_text argv r null op indent (spaces (indent + 2) ++ codes "[NULL]\n", refl)
        (closes-ends_line op ∙ e)
  cmd_print_total _ indent (last (command _ _ _ _) (grouped r sub op w) e) =
      last_text [] r sub op indent (cmd_print_total sub (indent + 2) w) (closes-ends_line op ∙ e)
  cmd_print_total _ indent (more (command _ _ _ _) l (simple argv r op lo hi) j w) =
      longer_text argv r null op l indent (spaces (indent + 2) ++ codes "[NULL]\n", refl)
        (cmd_print_total l indent w) (not-IsLine-null l w)
  cmd_print_total _ indent (more (command _ _ _ _) l (grouped r sub op v) j w) =
      longer_text [] r sub op l indent (cmd_print_total sub (indent + 2) v)
        (cmd_print_total l indent w) (not-IsLine-null l w)
