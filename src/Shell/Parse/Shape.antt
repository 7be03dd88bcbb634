-- ===== src/Shell/Parse/Shape.antt =====
-- What a command list of the parser looks like (lab2/cmdparse.h, lab2/cmdparse.c).
use neu_cs5600_cmpsys.Base.{
  ◌≤◌, ◌<◌, ◌≡◌, refl, sym, ◌∙◌, Bool, true, false, not, ◌&&◌, List, [], ◌∷◌, length, arith,
}
use neu_cs5600_cmpsys.Base.Bytes.{Bytes}
use neu_cs5600_cmpsys.Shell.Parse.{
  max_tokens, ControlOp, cmd_end, cmd_semicolon, cmd_background, cmd_pipe, cmd_and, cmd_or,
  Redirects, Command, command, CommandList, null, cons, Draft, is_null, has_args, joined, append,
  closes, operator,
}

-- An operator that may stand at the end of a line.
abbrev pub ends_line : ControlOp → Bool
ends_line cmd_end = true
ends_line cmd_semicolon = true
ends_line cmd_background = true
ends_line cmd_pipe = false
ends_line cmd_and = false
ends_line cmd_or = false

pub closes-ends_line : (op : ControlOp) → closes op ≡ ends_line op
closes-ends_line op = ground arith

-- An operator behind which another command stands.
abbrev pub joins : ControlOp → Bool
joins cmd_end = false
joins _ = true

mutual
  -- A command has from one to `max_tokens` arguments and no subshell, or a subshell and no
  -- argument.
  pub data IsCommand : Command → Type 0 where
    simple :
        (argv : List Bytes) (r : Redirects) (op : ControlOp)
        → 0 < length argv
        → length argv ≤ max_tokens
        → IsCommand (command argv r null op)
    grouped :
        (r : Redirects) (sub : CommandList) (op : ControlOp)
        → IsLine sub
        → IsCommand (command [] r sub op)

  -- At least one command; an operator that joins behind each but the last, and one that may end a
  -- line behind the last.
  pub data IsLine : CommandList → Type 0 where
    last : (c : Command) → IsCommand c → ends_line (operator c) ≡ true → IsLine (cons c null)
    more :
        (c : Command) (l : CommandList)
        → IsCommand c
        → joins (operator c) ≡ true
        → IsLine l
        → IsLine (cons c l)

-- Commands that more are to follow.
abbrev pub Before : CommandList → Type 0
Before null = Unit
Before (cons c l) = IsCommand c × (joins (operator c) ≡ true) × Before l

pub append-Before :
    (l : CommandList) (c : Command)
    → Before l
    → IsCommand c
    → joins (operator c) ≡ true
    → Before (append l c)
unfolding append
append-Before null c b w j = (w, j, tt)
append-Before (cons d l) c b w j = (b.0, b.1, append-Before l c b.2 w j)

pub append-IsLine :
    (l : CommandList) (c : Command)
    → Before l
    → IsCommand c
    → closes (operator c) ≡ true
    → IsLine (append l c)
unfolding append
append-IsLine null c b w e = last c w (sym (closes-ends_line (operator c)) ∙ e)
append-IsLine (cons d l) c b w e = more d (append l c) b.0 b.1 (append-IsLine l c b.2 w e)

pub joined-IsCommand : (op : ControlOp) (c : Command) → IsCommand c → IsCommand (joined op c)
unfolding joined
joined-IsCommand op c (simple argv r _ lo hi) = simple argv r op lo hi
joined-IsCommand op c (grouped r sub _ w) = grouped r sub op w

pub operator-joined : (op : ControlOp) (c : Command) → operator (joined op c) ≡ op
unfolding operator joined
operator-joined op (command argv r sub _) = refl

-- A subshell that is there is a line.
abbrev pub SubLine : CommandList → Type 0
SubLine null = Unit
SubLine (cons c l) = IsLine (cons c l)

pub record IsDraft (d : Draft) : Type 0 where
  pub few : length d.argv ≤ max_tokens
  pub apart : (has_args d.argv && not (is_null d.subshell)) ≡ false
  pub sub : SubLine d.subshell

pub IsLine-SubLine : (l : CommandList) → IsLine l → SubLine l
IsLine-SubLine null w = tt
IsLine-SubLine (cons c l) w = w

pub not-IsLine-null : (l : CommandList) → IsLine l → is_null l ≡ false
not-IsLine-null l (last c w e) = refl
not-IsLine-null l (more c k w e v) = refl

-- A draft that is not empty is a command.
pub IsDraft-IsCommand :
    (argv : List Bytes) (r : Redirects) (sub : CommandList)
    → IsDraft (record { argv = argv; redirects = r; subshell = sub })
    → (not (has_args argv) && is_null sub) ≡ false
    → IsCommand (command argv r sub cmd_end)
IsDraft-IsCommand [] r null w e = absurd (let h : true ≡ false = e in cc)
IsDraft-IsCommand [] r (cons c l) w e = grouped r (cons c l) cmd_end w.sub
IsDraft-IsCommand (x ∷ argv) r null w e = simple (x ∷ argv) r cmd_end (omega arith) w.few
IsDraft-IsCommand (x ∷ argv) r (cons c l) w e = absurd (let h : true ≡ false = w.apart in cc)
