-- ===== src/Shell/Parse.antt =====
-- The parser of the shell (lab2/cmdparse.c). A NULL command pointer is the empty list, so the list
-- that `next` makes and a subshell are lists of commands. Fuel bounds the calls that are open at
-- once and the tokens that they read.
pub mod Shape
pub mod Progress
pub mod CommandEnds
pub mod Separators
pub mod ListEnds
pub mod Total
pub mod Crash
mod Tests
use neu_cs5600_cmpsys.Base.{
  ℕ, zero, suc, ◌+◌, ◌-◌, Bool, true, false, not, ◌&&◌, ◌||◌, List, [], ◌∷◌, ◌++◌, Option, none,
  some, leb, ltb, ◌==◌, if◌then◌else◌, length,
}
use neu_cs5600_cmpsys.Base.Bytes.{Bytes}
use neu_cs5600_cmpsys.Shell.Token.{
  TokenType, tok_error, tok_end, normal, less_than, greater_than, two_greater_than, semicolon,
  ampersand, pipe, double_amp, double_pipe, open_paren, close_paren, ParseState, Token, parse_init,
  parse_gettoken, parse_ungettoken,
}

abbrev pub max_tokens : ℕ
max_tokens = 512

pub data ControlOp : Type 0 where
  cmd_end cmd_semicolon cmd_background cmd_pipe cmd_and cmd_or : ControlOp

-- Standard input, output and error.
pub record Redirects : Type 0 where
  pub stdin : Option Bytes
  pub stdout : Option Bytes
  pub stderr : Option Bytes

mutual
  -- The arguments, the redirections, the subshell and the operator behind the command.
  pub data Command : Type 0 where
    command : List Bytes → Redirects → CommandList → ControlOp → Command

  pub data CommandList : Type 0 where
    null : CommandList
    cons : Command → CommandList → CommandList

-- How a call of the parser ends: with a failed assertion, with NULL, or with a result and the state
-- of the tokenizer; or the fuel is used up.
pub data Parsed (A : Type 0) : Type 0 where
  crash : Parsed A
  unfinished : Parsed A
  syntax_error : Parsed A
  parsed : A → ParseState → Parsed A

abbrev pub then_parse : {A B : Type 0} → Parsed A → (A → ParseState → Parsed B) → Parsed B
then_parse crash f = crash
then_parse unfinished f = unfinished
then_parse syntax_error f = syntax_error
then_parse (parsed a st) f = f a st

-- The command under construction; `argc` is the length of its arguments.
pub record Draft : Type 0 where
  pub argv : List Bytes
  pub redirects : Redirects
  pub subshell : CommandList

pub cmd_alloc : Draft
cmd_alloc = record {
  argv = [];
  redirects = record { stdin = none; stdout = none; stderr = none };
  subshell = null;
}

abbrev pub is_null : CommandList → Bool
is_null null = true
is_null (cons c l) = false

abbrev pub has_args : List Bytes → Bool
has_args [] = false
has_args (a ∷ as') = true

-- `i == 0 && !cmd->subshell`
abbrev pub is_empty : Draft → Bool
is_empty d = not (has_args d.argv) && is_null d.subshell

-- `redirect_filename[fd]` for `<`, `>` and `2>`
pub redirect : TokenType → Bytes → Redirects → Redirects
redirect less_than file r = record r { stdin = some file }
redirect greater_than file r = record r { stdout = some file }
redirect _ file r = record r { stderr = some file }

abbrev pub is_normal : TokenType → Bool
is_normal normal = true
is_normal _ = false

-- The three redirections: the token behind the operator has to be a normal one.
pub redirected : TokenType → Draft → ParseState → Parsed Draft
unfolding redirect
redirected op d st =
    if is_empty d
    then syntax_error
    else (let (st', t) = parse_gettoken st in
        if is_normal t.type
        then parsed (record d { redirects = redirect op t.buffer d.redirects }) st'
        else syntax_error)

-- The label `done` of `cmd_parse`, after the token that ends the command is given back.
pub complete : Draft → Option ParseState → Parsed Command
complete d none = crash
complete d (some st) =
    if is_empty d then syntax_error else parsed (command d.argv d.redirects d.subshell cmd_end) st

-- `cmd->controlop = op`
pub joined : ControlOp → Command → Command
joined op (command argv r sub _) = command argv r sub op

abbrev pub is_end : TokenType → Bool
is_end tok_end = true
is_end _ = false

-- `prev_cmd->next = cmd`
pub append : CommandList → Command → CommandList
append null c = cons c null
append (cons d l) c = cons d (append l c)

-- The label `ender`: the end of the line closes a top-level list, and a parenthesis a subshell.
-- The check at `done` that the last operator may end a line is `closes`.
abbrev pub closes : ControlOp → Bool
closes cmd_end = true
closes cmd_semicolon = true
closes cmd_background = true
closes _ = false

unfoldable pub operator : Command → ControlOp
operator (command argv r sub op) = op

pub ender : Bool → TokenType → CommandList → Command → ParseState → Parsed CommandList
unfolding append operator
ender in_parens t before c st =
    if (if is_end t then in_parens else not in_parens)
    then syntax_error
    else if closes (operator c)
    then parsed (append before c) st
    else syntax_error

mutual
  unfolding redirected complete joined append ender

  -- The loop of `cmd_parse` from a draft.
  pub cmd_parse : ℕ → Draft → ParseState → Parsed Command
  cmd_parse zero d st = unfinished
  cmd_parse (suc f) d st =
      let (st', t) = parse_gettoken st in
      elim t.type [
        | normal ↦
            let more = cmd_parse f (record d { argv = d.argv ++ t.buffer ∷ [] }) st' in
            if leb max_tokens (length d.argv) || not (is_null d.subshell)
            then syntax_error
            else more
        | less_than ↦ then_parse (redirected less_than d st') (cmd_parse f)
        | greater_than ↦ then_parse (redirected greater_than d st') (cmd_parse f)
        | two_greater_than ↦ then_parse (redirected two_greater_than d st') (cmd_parse f)
        | open_paren ↦
            let sub =
              then_parse (cmd_line_parse f null st' true)
                (λ l st₂. cmd_parse f (record d { subshell = l }) st₂) in
            if not (is_null d.subshell) || has_args d.argv then syntax_error else sub
        | _ ↦ complete d (parse_ungettoken st')
      ]

  -- The loop of `cmd_line_parse`, with the commands before this one.
  pub cmd_line_parse : ℕ → CommandList → ParseState → Bool → Parsed CommandList
  cmd_line_parse zero before st in_parens = unfinished
  cmd_line_parse (suc f) before st in_parens =
      then_parse (cmd_parse f cmd_alloc st)
        λ c st₁. connect f before c (parse_gettoken st₁) in_parens

  -- The token behind a command.
  pub connect : ℕ → CommandList → Command → ParseState × Token → Bool → Parsed CommandList
  connect zero before c (st, t) in_parens = unfinished
  connect (suc f) before c (st, t) in_parens =
      let next = λ (op : ControlOp). cmd_line_parse f (append before (joined op c)) st in_parens in
      elim t.type [
        | double_amp ↦ next cmd_and
        | double_pipe ↦ next cmd_or
        | pipe ↦ next cmd_pipe
        | semicolon ↦ may_end f before (joined cmd_semicolon c) (parse_gettoken st) in_parens
        | ampersand ↦ may_end f before (joined cmd_background c) (parse_gettoken st) in_parens
        | tok_end ↦ ender in_parens tok_end before c st
        | close_paren ↦ ender in_parens close_paren before c st
        | _ ↦ syntax_error
      ]

  -- Behind `;` and `&` the line may end; any other token is given back.
  pub may_end : ℕ → CommandList → Command → ParseState × Token → Bool → Parsed CommandList
  may_end zero before c (st, t) in_parens = unfinished
  may_end (suc f) before c (st, t) in_parens = elim t.type [
    | tok_end ↦ ender in_parens tok_end before c st
    | close_paren ↦ ender in_parens close_paren before c st
    | _ ↦ elim (parse_ungettoken st) [
      | none ↦ crash
      | some st' ↦ cmd_line_parse f (append before c) st' in_parens
    ]
  ]

-- The call of `main` for one line of input.
pub parse_line : ℕ → Bytes → Parsed CommandList
parse_line fuel line = cmd_line_parse fuel null (parse_init line) false
