-- ===== src/Shell/Token.antt =====
-- The tokenizer of the shell (lab2/cmdparse.c, lab2/cmdparse.h). A position in the line is what is
-- left of the line from there.
pub mod Laws
pub mod Quote
mod Tests
use neu_cs5600_cmpsys.Base.{
  ℕ, zero, suc, ◌+◌, ◌-◌, Bool, true, false, not, ◌&&◌, ◌||◌, List, [], ◌∷◌, ◌++◌, Option, none,
  some, leb, ◌==◌, if◌then◌else◌, length,
}
use neu_cs5600_cmpsys.Base.Bytes.{Bytes, codes, streq, isspace, skip_spaces}

abbrev pub token_size : ℕ
token_size = 1024

pub data TokenType : Type 0 where
  tok_error tok_end normal less_than greater_than two_greater_than semicolon ampersand pipe
        double_amp double_pipe open_paren close_paren :
      TokenType

pub record ParseState : Type 0 where
  pub position : Bytes
  pub last_position : Option Bytes

pub record Token : Type 0 where
  pub type : TokenType
  pub buffer : Bytes

unfoldable pub parse_init : Bytes → ParseState
parse_init line = record { position = line; last_position = none }

-- How the loop over one token ends: with a token too long, or with the two bits of `quote_state`
-- (`"` and the backquote), `any_quotes`, the buffer, and the rest of the line.
pub data Scan : Type 0 where
  too_long : Scan
  ended : Bool → Bool → Bool → Bytes → Bytes → Scan

-- `(`, `)` and `;` end a token even with no space before them.
pub is_special : ℕ → Bool
is_special c = c == b'(' || c == b')' || c == b';'

-- A special character outside quotes is a token by itself, or is left for the next token.
pub special : Bool → Bool → Bool → Bytes → ℕ → Bytes → Scan
special d b any [] c s = ended d b any (c ∷ []) s
special d b any (x ∷ buf) c s = ended d b any (x ∷ buf) (c ∷ s)

pub scan : Bool → Bool → Bool → Bytes → Bytes → Scan
unfolding is_special special
scan d b any buf [] = ended d b any buf []
scan d b any buf (c ∷ s) =
    let b' = if c == b'`' then not b else b in
    let any' = if c == b'`' then true else any in
    let after_quote = scan (not d) b true buf s in
    let after_char = scan d b' any' (buf ++ c ∷ []) s in
    if not (d || b) && isspace c
    then ended d b any buf (c ∷ s)
    else if c == b'"'
    then after_quote
    else if leb (token_size - 1) (length buf)
    then too_long
    else if is_special c && not (d || b')
    then special d b' any' buf c s
    else after_char

-- Quoted special tokens are normal ones.
pub classify : Bool → Bytes → TokenType
classify any buf =
    if any
    then normal
    else if streq buf (codes "<")
    then less_than
    else if streq buf (codes ">")
    then greater_than
    else if streq buf (codes "2>")
    then two_greater_than
    else if streq buf (codes "&")
    then ampersand
    else if streq buf (codes ";")
    then semicolon
    else if streq buf (codes "|")
    then pipe
    else if streq buf (codes "&&")
    then double_amp
    else if streq buf (codes "||")
    then double_pipe
    else if streq buf (codes "(")
    then open_paren
    else if streq buf (codes ")")
    then close_paren
    else normal

pub error_token : Token
error_token = record { type = tok_error; buffer = [] }

-- What is made of a finished scan: an error leaves the state as it was.
pub finish_token : ParseState → Scan → ParseState × Token
unfolding classify error_token
finish_token st too_long = (st, error_token)
finish_token st (ended d b any buf rest) = if d || b then (st, error_token) else (
  record { position = rest; last_position = some st.position },
  record { type = classify any buf; buffer = buf },
)

pub gettoken_at : ParseState → Bytes → ParseState × Token
unfolding scan finish_token
gettoken_at st [] =
    (record st { last_position = some st.position }, record { type = tok_end; buffer = [] })
gettoken_at st (c ∷ s) = finish_token st (scan false false false [] (c ∷ s))

pub parse_gettoken : ParseState → ParseState × Token
unfolding gettoken_at skip_spaces
parse_gettoken st = gettoken_at st (skip_spaces st.position)

-- `none`: the assertion that a token can be given back fails.
pub parse_ungettoken : ParseState → Option ParseState
parse_ungettoken st = elim st.last_position [
  | none ↦ none
  | some p ↦ some (record { position = p; last_position = none })
]
