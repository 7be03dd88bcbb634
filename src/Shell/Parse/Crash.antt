-- ===== src/Shell/Parse/Crash.antt =====
-- An unterminated quote, met by the parser (lab2/cmdparse.c).
use neu_cs5600_cmpsys.Base.{ℕ, suc, ◌≡◌, refl, ap, ◌∙◌, [], ◌∷◌, Option, none}
use neu_cs5600_cmpsys.Base.Bytes.{Bytes}
use neu_cs5600_cmpsys.Shell.Token.{
  tok_error, ParseState, Token, parse_init, parse_gettoken, parse_ungettoken,
}
use neu_cs5600_cmpsys.Shell.Token.Quote.{NoQuote, gettoken_open}
use neu_cs5600_cmpsys.Shell.Token.Laws.{ungettoken_none, init_last}
use neu_cs5600_cmpsys.Shell.Parse.{
  crash, cmd_alloc, cmd_parse, cmd_line_parse, parse_line, complete,
}

-- A call of the parser whose first token is an error gives back a token that was never read.
parse_crash :
    (fuel : ℕ) (st : ParseState)
    → st.last_position ≡ none
    → parse_gettoken st ≡ (st, record { type = tok_error; buffer = [] })
    → cmd_parse (suc fuel) cmd_alloc st ≡ crash
unfolding cmd_parse
parse_crash fuel st none_kept e =
    let h : parse_ungettoken (parse_gettoken st).0 ≡ none =
      ap (λ (r : ParseState × Token). parse_ungettoken r.0) e ∙ ungettoken_none st none_kept in
    rw (e, cmd_parse) (ap (λ (o : Option ParseState). complete cmd_alloc o) h)

-- The defect: a line that begins with a double quote, with no other in it, fails the assertion in
-- `parse_ungettoken`, for any fuel that allows two calls, in place of a syntax error.
pub parse_line_crash :
    (fuel : ℕ) (s : Bytes) → NoQuote s → parse_line (suc (suc fuel)) (b'"' ∷ s) ≡ crash
unfolding parse_line cmd_line_parse
parse_line_crash fuel s q =
    rw (parse_crash fuel (parse_init (b'"' ∷ s)) (init_last (b'"' ∷ s)) (gettoken_open s q)) refl
