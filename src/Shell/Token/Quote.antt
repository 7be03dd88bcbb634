-- ===== src/Shell/Token/Quote.antt =====
-- A quote that nothing closes (lab2/cmdparse.c).
use neu_cs5600_cmpsys.Base.{
  ◌≡◌, refl, Bool, true, false, not, ◌&&◌, ◌||◌, [], ◌∷◌, ◌++◌, none, leb, ◌==◌, if◌then◌else◌,
  length, arith, if_ind,
}
use neu_cs5600_cmpsys.Base.Bytes.{Bytes, isspace, skip_spaces}
use neu_cs5600_cmpsys.Shell.Token.{
  tok_error, ParseState, Scan, too_long, ended, parse_init, scan, finish_token, gettoken_at,
  parse_gettoken, is_special,
}

-- No double quote in the text.
abbrev pub NoQuote : Bytes → Type 0
NoQuote [] = Unit
NoQuote (c ∷ s) = ((c == b'"') ≡ false) × NoQuote s

-- The scan ended inside double quotes, or with a token too long.
abbrev Open : Scan → Type 0
Open too_long = Unit
Open (ended d b any buf rest) = d ≡ true

scan-Open : (b any : Bool) (buf s : Bytes) → NoQuote s → Open (scan true b any buf s)
unfolding scan
scan-Open b any buf [] q = refl
scan-Open b any buf (c ∷ s) q =
    let b' : Bool = if c == b'`' then not b else b in
    let any' : Bool = if c == b'`' then true else any in
    rw q.0 (
      if_ind Open (leb 1023 (length buf)) _ _ (λ _. tt)
        λ _.
          if_ind Open (is_special c && not (true || b')) _ _ (λ e. absurd (ground arith))
            λ _. scan-Open b' any' (buf ++ c ∷ []) s q.1)

Open-error :
    (st : ParseState) (r : Scan)
    → Open r
    → finish_token st r ≡ (st, record { type = tok_error; buffer = [] })
unfolding finish_token
Open-error st too_long o = refl
Open-error st (ended d b any buf rest) o = rw o refl

-- A line that begins with a double quote, with no other in it, gives the error token, and the state
-- stays as it was.
pub gettoken_open :
    (s : Bytes)
    → NoQuote s
    → parse_gettoken (parse_init (b'"' ∷ s))
      ≡ (parse_init (b'"' ∷ s), record { type = tok_error; buffer = [] })
unfolding parse_gettoken gettoken_at parse_init skip_spaces isspace scan
gettoken_open s q =
    Open-error (record { position = b'"' ∷ s; last_position = none }) (scan true false true [] s)
      (scan-Open false true [] s q)
