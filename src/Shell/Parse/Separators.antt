-- ===== src/Shell/Parse/Separators.antt =====
-- Behind `;` and `&` of a list, and at its end, from what the calls behind them do
-- (lab2/cmdparse.c, `cmd_line_parse`).
use neu_cs5600_cmpsys.Base.{
  ℕ, suc, ◌+◌, ◌*◌, ◌≤◌, ◌<◌, ◌≡◌, refl, ap, ◌∙◌, inl, inr, Bool, true, false, not, Option, none,
  some, length, arith, if_ind, if◌then◌else◌,
}
use neu_cs5600_cmpsys.Base.Bytes.{Bytes}
use neu_cs5600_cmpsys.Shell.Token.{
  TokenType, tok_error, tok_end, normal, less_than, greater_than, two_greater_than, semicolon,
  ampersand, pipe, double_amp, double_pipe, open_paren, close_paren, ParseState, parse_gettoken,
  parse_ungettoken,
}
use neu_cs5600_cmpsys.Shell.Token.Laws.{ungettoken_cases}
use neu_cs5600_cmpsys.Shell.Parse.{
  crash, Command, CommandList, append, operator, ender, cmd_line_parse, may_end, closes, is_end,
}
use neu_cs5600_cmpsys.Shell.Parse.Shape.{joins, IsCommand, Before, append-Before, append-IsLine}
use neu_cs5600_cmpsys.Shell.Parse.Progress.{
  Ends, ends_command, Recent, gettoken-le, gettoken-Recent,
}
use neu_cs5600_cmpsys.Shell.Parse.CommandEnds.{LinePost, LineEnds}

-- The end of a list is checked, and a token read at it lies before `n` and `b`.
pub ender-Ends :
    (in_parens : Bool) (t : TokenType) (before : CommandList) (c : Command) (st : ParseState)
    (n b : ℕ)
    → Before before
    → IsCommand c
    → (is_end t ≡ false → (length st.position < n) × Recent b st)
    → Ends (LinePost n b in_parens) (ender in_parens t before c st)
unfolding ender
ender-Ends in_parens t before c st n b w v h =
    let P = Ends (LinePost n b in_parens) in
    if_ind P (if is_end t then in_parens else not in_parens) _ _ (λ _. tt)
      λ e.
        if_ind P (closes (operator c)) _ _
          (λ k. (append-IsLine before c w v k, λ i. h (ground arith))) λ _. tt

-- The next command of the list, when the fuel and the place allow it.
pub followed :
    (f : ℕ) (before : CommandList) (c : Command) (st : ParseState) (in_parens : Bool) (n b : ℕ)
    → LineEnds f
    → 3 * length st.position + 2 ≤ f
    → length st.position ≤ n
    → n ≤ b
    → Before before
    → IsCommand c
    → joins (operator c) ≡ true
    → Ends (LinePost n b in_parens) (cmd_line_parse f (append before c) st in_parens)
followed f before c st in_parens n b ih h le le' w v j =
    ih (append before c) st in_parens n b h le le' (append-Before before c w v j)

-- The state behind `;` or `&`.
abbrev pub Separated : ℕ → ParseState → Type 0
Separated m st = (length st.position < m) × ((p : Bytes) → st.last_position ≡ some p → length p < m)

ungettoken-lt :
    (st st' : ParseState) (m : ℕ)
    → Separated m st
    → parse_ungettoken (parse_gettoken st).0 ≡ some st'
    → length st'.position < m
ungettoken-lt st st' m s e = elim (ungettoken_cases st st' e) [
  | inl q ↦ rw q s.0
  | inr (p, k, q) ↦ rw q (s.1 p k)
]

abbrev pub MayEnds : ℕ → Type 0
MayEnds f =
    (before : CommandList) (c : Command) (st : ParseState) (in_parens : Bool) (m n b : ℕ)
    → 3 * m ≤ f
    → m ≤ n
    → n ≤ b
    → Separated m st
    → Before before
    → IsCommand c
    → joins (operator c) ≡ true
    → Ends (LinePost n b in_parens) (may_end f before c (parse_gettoken st) in_parens)

pub may_end_step :
    (f : ℕ) (before : CommandList) (c : Command) (st : ParseState) (in_parens : Bool) (m n b : ℕ)
    → LineEnds f
    → 3 * m ≤ suc f
    → m ≤ n
    → n ≤ b
    → Separated m st
    → Before before
    → IsCommand c
    → joins (operator c) ≡ true
    → Ends (LinePost n b in_parens) (may_end (suc f) before c (parse_gettoken st) in_parens)
unfolding may_end
may_end_step f before c st in_parens m n b ih h le le' s w v j =
    at_type (parse_gettoken st).1.type refl
  where
    stop :
        (t : TokenType)
        → (parse_gettoken st).1.type ≡ t
        → (is_end t ≡ false → ends_command t ≡ true)
        → Ends (LinePost n b in_parens) (ender in_parens t before c (parse_gettoken st).0)
    stop t q e = ender-Ends in_parens t before c (parse_gettoken st).0 n b w v λ k.
        let place = gettoken-le st in
        (omega (arith, s.0), gettoken-Recent st b (ap ends_command q ∙ e k) (omega (arith, s.0)))

    resumed :
        (o : Option ParseState)
        → parse_ungettoken (parse_gettoken st).0 ≡ o
        → Ends
            (LinePost n b in_parens)
            (elim o [ none ↦ crash | some st' ↦ cmd_line_parse f (append before c) st' in_parens ])
    resumed none e = tt
    resumed (some st') e =
        let less = ungettoken-lt st st' m s e in
        followed f before c st' in_parens n b ih (omega arith) (omega arith) le' w v j

    at_type :
        (t : TokenType)
        → (parse_gettoken st).1.type ≡ t
        → Ends (LinePost n b in_parens) (may_end (suc f) before c (parse_gettoken st) in_parens)
    at_type tok_end q =
        rw (q, may_end) (stop tok_end q (λ k. absurd (let g : true ≡ false = k in cc)))
    at_type close_paren q = rw (q, may_end) (stop close_paren q (λ _. refl))
    at_type tok_error q = rw (q, may_end) (resumed _ refl)
    at_type normal q = rw (q, may_end) (resumed _ refl)
    at_type less_than q = rw (q, may_end) (resumed _ refl)
    at_type greater_than q = rw (q, may_end) (resumed _ refl)
    at_type two_greater_than q = rw (q, may_end) (resumed _ refl)
    at_type semicolon q = rw (q, may_end) (resumed _ refl)
    at_type ampersand q = rw (q, may_end) (resumed _ refl)
    at_type pipe q = rw (q, may_end) (resumed _ refl)
    at_type double_amp q = rw (q, may_end) (resumed _ refl)
    at_type double_pipe q = rw (q, may_end) (resumed _ refl)
    at_type open_paren q = rw (q, may_end) (resumed _ refl)
