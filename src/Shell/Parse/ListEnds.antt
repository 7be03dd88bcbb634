-- ===== src/Shell/Parse/ListEnds.antt =====
-- The tokens between the commands of a list, from what the calls behind them do (lab2/cmdparse.c).
use neu_cs5600_cmpsys.Base.{
  ℕ, suc, ◌+◌, ◌*◌, ◌≤◌, ◌<◌, ◌≡◌, ◌≢◌, refl, sym, ap, ◌∙◌, inl, inr, Bool, true, false, some,
  length, arith,
}
use neu_cs5600_cmpsys.Base.Bytes.{Bytes}
use neu_cs5600_cmpsys.Shell.Token.{
  TokenType, tok_error, tok_end, normal, less_than, greater_than, two_greater_than, semicolon,
  ampersand, pipe, double_amp, double_pipe, open_paren, close_paren, ParseState, parse_gettoken,
}
use neu_cs5600_cmpsys.Shell.Token.Laws.{got_back, parse_gettoken-GetsToken}
use neu_cs5600_cmpsys.Shell.Parse.{
  cmd_semicolon, cmd_background, cmd_pipe, cmd_and, cmd_or, Command, CommandList, ControlOp, joined,
  append, ender, cmd_line_parse, connect, may_end, is_end,
}
use neu_cs5600_cmpsys.Shell.Parse.Shape.{
  joins, IsCommand, Before, joined-IsCommand, operator-joined,
}
use neu_cs5600_cmpsys.Shell.Parse.Progress.{
  Ends, ends_command, Behind, gettoken-le, is_text, gettoken-Recent,
}
use neu_cs5600_cmpsys.Shell.Parse.CommandEnds.{LinePost, LineEnds}
use neu_cs5600_cmpsys.Shell.Parse.Separators.{Separated, MayEnds, ender-Ends, followed}

kept_at :
    (st : ParseState) (p : Bytes)
    → (parse_gettoken st).1.type ≢ tok_error
    → (parse_gettoken st).0.last_position ≡ some p
    → p ≡ st.position
kept_at st p ok e =
    let h : some p ≡ some st.position =
      sym e ∙ got_back st (parse_gettoken st) (parse_gettoken-GetsToken st) ok in
    cc

-- Behind a command: the next one, the end of the list, or a syntax error.
pub connect_step :
    (f : ℕ) (before : CommandList) (c : Command) (st : ParseState) (in_parens : Bool) (m n b : ℕ)
    → LineEnds f
    → MayEnds f
    → 3 * m ≤ f
    → m ≤ n
    → n ≤ b
    → Behind m st
    → Before before
    → IsCommand c
    → Ends (LinePost n b in_parens) (connect (suc f) before c (parse_gettoken st) in_parens)
unfolding connect
connect_step f before c st in_parens m n b ih may h le le' s w v =
    at_type (parse_gettoken st).1.type refl
  where
    less : length (parse_gettoken st).0.position < m
    less = let place = gettoken-le st in elim s [ inl l ↦ omega arith | inr r ↦ r.1 ]

    stop :
        (t : TokenType)
        → (parse_gettoken st).1.type ≡ t
        → (is_end t ≡ false → ends_command t ≡ true)
        → Ends (LinePost n b in_parens) (ender in_parens t before c (parse_gettoken st).0)
    stop t q e = ender-Ends in_parens t before c (parse_gettoken st).0 n b w v λ k.
        (omega (arith, less), gettoken-Recent st b (ap ends_command q ∙ e k) (omega (arith, less)))

    next :
        (op : ControlOp)
        → joins op ≡ true
        → Ends
            (LinePost n b in_parens)
            (cmd_line_parse f (append before (joined op c)) (parse_gettoken st).0 in_parens)
    next op j =
        followed f before (joined op c) (parse_gettoken st).0 in_parens n b ih (omega (arith, less))
          (omega (arith, less)) le' w (joined-IsCommand op c v)
          (ap joins (operator-joined op c) ∙ j)

    separated :
        (t : TokenType)
        → (parse_gettoken st).1.type ≡ t
        → ends_command t ≡ false
        → is_text t ≡ true
        → Separated m (parse_gettoken st).0
    separated t q e x = (
      less,
      λ p k.
          rw
            (kept_at st p
              (λ z. absurd (let g : true ≡ false = sym x ∙ ap is_text (sym q ∙ z) in cc)) k)
            before_it,
    )
      where
        before_it : length st.position < m
        before_it = elim s [
          | inl l ↦ l
          | inr r ↦ absurd (let g : true ≡ false = sym r.0 ∙ ap ends_command q ∙ e in cc)
        ]

    may_stop :
        (t : TokenType) (op : ControlOp)
        → (parse_gettoken st).1.type ≡ t
        → ends_command t ≡ false
        → is_text t ≡ true
        → joins op ≡ true
        → Ends
            (LinePost n b in_parens)
            (may_end f before (joined op c) (parse_gettoken (parse_gettoken st).0) in_parens)
    may_stop t op q e x j =
        may before (joined op c) (parse_gettoken st).0 in_parens m n b h le le' (separated t q e x)
          w (joined-IsCommand op c v) (ap joins (operator-joined op c) ∙ j)

    at_type :
        (t : TokenType)
        → (parse_gettoken st).1.type ≡ t
        → Ends (LinePost n b in_parens) (connect (suc f) before c (parse_gettoken st) in_parens)
    at_type tok_end q =
        rw (q, connect) (stop tok_end q (λ k. absurd (let g : true ≡ false = k in cc)))
    at_type close_paren q = rw (q, connect) (stop close_paren q (λ _. refl))
    at_type double_amp q = rw (q, connect) (next cmd_and refl)
    at_type double_pipe q = rw (q, connect) (next cmd_or refl)
    at_type pipe q = rw (q, connect) (next cmd_pipe refl)
    at_type semicolon q = rw (q, connect) (may_stop semicolon cmd_semicolon q refl refl refl)
    at_type ampersand q = rw (q, connect) (may_stop ampersand cmd_background q refl refl refl)
    at_type tok_error q = rw (q, connect) tt
    at_type normal q = rw (q, connect) tt
    at_type less_than q = rw (q, connect) tt
    at_type greater_than q = rw (q, connect) tt
    at_type two_greater_than q = rw (q, connect) tt
    at_type open_paren q = rw (q, connect) tt

abbrev pub ConnectEnds : ℕ → Type 0
ConnectEnds f =
    (before : CommandList) (c : Command) (st : ParseState) (in_parens : Bool) (m n b : ℕ)
    → 3 * m + 1 ≤ f
    → m ≤ n
    → n ≤ b
    → Behind m st
    → Before before
    → IsCommand c
    → Ends (LinePost n b in_parens) (connect f before c (parse_gettoken st) in_parens)
