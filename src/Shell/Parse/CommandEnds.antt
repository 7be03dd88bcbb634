-- ===== src/Shell/Parse/CommandEnds.antt =====
-- One call of the parser, from what the calls inside it do (lab2/cmdparse.c).
use neu_cs5600_cmpsys.Base.{
  ℕ, suc, ◌+◌, ◌*◌, ◌≤◌, ◌<◌, ◌≡◌, refl, sym, ap, ◌∙◌, ◌⊎◌, inl, inr, Bool, true, false, not, ◌||◌,
  [], ◌∷◌, ◌++◌, Option, none, some, leb, length, length-append, arith, if_ind,
}
use neu_cs5600_cmpsys.Base.Bytes.{Bytes}
use neu_cs5600_cmpsys.Shell.Token.{
  TokenType, tok_error, tok_end, normal, less_than, greater_than, two_greater_than, semicolon,
  ampersand, pipe, double_amp, double_pipe, open_paren, close_paren, ParseState, parse_gettoken,
  parse_ungettoken,
}
use neu_cs5600_cmpsys.Shell.Token.Laws.{ungettoken_cases}
use neu_cs5600_cmpsys.Shell.Parse.{
  then_parse, max_tokens, Command, CommandList, null, Draft, is_null, has_args, is_empty, is_normal,
  redirected, complete, cmd_parse, cmd_line_parse,
}
use neu_cs5600_cmpsys.Shell.Parse.Shape.{
  IsCommand, IsLine, Before, IsDraft, IsLine-SubLine, IsDraft-IsCommand,
}
use neu_cs5600_cmpsys.Shell.Parse.Progress.{
  Ends, then_parse-Ends, ends_command, Recent, Behind, is_text, gettoken-lt, gettoken-Recent,
}

-- The loop of `cmd_parse` has read nothing yet, or its last token ends a command.
abbrev pub Ready : ℕ → Draft → ParseState → Type 0
Ready b d st =
    ((is_empty d ≡ true) × (length st.position ≤ b)) ⊎ ((length st.position < b) × Recent b st)

abbrev pub CmdPost : ℕ → Command → ParseState → Type 0
CmdPost b c st = IsCommand c × Behind b st

-- The fuel for a command is three for each character that is left, and one.
abbrev pub CmdEnds : ℕ → Type 0
CmdEnds f =
    (d : Draft) (st : ParseState) (b : ℕ)
    → 3 * length st.position + 1 ≤ f
    → IsDraft d
    → Ready b d st
    → Ends (CmdPost b) (cmd_parse f d st)

-- In parentheses, the call got over some character, and its last token is the one that closes them.
abbrev pub LinePost : ℕ → ℕ → Bool → CommandList → ParseState → Type 0
LinePost n b in_parens l st = IsLine l × (in_parens ≡ true → (length st.position < n) × Recent b st)

abbrev pub LineEnds : ℕ → Type 0
LineEnds f =
    (before : CommandList) (st : ParseState) (in_parens : Bool) (n b : ℕ)
    → 3 * length st.position + 2 ≤ f
    → length st.position ≤ n
    → n ≤ b
    → Before before
    → Ends (LinePost n b in_parens) (cmd_line_parse f before st in_parens)

Ready-le : (b : ℕ) (d : Draft) (st : ParseState) → Ready b d st → length st.position ≤ b
Ready-le b d st (inl r) = r.1
Ready-le b d st (inr r) = omega (arith, r.0)

ungettoken-Behind :
    (st st' : ParseState) (b : ℕ)
    → length st.position < b
    → Recent b st
    → parse_ungettoken (parse_gettoken st).0 ≡ some st'
    → Behind b st'
ungettoken-Behind st st' b h r e = elim (ungettoken_cases st st' e) [
  | inl q ↦ inl (rw q h)
  | inr (p, k, q) ↦ inr (rw q (r p k))
]

-- The end of a command: an empty draft is an error, and any other one is a command.
complete-Ends :
    (d : Draft) (b : ℕ) (o : Option ParseState)
    → IsDraft d
    → (is_empty d ≡ false → (st : ParseState) → o ≡ some st → Behind b st)
    → Ends (CmdPost b) (complete d o)
unfolding complete
complete-Ends d b none w h = tt
complete-Ends d b (some st) w h =
    if_ind (Ends (CmdPost b)) (is_empty d) _ _ (λ _. tt)
      λ e. (IsDraft-IsCommand d.argv d.redirects d.subshell w e, h e st refl)

finished :
    (d : Draft) (st : ParseState) (b : ℕ)
    → IsDraft d
    → Ready b d st
    → Ends (CmdPost b) (complete d (parse_ungettoken (parse_gettoken st).0))
finished d st b w (inl r) =
    complete-Ends d b _ w λ e. absurd (let h : true ≡ false = sym r.0 ∙ e in cc)
finished d st b w (inr r) = complete-Ends d b _ w λ _ st' e. ungettoken-Behind st st' b r.0 r.1 e

-- A token that ends a command was read over.
read_over :
    (st : ParseState) (b : ℕ)
    → ends_command (parse_gettoken st).1.type ≡ true
    → length st.position ≤ b
    → (length (parse_gettoken st).0.position < length st.position) × Recent b (parse_gettoken st).0
read_over st b e h =
    let less = gettoken-lt st (text_of (parse_gettoken st).1.type e) in
    (less, gettoken-Recent st b e (omega (arith, less)))
  where
    text_of : (t : TokenType) → ends_command t ≡ true → is_text t ≡ true
    text_of t e = ground arith

normal_ends : (t : TokenType) → is_normal t ≡ true → ends_command t ≡ true
normal_ends t e = ground arith

-- A redirection leaves the arguments and the subshell, and reads one more token.
redirected-Ends :
    (op : TokenType) (d : Draft) (st : ParseState) (b : ℕ)
    → IsDraft d
    → length st.position < b
    → Ends
        (λ d' st'. IsDraft d' × (length st'.position < length st.position) × Recent b st')
        (redirected op d st)
unfolding redirected
redirected-Ends op d st b w h =
    if_ind (Ends _) (is_empty d) _ _ (λ _. tt)
      λ _.
        if_ind (Ends _) (is_normal (parse_gettoken st).1.type) _ _
          (λ e.
            let (less, recent) = read_over st b (normal_ends _ e) (omega (arith, h)) in
            (record { few = w.few; apart = w.apart; sub = w.sub }, less, recent))
          λ _. tt

-- The three redirections.
redirects :
    (f : ℕ) (op : TokenType) (d : Draft) (st : ParseState) (b : ℕ)
    → CmdEnds f
    → 3 * length st.position + 1 ≤ f
    → IsDraft d
    → length st.position < b
    → Ends (CmdPost b) (then_parse (redirected op d st) (cmd_parse f))
redirects f op d st b ih h w l =
    then_parse-Ends _ (CmdPost b) (redirected op d st) (cmd_parse f) (redirected-Ends op d st b w l)
      λ d' st' r. ih d' st' b (omega (arith, r.1)) r.0 (inr (omega (arith, r.1), r.2))

-- One more argument.
argument :
    (f : ℕ) (d : Draft) (st : ParseState) (t : Bytes) (b : ℕ)
    → CmdEnds f
    → 3 * length st.position + 1 ≤ f
    → IsDraft d
    → (leb max_tokens (length d.argv) || not (is_null d.subshell)) ≡ false
    → (length st.position < b) × Recent b st
    → Ends (CmdPost b) (cmd_parse f (record d { argv = d.argv ++ t ∷ [] }) st)
argument f d st t b ih h w e r =
    ih (record d { argv = d.argv ++ t ∷ [] }) st b h
      (record {
        few = ground (arith, length-append d.argv (t ∷ []));
        apart = ground arith;
        sub = w.sub;
      })
      (inr r)

-- A subshell.
subshell :
    (f : ℕ) (d : Draft) (st : ParseState) (b : ℕ)
    → CmdEnds f
    → LineEnds f
    → 3 * length st.position + 2 ≤ f
    → IsDraft d
    → (not (is_null d.subshell) || has_args d.argv) ≡ false
    → length st.position < b
    → Ends (CmdPost b) (
        then_parse
          (cmd_line_parse f null st true)
          (λ l st₂. cmd_parse f (record d { subshell = l }) st₂))
subshell f d st b ih line h w e l =
    then_parse-Ends (LinePost (length st.position) b true) (CmdPost b) _ _
      (line null st true (length st.position) b h (omega arith) (omega (arith, l)) tt)
      λ sub st₂ p.
        let (less, recent) = p.1 refl in
        ih (record d { subshell = sub }) st₂ b (omega (arith, less))
          (record { few = w.few; apart = ground arith; sub = IsLine-SubLine sub p.0 })
          (inr (omega (arith, less), recent))

pub cmd_parse_step : (f : ℕ) → CmdEnds f → LineEnds f → CmdEnds (suc f)
unfolding cmd_parse
cmd_parse_step f ih line d st b h w r = at_type (parse_gettoken st).1.type refl
  where
    le : length st.position ≤ b
    le = Ready-le b d st r

    shorter :
        is_text (parse_gettoken st).1.type ≡ true
        → length (parse_gettoken st).0.position < length st.position
    shorter t = gettoken-lt st t

    redirection :
        (op : TokenType)
        → is_text (parse_gettoken st).1.type ≡ true
        → Ends (CmdPost b) (then_parse (redirected op d (parse_gettoken st).0) (cmd_parse f))
    redirection op t =
        let less = shorter t in
        redirects f op d (parse_gettoken st).0 b ih (omega (arith, less)) w (omega (arith, less))

    at_type :
        (t : TokenType) → (parse_gettoken st).1.type ≡ t → Ends (CmdPost b) (cmd_parse (suc f) d st)
    at_type normal q =
        rw (q, cmd_parse)
          (if_ind (Ends (CmdPost b)) (leb max_tokens (length d.argv) || not (is_null d.subshell)) _
            _ (λ _. tt)
            λ e.
              let (less, recent) = read_over st b (ap ends_command q) le in
              argument f d (parse_gettoken st).0 (parse_gettoken st).1.buffer b ih
                (omega (arith, less)) w e (omega (arith, less), recent))
    at_type less_than q = rw (q, cmd_parse) (redirection less_than (ap is_text q))
    at_type greater_than q = rw (q, cmd_parse) (redirection greater_than (ap is_text q))
    at_type two_greater_than q = rw (q, cmd_parse) (redirection two_greater_than (ap is_text q))
    at_type open_paren q =
        rw (q, cmd_parse)
          (if_ind (Ends (CmdPost b)) (not (is_null d.subshell) || has_args d.argv) _ _ (λ _. tt)
            λ e.
              let less = shorter (ap is_text q) in
              subshell f d (parse_gettoken st).0 b ih line (omega (arith, less)) w e
                (omega (arith, less)))
    at_type tok_error q = rw (q, cmd_parse) (finished d st b w r)
    at_type tok_end q = rw (q, cmd_parse) (finished d st b w r)
    at_type semicolon q = rw (q, cmd_parse) (finished d st b w r)
    at_type ampersand q = rw (q, cmd_parse) (finished d st b w r)
    at_type pipe q = rw (q, cmd_parse) (finished d st b w r)
    at_type double_amp q = rw (q, cmd_parse) (finished d st b w r)
    at_type double_pipe q = rw (q, cmd_parse) (finished d st b w r)
    at_type close_paren q = rw (q, cmd_parse) (finished d st b w r)
