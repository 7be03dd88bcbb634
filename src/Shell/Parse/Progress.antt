-- ===== src/Shell/Parse/Progress.antt =====
-- How far a call of the parser gets in the line (lab2/cmdparse.c).
use neu_cs5600_cmpsys.Base.{
  ℕ, ◌≤◌, ◌<◌, ◌≡◌, ◌≢◌, sym, ap, ◌∙◌, ◌⊎◌, inl, inr, Bool, true, false, none, some, length, arith,
}
use neu_cs5600_cmpsys.Base.Bytes.{Bytes}
use neu_cs5600_cmpsys.Shell.Token.{
  TokenType, tok_error, tok_end, normal, close_paren, ParseState, Token, parse_gettoken,
}
use neu_cs5600_cmpsys.Shell.Token.Laws.{GetsToken, parse_gettoken-GetsToken, got_back, again}
use neu_cs5600_cmpsys.Shell.Parse.{Parsed, crash, unfinished, syntax_error, parsed, then_parse}

-- A call of the parser does not run out of fuel, and what it gives has the property.
abbrev pub Ends : {A : Type 0} → (A → ParseState → Type 0) → Parsed A → Type 0
Ends P crash = Unit
Ends P unfinished = ⊥
Ends P syntax_error = Unit
Ends P (parsed a st) = P a st

pub then_parse-Ends :
    {A B : Type 0} (P : A → ParseState → Type 0) (Q : B → ParseState → Type 0) (r : Parsed A)
    (f : A → ParseState → Parsed B)
    → Ends P r
    → ((a : A) (st : ParseState) → P a st → Ends Q (f a st))
    → Ends Q (then_parse r f)
then_parse-Ends P Q crash f e h = tt
then_parse-Ends P Q unfinished f e h = e
then_parse-Ends P Q syntax_error f e h = tt
then_parse-Ends P Q (parsed a st) f e h = h a st e

-- The tokens that a command of the grammar may end with.
abbrev pub ends_command : TokenType → Bool
ends_command normal = true
ends_command close_paren = true
ends_command _ = false

abbrev pub at : Bytes → ParseState
at p = record { position = p; last_position = none }

-- The token that was read last ends a command, and fewer than `b` characters stand behind it.
abbrev pub Recent : ℕ → ParseState → Type 0
Recent b st =
    (p : Bytes)
    → st.last_position ≡ some p
    → (ends_command (parse_gettoken (at p)).1.type ≡ true)
      × (length (parse_gettoken (at p)).0.position < b)

-- What stands behind a command: fewer than `b` characters, or the last token of the command again.
abbrev pub Behind : ℕ → ParseState → Type 0
Behind b st =
    (length st.position < b)
    ⊎ ((ends_command (parse_gettoken st).1.type ≡ true)
        × (length (parse_gettoken st).0.position < b))

GetsToken-le :
    (st : ParseState) (r : ParseState × Token)
    → GetsToken st r
    → length r.0.position ≤ length st.position
GetsToken-le st r (inl g) = rw g.1 (omega arith)
GetsToken-le st r (inr (inl g)) = rw g.1 (omega arith)
GetsToken-le st r (inr (inr g)) = omega (arith, g.shorter)

pub gettoken-le : (st : ParseState) → length (parse_gettoken st).0.position ≤ length st.position
gettoken-le st = GetsToken-le st (parse_gettoken st) (parse_gettoken-GetsToken st)

-- A token that is neither an error nor the end of the line.
abbrev pub is_text : TokenType → Bool
is_text tok_error = false
is_text tok_end = false
is_text _ = true

GetsToken-lt :
    (st : ParseState) (r : ParseState × Token)
    → GetsToken st r
    → is_text r.1.type ≡ true
    → length r.0.position < length st.position
GetsToken-lt st r (inl g) t = absurd (let h : true ≡ false = sym t ∙ ap is_text g.0 in cc)
GetsToken-lt st r (inr (inl g)) t = absurd (let h : true ≡ false = sym t ∙ ap is_text g.0 in cc)
GetsToken-lt st r (inr (inr g)) t = g.shorter

pub gettoken-lt :
    (st : ParseState)
    → is_text (parse_gettoken st).1.type ≡ true
    → length (parse_gettoken st).0.position < length st.position
gettoken-lt st t = GetsToken-lt st (parse_gettoken st) (parse_gettoken-GetsToken st) t

not_error : (t : TokenType) → ends_command t ≡ true → t ≢ tok_error
not_error t e q = absurd (let h : true ≡ false = sym e ∙ ap ends_command q in cc)

pub gettoken-Recent :
    (st : ParseState) (b : ℕ)
    → ends_command (parse_gettoken st).1.type ≡ true
    → length (parse_gettoken st).0.position < b
    → Recent b (parse_gettoken st).0
gettoken-Recent st b e h p q =
    let k : p ≡ st.position =
      let h : some p ≡ some st.position =
        sym q ∙ got_back st (parse_gettoken st) (parse_gettoken-GetsToken st) (not_error _ e) in
      cc in
    let (same, place) = again st in
    rw k (ap (λ (t : Token). ends_command t.type) same ∙ e, rw place h)
