-- ===== src/Shell/Token/Laws.antt =====
-- What a token holds, that reading one makes progress, and that it can be given back once.
use neu_cs5600_cmpsys.Base.{
  ℕ, suc, ◌<◌, ◌≤◌, ◌≡◌, ◌≢◌, refl, ap, ◌⊎◌, inl, inr, Bool, true, false, not, ◌&&◌, ◌||◌, [], ◌∷◌,
  ◌++◌, none, some, leb, ◌==◌, if◌then◌else◌, length, arith, length-append, if_ind, Option-cases,
  sym, ◌∙◌,
}
use neu_cs5600_cmpsys.Base.Bytes.{Bytes, isspace, skip_spaces}
use neu_cs5600_cmpsys.Shell.Token.{
  token_size, tok_error, tok_end, ParseState, Token, Scan, too_long, ended, is_special, special,
  scan, finish_token, gettoken_at, parse_gettoken, parse_ungettoken, parse_init,
}

-- The buffer of a scan fits, and it used up at least the buffer's bytes.
abbrev Fits : ℕ → Scan → Type 0
Fits n too_long = Unit
Fits n (ended d b any buf rest) = (length buf < token_size) × (length rest ≤ n)

special-Fits :
    (d b any : Bool) (buf : Bytes) (c : ℕ) (s : Bytes)
    → length buf < token_size
    → Fits (suc (length s)) (special d b any buf c s)
unfolding special
special-Fits d b any [] c s h = ground arith
special-Fits d b any (x ∷ buf) c s h = ground arith

Fits-mono : (r : Scan) (n : ℕ) → Fits n r → Fits (suc n) r
Fits-mono too_long n f = tt
Fits-mono (ended d b any buf rest) n f = (f.0, omega arith)

scan-Fits :
    (d b any : Bool) (buf s : Bytes)
    → length buf < token_size
    → Fits (length s) (scan d b any buf s)
unfolding scan
scan-Fits d b any buf [] h = (h, omega arith)
scan-Fits d b any buf (c ∷ s) h =
    let b' : Bool = if c == b'`' then not b else b in
    let any' : Bool = if c == b'`' then true else any in
    let P = Fits (suc (length s)) in
    if_ind P (not (d || b) && isspace c) _ _ (λ _. (h, omega arith))
      λ _.
        if_ind P (c == b'"') _ _
          (λ _. Fits-mono (scan (not d) b true buf s) (length s) (scan-Fits (not d) b true buf s h))
          λ _.
            if_ind P (leb 1023 (length buf)) _ _ (λ _. tt)
              λ short.
                if_ind P (is_special c && not (d || b')) _ _ (λ _. special-Fits d b' any' buf c s h)
                  λ _. Fits-mono (scan d b' any' (buf ++ c ∷ []) s) (length s) (
                    scan-Fits d b' any' (buf ++ c ∷ []) s
                      (ground (arith, length-append buf (c ∷ []))))

-- A first character that is no space is used up.
scan_first :
    (c : ℕ) (s : Bytes) → isspace c ≡ false → Fits (length s) (scan false false false [] (c ∷ s))
unfolding scan special
scan_first c s e =
    let b' : Bool = if c == b'`' then true else false in
    let P = Fits (length s) in
    rw e (
      if_ind P (c == b'"') _ _ (λ _. scan-Fits true false true [] s (omega arith))
        λ _.
          if_ind P (is_special c && not b') _ _ (λ _. (omega arith, omega arith))
            λ _. scan-Fits false b' b' (c ∷ []) s (omega arith))

skip_spaces_lem :
    (s : Bytes) (c : ℕ) (r : Bytes)
    → skip_spaces s ≡ c ∷ r
    → (isspace c ≡ false) × (length r < length s)
unfolding skip_spaces
skip_spaces_lem [] c r e = absurd (ground arith)
skip_spaces_lem (x ∷ s) c r e = ground (arith, skip_spaces_lem s c r)

-- A token of the given text was read: the rest is shorter than the line, the text fits the buffer,
-- and what was read can be given back.
pub record Reads (st st' : ParseState) (t : Token) : Type 0 where
  pub shorter : length st'.position < length st.position
  pub fits : length t.buffer < token_size
  pub back : st'.last_position ≡ some st.position

-- The three ways in which a call ends.
abbrev pub GetsToken : ParseState → ParseState × Token → Type 0
GetsToken st (st', t) =
    ((t.type ≡ tok_error) × (st' ≡ st))
    ⊎ ((t.type ≡ tok_end) × (st' ≡ record st { last_position = some st.position }))
    ⊎ Reads st st' t

finish_token-GetsToken :
    (st : ParseState) (r : Scan) (n : ℕ)
    → n < length st.position
    → Fits n r
    → GetsToken st (finish_token st r)
unfolding finish_token
finish_token-GetsToken st too_long n h f = inl (refl, refl)
finish_token-GetsToken st (ended d b any buf rest) n h f =
    if_ind (GetsToken st) (d || b) _ _ (λ _. inl (refl, refl))
      λ _. inr (inr (record { shorter = omega arith; fits = f.0; back = refl }))

gettoken_at-GetsToken :
    (st : ParseState) (s : Bytes) → skip_spaces st.position ≡ s → GetsToken st (gettoken_at st s)
unfolding gettoken_at
gettoken_at-GetsToken st [] e = inr (inl (refl, refl))
gettoken_at-GetsToken st (c ∷ s) e =
    let (plain, h) = skip_spaces_lem st.position c s e in
    finish_token-GetsToken st (scan false false false [] (c ∷ s)) (length s) h
      (scan_first c s plain)

-- A call of `parse_gettoken` ends in one of three ways: with an error, and the state as it was; at
-- the end of the line, and the position as it was; or with a token that fits the buffer, a shorter
-- rest, and the old position kept for giving the token back.
pub parse_gettoken-GetsToken : (st : ParseState) → GetsToken st (parse_gettoken st)
unfolding parse_gettoken
parse_gettoken-GetsToken st = gettoken_at-GetsToken st (skip_spaces st.position) refl

back_of :
    (st : ParseState) (p : Bytes)
    → st.last_position ≡ some p
    → parse_ungettoken st ≡ some (record { position = p; last_position = none })
unfolding parse_ungettoken
back_of st p e = ground arith

pub got_back :
    (st : ParseState) (r : ParseState × Token)
    → GetsToken st r
    → r.1.type ≢ tok_error
    → r.0.last_position ≡ some st.position
got_back st r (inl g) ok = absurd (ok g.0)
got_back st r (inr (inl g)) ok = ap (λ (x : ParseState). x.last_position) g.1
got_back st r (inr (inr g)) ok = g.back

-- What a call reads depends on the position only.
same_read :
    (st st' : ParseState) (s : Bytes)
    → st.position ≡ st'.position
    → ((gettoken_at st s).1 ≡ (gettoken_at st' s).1)
      × ((gettoken_at st s).0.position ≡ (gettoken_at st' s).0.position)
unfolding gettoken_at
same_read st st' [] e = (refl, e)
same_read st st' (c ∷ s) e = same_finish (scan false false false [] (c ∷ s))
  where
    same_finish :
        (r : Scan)
        → ((finish_token st r).1 ≡ (finish_token st' r).1)
          × ((finish_token st r).0.position ≡ (finish_token st' r).0.position)
    same_finish too_long = (refl, e)
    same_finish (ended d b any buf rest) = ground arith

pub again :
    (st : ParseState)
    → ((parse_gettoken (record { position = st.position; last_position = none })).1
        ≡ (parse_gettoken st).1)
      × ((parse_gettoken (record { position = st.position; last_position = none })).0.position
          ≡ (parse_gettoken st).0.position)
unfolding parse_gettoken
again st =
    same_read (record { position = st.position; last_position = none }) st (skip_spaces st.position)
      refl

-- A token that is no error can be given back: the position is then the one before it, so the next
-- call reads the same token again.
pub ungettoken-gettoken :
    (st : ParseState)
    → (parse_gettoken st).1.type ≢ tok_error
    → (st' : ParseState) × (parse_ungettoken (parse_gettoken st).0 ≡ some st')
      × (st'.position ≡ st.position)
      × ((parse_gettoken st').1 ≡ (parse_gettoken st).1)
ungettoken-gettoken st ok = (
  record { position = st.position; last_position = none },
  back_of (parse_gettoken st).0 st.position
      (got_back st (parse_gettoken st) (parse_gettoken-GetsToken st) ok),
  refl,
  (again st).0,
)

-- A second token cannot be given back.
pub ungettoken_none : (st : ParseState) → st.last_position ≡ none → parse_ungettoken st ≡ none
unfolding parse_ungettoken
ungettoken_none st e = ground arith

given_back :
    (s s' : ParseState)
    → parse_ungettoken s ≡ some s'
    → (p : Bytes) × (s.last_position ≡ some p)
      × (s' ≡ record { position = p; last_position = none })
given_back s s' e = elim (Option-cases s.last_position) [
  | inl n ↦ absurd (let h = sym (ungettoken_none s n) ∙ e in cc)
  | inr (p, q) ↦ (p, q, let h = sym e ∙ back_of s p q in cc)
]

-- Giving a token back leads to where it stands, or, if it was an error, to the token before it.
pub ungettoken_cases :
    (st st' : ParseState)
    → parse_ungettoken (parse_gettoken st).0 ≡ some st'
    → (st' ≡ record { position = st.position; last_position = none })
      ⊎ ((p : Bytes) × (st.last_position ≡ some p)
          × (st' ≡ record { position = p; last_position = none }))
ungettoken_cases st st' e =
    let (p, q, same) = given_back (parse_gettoken st).0 st' e in
    elim (parse_gettoken-GetsToken st) [
      | inl g ↦ inr (p, sym (ap (λ (x : ParseState). x.last_position) g.1) ∙ q, same)
      | inr (inl g) ↦ inl (
          let h =
            sym e
            ∙ back_of (parse_gettoken st).0 st.position
                (ap (λ (x : ParseState). x.last_position) g.1) in
          cc)
      | inr (inr g) ↦ inl (let h = sym e ∙ back_of (parse_gettoken st).0 st.position g.back in cc)
    ]

-- The parser begins with no token to give back.
pub init_last : (line : Bytes) → (parse_init line).last_position ≡ none
unfolding parse_init
init_last line = refl
