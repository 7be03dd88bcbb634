-- ===== src/Caesar/Text.antt =====
-- A whole text through the cipher (lab1/caesar.c).
use neu_cs5600_cmpsys.Base.{
  ℕ, ◌≡◌, refl, ◌∙◌, true, false, inl, inr, [], ◌∷◌, ◌++◌, some, Option-cases,
}
use neu_cs5600_cmpsys.Base.Bytes.{Bytes}
use neu_cs5600_cmpsys.Base.Chain.{◌>>=◌}
use neu_cs5600_cmpsys.Base.Int.{ℤ, pos}
use neu_cs5600_cmpsys.Caesar.{
  Kind, digit, lower, upper, illegal, kind, encode_char, decode_char, Rest, illchar, encode_from,
  encode, decode_from, decode, Coded, coded,
}
use neu_cs5600_cmpsys.Caesar.Shift.{
  InRange, kind-InRange, InRange-kind, IsSafe, encode_char_total, decode_char_total, shifted,
  shifted-InRange, encode_char-shifted, decode_char-shifted,
}

-- Every character is a digit or a letter.
abbrev pub IsLegal : Bytes → Type 0
IsLegal [] = Unit
IsLegal (c ∷ s) = ((k : Kind) × InRange k c) × IsLegal s

encode_from-cons :
    (key : ℤ) (k : Kind) (c : ℕ) (s : Bytes)
    → InRange k c
    → encode_from key (c ∷ s) ≡ (
        encode_char key k c >>= λ x.
        (encode_from key s >>= λ r. some (record r { text = x ∷ r.text })))
unfolding encode_from
encode_from-cons key digit c s h = rw (kind-InRange c digit h, encode_from) refl
encode_from-cons key lower c s h = rw (kind-InRange c lower h, encode_from) refl
encode_from-cons key upper c s h = rw (kind-InRange c upper h, encode_from) refl
encode_from-cons key illegal c s h = absurd h

decode_from-cons :
    (key : ℤ) (k : Kind) (c d : ℕ) (s : Bytes) (r : Rest)
    → InRange k c
    → decode_char key k c ≡ some d
    → decode_from key s ≡ some r
    → decode_from key (c ∷ s) ≡ some (record r { text = d ∷ r.text })
unfolding decode_from
decode_from-cons key digit c d s r h e f = rw (kind-InRange c digit h, decode_from, e, f) refl
decode_from-cons key lower c d s r h e f = rw (kind-InRange c lower h, decode_from, e, f) refl
decode_from-cons key upper c d s r h e f = rw (kind-InRange c upper h, decode_from, e, f) refl
decode_from-cons key illegal c d s r h e f = absurd h

-- The codes of a legal text, and what decoding makes of them.
encode_from-legal :
    (n : ℕ) (s : Bytes)
    → IsLegal s
    → IsSafe (pos n)
    → (t : Bytes) × (encode_from (pos n) s ≡ some (record { legal = true; text = t }))
      × (decode_from (pos n) t ≡ some (record { legal = true; text = s }))
unfolding encode_from decode_from
encode_from-legal n [] h safe = ([], refl, refl)
encode_from-legal n (c ∷ s) h safe =
    let (k, range) = h.0 in
    let (t, e, d) = encode_from-legal n s h.1 safe in
    let x : ℕ = shifted n k c in
    (
      x ∷ t,
      encode_from-cons (pos n) k c s range ∙ rw (encode_char-shifted n k c range safe, e) refl,
      decode_from-cons (pos n) k x c t (record { legal = true; text = s })
          (shifted-InRange n k c range) (decode_char-shifted n k c range safe) d,
    )

-- For a key that is not negative, and at most 2 ^ 31 - 123, so that no sum overflows: `encode` of a
-- text of digits and letters comes to its end, and decoding what it returns, with the same key,
-- gives the text back.
pub decode-encode :
    (n : ℕ) (s : Bytes)
    → IsLegal s
    → IsSafe (pos n)
    → (e : Coded) × (encode s (pos n) ≡ some e)
      × (decode e.returned (pos n) ≡ some (record { returned = s; buffer = s }))
unfolding encode decode
decode-encode n s h safe =
    let (t, e, d) = encode_from-legal n s h safe in
    (record { returned = t; buffer = t }, rw e refl, rw d refl)

-- Behind legal characters, the first one that is neither a digit nor a letter ends `encode`: it
-- returns ILLCHAR, and the buffer is changed before it, as `encode` of the characters before it
-- alone changes it, and not from it on. Where a sum overflows on those characters, it does so here.
pub encode_illegal :
    (key : ℤ) (s : Bytes) (c : ℕ) (rest : Bytes)
    → IsLegal s
    → kind c ≡ illegal
    → encode (s ++ c ∷ rest) key
      ≡ (encode s key >>= λ r. some (record { returned = illchar; buffer = r.buffer ++ c ∷ rest }))
unfolding encode encode_from
encode_illegal key s c rest h e =
    rw (stops s h)
      (elim (Option-cases (encode_from key s)) [ inl q ↦ rw q refl | inr (r, q) ↦ rw q refl ])
  where
    stops :
        (t : Bytes)
        → IsLegal t
        → encode_from key (t ++ c ∷ rest)
          ≡ (encode_from key t >>= λ r. some (record { legal = false; text = r.text ++ c ∷ rest }))
    stops [] g = rw (e, encode_from) refl
    stops (x ∷ t) g =
        let (k, range) = g.0 in
        rw
          (
            encode_from-cons key k x (t ++ c ∷ rest) range,
            encode_from-cons key k x t range,
            stops t g.1,
          )
          (elim (Option-cases (encode_char key k x)) [
            | inl q ↦ rw q refl
            | inr (y, q) ↦ rw q (elim (Option-cases (encode_from key t)) [
              | inl p ↦ rw p refl
              | inr (r, p) ↦ rw p refl
            ])
          ])

module _ (key : ℤ) (safe : IsSafe key) where
  encode_from_total : (s : Bytes) → (r : Rest) × (encode_from key s ≡ some r)
  unfolding encode_from
  encode_from_total [] = (record { legal = true; text = [] }, refl)
  encode_from_total (c ∷ s) = at_kind (kind c) refl (encode_from_total s)
    where
      shift :
          (k : Kind)
          → InRange k c
          → (r : Rest) × (encode_from key s ≡ some r)
          → (r : Rest) × (encode_from key (c ∷ s) ≡ some r)
      shift k h (r, e) =
          let (d, f) = encode_char_total key k c h safe in
          (record r { text = d ∷ r.text }, encode_from-cons key k c s h ∙ rw (f, e) refl)

      at_kind :
          (k : Kind)
          → kind c ≡ k
          → (r : Rest) × (encode_from key s ≡ some r)
          → (r : Rest) × (encode_from key (c ∷ s) ≡ some r)
      at_kind digit q rest = shift digit (InRange-kind c digit q refl) rest
      at_kind lower q rest = shift lower (InRange-kind c lower q refl) rest
      at_kind upper q rest = shift upper (InRange-kind c upper q refl) rest
      at_kind illegal q rest = (record { legal = false; text = c ∷ s }, rw (q, encode_from) refl)

  decode_from_total : (s : Bytes) → (r : Rest) × (decode_from key s ≡ some r)
  unfolding decode_from
  decode_from_total [] = (record { legal = true; text = [] }, refl)
  decode_from_total (c ∷ s) = at_kind (kind c) refl (decode_from_total s)
    where
      shift :
          (k : Kind)
          → InRange k c
          → (r : Rest) × (decode_from key s ≡ some r)
          → (r : Rest) × (decode_from key (c ∷ s) ≡ some r)
      shift k h (r, e) =
          let (d, f) = decode_char_total key k c h safe in
          (record r { text = d ∷ r.text }, decode_from-cons key k c d s r h f e)

      at_kind :
          (k : Kind)
          → kind c ≡ k
          → (r : Rest) × (decode_from key s ≡ some r)
          → (r : Rest) × (decode_from key (c ∷ s) ≡ some r)
      at_kind digit q rest = shift digit (InRange-kind c digit q refl) rest
      at_kind lower q rest = shift lower (InRange-kind c lower q refl) rest
      at_kind upper q rest = shift upper (InRange-kind c upper q refl) rest
      at_kind illegal q rest = (record { legal = false; text = c ∷ s }, rw (q, decode_from) refl)

  -- `encode` and `decode` end for every text and every safe key, a negative one included: no sum
  -- overflows, and the fuel of the inner loops of `decode` is enough.
  pub encode_total : (s : Bytes) → (r : Coded) × (encode s key ≡ some r)
  unfolding encode
  encode_total s = let (r, e) = encode_from_total s in (coded r, rw e refl)

  pub decode_total : (s : Bytes) → (r : Coded) × (decode s key ≡ some r)
  unfolding decode
  decode_total s = let (r, e) = decode_from_total s in (coded r, rw e refl)
