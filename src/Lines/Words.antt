-- ===== src/Lines/Words.antt =====
-- What `process_cmd` reads of a line that was written word by word (lab1/queue_main.c).
use neu_cs5600_cmpsys.Base.{
  ℕ, zero, suc, ◌≡◌, ◌≢◌, refl, ap, ◌∙◌, false, List, [], ◌∷◌, ◌++◌, some, arith, ◌==◌, take,
}
use neu_cs5600_cmpsys.Base.Bytes.{Bytes}
use neu_cs5600_cmpsys.Lines.{tokens, chomp, chomp_last, process_cmd}
use mathlib.Core.List.{append_assoc, append-nil}

-- No space and no newline in the text.
abbrev pub NoBlank : Bytes → Type 0
NoBlank [] = Unit
NoBlank (c ∷ s) = (c ≢ b' ') × (c ≢ b'\n') × NoBlank s

-- A text that is a word: it has a character, and no blank.
abbrev pub IsWord : Bytes → Type 0
IsWord [] = ⊥
IsWord (c ∷ s) = NoBlank (c ∷ s)

abbrev pub AreWords : List Bytes → Type 0
AreWords [] = Unit
AreWords (w ∷ ws) = IsWord w × AreWords ws

-- The words with a space between them, and a newline at the end.
abbrev pub line_of : Bytes → List Bytes → Bytes
line_of w [] = w ++ b'\n' ∷ []
line_of w (v ∷ ws) = w ++ b' ' ∷ line_of v ws

-- A blank ends the word that is open; anything else goes on with it.
tokens-word : (t w s : Bytes) → NoBlank w → tokens t (w ++ s) ≡ tokens (t ++ w) s
unfolding tokens
tokens-word t [] s h = rw append-nil refl
tokens-word t (c ∷ w) s h =
    let e : (c == b' ') ≡ false = ground arith in
    rw (e, tokens) (tokens-word (t ++ c ∷ []) w s h.2 ∙ rw append_assoc refl)

-- `strtok` returns the words, the last one with the newline.
abbrev with_newline : Bytes → List Bytes → List Bytes
with_newline w [] = (w ++ b'\n' ∷ []) ∷ []
with_newline w (v ∷ ws) = w ∷ with_newline v ws

tokens-line_of :
    (w : Bytes) (ws : List Bytes)
    → IsWord w
    → AreWords ws
    → tokens [] (line_of w ws) ≡ with_newline w ws
unfolding tokens
tokens-line_of [] ws h hs = absurd h
tokens-line_of (c ∷ w) [] h hs = tokens-word [] (c ∷ w) (b'\n' ∷ []) h
tokens-line_of (c ∷ w) (v ∷ ws) h hs =
    tokens-word [] (c ∷ w) (b' ' ∷ line_of v ws) h
    ∙ ap (λ (l : List Bytes). (c ∷ w) ∷ l) (tokens-line_of v ws hs.0 hs.1)

chomp-newline : (w : Bytes) → chomp (w ++ b'\n' ∷ []) ≡ w
unfolding chomp
chomp-newline [] = refl
chomp-newline (c ∷ []) = refl
chomp-newline (c ∷ d ∷ w) = ap (λ (l : Bytes). c ∷ l) (chomp-newline (d ∷ w))

chomp-NoBlank : (w : Bytes) → NoBlank w → chomp w ≡ w
unfolding chomp
chomp-NoBlank [] h = refl
chomp-NoBlank (c ∷ []) h = ground arith
chomp-NoBlank (c ∷ d ∷ w) h = ap (λ (l : Bytes). c ∷ l) (chomp-NoBlank (d ∷ w) h.2)

IsWord-NoBlank : (w : Bytes) → IsWord w → NoBlank w
IsWord-NoBlank [] h = tt
IsWord-NoBlank (c ∷ w) h = h

chomp_last-take :
    (n : ℕ) (w : Bytes) (ws : List Bytes)
    → IsWord w
    → AreWords ws
    → chomp_last (take (suc n) (with_newline w ws)) ≡ some (take (suc n) (w ∷ ws))
unfolding chomp_last
chomp_last-take zero w [] h hs = rw (chomp-newline w) refl
chomp_last-take zero w (v ∷ ws) h hs = rw (chomp-NoBlank w (IsWord-NoBlank w h)) refl
chomp_last-take (suc n) w [] h hs = rw (chomp-newline w) refl
chomp_last-take (suc n) w (v ∷ []) h hs = rw (chomp_last-take n v [] hs.0 hs.1) refl
chomp_last-take (suc n) w (v ∷ u ∷ ws) h hs = rw (chomp_last-take n v (u ∷ ws) hs.0 hs.1) refl

-- Of a line of words that have no blank in them, one space between two and a newline at the end,
-- `process_cmd` returns the words, the newline gone; of more than `n + 1` the first `n + 1`.
pub process_cmd-line_of :
    (n : ℕ) (w : Bytes) (ws : List Bytes)
    → IsWord w
    → AreWords ws
    → process_cmd (line_of w ws) (suc n) ≡ some (take (suc n) (w ∷ ws))
unfolding process_cmd
process_cmd-line_of n w ws h hs = rw (tokens-line_of w ws h hs) (chomp_last-take n w ws h hs)
