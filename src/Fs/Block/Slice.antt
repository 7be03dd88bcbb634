-- ===== src/Fs/Block/Slice.antt =====
-- The bytes of a range, after a write into the block: inside the range it fills, and beside it.
use neu_cs5600_cmpsys.Base.{
  ℕ, zero, suc, ◌+◌, ◌≤◌, ◌<◌, ◌≡◌, refl, ap, ◌∙◌, ◌⊎◌, inl, inr, [], ◌∷◌, ◌++◌, set, take, drop,
  length, arith,
}
use neu_cs5600_cmpsys.Base.Bytes.{Bytes, NoNul, c_string}
use neu_cs5600_cmpsys.Fs.Block.{write_at}

abbrev pub slice : Bytes → ℕ → ℕ → Bytes
slice b o n = take n (drop o b)

slice-set_before : (b : Bytes) (i o n v : ℕ) → o + n ≤ i → slice (set b i v) o n ≡ slice b o n
slice-set_before [] i o n v h = refl
slice-set_before (x ∷ b) i zero zero v h = refl
slice-set_before (x ∷ b) zero zero (suc n) v h = absurd (omega arith)
slice-set_before (x ∷ b) (suc i) zero (suc n) v h =
    ap (λ (r : Bytes). x ∷ r) (slice-set_before b i zero n v (omega arith))
slice-set_before (x ∷ b) zero (suc o) n v h = absurd (omega arith)
slice-set_before (x ∷ b) (suc i) (suc o) n v h = slice-set_before b i o n v (omega arith)

drop-set : (b : Bytes) (i o v : ℕ) → i < o → drop o (set b i v) ≡ drop o b
drop-set [] i o v h = refl
drop-set (x ∷ b) i zero v h = absurd (omega arith)
drop-set (x ∷ b) zero (suc o) v h = refl
drop-set (x ∷ b) (suc i) (suc o) v h = drop-set b i o v (omega arith)

-- A range beside the one that was written.
pub slice-write_at_other :
    (b : Bytes) (i : ℕ) (xs : Bytes) (o n : ℕ)
    → (o + n ≤ i) ⊎ (i + length xs ≤ o)
    → slice (write_at b i xs) o n ≡ slice b o n
unfolding write_at
slice-write_at_other b i [] o n h = refl
slice-write_at_other b i (x ∷ xs) o n (inl h) =
    slice-write_at_other (set b i x) (i + 1) xs o n (inl (omega arith))
    ∙ slice-set_before b i o n x h
slice-write_at_other b i (x ∷ xs) o n (inr h) =
    slice-write_at_other (set b i x) (i + 1) xs o n (inr (omega arith))
    ∙ ap (λ (r : Bytes). take n r) (drop-set b i o x (omega arith))

write_at-cons :
    (y : ℕ) (b : Bytes) (o : ℕ) (xs : Bytes) → write_at (y ∷ b) (suc o) xs ≡ y ∷ write_at b o xs
unfolding write_at
write_at-cons y b o [] = refl
write_at-cons y b o (x ∷ xs) =
    let e : suc o + 1 ≡ suc (o + 1) = omega arith in rw e (write_at-cons y (set b o x) (o + 1) xs)

first : (y x : ℕ) (b xs : Bytes) → write_at (y ∷ b) 0 (x ∷ xs) ≡ x ∷ write_at b 0 xs
unfolding write_at
first y x b xs = let e : 0 + 1 ≡ suc 0 = omega arith in rw e (write_at-cons x b 0 xs)

at_offset : (b xs : Bytes) (m n : ℕ) → m ≡ n → xs ++ drop m b ≡ xs ++ drop n b
at_offset b xs m n e = ap (λ (k : ℕ). xs ++ drop k b) e

-- The bytes from the place of the write on.
pub drop-write_at :
    (b : Bytes) (o : ℕ) (xs : Bytes)
    → o + length xs ≤ length b
    → drop o (write_at b o xs) ≡ xs ++ drop (o + length xs) b
unfolding write_at
drop-write_at b zero [] h = at_offset b [] 0 0 (omega arith)
drop-write_at (y ∷ b) zero (x ∷ xs) h =
    ap (λ (r : Bytes). drop 0 r) (first y x b xs)
    ∙ ap (λ (r : Bytes). x ∷ r) (drop-write_at b zero xs (omega arith))
    ∙ at_offset (y ∷ b) (x ∷ xs) (suc (0 + length xs)) (0 + suc (length xs)) (omega arith)
drop-write_at [] zero (x ∷ xs) h = absurd (omega arith)
drop-write_at [] (suc o) xs h = absurd (omega arith)
drop-write_at (y ∷ b) (suc o) xs h =
    ap (λ (r : Bytes). drop (suc o) r) (write_at-cons y b o xs)
    ∙ drop-write_at b o xs (omega arith)
    ∙ at_offset (y ∷ b) xs (suc (o + length xs)) (suc o + length xs) (omega arith)

-- A string with its NUL, read from a buffer with room for it.
pub c_string-take :
    (s rest : Bytes) (n : ℕ) → NoNul s → length s < n → c_string (take n (s ++ 0 ∷ rest)) ≡ s
unfolding c_string
c_string-take s rest zero f h = absurd (omega arith)
c_string-take [] rest (suc n) f h = refl
c_string-take (c ∷ s) rest (suc n) f h = ground (arith, c_string-take s rest n f.1, f.0)
