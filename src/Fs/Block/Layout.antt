-- ===== src/Fs/Block/Layout.antt =====
-- A number that is stored in a block is read back, and every field beside it reads as before.
use neu_cs5600_cmpsys.Base.{
  ℕ, zero, suc, ◌+◌, ◌^◌, ◌≤◌, ◌<◌, ◌≡◌, refl, ◌⊎◌, inl, ◌∙◌, [], ◌∷◌, get_or, set, get_or-set,
  length-set, length, arith,
}
use neu_cs5600_cmpsys.Base.Bytes.{Bytes}
use neu_cs5600_cmpsys.Fs.Block.{write_at, u32, set32, le32}

pub length-write_at : (b : Bytes) (o : ℕ) (xs : Bytes) → length (write_at b o xs) ≡ length b
unfolding write_at
length-write_at b o [] = refl
length-write_at b o (x ∷ xs) = length-write_at (set b o x) (o + 1) xs ∙ length-set b o x

-- A byte outside the range that was written.
pub get_or-write_at_other :
    (b : Bytes) (o : ℕ) (xs : Bytes) (j : ℕ)
    → o + length xs ≤ length b
    → (j < o) ⊎ (o + length xs ≤ j)
    → get_or (write_at b o xs) j 0 ≡ get_or b j 0
unfolding write_at
get_or-write_at_other b o [] j h away = refl
get_or-write_at_other b o (x ∷ xs) j h away =
    get_or-write_at_other (set b o x) (o + 1) xs j (omega (arith, length-set b o x)) (omega arith)
    ∙ rw (get_or-set b o j x 0 (omega arith)) (ground arith)

-- A byte inside it.
pub get_or-write_at_same :
    (b : Bytes) (o : ℕ) (xs : Bytes) (i : ℕ)
    → o + length xs ≤ length b
    → i < length xs
    → get_or (write_at b o xs) (o + i) 0 ≡ get_or xs i 0
unfolding write_at
get_or-write_at_same b o [] i h lt = absurd (omega arith)
get_or-write_at_same b o (x ∷ xs) zero h lt =
    get_or-write_at_other (set b o x) (o + 1) xs (o + 0) (omega (arith, length-set b o x))
      (inl (omega arith))
    ∙ rw (get_or-set b o (o + 0) x 0 (omega arith)) (ground arith)
get_or-write_at_same b o (x ∷ xs) (suc i) h lt =
    let e : o + suc i ≡ o + 1 + i = omega arith in
    rw e (
      get_or-write_at_same (set b o x) (o + 1) xs i (omega (arith, length-set b o x)) (omega arith))

-- A number beside the range that was written.
pub u32-write_at_other :
    (b : Bytes) (o : ℕ) (xs : Bytes) (p : ℕ)
    → o + length xs ≤ length b
    → (p + 4 ≤ o) ⊎ (o + length xs ≤ p)
    → u32 (write_at b o xs) p ≡ u32 b p
unfolding u32
u32-write_at_other b o xs p fits away = omega (
  arith,
  get_or-write_at_other b o xs p fits (omega arith),
  get_or-write_at_other b o xs (p + 1) fits (omega arith),
  get_or-write_at_other b o xs (p + 2) fits (omega arith),
  get_or-write_at_other b o xs (p + 3) fits (omega arith),
)

module _ (b : Bytes) (o v : ℕ) (fits : o + 4 ≤ length b) where
  set32_byte : (p i : ℕ) → p ≡ o + i → i < 4 → get_or (set32 b o v) p 0 ≡ get_or (le32 v) i 0
  unfolding set32
  set32_byte p i e lt = rw e (get_or-write_at_same b o (le32 v) i fits (omega arith))

  set32_byte_other : (p : ℕ) → (p < o) ⊎ (o + 4 ≤ p) → get_or (set32 b o v) p 0 ≡ get_or b p 0
  unfolding set32
  set32_byte_other p away = get_or-write_at_other b o (le32 v) p fits (omega arith)

  -- A 32-bit number that is stored at an offset is read back from there.
  pub u32-set32 : v < 2 ^ 32 → u32 (set32 b o v) o ≡ v
  unfolding u32
  u32-set32 h = omega (
    arith,
    set32_byte o 0 (omega arith) (omega arith),
    set32_byte (o + 1) 1 refl (omega arith),
    set32_byte (o + 2) 2 refl (omega arith),
    set32_byte (o + 3) 3 refl (omega arith),
  )

  -- A number that stands before it or behind it is as it was.
  pub u32-set32_other : (p : ℕ) → (p + 4 ≤ o) ⊎ (o + 4 ≤ p) → u32 (set32 b o v) p ≡ u32 b p
  unfolding u32
  u32-set32_other p away = omega (
    arith,
    set32_byte_other p (omega arith),
    set32_byte_other (p + 1) (omega arith),
    set32_byte_other (p + 2) (omega arith),
    set32_byte_other (p + 3) (omega arith),
  )

  pub length-set32 : length (set32 b o v) ≡ length b
  unfolding set32
  length-set32 = length-write_at b o (le32 v)
