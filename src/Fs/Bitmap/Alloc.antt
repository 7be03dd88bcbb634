-- ===== src/Fs/Bitmap/Alloc.antt =====
-- The block that `alloc_blk` takes, and what a freed block means for it (lab4/fs5600.c).
use neu_cs5600_cmpsys.Base.{
  ℕ, zero, suc, ◌+◌, ◌-◌, ◌*◌, ◌≤◌, ◌<◌, ◌≡◌, refl, ◌∙◌, sym, true, false, Option, none, some, ◌==◌,
  if◌then◌else◌, length, arith, Bool-cases, inl, inr, ltb,
}
use mathlib.Core.Path.{subst}
use neu_cs5600_cmpsys.Base.Bytes.{Bytes}
use neu_cs5600_cmpsys.Fs.Bitmap.{fs_block_size, bit_set, bit_clear, bit_test, find_free, alloc_in}
use neu_cs5600_cmpsys.Fs.Bitmap.Bits.{
  IsMap, bit_test-bit_set, bit_test-bit_clear, bit_set-IsMap, bit_clear-IsMap, length-bit_clear,
}

-- The loop's answer: the first free block of the range, or none with every block in use.
abbrev pub IsFirst : Bytes → ℕ → ℕ → Option ℕ → Type 0
IsFirst map i n none = (j : ℕ) → i ≤ j → j < i + n → bit_test map j ≡ true
IsFirst map i n (some k) =
    (i ≤ k)
    × (k < i + n)
    × (bit_test map k ≡ false)
    × ((j : ℕ) → i ≤ j → j < k → bit_test map j ≡ true)

-- In use from `i + 1` on, and at `i`.
covers :
    (map : Bytes) (i m : ℕ)
    → bit_test map i ≡ true
    → ((j : ℕ) → i + 1 ≤ j → j < m → bit_test map j ≡ true)
    → (j : ℕ) → i ≤ j
    → j < m
    → bit_test map j ≡ true
covers map i m e f j a b = elim (Bool-cases (i == j)) [
  | inl s ↦ let p : i ≡ j = ground arith in rw p at e
  | inr s ↦ f j (ground arith) b
]

extend :
    (map : Bytes) (i n : ℕ) (r : Option ℕ)
    → bit_test map i ≡ true
    → IsFirst map (i + 1) n r
    → IsFirst map i (suc n) r
extend map i n none e f = λ j a b. covers map i (i + 1 + n) e f j a (omega arith)
extend map i n (some k) e f = (omega arith, omega arith, f.2, covers map i k e f.3)

find_free-IsFirst : (map : Bytes) (i n : ℕ) → IsFirst map i n (find_free map i n)
unfolding find_free
find_free-IsFirst map i zero = λ j a b. absurd (omega arith)
find_free-IsFirst map i (suc n) = elim (Bool-cases (bit_test map i)) [
  | inr e ↦
      let stop : find_free map i (suc n) ≡ some i = rw (e, find_free) refl in
      subst (IsFirst map i (suc n)) (sym stop)
        (omega arith, omega arith, e, λ j a b. absurd (omega arith))
  | inl e ↦
      let more : find_free map i (suc n) ≡ find_free map (i + 1) n = rw (e, find_free) refl in
      subst (IsFirst map i (suc n)) (sym more)
        (extend map i n (find_free map (i + 1) n) e (find_free-IsFirst map (i + 1) n))
]

abbrev pub blocks : ℕ
blocks = fs_block_size * 8

-- What `alloc_blk` gives: -ENOSPC with every block from 3 in use, or the first free block from 3,
-- which alone is newly marked.
abbrev pub Allocates : Bytes → Option (ℕ × Bytes) → Type 0
Allocates map none = (j : ℕ) → 3 ≤ j → j < blocks → bit_test map j ≡ true
Allocates map (some (i, map')) =
    (3 ≤ i)
    × (i < blocks)
    × (bit_test map i ≡ false)
    × ((j : ℕ) → 3 ≤ j → j < i → bit_test map j ≡ true)
    × ((j : ℕ) → bit_test map' j ≡ (if i == j then true else bit_test map j))
    × IsMap map'

module _ (map : Bytes) (bytes : IsMap map) (whole : length map ≡ fs_block_size) where
  allocated :
      (r : Option ℕ)
      → IsFirst map 3 (fs_block_size * 8 - 3) r
      → Allocates map (elim r [ none ↦ none | some i ↦ some (i, bit_set map i) ])
  allocated none f = λ j a b. f j a (omega arith)
  allocated (some i) f = (
    f.0,
    omega (arith, f.1),
    f.2,
    f.3,
    bit_test-bit_set map bytes i (omega (arith, f.1)),
    bit_set-IsMap map bytes i (omega (arith, f.1)),
  )

  -- On the bitmap of a block, `alloc_blk` takes the first free block from 3 on and marks it, and no
  -- other bit changes; it fails only if every block from 3 on is in use.
  pub alloc_in-Allocates : Allocates map (alloc_in map)
  unfolding alloc_in
  alloc_in-Allocates =
      allocated (find_free map 3 (fs_block_size * 8 - 3))
        (find_free-IsFirst map 3 (fs_block_size * 8 - 3))

reused :
    (m : Bytes) (i : ℕ) (r : Option (ℕ × Bytes))
    → Allocates m r
    → bit_test m i ≡ false
    → 3 ≤ i
    → i < blocks
    → (k : ℕ) × (m' : Bytes) × (r ≡ some (k, m')) × (k ≤ i)
reused m i none a e lo hi = absurd (ground (arith, a i lo hi))
reused m i (some (k, m')) a e lo hi = (
  k,
  m',
  refl,
  elim (Bool-cases (ltb i k)) [
    | inl lt ↦ absurd (ground (arith, a.3 i lo (ground arith)))
    | inr ge ↦ ground arith
  ],
)

-- After `free_blk i` the next `alloc_blk` does not fail, and takes `i` or a block before it.
pub alloc_in-bit_clear :
    (map : Bytes) (i : ℕ)
    → IsMap map
    → length map ≡ fs_block_size
    → 3 ≤ i
    → i < blocks
    → (k : ℕ) × (map' : Bytes) × (alloc_in (bit_clear map i) ≡ some (k, map')) × (k ≤ i)
alloc_in-bit_clear map i bytes whole lo hi =
    reused (bit_clear map i) i (alloc_in (bit_clear map i))
      (alloc_in-Allocates (bit_clear map i) (bit_clear-IsMap map bytes i (omega arith))
        (length-bit_clear map i ∙ whole))
      (bit_test-bit_clear map bytes i (omega arith) i ∙ ground arith) lo hi

none_free :
    (map : Bytes) (r : Option (ℕ × Bytes))
    → Allocates map r
    → ((j : ℕ) → 3 ≤ j → j < blocks → bit_test map j ≡ true)
    → r ≡ none
none_free map none a f = refl
none_free map (some (k, m')) a f = absurd (ground (arith, f k a.0 a.1, a.2))

-- With every block from 3 on in use, `alloc_blk` fails.
pub alloc_in-none :
    (map : Bytes)
    → IsMap map
    → length map ≡ fs_block_size
    → ((j : ℕ) → 3 ≤ j → j < blocks → bit_test map j ≡ true)
    → alloc_in map ≡ none
alloc_in-none map bytes whole f =
    none_free map (alloc_in map) (alloc_in-Allocates map bytes whole) f
