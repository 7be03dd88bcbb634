-- ===== src/Fs/Bitmap.antt =====
-- The block bitmap (lab4/fs5600.c): `bit_set`, `bit_clear`, `bit_test` on an array of bytes, and
-- the allocation of a block.
pub mod Bits
pub mod Alloc
use Prim.Native.Nat.{bit_and, bit_or}
use neu_cs5600_cmpsys.Base.{
  ℕ, zero, suc, ◌+◌, ◌-◌, ◌*◌, ◌/◌, ◌%◌, ◌^◌, Bool, true, false, not, List, Option, none, some,
  ◌==◌, if◌then◌else◌, get_or, set,
}
use neu_cs5600_cmpsys.Base.Bytes.{Bytes}

abbrev pub fs_block_size : ℕ
fs_block_size = 4096

-- `1 << (i % 8)`
abbrev pub mask : ℕ → ℕ
mask i = 2 ^ (i % 8)

-- `map[i / 8] |= 1 << (i % 8)`
unfoldable pub bit_set : Bytes → ℕ → Bytes
bit_set map i = set map (i / 8) (bit_or (get_or map (i / 8) 0) (mask i))

-- `map[i / 8] &= ~(1 << (i % 8))`, of which the low byte is kept
pub bit_clear : Bytes → ℕ → Bytes
bit_clear map i = set map (i / 8) (bit_and (get_or map (i / 8) 0) (255 - mask i))

-- `map[i / 8] & (1 << (i % 8))` as a test
unfoldable pub bit_test : Bytes → ℕ → Bool
bit_test map i = not (bit_and (get_or map (i / 8) 0) (mask i) == 0)

-- The loop of `alloc_blk` from `i`, with `n` rounds left: the first block that is free.
unfoldable pub find_free : Bytes → ℕ → ℕ → Option ℕ
find_free map i zero = none
find_free map i (suc n) = elim (bit_test map i) [ true ↦ find_free map (i + 1) n | false ↦ some i ]

-- `alloc_blk` on the bitmap: the block and the new map, `none` for -ENOSPC. The first three blocks
-- are not looked at.
unfoldable pub alloc_in : Bytes → Option (ℕ × Bytes)
alloc_in map = elim (find_free map 3 (fs_block_size * 8 - 3)) [
  | none ↦ none
  | some i ↦ some (i, bit_set map i)
]

-- The loop of `fs_statfs`: how many of `n` bits from `i` are set.
pub count_used : Bytes → ℕ → ℕ → ℕ
count_used map i zero = 0
count_used map i (suc n) = (if bit_test map i then 1 else 0) + count_used map (i + 1) n
