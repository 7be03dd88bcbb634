-- ===== src/Fs/Sample.antt =====
-- Blocks of a small disk, with a file `/a` in the root directory (lab4/fs5600.h).
use neu_cs5600_cmpsys.Base.{
  ℕ, ◌+◌, ◌≡◌, ◌∙◌, ◌++◌, arith, length, length-append, length-replicate, replicate,
}
use neu_cs5600_cmpsys.Base.Bytes.{Bytes, codes}
use neu_cs5600_cmpsys.Fs.Block.{le32}

abbrev pub name_a : Bytes
name_a = codes "a"

-- The inode of a directory or a file of one block, filled up to a whole block.
abbrev pub inode : ℕ → ℕ → ℕ → Bytes
inode mode size ptr =
    le32 0 ++ (le32 mode ++ (le32 0 ++ (le32 0 ++ (le32 size ++ (le32 ptr ++ replicate 4072 0)))))

abbrev pub root_block : Bytes
root_block = le32 9 ++ (name_a ++ replicate 4091 0)

abbrev pub data_block : Bytes
data_block = codes "hello" ++ replicate 4091 0

pub whole : (x y : ℕ) (xs : Bytes) → length xs + y ≡ x → length (xs ++ replicate y 0) ≡ x
whole x y xs e = length-append xs (replicate y 0) ∙ omega (arith, length-replicate {A = ℕ} y 0, e)
