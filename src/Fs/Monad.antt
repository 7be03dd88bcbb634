-- ===== src/Fs/Monad.antt =====
-- Steps on the disk image (lab4/misc.c). A step ends with a value, with an error code, both with
-- the disk as it then is, or outside what C defines: a failed assertion, or a use of a buffer that
-- a failed `block_read` left unset.
pub mod Laws
use neu_cs5600_cmpsys.Base.{
  ℕ, zero, suc, ◌+◌, ◌*◌, ◌/◌, ◌%◌, ◌^◌, Bool, true, false, ◌&&◌, ◌||◌, List, [], ◌∷◌, Option, none,
  some, ltb, leb, ◌==◌, if◌then◌else◌,
}
use neu_cs5600_cmpsys.Base.Bytes.{Bytes}

pub data Errno : Type 0 where
  enoent enotdir eisdir eexist einval enospc enotempty eio : Errno

-- The image file: `count` blocks, each one with its bytes.
pub record Disk : Type 0 where
  pub count : ℕ
  pub block : ℕ → Bytes

pub data Out (A : Type 0) : Type 0 where
  undefined : Out A
  error : Errno → Disk → Out A
  done : A → Disk → Out A

abbrev pub M : Type 0 → Type 0
M A = Disk → Out A

infixl 5 ◌>>=◌ ◌>>◌
abbrev pub ◌>>=◌ : {A B : Type 0} → M A → (A → M B) → M B
◌>>=◌ m f d = elim (m d) [ undefined ↦ undefined | error e d' ↦ error e d' | done a d' ↦ f a d' ]

abbrev pub ◌>>◌ : {B : Type 0} → M (Unit {0}) → M B → M B
m >> k = m >>= λ _. k

abbrev pub return : {A : Type 0} → A → M A
return a d = done a d

abbrev pub fail : {A : Type 0} → Errno → M A
fail e d = error e d

-- `if (b) { ret_code = -e; goto done; }`
abbrev pub fail_if : Bool → Errno → M (Unit {0})
fail_if true e d = error e d
fail_if false e d = done tt d

-- `int start = lba * FS_BLOCK_SIZE`, as the 32 bits of the product: from 2 ^ 31 on they stand for a
-- negative number. `lba` is the 32 bits of the number that the callers pass.
abbrev pub start_of : ℕ → ℕ
start_of lba = lba * 4096 % 2 ^ 32

-- `block_read` of one block: `none` for -EIO. `lseek` refuses a negative offset, and past the end
-- of the file `read` comes back short.
unfoldable pub block_read : Disk → ℕ → Option Bytes
block_read d lba =
    if ltb (start_of lba) (2 ^ 31) && ltb (start_of lba / 4096) d.count
    then some (d.block (start_of lba / 4096))
    else none

abbrev pub update : (ℕ → Bytes) → ℕ → Bytes → ℕ → Bytes
update f lba b i = if lba == i then b else f i

-- How `block_write` goes: its assertion fails, it returns -EIO, or the block is written.
pub data Written : Type 0 where
  asserts : Written
  fails : Written
  written : Disk → Written

-- `block_write` of one block. It asserts `lba > 0`, of a signed number. It seeks to `start + len`
-- first, an int as well, which is negative for the last block below 2 ^ 31; past the end of the
-- file the write extends it, with zeros between.
pub block_write : Disk → ℕ → Bytes → Written
block_write d lba b =
    if lba % 2 ^ 32 == 0 || leb (2 ^ 31) (lba % 2 ^ 32)
    then asserts
    else if leb (2 ^ 31) ((start_of lba + 4096) % 2 ^ 32) || leb (2 ^ 31) (start_of lba)
    then fails
    else written (record {
      count = if ltb (start_of lba / 4096) d.count then d.count else start_of lba / 4096 + 1;
      block = update d.block (start_of lba / 4096) b;
    })

-- A read whose result is tested, and one whose result is not.
pub read_checked : ℕ → M Bytes
unfolding block_read
read_checked lba d = elim (block_read d lba) [ none ↦ error eio d | some b ↦ done b d ]

unfoldable pub read_block : ℕ → M Bytes
unfolding block_read
read_block lba d = elim (block_read d lba) [ none ↦ undefined | some b ↦ done b d ]

-- A write whose result is not tested, and one whose result is.
pub write_block : ℕ → Bytes → M (Unit {0})
unfolding block_write
write_block lba b d = elim (block_write d lba b) [
  | asserts ↦ undefined
  | fails ↦ done tt d
  | written d' ↦ done tt d'
]

pub write_checked : ℕ → Bytes → M (Unit {0})
unfolding block_write
write_checked lba b d = elim (block_write d lba b) [
  | asserts ↦ undefined
  | fails ↦ error eio d
  | written d' ↦ done tt d'
]
