-- ===== src/Fs/Block.antt =====
-- A block as the array of its bytes, and the structures that lab4/fs5600.h lays over it: numbers
-- are little endian, an inode's fields stand at the offsets 0, 2, 4, 8, 12, 16 and its pointers
-- from 20 on, and directory entry `k` stands at 32 * k, with `valid` in the lowest bit of its first
-- word.
pub mod Layout
pub mod Slice
use neu_cs5600_cmpsys.Base.{
  ℕ, zero, suc, ◌+◌, ◌-◌, ◌*◌, ◌/◌, ◌%◌, ◌^◌, Bool, true, false, List, [], ◌∷◌, ◌==◌, if◌then◌else◌,
  get_or, set, take, drop,
}
use neu_cs5600_cmpsys.Base.Bytes.{Bytes, c_string}

-- `memcpy` of `xs` into a buffer at an offset.
unfoldable pub write_at : Bytes → ℕ → Bytes → Bytes
write_at b o [] = b
write_at b o (x ∷ xs) = write_at (set b o x) (o + 1) xs

pub u16 : Bytes → ℕ → ℕ
u16 b o = get_or b o 0 + 256 * get_or b (o + 1) 0

unfoldable pub u32 : Bytes → ℕ → ℕ
u32 b o =
    get_or b o 0
    + 256 * get_or b (o + 1) 0
    + 65536 * get_or b (o + 2) 0
    + 16777216 * get_or b (o + 3) 0

abbrev pub le16 : ℕ → Bytes
le16 v = v % 256 ∷ v / 256 % 256 ∷ []

abbrev pub le32 : ℕ → Bytes
le32 v = v % 256 ∷ v / 256 % 256 ∷ v / 65536 % 256 ∷ v / 16777216 % 256 ∷ []

unfoldable pub set32 : Bytes → ℕ → ℕ → Bytes
unfolding write_at
set32 b o v = write_at b o (le32 v)

unfoldable pub set16 : Bytes → ℕ → ℕ → Bytes
unfolding write_at
set16 b o v = write_at b o (le16 v)

-- The fields of `struct fs_inode`, by their offsets.
abbrev pub uid_at : ℕ
uid_at = 0

abbrev pub gid_at : ℕ
gid_at = 2

abbrev pub mode_at : ℕ
mode_at = 4

abbrev pub ctime_at : ℕ
ctime_at = 8

abbrev pub mtime_at : ℕ
mtime_at = 12

abbrev pub size_at : ℕ
size_at = 16

abbrev pub ptr_at : ℕ → ℕ
ptr_at i = 20 + 4 * i

abbrev pub num_ptrs_inode : ℕ
num_ptrs_inode = 1019

-- `S_ISDIR`
abbrev pub is_dir : ℕ → Bool
is_dir mode = mode / 4096 % 16 == 4

-- The fields of directory entry `k`.
abbrev pub dirent_at : ℕ → ℕ
dirent_at k = 32 * k

abbrev pub valid : Bytes → ℕ → Bool
valid b k = u32 b (dirent_at k) % 2 == 1

abbrev pub inode_of : Bytes → ℕ → ℕ
inode_of b k = u32 b (dirent_at k) / 2

unfoldable pub name_of : Bytes → ℕ → Bytes
unfolding c_string
name_of b k = c_string (take 28 (drop (dirent_at k + 4) b))

-- `dirent->valid = v` and `dirent->inode = i`
unfoldable pub set_header : Bytes → ℕ → ℕ → ℕ → Bytes
unfolding set32
set_header b k v i = set32 b (dirent_at k) (v + 2 * i)
