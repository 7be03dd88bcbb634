-- ===== src/Fs/Dir.antt =====
-- Directory blocks (lab4/fs5600.c): the searches for an entry by name, for a free entry and for a
-- used one.
pub mod Search
pub mod Entry
pub mod Fill
pub mod Clear
use neu_cs5600_cmpsys.Base.{
  ℕ, zero, suc, ◌+◌, Bool, true, false, not, ◌&&◌, [], ◌∷◌, ◌++◌, Option, none, some, ltb,
  if◌then◌else◌, length,
}
use neu_cs5600_cmpsys.Base.Bytes.{Bytes, streq}
use neu_cs5600_cmpsys.Fs.Block.{valid, name_of, dirent_at, write_at}

abbrev pub num_dirent_block : ℕ
num_dirent_block = 128

-- The loop of all three searches: the first of `n` entries from `k` that passes the test.
unfoldable pub search_from : (ℕ → Bool) → ℕ → ℕ → Option ℕ
search_from p k zero = none
search_from p k (suc n) = elim (p k) [ true ↦ some k | false ↦ search_from p (k + 1) n ]

abbrev pub is_named : Bytes → Bytes → ℕ → Bool
is_named buf dst k = valid buf k && streq (name_of buf k) dst

unfoldable pub find_dirent : Bytes → Bytes → Option ℕ
unfolding search_from
find_dirent buf dst = search_from (is_named buf dst) 0 num_dirent_block

unfoldable pub find_empty : Bytes → Option ℕ
unfolding search_from
find_empty buf = search_from (λ k. not (valid buf k)) 0 num_dirent_block

unfoldable pub find_full : Bytes → Option ℕ
unfolding search_from
find_full buf = search_from (λ k. valid buf k) 0 num_dirent_block

-- `strcpy(dirent->name, name)`: `none` if it leaves the entry's 28 bytes.
unfoldable pub strcpy_name : Bytes → ℕ → Bytes → Option Bytes
unfolding write_at
strcpy_name buf k name =
    if ltb (length name) 28 then some (write_at buf (dirent_at k + 4) (name ++ 0 ∷ [])) else none
