-- ===== src/Fs/Path.antt =====
-- Paths (lab4/fs5600.c): `sep_path`, `par_path` and `path2inum`.
pub mod Walk
use neu_cs5600_cmpsys.Base.{
  ℕ, zero, suc, ◌+◌, Bool, true, false, not, ◌&&◌, ◌||◌, List, [], ◌∷◌, ◌++◌, Option, none, some,
  ltb, leb, ◌==◌, if◌then◌else◌, length, take,
}
use neu_cs5600_cmpsys.Base.Bytes.{Bytes}
use neu_cs5600_cmpsys.Fs.Block.{u32, mode_at, size_at, ptr_at, is_dir, inode_of}
use neu_cs5600_cmpsys.Fs.Dir.{find_dirent}
use neu_cs5600_cmpsys.Fs.Monad.{Errno, enoent, enotdir, Disk, Out, undefined, done, M, block_read}

-- A token under construction ends at a slash, unless it is empty.
abbrev pub add_token : Bytes → List Bytes → List Bytes
add_token [] ts = ts
add_token (c ∷ t) ts = (c ∷ t) ∷ ts

-- All tokens that `strtok` finds between slashes, `t` being the one that has begun.
unfoldable pub tokens_from : Bytes → Bytes → List Bytes
tokens_from t [] = add_token t []
tokens_from t (c ∷ s) = elim (c == b'/') [
  | true ↦ add_token t (tokens_from [] s)
  | false ↦ tokens_from (t ++ c ∷ []) s
]

abbrev pub max_levels : ℕ
max_levels = 10

-- `none` for -1: more tokens than the array holds.
unfoldable pub sep_path : Bytes → Option (List Bytes)
unfolding tokens_from
sep_path path = let ts = tokens_from [] path in if leb (length ts) max_levels then some ts else none

-- The bytes of `src` that `par_path` copies: those of all tokens but the last, and a slash for
-- each.
unfoldable pub par_len : List Bytes → ℕ
par_len [] = 0
par_len (t ∷ []) = 0
par_len (t ∷ u ∷ ts) = length t + 1 + par_len (u ∷ ts)

-- The parent's path, in an array of 300 bytes: `none` if it does not fit.
unfoldable pub par_path : List Bytes → Bytes → Option Bytes
unfolding par_len
par_path ts src =
    let len = par_len ts in if ltb (len + 1) 300 then some (take len src ++ b'/' ∷ []) else none

pub data Ret : Type 0 where
  found : ℕ → Ret
  missing : Errno → Ret

-- The path is not empty and begins with a slash.
abbrev pub is_absolute : Bytes → Bool
is_absolute [] = false
is_absolute (c ∷ s) = c == b'/'

-- One round of the loop of `path2inum`: from the inode of a directory to that of the entry. `none`
-- if a read fails, whose buffer the code then uses.
unfoldable pub lookup_in : Disk → ℕ → Bytes → Option Ret
lookup_in d inum name =
    if ltb 27 (length name) then some (missing enoent) else elim (block_read d inum) [
      | none ↦ none
      | some in' ↦
          if not (is_dir (u32 in' mode_at)) || u32 in' size_at == 0
          then some (missing enotdir)
          else elim (block_read d (u32 in' (ptr_at 0))) [
            | none ↦ none
            | some buf ↦ elim (find_dirent buf name) [
              | none ↦ some (missing enoent)
              | some k ↦ some (found (inode_of buf k))
            ]
          ]
    ]

-- What an error, or no result, ends.
abbrev pub then_walk : (ℕ → Option Ret) → Option Ret → Option Ret
then_walk f none = none
then_walk f (some (missing e)) = some (missing e)
then_walk f (some (found i)) = f i

unfoldable pub walk : Disk → ℕ → List Bytes → Option Ret
walk d inum [] = some (found inum)
walk d inum (t ∷ ts) = then_walk (λ i. walk d i ts) (lookup_in d inum t)

abbrev pub root_inum : ℕ
root_inum = 2

unfoldable pub path2inum : Disk → Bytes → Option Ret
path2inum d path =
    if not (is_absolute path)
    then some (missing enoent)
    else elim (sep_path path) [ none ↦ some (missing enoent) | some ts ↦ walk d root_inum ts ]

-- `path2inum` as a step: it changes nothing.
unfoldable pub path_inum : Bytes → M Ret
path_inum path d = elim (path2inum d path) [ none ↦ undefined | some r ↦ done r d ]
