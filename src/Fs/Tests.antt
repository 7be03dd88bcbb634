-- ===== src/Fs/Tests.antt =====
-- A concrete disk, with a file `/a` in the root directory, and runs of the file system on it
-- (lab4/fs5600.c).
use neu_cs5600_cmpsys.Base.{
  ℕ, zero, suc, ◌+◌, ◌*◌, ◌<◌, ◌≡◌, refl, true, [], ◌∷◌, ◌++◌, none, some, ◌==◌, arith,
  if◌then◌else◌, length, get_or-replicate, get_or-replicate_lt, get_or-replicate_ge, Bool-cases,
  ltb, ltb→lt, inl, inr, length-replicate, replicate,
}
use neu_cs5600_cmpsys.Base.Bytes.{Bytes, codes, streq, c_string}
use neu_cs5600_cmpsys.Fs.Bitmap.{bit_set, bit_test, alloc_in}
use neu_cs5600_cmpsys.Fs.Bitmap.Bits.{IsMap, bit_test-bit_set, bit_test-replicate}
use neu_cs5600_cmpsys.Fs.Bitmap.Alloc.{Allocates, alloc_in-Allocates, alloc_in-none}
use neu_cs5600_cmpsys.Fs.Block.{le32, u32, name_of}
use neu_cs5600_cmpsys.Fs.Monad.{Disk, done, undefined, block_read}
use neu_cs5600_cmpsys.Fs.Dir.{search_from, find_dirent}
use neu_cs5600_cmpsys.Fs.Path.{found, tokens_from, sep_path, lookup_in, walk, path2inum}
use neu_cs5600_cmpsys.Fs.Path.Walk.{AreNames, sep_path-join}
use neu_cs5600_cmpsys.Fs.Read.{fs_read}
use neu_cs5600_cmpsys.Fs.Read.Loop.{slice, IsFile, fs_read-slice}
use neu_cs5600_cmpsys.Fs.Attr.{fs_chmod}
use neu_cs5600_cmpsys.Fs.Write.{write_loop}
use neu_cs5600_cmpsys.Fs.Write.Full.{write_loop_full}
use neu_cs5600_cmpsys.Fs.Attr.Chmod.{Chmods, fs_chmod-Chmods}
use neu_cs5600_cmpsys.Fs.Sample.{name_a, inode, root_block, data_block, whole}

-- A map with every block free.
abbrev free_map : Bytes
free_map = replicate 4096 0

free_map-IsMap : IsMap free_map
free_map-IsMap i = rw (get_or-replicate {A = ℕ} 4096 i 0) (omega arith)

bit_test-bit_set_example :
    bit_test (bit_set free_map 11) 12 ≡ (if 11 == 12 then true else bit_test free_map 12)
bit_test-bit_set_example =
    bit_test-bit_set free_map free_map-IsMap 11 (rw (length-replicate {A = ℕ} 4096 0) (omega arith))
      12

alloc_in-Allocates_example : Allocates free_map (alloc_in free_map)
alloc_in-Allocates_example =
    alloc_in-Allocates free_map free_map-IsMap (length-replicate {A = ℕ} 4096 0)

abbrev name_bc : Bytes
name_bc = codes "bc"

a-bc-AreNames : AreNames (name_a ∷ name_bc ∷ [])
a-bc-AreNames = (((refl, tt), ground arith), (((refl, (refl, tt)), ground arith), tt))

a-AreNames : AreNames (name_a ∷ [])
a-AreNames = (((refl, tt), ground arith), tt)

sep_path-join_example : sep_path (codes "/a/bc") ≡ some (name_a ∷ name_bc ∷ [])
sep_path-join_example = sep_path-join (name_a ∷ name_bc ∷ []) a-bc-AreNames (omega arith)

abbrev block : ℕ → Bytes
block k =
    if k == 2
    then inode 16895 4096 3
    else if k == 3
    then root_block
    else if k == 4
    then inode 33279 5 5
    else if k == 5
    then data_block
    else free_map

abbrev disk : Disk
disk = record { count = 6; block = block }

a-found : path2inum disk (codes "/a") ≡ some (found 4)
unfolding path2inum sep_path tokens_from walk lookup_in block_read u32 find_dirent search_from
    name_of c_string streq
a-found = refl

a-IsFile : IsFile disk (disk.block 4)
unfolding u32
a-IsFile = record { small = omega arith; present = λ i h. present i h; whole = λ i h. whole_at i h }
  where
    present : (i : ℕ) → i * 4096 < 5 → u32 (disk.block 4) (20 + 4 * i) < 6
    present zero h = omega arith
    present (suc i) h = absurd (omega arith)

    whole_at : (i : ℕ) → i * 4096 < 5 → length (disk.block (u32 (disk.block 4) (20 + 4 * i))) ≡ 4096
    whole_at zero h = whole 4096 4091 (codes "hello") refl
    whole_at (suc i) h = absurd (omega arith)

fs_read-slice_example : fs_read (codes "/a") 100 1 disk ≡ done (slice disk (disk.block 4) 1 4) disk
unfolding u32
fs_read-slice_example = fs_read-slice disk (codes "/a") 4 100 1 a-found (omega arith) refl a-IsFile

fs_chmod-Chmods_example :
    (d' : Disk) × (fs_chmod (codes "/a") 420 disk ≡ done tt d') × Chmods 420 4 disk d'
unfolding u32
fs_chmod-Chmods_example =
    fs_chmod-Chmods disk (codes "/a") 3 420 a-found (omega arith)
      (whole 4096 4072 (le32 0 ++ (le32 33279 ++ (le32 0 ++ (le32 0 ++ (le32 5 ++ le32 5))))) refl)
      (omega arith)

-- A disk with every block in use.
abbrev full_map : Bytes
full_map = replicate 4096 255

abbrev full_disk : Disk
full_disk = record { count = 6; block = λ k. if k == 1 then full_map else block k }

full_map-IsMap : IsMap full_map
full_map-IsMap i = elim (Bool-cases (ltb i 4096)) [
  | inl e ↦ rw (get_or-replicate_lt {A = ℕ} 4096 i 255 0 (ltb→lt i 4096 e)) (omega arith)
  | inr e ↦ rw (get_or-replicate_ge {A = ℕ} 4096 i 255 0 (ground arith)) (omega arith)
]

full_map-none : alloc_in full_map ≡ none
full_map-none =
    alloc_in-none full_map full_map-IsMap (length-replicate {A = ℕ} 4096 255)
      (λ j a b. bit_test-replicate 4096 j (omega (arith, b)))

write_loop_full_example : write_loop 2 (full_disk.block 4) (codes "hi") 1 0 full_disk ≡ undefined
unfolding u32
write_loop_full_example =
    write_loop_full full_disk (full_disk.block 4) (codes "i") b'h' 1 0 1 (omega arith) full_map-none
      (whole 4096 4072 (le32 0 ++ (le32 33279 ++ (le32 0 ++ (le32 0 ++ (le32 5 ++ le32 5))))) refl)
      (omega arith) refl
