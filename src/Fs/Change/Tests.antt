-- ===== src/Fs/Change/Tests.antt =====
-- A file `/b` created beside `/a` (lab4/fs5600.c).
use neu_cs5600_cmpsys.Base.{
  ℕ, zero, suc, ◌≡◌, ◌≢◌, ◌≤◌, ◌<◌, ◌+◌, ◌*◌, ◌%◌, get_or, refl, ◌∷◌, some, ◌==◌, arith,
  if◌then◌else◌, replicate, get_or-replicate, length-replicate, ap, none, false, [],
}
use neu_cs5600_cmpsys.Base.Bytes.{Bytes, codes, streq, c_string}
use neu_cs5600_cmpsys.Fs.Bitmap.{bit_test, bit_set, alloc_in, find_free}
use neu_cs5600_cmpsys.Fs.Bitmap.Bits.{IsMap}
use neu_cs5600_cmpsys.Fs.Block.{u32, name_of}
use neu_cs5600_cmpsys.Fs.Change.{new_entry, old_entry, fs_create, fs_unlink, fs_truncate}
use neu_cs5600_cmpsys.Fs.Change.Free.{HasMap}
use neu_cs5600_cmpsys.Fs.Change.Truncate.{Truncates, fs_truncate-Truncates}
use neu_cs5600_cmpsys.Fs.Change.Create.{IsDirectory, entries, Creates, fs_create-Creates}
use neu_cs5600_cmpsys.Fs.Dir.{is_named, search_from, find_dirent, find_empty}
use neu_cs5600_cmpsys.Fs.Monad.{Disk, done, block_read}
use neu_cs5600_cmpsys.Fs.Path.{
  found, tokens_from, sep_path, par_len, par_path, lookup_in, walk, path2inum, path_inum,
}
use neu_cs5600_cmpsys.Fs.Sample.{name_a, inode, root_block, data_block}
use neu_cs5600_cmpsys.Fs.Change.Unlink.{old_entry_done, IsRegular, Unlinks, fs_unlink-Unlinks}

-- The blocks 0 to 5 are in use.
abbrev pub some_map : Bytes
some_map = 63 ∷ replicate 4095 0

pub some_map-IsMap : IsMap some_map
some_map-IsMap zero = omega arith
some_map-IsMap (suc i) = let h = get_or-replicate {A = ℕ} 4095 i 0 in rw h (omega arith)

abbrev block : ℕ → Bytes
block k =
    if k == 1
    then some_map
    else if k == 2
    then inode 16895 4096 3
    else if k == 3
    then root_block
    else if k == 4
    then inode 33279 5 5
    else data_block

abbrev disk : Disk
disk = record { count = 7; block = block }

root-IsDirectory : IsDirectory disk 2
unfolding u32 bit_test
root-IsDirectory = record {
  bytes = some_map-IsMap;
  map_whole = ap suc (length-replicate {A = ℕ} 4095 0);
  inode_used = refl;
  entries_used = refl;
  inode_on = omega arith;
  entries_on = omega arith;
  inode_place = omega arith;
  entries_place = omega arith;
  separate = λ e. absurd (omega arith);
  kind = refl;
  full = refl;
  whole = refl;
}

b-entry : new_entry (codes "/b") disk ≡ done (2, codes "b") disk
unfolding new_entry path_inum path2inum sep_path par_path par_len tokens_from walk lookup_in
    block_read u32 find_dirent search_from name_of c_string streq
b-entry = refl

b-new : find_dirent root_block (codes "b") ≡ none
unfolding u32 find_dirent search_from name_of c_string streq
b-new = refl

one-free : find_empty root_block ≡ some 1
unfolding u32 find_empty search_from
one-free = refl

six-free : alloc_in some_map ≡ some (6, bit_set some_map 6)
unfolding alloc_in find_free bit_test
six-free = refl

fs_create-Creates_example :
    (d' : Disk) × (fs_create (codes "/b") 420 0 0 7 (replicate 4096 1) disk ≡ done tt d')
    × Creates 420 7 2 6 (codes "b") disk d'
unfolding u32
fs_create-Creates_example =
    fs_create-Creates disk (codes "/b") 420 0 0 7 (replicate 4096 1) 2 1 6 (codes "b")
      (bit_set some_map 6) b-entry root-IsDirectory one-free six-free (omega arith) (omega arith)
      b-new ((λ e. absurd (omega arith)), tt) (length-replicate {A = ℕ} 4096 1) (omega arith)

-- The root directory has no entry behind that of `a`.
zeros : (p : ℕ) → 5 ≤ p → get_or root_block p 0 ≡ 0
zeros (suc (suc (suc (suc (suc n))))) h = get_or-replicate {A = ℕ} 4091 n 0
zeros zero h = absurd (omega arith)
zeros (suc zero) h = absurd (omega arith)
zeros (suc (suc zero)) h = absurd (omega arith)
zeros (suc (suc (suc zero))) h = absurd (omega arith)
zeros (suc (suc (suc (suc zero)))) h = absurd (omega arith)

unused : (j : ℕ) → j ≢ 0 → u32 root_block (32 * j) ≡ 0
unfolding u32
unused zero ne = absurd (ne refl)
unused (suc j) ne =
    let p = 32 * suc j in
    omega (
      arith,
      zeros p (omega arith),
      zeros (p + 1) (omega arith),
      zeros (p + 2) (omega arith),
      zeros (p + 3) (omega arith),
    )

pub only-a : (j : ℕ) → j ≢ 0 → is_named root_block name_a j ≡ false
only-a j ne = let e : u32 root_block (32 * j) % 2 ≡ 0 = omega (arith, unused j ne) in rw e refl

pub a-here : find_dirent root_block name_a ≡ some 0
unfolding u32 find_dirent search_from name_of c_string streq
a-here = refl

root-found : path_inum (codes "/") disk ≡ done (found 2) disk
unfolding path_inum path2inum sep_path tokens_from walk
root-found = refl

a-entry : old_entry (codes "/a") disk ≡ done (2, disk.block 2, disk.block (entries disk 2), 0) disk
unfolding sep_path par_path par_len tokens_from u32
a-entry =
    old_entry_done disk (codes "/a") (codes "/") name_a (name_a ∷ []) 2 0 refl refl refl root-found
      root-IsDirectory refl a-here

a-IsRegular : IsRegular disk 4
unfolding u32
a-IsRegular = record {
  on = omega arith;
  in_map = omega arith;
  kind = refl;
  few = omega arith;
  pointers = λ j h. one j h;
}
  where
    one : (j : ℕ) → j < 1 → u32 (disk.block 4) (20 + 4 * j) < 32768
    one zero h = omega arith
    one (suc j) h = absurd (omega arith)

fs_unlink-Unlinks_example :
    (d' : Disk) × (fs_unlink (codes "/a") 9 disk ≡ done tt d') × Unlinks 9 2 4 name_a disk d'
unfolding u32
fs_unlink-Unlinks_example =
    fs_unlink-Unlinks disk (codes "/a") 9 2 0 name_a a-entry root-IsDirectory refl a-IsRegular
      a-here only-a (omega arith) (omega arith)

a-found : path_inum (codes "/a") disk ≡ done (found 4) disk
unfolding path_inum path2inum sep_path tokens_from walk lookup_in block_read u32 find_dirent
    search_from name_of c_string streq
a-found = refl

disk-HasMap : HasMap disk
disk-HasMap = record {
  on = omega arith;
  bytes = some_map-IsMap;
  whole = ap suc (length-replicate {A = ℕ} 4095 0);
}

fs_truncate-Truncates_example :
    (d' : Disk) × (fs_truncate (codes "/a") 0 disk ≡ done tt d') × Truncates 4 disk d'
fs_truncate-Truncates_example =
    fs_truncate-Truncates disk (codes "/a") 3 a-found disk-HasMap a-IsRegular (omega arith) refl
