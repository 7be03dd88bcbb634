-- ===== src/Fs/Change/RmdirTests.antt =====
-- The empty directory `/a` removed (lab4/fs5600.c).
use neu_cs5600_cmpsys.Base.{
  ℕ, suc, ◌≡◌, refl, ap, false, none, ◌∷◌, [], ◌==◌, ◌&&◌, arith, if◌then◌else◌, replicate,
  length-replicate,
}
use neu_cs5600_cmpsys.Base.Bytes.{Bytes, codes}
use neu_cs5600_cmpsys.Fs.Bitmap.{bit_test}
use neu_cs5600_cmpsys.Fs.Block.{u32}
use neu_cs5600_cmpsys.Fs.Change.{old_entry, fs_rmdir, is_root}
use neu_cs5600_cmpsys.Fs.Change.Create.{IsDirectory, entries}
use neu_cs5600_cmpsys.Fs.Change.Removal.{Removes}
use neu_cs5600_cmpsys.Fs.Change.Unlink.{old_entry_done}
use neu_cs5600_cmpsys.Fs.Change.Rmdir.{IsEmptyDirectory, OwnsDirectory, fs_rmdir-Removes}
use neu_cs5600_cmpsys.Fs.Change.Tests.{some_map, some_map-IsMap, only-a, a-here}
use neu_cs5600_cmpsys.Fs.Dir.{find_full, search_from}
use neu_cs5600_cmpsys.Fs.Monad.{Disk, done}
use neu_cs5600_cmpsys.Fs.Path.{
  found, tokens_from, sep_path, par_len, par_path, walk, path2inum, path_inum, is_absolute,
}
use neu_cs5600_cmpsys.Fs.Sample.{name_a, inode, root_block}

-- The inode 4 is that of a directory whose entries are in block 5.
abbrev block : ℕ → Bytes
block k =
    if k == 1
    then some_map
    else if k == 2
    then inode 16895 4096 3
    else if k == 3
    then root_block
    else if k == 4
    then inode 16895 4096 5
    else replicate 4096 0

abbrev disk : Disk
disk = record { count = 7; block = block }

root-IsDirectory : IsDirectory disk 2
unfolding u32 bit_test
root-IsDirectory = record {
  bytes = some_map-IsMap;
  map_whole = ap suc (length-replicate {A = ℕ} 4095 0);
  inode_used = refl;
  entries_used = refl;
  inode_on = omega arith;
  entries_on = omega arith;
  inode_place = omega arith;
  entries_place = omega arith;
  separate = λ e. absurd (omega arith);
  kind = refl;
  full = refl;
  whole = refl;
}

root-found : path_inum (codes "/") disk ≡ done (found 2) disk
unfolding path_inum path2inum sep_path tokens_from walk
root-found = refl

a-entry : old_entry (codes "/a") disk ≡ done (2, disk.block 2, disk.block (entries disk 2), 0) disk
unfolding sep_path par_path par_len tokens_from u32
a-entry =
    old_entry_done disk (codes "/a") (codes "/") name_a (name_a ∷ []) 2 0 refl refl refl root-found
      root-IsDirectory refl a-here

nothing_in : find_full (replicate 4096 0) ≡ none
unfolding find_full search_from u32
nothing_in = refl

a-IsEmptyDirectory : IsEmptyDirectory disk 4
unfolding u32
a-IsEmptyDirectory = record {
  on = omega arith;
  in_map = omega arith;
  kind = refl;
  entries_on = omega arith;
  entries_in_map = omega arith;
  none_in_use = nothing_in;
}

a-below : (is_absolute (codes "/a") && is_root (sep_path (codes "/a"))) ≡ false
unfolding sep_path tokens_from
a-below = refl

fs_rmdir-Removes_example :
    (d' : Disk) × (fs_rmdir (codes "/a") 9 disk ≡ done tt d')
    × Removes 9 2 (OwnsDirectory disk 4) name_a disk d'
unfolding u32
fs_rmdir-Removes_example =
    fs_rmdir-Removes disk (codes "/a") 9 2 0 name_a a-below a-entry root-IsDirectory refl
      a-IsEmptyDirectory a-here only-a (omega arith) (omega arith)
