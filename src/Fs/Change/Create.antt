-- ===== src/Fs/Change/Create.antt =====
-- `fs_create` (lab4/fs5600.c) against what is found in the parent directory afterwards.
use neu_cs5600_cmpsys.Base.{
  ℕ, ◌+◌, ◌%◌, ◌^◌, ◌<◌, ◌≡◌, ◌≢◌, refl, sym, ap, ◌∙◌, true, false, [], ◌∷◌, ◌++◌, Option, none,
  some, ◌==◌, length, arith, if◌then◌else◌,
}
use mathlib.Core.Path.{subst}
use neu_cs5600_cmpsys.Base.Bytes.{Bytes, NoNul, streq}
use neu_cs5600_cmpsys.Fs.Alloc.{alloc_blk}
use neu_cs5600_cmpsys.Fs.Bitmap.{fs_block_size, bit_test, alloc_in}
use neu_cs5600_cmpsys.Fs.Bitmap.Bits.{IsMap}
use neu_cs5600_cmpsys.Fs.Bitmap.Alloc.{Allocates, alloc_in-Allocates}
use neu_cs5600_cmpsys.Fs.Block.{
  u32, set16, uid_at, gid_at, write_at, dirent_at, mode_at, size_at, mtime_at, ptr_at, is_dir,
}
use neu_cs5600_cmpsys.Fs.Change.{new_entry, new_inode, fs_create}
use neu_cs5600_cmpsys.Fs.Dir.{find_dirent, find_empty, strcpy_name}
use neu_cs5600_cmpsys.Fs.Dir.Entry.{filled}
use neu_cs5600_cmpsys.Fs.Dir.Fill.{inum_of, filled-insert}
use neu_cs5600_cmpsys.Fs.Monad.{Disk, done, update, ◌>>=◌}
use neu_cs5600_cmpsys.Fs.Monad.Laws.{in_reach, read_block_done, write_block_done}
use neu_cs5600_cmpsys.Fs.Change.Inode.{mode_read, size_read, time_read, ids_whole}

-- The block of a directory's entries.
abbrev pub entries : Disk → ℕ → ℕ
entries d inum = u32 (d.block inum) (ptr_at 0)

abbrev pub put : Disk → ℕ → Bytes → Disk
put d lba b = record { count = d.count; block = update d.block lba b }

-- A directory on the disk: its inode and the block of its entries are there, within the offsets
-- that an int holds, apart, and marked as in use in the bitmap, which is whole.
pub record IsDirectory (d : Disk) (inum : ℕ) : Type 0 where
  pub bytes : IsMap (d.block 1)
  pub map_whole : length (d.block 1) ≡ fs_block_size
  pub inode_used : bit_test (d.block 1) inum ≡ true
  pub entries_used : bit_test (d.block 1) (entries d inum) ≡ true
  pub inode_on : inum < in_reach d
  pub entries_on : entries d inum < in_reach d
  pub inode_place : 1 < inum
  pub entries_place : 1 < entries d inum
  pub separate : inum ≢ entries d inum
  pub kind : is_dir (u32 (d.block inum) mode_at) ≡ true
  pub full : (u32 (d.block inum) size_at == 0) ≡ false
  pub whole : length (d.block (entries d inum)) ≡ fs_block_size

-- The disk after the creation of `name` in the directory, as the file in block `new`.
pub record Creates (mode now inum new : ℕ) (name : Bytes) (d d' : Disk) : Type 0 where
  -- the name leads to the file, and every other name to where it led
  pub lookup :
      (dst : Bytes)
      → inum_of (d'.block (entries d' inum)) dst
        ≡ (if streq name dst then some new else inum_of (d.block (entries d inum)) dst)
  pub parent : d'.block inum ≡ d.block inum
  -- a regular file of no bytes
  pub file_mode : u32 (d'.block new) mode_at ≡ mode % 4096 + 2 ^ 15
  pub file_size : u32 (d'.block new) size_at ≡ 0
  pub file_time : u32 (d'.block new) mtime_at ≡ now
  -- its block was free and is marked, and all blocks but three are as they were
  pub was_free : bit_test (d.block 1) new ≡ false
  pub marked : bit_test (d'.block 1) new ≡ true
  pub others : (j : ℕ) → j ≢ 1 → j ≢ new → j ≢ entries d inum → d'.block j ≡ d.block j

alloc_blk_done :
    (d : Disk) (i : ℕ) (m : Bytes)
    → 1 < in_reach d
    → alloc_in (d.block 1) ≡ some (i, m)
    → alloc_blk d ≡ done (some i) (put d 1 m)
unfolding alloc_blk
alloc_blk_done d i m on e =
    rw (read_block_done d 1 on, alloc_blk, ◌>>=◌, e, write_block_done d 1 on m (omega arith)) refl

-- What was written last, and what stands elsewhere.
pub put_same : (d : Disk) (i : ℕ) (b : Bytes) → (put d i b).block i ≡ b
put_same d i b = ground arith

pub put_other : (d : Disk) (i j : ℕ) (b : Bytes) → j ≢ i → (put d i b).block j ≡ d.block j
put_other d i j b ne = ground arith

copied_name :
    (buf : Bytes) (k : ℕ) (name : Bytes)
    → length name < 28
    → strcpy_name buf k name ≡ some (write_at buf (dirent_at k + 4) (name ++ 0 ∷ []))
unfolding strcpy_name
copied_name buf k name h = ground arith

module _ (d : Disk) (path : Bytes) (mode uid gid now : ℕ) (junk : Bytes) (inum k new : ℕ)
    (name map' : Bytes) (entry : new_entry path d ≡ done (inum, name) d) (dir : IsDirectory d inum)
    (empty : find_empty (d.block (entries d inum)) ≡ some k)
    (alloc : alloc_in (d.block 1) ≡ some (new, map')) (on : new < in_reach d)
    (short : length name < 28) where
  abbrev file : Bytes
  file = new_inode junk uid gid (mode % 4096 + 2 ^ 15) 0 now

  abbrev after : Disk
  after =
      put (put (put d 1 map') new file) (entries d inum)
        (filled (d.block (entries d inum)) k name new)

  create_done : 2 < new → fs_create path mode uid gid now junk d ≡ done tt after
  unfolding fs_create
  create_done place =
      let at : ℕ = entries d inum in
      let buf : Bytes = d.block at in
      let low = dir.entries_place in
      let copied : strcpy_name buf k name ≡ some (write_at buf (dirent_at k + 4) (name ++ 0 ∷ [])) =
        copied_name buf k name short in
      rw
        (
          entry,
          fs_create,
          ◌>>=◌,
          read_block_done d inum dir.inode_on,
          dir.kind,
          read_block_done d at dir.entries_on,
          empty,
          alloc_blk_done d new map' (omega (arith, dir.inode_on, dir.inode_place)) alloc,
          copied,
          write_block_done (put d 1 map') new on file (omega arith),
        )
        (write_block_done (put (put d 1 map') new file) at dir.entries_on (filled buf k name new)
          (omega arith))

  allocated : Allocates (d.block 1) (some (new, map'))
  allocated =
      subst (λ (o : Option (ℕ × Bytes)). Allocates (d.block 1) o) alloc
        (alloc_in-Allocates (d.block 1) dir.bytes dir.map_whole)

  -- The new block is not one that is in use.
  unlike : (j : ℕ) → bit_test (d.block 1) j ≡ true → j ≢ new
  unlike j used e =
      absurd (let h : true ≡ false = sym used ∙ ap (bit_test (d.block 1)) e ∙ allocated.2 in cc)

  after_inode : after.block inum ≡ d.block inum
  after_inode =
      put_other (put (put d 1 map') new file) (entries d inum) inum _ dir.separate
      ∙ put_other (put d 1 map') new inum file (unlike inum dir.inode_used)
      ∙ put_other d 1 inum map' (λ e. absurd (omega (arith, dir.inode_place)))

  written_block : after.block (entries after inum) ≡ filled (d.block (entries d inum)) k name new
  written_block =
      ap (λ (b : Bytes). after.block (u32 b (ptr_at 0))) after_inode
      ∙ put_same (put (put d 1 map') new file) (entries d inum) _

  after_file : after.block new ≡ file
  after_file =
      put_other (put (put d 1 map') new file) (entries d inum) new _
        (λ e. unlike (entries d inum) dir.entries_used (sym e))
      ∙ put_same (put d 1 map') new file

  after_map : after.block 1 ≡ map'
  after_map =
      put_other (put (put d 1 map') new file) (entries d inum) 1 _
        (λ e. absurd (omega (arith, dir.entries_place)))
      ∙ put_other (put d 1 map') new 1 file (λ e. absurd (omega (arith, allocated.0)))
      ∙ put_same d 1 map'

  after_others : (j : ℕ) → j ≢ 1 → j ≢ new → j ≢ entries d inum → after.block j ≡ d.block j
  after_others j a b c =
      put_other (put (put d 1 map') new file) (entries d inum) j _ c
      ∙ put_other (put d 1 map') new j file b
      ∙ put_other d 1 j map' a

  -- `fs_create` in a directory with a free entry, of a name that is new there and has no NUL, on a
  -- disk with a free block, all within the offsets that an int holds, succeeds. The name then leads
  -- to the new inode, every other name to where it led, the inode is that of a regular file of no
  -- bytes with the permissions and the time that were given, and its block, which was free, is
  -- marked as in use.
  pub fs_create-Creates :
      find_dirent (d.block (entries d inum)) name ≡ none
      → NoNul name
      → length junk ≡ fs_block_size
      → now < 2 ^ 32
      → (d' : Disk) × (fs_create path mode uid gid now junk d ≡ done tt d')
        × Creates mode now inum new name d d'
  unfolding new_inode
  fs_create-Creates fresh clean room small =
      let ids : length (set16 (set16 junk uid_at uid) gid_at gid) ≡ fs_block_size =
        ids_whole junk uid gid ∙ room in
      (
        after,
        create_done (omega (arith, allocated.0)),
        record {
          lookup = λ dst.
              ap (λ (b : Bytes). inum_of b dst) written_block
              ∙ filled-insert (d.block (entries d inum)) k name new empty dir.whole clean short
                  (omega (arith, allocated.1)) dst fresh;
          parent = after_inode;
          file_mode =
              ap (λ (b : Bytes). u32 b mode_at) after_file
              ∙ mode_read _ (mode % 4096 + 2 ^ 15) 0 now ids (omega arith);
          file_size =
              ap (λ (b : Bytes). u32 b size_at) after_file
              ∙ size_read _ (mode % 4096 + 2 ^ 15) 0 now ids (omega arith);
          file_time =
              ap (λ (b : Bytes). u32 b mtime_at) after_file
              ∙ time_read _ (mode % 4096 + 2 ^ 15) 0 now ids small;
          was_free = allocated.2;
          marked = ap (λ (m : Bytes). bit_test m new) after_map ∙ (allocated.4 new ∙ ground arith);
          others = after_others;
        },
      )
