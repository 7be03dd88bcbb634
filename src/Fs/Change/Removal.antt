-- ===== src/Fs/Change/Removal.antt =====
-- An entry of a directory removed, and the time set (lab4/fs5600.c, the end of `fs_unlink` and of
-- `fs_rmdir`).
use neu_cs5600_cmpsys.Base.{
  ℕ, ◌^◌, ◌<◌, ◌≡◌, ◌≢◌, sym, ap, ◌∙◌, inr, false, none, some, length, arith, if◌then◌else◌,
}
use neu_cs5600_cmpsys.Base.Bytes.{Bytes, streq}
use neu_cs5600_cmpsys.Fs.Bitmap.{fs_block_size, bit_test}
use neu_cs5600_cmpsys.Fs.Block.{u32, set32, dirent_at, mtime_at, ptr_at}
use neu_cs5600_cmpsys.Fs.Block.Layout.{u32-set32, u32-set32_other}
use neu_cs5600_cmpsys.Fs.Change.Create.{entries, put, put_same, put_other, IsDirectory}
use neu_cs5600_cmpsys.Fs.Change.Free.{HasMap, Freed}
use neu_cs5600_cmpsys.Fs.Dir.{find_dirent, is_named}
use neu_cs5600_cmpsys.Fs.Dir.Clear.{emptied, emptied-remove}
use neu_cs5600_cmpsys.Fs.Dir.Fill.{inum_of}
use neu_cs5600_cmpsys.Fs.Monad.{Disk, done, ◌>>=◌, ◌>>◌, write_block}
use neu_cs5600_cmpsys.Fs.Monad.Laws.{write_block_done}

-- The disk after `name` is removed from the directory and the blocks of what it named are freed.
pub record Removes (now inum : ℕ) (owns : ℕ → Type 0) (name : Bytes) (d d' : Disk) : Type 0 where
  -- the name leads nowhere, and every other name to where it led
  pub lookup :
      (dst : Bytes)
      → inum_of (d'.block (entries d' inum)) dst
        ≡ (if streq name dst then none else inum_of (d.block (entries d inum)) dst)
  pub time : u32 (d'.block inum) mtime_at ≡ now
  -- the blocks are free, and all others are in use or free as before
  pub freed : (b : ℕ) → owns b → bit_test (d'.block 1) b ≡ false
  pub kept : (b : ℕ) → (owns b → ⊥) → bit_test (d'.block 1) b ≡ bit_test (d.block 1) b
  pub others : (j : ℕ) → j ≢ 1 → j ≢ inum → j ≢ entries d inum → d'.block j ≡ d.block j

pub IsDirectory-HasMap : (d : Disk) (inum : ℕ) → IsDirectory d inum → HasMap d
IsDirectory-HasMap d inum dir = record {
  on = omega (arith, dir.inode_on, dir.inode_place);
  bytes = dir.bytes;
  whole = dir.map_whole;
}

module _ (d : Disk) (now inum k : ℕ) (dir : IsDirectory d inum)
    (inode_whole : length (d.block inum) ≡ fs_block_size) where
  abbrev pub buf : Bytes
  buf = d.block (entries d inum)

  -- The two writes, on a disk where only the map has changed.
  abbrev pub after : Disk → Disk
  after e = put (put e (entries d inum) (emptied buf k)) inum (set32 (d.block inum) mtime_at now)

  module _ (e : Disk) where
    inode_after : (after e).block inum ≡ set32 (d.block inum) mtime_at now
    inode_after = put_same (put e (entries d inum) (emptied buf k)) inum _

    entries_same : entries (after e) inum ≡ entries d inum
    entries_same =
        ap (λ (b : Bytes). u32 b (ptr_at 0)) inode_after
        ∙ u32-set32_other (d.block inum) mtime_at now (omega (arith, inode_whole)) (ptr_at 0)
            (inr (omega arith))

    block_after : (after e).block (entries (after e) inum) ≡ emptied buf k
    block_after =
        ap (λ (i : ℕ). (after e).block i) entries_same
        ∙ put_other (put e (entries d inum) (emptied buf k)) inum (entries d inum) _
            (λ q. dir.separate (sym q))
        ∙ put_same e (entries d inum) (emptied buf k)

    other_after : (j : ℕ) → j ≢ inum → j ≢ entries d inum → (after e).block j ≡ e.block j
    other_after j a b =
        put_other (put e (entries d inum) (emptied buf k)) inum j _ a
        ∙ put_other e (entries d inum) j (emptied buf k) b

    map_after : (after e).block 1 ≡ e.block 1
    map_after =
        other_after 1 (λ q. absurd (omega (arith, dir.inode_place)))
          (λ q. absurd (omega (arith, dir.entries_place)))

  pub removed :
      (owns : ℕ → Type 0) (name : Bytes) (e : Disk)
      → Freed owns d e
      → find_dirent buf name ≡ some k
      → ((j : ℕ) → j ≢ k → is_named buf name j ≡ false)
      → u32 buf (dirent_at k) < 2 ^ 32
      → now < 2 ^ 32
      → Removes now inum owns name d (after e)
  removed owns name e f here only narrow small = record {
    lookup = λ dst.
        ap (λ (b : Bytes). inum_of b dst) (block_after e)
        ∙ emptied-remove buf k name here dir.whole narrow only dst;
    time =
        ap (λ (b : Bytes). u32 b mtime_at) (inode_after e)
        ∙ u32-set32 (d.block inum) mtime_at now (omega (arith, inode_whole)) small;
    freed = λ b o. ap (λ (m : Bytes). bit_test m b) (map_after e) ∙ f.freed b o;
    kept = λ b no. ap (λ (m : Bytes). bit_test m b) (map_after e) ∙ f.kept b no;
    others = λ j a b c. other_after e j b c ∙ f.others j a;
  }

  -- The writes succeed.
  pub removal_done :
      (e : Disk)
      → e.count ≡ d.count
      → (write_block (entries d inum) (emptied buf k)
            >> write_block inum (set32 (d.block inum) mtime_at now))
          e
        ≡ done tt (after e)
  removal_done e count =
      rw
        (
          ◌>>◌,
          ◌>>=◌,
          write_block_done e (entries d inum) (omega (arith, dir.entries_on, count)) (emptied buf k)
              (omega (arith, dir.entries_place)),
        )
        (write_block_done (put e (entries d inum) (emptied buf k)) inum
          (omega (arith, dir.inode_on, count)) (set32 (d.block inum) mtime_at now)
          (omega (arith, dir.inode_place)))
