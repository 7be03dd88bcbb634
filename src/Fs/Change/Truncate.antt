-- ===== src/Fs/Change/Truncate.antt =====
-- `fs_truncate` (lab4/fs5600.c) against the block map and the inode afterwards.
use neu_cs5600_cmpsys.Base.{ℕ, suc, ◌<◌, ◌≡◌, ◌≢◌, ap, ◌∙◌, inl, false, length, arith}
use neu_cs5600_cmpsys.Base.Bytes.{Bytes}
use neu_cs5600_cmpsys.Fs.Bitmap.{fs_block_size, bit_test}
use neu_cs5600_cmpsys.Fs.Block.{u32, set32, mode_at, size_at, mtime_at}
use neu_cs5600_cmpsys.Fs.Block.Layout.{u32-set32, u32-set32_other}
use neu_cs5600_cmpsys.Fs.Change.{fs_truncate}
use neu_cs5600_cmpsys.Fs.Change.Create.{put, put_same, put_other}
use neu_cs5600_cmpsys.Fs.Change.Free.{HasMap, Freed, free_from-Freed, Points}
use neu_cs5600_cmpsys.Fs.Change.Unlink.{block_count, IsRegular}
use neu_cs5600_cmpsys.Fs.Monad.{Disk, done, ◌>>=◌}
use neu_cs5600_cmpsys.Fs.Monad.Laws.{read_block_done, write_block_done}
use neu_cs5600_cmpsys.Fs.Path.{found, path_inum}

-- `b` is one of the blocks that the file's pointers name.
abbrev pub Names : Disk → ℕ → ℕ → Type 0
Names d file b = Points (d.block file) 0 (block_count (d.block file)) b

pub record Truncates (file : ℕ) (d d' : Disk) : Type 0 where
  -- no bytes, and the mode and the time as they were
  pub size : u32 (d'.block file) size_at ≡ 0
  pub mode : u32 (d'.block file) mode_at ≡ u32 (d.block file) mode_at
  pub time : u32 (d'.block file) mtime_at ≡ u32 (d.block file) mtime_at
  -- the blocks of its bytes are free, and all others are in use or free as before
  pub freed : (b : ℕ) → Names d file b → bit_test (d'.block 1) b ≡ false
  pub kept : (b : ℕ) → (Names d file b → ⊥) → bit_test (d'.block 1) b ≡ bit_test (d.block 1) b
  pub others : (j : ℕ) → j ≢ 1 → j ≢ file → d'.block j ≡ d.block j

module _ (d : Disk) (path : Bytes) (n : ℕ) (way : path_inum path d ≡ done (found (suc n)) d)
    (map : HasMap d) (regular : IsRegular d (suc n)) (place : 1 < suc n)
    (whole : length (d.block (suc n)) ≡ fs_block_size) where
  abbrev in' : Bytes
  in' = d.block (suc n)

  abbrev after : Disk → Disk
  after e = put e (suc n) (set32 in' size_at 0)

  truncate_run :
      (e : Disk) × (fs_truncate path 0 d ≡ done tt (after e)) × Freed (Names d (suc n)) d e
  unfolding fs_truncate
  truncate_run =
      let (e, loop, f) =
        free_from-Freed in' 0 (block_count in') d map (omega (arith, regular.few))
          (λ j lo hi. regular.pointers j (omega arith)) in
      (
        e,
        rw (way, fs_truncate, ◌>>=◌, read_block_done d (suc n) regular.on, regular.kind, loop)
            (write_block_done e (suc n) (omega (arith, regular.on, f.count)) (set32 in' size_at 0)
              (omega arith)),
        f,
      )

  inode_after : (e : Disk) → (after e).block (suc n) ≡ set32 in' size_at 0
  inode_after e = put_same e (suc n) (set32 in' size_at 0)

  map_after : (e : Disk) → (after e).block 1 ≡ e.block 1
  map_after e = put_other e (suc n) 1 (set32 in' size_at 0) (λ q. absurd (omega (arith, q)))

  -- `fs_truncate` to no bytes, by a path that leads to a file whose pointers are numbers of the
  -- block map, and whose inode is within the offsets that an int holds, succeeds. The file then has
  -- no bytes, its mode and its time are as before, the blocks of its bytes are free and all others
  -- in use or free as before, and all blocks but the map and the inode are as they were.
  pub fs_truncate-Truncates :
      (d' : Disk) × (fs_truncate path 0 d ≡ done tt d') × Truncates (suc n) d d'
  fs_truncate-Truncates =
      let (e, run, f) = truncate_run in
      (
        after e,
        run,
        record {
          size =
              ap (λ (b : Bytes). u32 b size_at) (inode_after e)
              ∙ u32-set32 in' size_at 0 (omega (arith, whole)) (omega arith);
          mode =
              ap (λ (b : Bytes). u32 b mode_at) (inode_after e)
              ∙ u32-set32_other in' size_at 0 (omega (arith, whole)) mode_at (inl (omega arith));
          time =
              ap (λ (b : Bytes). u32 b mtime_at) (inode_after e)
              ∙ u32-set32_other in' size_at 0 (omega (arith, whole)) mtime_at (inl (omega arith));
          freed = λ b o. ap (λ (m : Bytes). bit_test m b) (map_after e) ∙ f.freed b o;
          kept = λ b no. ap (λ (m : Bytes). bit_test m b) (map_after e) ∙ f.kept b no;
          others = λ j a b. put_other e (suc n) j (set32 in' size_at 0) b ∙ f.others j a;
        },
      )
