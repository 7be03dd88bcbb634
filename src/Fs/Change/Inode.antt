-- ===== src/Fs/Change/Inode.antt =====
-- What is read of a new inode (lab4/fs5600.c, `fs_create` and `fs_mkdir`).
use neu_cs5600_cmpsys.Base.{ℕ, ◌^◌, ◌<◌, ◌≡◌, ◌∙◌, inl, inr, length, arith}
use neu_cs5600_cmpsys.Base.Bytes.{Bytes}
use neu_cs5600_cmpsys.Fs.Bitmap.{fs_block_size}
use neu_cs5600_cmpsys.Fs.Block.{
  u32, set32, set16, le16, uid_at, gid_at, write_at, mode_at, size_at, mtime_at, ctime_at,
}
use neu_cs5600_cmpsys.Fs.Block.Layout.{u32-set32, u32-set32_other, length-set32, length-write_at}

-- The fields of a new inode, over a block with the ids in it.
module _ (b : Bytes) (mode size now : ℕ) (whole : length b ≡ fs_block_size) where
  abbrev moded : Bytes
  moded = set32 b mode_at mode

  abbrev sized : Bytes
  sized = set32 moded size_at size

  abbrev dated : Bytes
  dated = set32 sized ctime_at now

  moded_whole : length moded ≡ fs_block_size
  moded_whole = length-set32 b mode_at mode (omega arith) ∙ whole

  sized_whole : length sized ≡ fs_block_size
  sized_whole = length-set32 moded size_at size (omega (arith, moded_whole)) ∙ moded_whole

  dated_whole : length dated ≡ fs_block_size
  dated_whole = length-set32 sized ctime_at now (omega (arith, sized_whole)) ∙ sized_whole

  pub mode_read : mode < 2 ^ 32 → u32 (set32 dated mtime_at now) mode_at ≡ mode
  mode_read h =
      u32-set32_other dated mtime_at now (omega (arith, dated_whole)) mode_at (inl (omega arith))
      ∙ u32-set32_other sized ctime_at now (omega (arith, sized_whole)) mode_at (inl (omega arith))
      ∙ u32-set32_other moded size_at size (omega (arith, moded_whole)) mode_at (inl (omega arith))
      ∙ u32-set32 b mode_at mode (omega arith) h

  pub size_read : size < 2 ^ 32 → u32 (set32 dated mtime_at now) size_at ≡ size
  size_read h =
      u32-set32_other dated mtime_at now (omega (arith, dated_whole)) size_at (inr (omega arith))
      ∙ u32-set32_other sized ctime_at now (omega (arith, sized_whole)) size_at (inr (omega arith))
      ∙ u32-set32 moded size_at size (omega (arith, moded_whole)) h

  pub time_read : now < 2 ^ 32 → u32 (set32 dated mtime_at now) mtime_at ≡ now
  time_read h = u32-set32 dated mtime_at now (omega (arith, dated_whole)) h

pub ids_whole :
    (junk : Bytes) (uid gid : ℕ) → length (set16 (set16 junk uid_at uid) gid_at gid) ≡ length junk
unfolding set16
ids_whole junk uid gid =
    length-write_at (write_at junk uid_at (le16 uid)) gid_at (le16 gid)
    ∙ length-write_at junk uid_at (le16 uid)
