-- ===== src/Fs/Dir/Entry.antt =====
-- One entry of a directory block (lab4/fs5600.c): what is read of it after it is filled in, and of
-- the others.
use mathlib.Core.List.{append_assoc}
use neu_cs5600_cmpsys.Base.{
  ℕ, ◌+◌, ◌*◌, ◌^◌, ◌≤◌, ◌<◌, ◌≡◌, ◌≢◌, ap, ◌∙◌, ◌⊎◌, inl, inr, [], ◌∷◌, ◌++◌, length,
  length-append, arith, dec_lt, take, drop,
}
use neu_cs5600_cmpsys.Base.Bytes.{Bytes, NoNul, c_string}
use neu_cs5600_cmpsys.Fs.Bitmap.{fs_block_size}
use neu_cs5600_cmpsys.Fs.Block.{write_at, u32, set32, le32, dirent_at, name_of, set_header}
use neu_cs5600_cmpsys.Fs.Block.Layout.{
  u32-set32, u32-set32_other, length-write_at, u32-write_at_other,
}
use neu_cs5600_cmpsys.Fs.Block.Slice.{slice-write_at_other, drop-write_at, c_string-take}
use neu_cs5600_cmpsys.Fs.Dir.{num_dirent_block}

-- Two entries do not overlap.
apart : (j k : ℕ) → j ≢ k → (32 * j + 32 ≤ 32 * k) ⊎ (32 * k + 32 ≤ 32 * j)
apart j k ne = elim (dec_lt j k) [ yes h ↦ inl (omega arith) | no h ↦ inr omega arith ]

module _ (b : Bytes) (k : ℕ) (inside : k < num_dirent_block)
    (whole : length b ≡ fs_block_size) where
  pub header_same :
      (v i : ℕ) → v + 2 * i < 2 ^ 32 → u32 (set_header b k v i) (dirent_at k) ≡ v + 2 * i
  unfolding set_header
  header_same v i h = u32-set32 b (dirent_at k) (v + 2 * i) (omega arith) h

  pub header_other :
      (v i j : ℕ) → j ≢ k → u32 (set_header b k v i) (dirent_at j) ≡ u32 b (dirent_at j)
  unfolding set_header
  header_other v i j ne =
      let far = apart j k ne in
      u32-set32_other b (dirent_at k) (v + 2 * i) (omega arith) (dirent_at j) (omega arith)

  beside : (j : ℕ) → (dirent_at j + 4 + 28 ≤ dirent_at k) ⊎ (dirent_at k + 4 ≤ dirent_at j + 4)
  beside j = elim (dec_lt j k) [ yes h ↦ inl (omega arith) | no h ↦ inr (omega arith) ]

  pub header_name : (v i j : ℕ) → name_of (set_header b k v i) j ≡ name_of b j
  unfolding set_header set32 name_of
  header_name v i j =
      ap c_string
        (slice-write_at_other b (dirent_at k) (le32 (v + 2 * i)) (dirent_at j + 4) 28 (beside j))

  pub name_same :
      (name : Bytes)
      → NoNul name
      → length name < 28
      → name_of (write_at b (dirent_at k + 4) (name ++ 0 ∷ [])) k ≡ name
  unfolding name_of
  name_same name clean short =
      ap (λ (r : Bytes). c_string (take 28 r))
        (drop-write_at b (dirent_at k + 4) (name ++ 0 ∷ [])
          (omega (arith, length-append name (0 ∷ []))))
      ∙ rw append_assoc
          (c_string-take name (drop (dirent_at k + 4 + length (name ++ 0 ∷ [])) b) 28 clean short)

  pub name_other :
      (name : Bytes) (j : ℕ)
      → length name < 28
      → j ≢ k
      → name_of (write_at b (dirent_at k + 4) (name ++ 0 ∷ [])) j ≡ name_of b j
  unfolding name_of
  name_other name j short ne =
      let far = apart j k ne in
      ap c_string (
        slice-write_at_other b (dirent_at k + 4) (name ++ 0 ∷ []) (dirent_at j + 4) 28
          (omega (arith, far, length-append name (0 ∷ []))))

  pub name_header :
      (name : Bytes) (j : ℕ)
      → length name < 28
      → u32 (write_at b (dirent_at k + 4) (name ++ 0 ∷ [])) (dirent_at j) ≡ u32 b (dirent_at j)
  name_header name j short =
      u32-write_at_other b (dirent_at k + 4) (name ++ 0 ∷ []) (dirent_at j)
        (omega (arith, length-append name (0 ∷ [])))
        (elim (dec_lt k j) [
          | yes h ↦ inr (omega (arith, length-append name (0 ∷ [])))
          | no h ↦ inl (omega arith)
        ])

-- The block with entry `k` filled in: the name copied, then `valid` and the inode number set.
abbrev pub filled : Bytes → ℕ → Bytes → ℕ → Bytes
filled b k name i = set_header (write_at b (dirent_at k + 4) (name ++ 0 ∷ [])) k 1 i

module _ (b : Bytes) (k : ℕ) (name : Bytes) (i : ℕ) (inside : k < num_dirent_block)
    (whole : length b ≡ fs_block_size) (clean : NoNul name) (short : length name < 28)
    (narrow : i < 2 ^ 31) where
  abbrev copied : Bytes
  copied = write_at b (dirent_at k + 4) (name ++ 0 ∷ [])

  copied_whole : length copied ≡ fs_block_size
  copied_whole = length-write_at b (dirent_at k + 4) (name ++ 0 ∷ []) ∙ whole

  -- The filled entry is in use, leads to the inode and has the name.
  pub filled_header : u32 (filled b k name i) (dirent_at k) ≡ 1 + 2 * i
  filled_header = header_same copied k inside copied_whole 1 i (omega arith)

  pub filled_name : name_of (filled b k name i) k ≡ name
  filled_name =
      header_name copied k inside copied_whole 1 i k ∙ name_same b k inside whole name clean short

  -- The others are as they were.
  pub filled_header_other :
      (j : ℕ) → j ≢ k → u32 (filled b k name i) (dirent_at j) ≡ u32 b (dirent_at j)
  filled_header_other j ne =
      header_other copied k inside copied_whole 1 i j ne ∙ name_header b k inside whole name j short

  pub filled_name_other : (j : ℕ) → j ≢ k → name_of (filled b k name i) j ≡ name_of b j
  filled_name_other j ne =
      header_name copied k inside copied_whole 1 i j ∙ name_other b k inside whole name j short ne
