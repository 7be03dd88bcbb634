-- ===== src/Fs/Dir/Clear.antt =====
-- A directory block as a map from names to inode numbers (lab4/fs5600.c): `find_dirent` before and
-- after an entry is cleared.
use neu_cs5600_cmpsys.Base.{
  ℕ, ◌+◌, ◌*◌, ◌/◌, ◌%◌, ◌^◌, ◌<◌, ◌≡◌, ◌≢◌, refl, sym, ap, ◌∙◌, inl, inr, true, false, none, some,
  length, arith, Bool-cases, if◌then◌else◌, ℕ_discrete,
}
use neu_cs5600_cmpsys.Base.Bytes.{Bytes, streq, streq_iff}
use neu_cs5600_cmpsys.Fs.Bitmap.{fs_block_size}
use neu_cs5600_cmpsys.Fs.Block.{u32, dirent_at, inode_of, name_of, set_header}
use neu_cs5600_cmpsys.Fs.Dir.{num_dirent_block, is_named, find_dirent}
use neu_cs5600_cmpsys.Fs.Dir.Search.{search_from-ext, search_from-some, search_from-all}
use neu_cs5600_cmpsys.Fs.Dir.Entry.{header_same, header_other, header_name}
use neu_cs5600_cmpsys.Fs.Dir.Fill.{inum_of, streq_ne, same_inum}

-- The block with entry `k` marked as free; its inode number and its name stay.
abbrev pub emptied : Bytes → ℕ → Bytes
emptied b k = set_header b k 0 (inode_of b k)

module _ (b : Bytes) (k : ℕ) (name : Bytes) (here : find_dirent b name ≡ some k)
    (whole : length b ≡ fs_block_size) (narrow : u32 b (dirent_at k) < 2 ^ 32)
    (only : (j : ℕ) → j ≢ k → is_named b name j ≡ false) where
  at_name : (is_named b name k ≡ true) × (k < num_dirent_block)
  unfolding find_dirent
  at_name =
      let (t, lo, hi) = search_from-some (is_named b name) 0 num_dirent_block k here in
      (t, omega (arith, hi))

  named_other : (dst : Bytes) (j : ℕ) → j ≢ k → is_named (emptied b k) dst j ≡ is_named b dst j
  named_other dst j ne =
      rw
        (
          header_other b k at_name.1 whole 0 (inode_of b k) j ne,
          header_name b k at_name.1 whole 0 (inode_of b k) j,
        )
        refl

  named_here : (dst : Bytes) → is_named (emptied b k) dst k ≡ false
  named_here dst =
      let even : (0 + 2 * inode_of b k) % 2 ≡ 0 = omega arith in
      rw (header_same b k at_name.1 whole 0 (inode_of b k) (omega arith), even) refl

  gone : find_dirent (emptied b k) name ≡ none
  unfolding find_dirent
  gone = search_from-all (is_named (emptied b k) name) 0 num_dirent_block λ j lo hi.
      elim (ℕ_discrete j k) [
        | yes same ↦ rw same (named_here name)
        | no other ↦ named_other name j other ∙ only j other
      ]

  -- Another name is not that of the entry.
  unnamed : (dst : Bytes) → dst ≢ name → is_named b dst k ≡ false
  unnamed dst ne =
      let same : name_of b k ≡ name =
        (streq_iff (name_of b k) name).0 (ground (arith, at_name.0)) in
      let differ : streq (name_of b k) dst ≡ false =
        streq_ne (name_of b k) dst (λ e. ne (e ∙ same)) in
      ground (arith, differ)

  found_other : (dst : Bytes) (j : ℕ) → j ≢ k → inode_of (emptied b k) j ≡ inode_of b j
  found_other dst j ne =
      ap (λ (h : ℕ). h / 2) (header_other b k at_name.1 whole 0 (inode_of b k) j ne)

  others : (dst : Bytes) → dst ≢ name → find_dirent (emptied b k) dst ≡ find_dirent b dst
  unfolding find_dirent
  others dst ne =
      search_from-ext (is_named (emptied b k) dst) (is_named b dst) 0 num_dirent_block λ j lo hi.
        elim (ℕ_discrete j k) [
          | yes same ↦ rw same (named_here dst ∙ sym (unnamed dst ne))
          | no other ↦ named_other dst j other
        ]

  not_here : (dst : Bytes) (j : ℕ) → dst ≢ name → find_dirent b dst ≡ some j → j ≢ k
  unfolding find_dirent
  not_here dst j ne e same =
      let (t, lo, hi) = search_from-some (is_named b dst) 0 num_dirent_block j e in
      let h : true ≡ false = sym t ∙ ap (is_named b dst) same ∙ unnamed dst ne in absurd cc

  inum_other : (dst : Bytes) → dst ≢ name → inum_of (emptied b k) dst ≡ inum_of b dst
  inum_other dst ne =
      rw (others dst ne, inum_of)
        (same_inum b (emptied b k) (find_dirent b dst)
          (λ j e. found_other dst j (not_here dst j ne e)))

  -- Clearing the entry of a name that no other entry has is a removal: afterwards that name leads
  -- nowhere, and every other name to where it led.
  pub emptied-remove :
      (dst : Bytes) → inum_of (emptied b k) dst ≡ (if streq name dst then none else inum_of b dst)
  emptied-remove dst = elim (Bool-cases (streq name dst)) [
    | inl t ↦ rw t (rw (sym ((streq_iff name dst).0 t)) (rw (gone, inum_of) refl))
    | inr f ↦ rw f (
        inum_other dst
          λ e. absurd (let h : streq name dst ≡ true = (streq_iff name dst).1 (sym e) in cc))
  ]
