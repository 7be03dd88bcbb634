-- ===== src/Fs/Dir/Fill.antt =====
-- A directory block as a map from names to inode numbers (lab4/fs5600.c): `find_dirent` before and
-- after an entry is filled in.
use neu_cs5600_cmpsys.Base.{
  ℕ, ◌+◌, ◌*◌, ◌/◌, ◌%◌, ◌^◌, ◌<◌, ◌≡◌, ◌≢◌, refl, sym, ap, ◌∙◌, inl, inr, true, false, not, Option,
  none, some, length, arith, Bool-cases, if◌then◌else◌, ℕ_discrete,
}
use neu_cs5600_cmpsys.Base.Bytes.{Bytes, NoNul, streq, streq_refl, streq_iff}
use neu_cs5600_cmpsys.Fs.Bitmap.{fs_block_size}
use neu_cs5600_cmpsys.Fs.Block.{valid, inode_of}
use neu_cs5600_cmpsys.Fs.Dir.{num_dirent_block, is_named, find_dirent, find_empty}
use neu_cs5600_cmpsys.Fs.Dir.Search.{
  search_from-ext, search_from-none, search_from-some, search_from-only,
}
use neu_cs5600_cmpsys.Fs.Dir.Entry.{
  filled, filled_header, filled_name, filled_header_other, filled_name_other,
}

-- The inode number that a name leads to.
abbrev pub inum_of : Bytes → Bytes → Option ℕ
inum_of buf name = elim (find_dirent buf name) [ none ↦ none | some k ↦ some (inode_of buf k) ]

pub streq_ne : (a c : Bytes) → c ≢ a → streq a c ≡ false
streq_ne a c ne = elim (Bool-cases (streq a c)) [
  | inl t ↦ absurd (ne (sym ((streq_iff a c).0 t)))
  | inr f ↦ f
]

-- An entry that is found leads to the same inode in both blocks.
pub same_inum :
    (b c : Bytes) (o : Option ℕ)
    → ((j : ℕ) → o ≡ some j → inode_of c j ≡ inode_of b j)
    → elim o [ none ↦ none | some j ↦ some (inode_of c j) ]
      ≡ elim o [ none ↦ none | some j ↦ some (inode_of b j) ]
same_inum b c none h = refl
same_inum b c (some j) h = ap (λ (n : ℕ). some n) (h j refl)

module _ (b : Bytes) (k : ℕ) (name : Bytes) (i : ℕ) (empty : find_empty b ≡ some k)
    (whole : length b ≡ fs_block_size) (clean : NoNul name) (short : length name < 28)
    (narrow : i < 2 ^ 31) where
  at_empty : (valid b k ≡ false) × (k < num_dirent_block)
  unfolding find_empty
  at_empty =
      let (t, lo, hi) = search_from-some (λ j. not (valid b j)) 0 num_dirent_block k empty in
      (ground (arith, t), omega (arith, hi))

  abbrev b' : Bytes
  b' = filled b k name i

  named_other : (dst : Bytes) (j : ℕ) → j ≢ k → is_named b' dst j ≡ is_named b dst j
  named_other dst j ne =
      rw
        (
          filled_header_other b k name i at_empty.1 whole clean short narrow j ne,
          filled_name_other b k name i at_empty.1 whole clean short narrow j ne,
        )
        refl

  named_here : (dst : Bytes) → is_named b' dst k ≡ streq name dst
  named_here dst =
      let odd : (1 + 2 * i) % 2 ≡ 1 = omega arith in
      rw
        (
          filled_header b k name i at_empty.1 whole clean short narrow,
          filled_name b k name i at_empty.1 whole clean short narrow,
          odd,
        )
        refl

  unused : (dst : Bytes) → is_named b dst k ≡ false
  unused dst = let e = at_empty.0 in rw e refl

  pub filled_found : find_dirent b name ≡ none → find_dirent b' name ≡ some k
  unfolding find_dirent
  filled_found fresh =
      search_from-only (is_named b' name) 0 num_dirent_block k (named_here name ∙ streq_refl name)
        (λ j lo hi ne.
          named_other name j ne
          ∙ search_from-none (is_named b name) 0 num_dirent_block fresh j lo hi)
        (omega arith) (omega (arith, at_empty.1))

  pub filled_inode : inode_of b' k ≡ i
  filled_inode = rw (filled_header b k name i at_empty.1 whole clean short narrow) (omega arith)

  pub filled_others : (dst : Bytes) → dst ≢ name → find_dirent b' dst ≡ find_dirent b dst
  unfolding find_dirent
  filled_others dst ne =
      search_from-ext (is_named b' dst) (is_named b dst) 0 num_dirent_block λ j lo hi.
        elim (ℕ_discrete j k) [
          | yes same ↦ rw same (named_here dst ∙ streq_ne name dst ne ∙ sym (unused dst))
          | no other ↦ named_other dst j other
        ]

  -- An entry that is found is in use, so it is not the one that was filled.
  pub found_other :
      (dst : Bytes) (j : ℕ) → find_dirent b dst ≡ some j → inode_of b' j ≡ inode_of b j
  unfolding find_dirent
  found_other dst j e =
      let (t, lo, hi) = search_from-some (is_named b dst) 0 num_dirent_block j e in
      ap (λ (h : ℕ). h / 2)
        (filled_header_other b k name i at_empty.1 whole clean short narrow j (λ same. absurd (
          let h : is_named b dst k ≡ true = ap (is_named b dst) (sym same) ∙ t in
          let g : true ≡ false = sym h ∙ unused dst in cc)))

  filled_inum : find_dirent b name ≡ none → inum_of b' name ≡ some i
  filled_inum fresh = rw (filled_found fresh, inum_of) (ap (λ (n : ℕ). some n) filled_inode)

  filled_inum_other : (dst : Bytes) → dst ≢ name → inum_of b' dst ≡ inum_of b dst
  filled_inum_other dst ne =
      rw (filled_others dst ne, inum_of)
        (same_inum b b' (find_dirent b dst) (λ j e. found_other dst j e))

  -- Filling in a free entry with a new name, shorter than 28 bytes, is an insertion: afterwards
  -- that name leads to the inode, and every other name to where it led.
  pub filled-insert :
      (dst : Bytes)
      → find_dirent b name ≡ none
      → inum_of (filled b k name i) dst ≡ (if streq name dst then some i else inum_of b dst)
  filled-insert dst fresh = elim (Bool-cases (streq name dst)) [
    | inl t ↦ rw t (rw (sym ((streq_iff name dst).0 t)) (filled_inum fresh))
    | inr f ↦ rw f (
        filled_inum_other dst
          λ e. absurd (let h : streq name dst ≡ true = (streq_iff name dst).1 (sym e) in cc))
  ]
