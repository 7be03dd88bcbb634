-- ===== src/Fs/Change/Free.antt =====
-- The blocks of a file are freed (lab4/fs5600.c, `free_blk` and the loops of `fs_unlink` and
-- `fs_truncate`).
use neu_cs5600_cmpsys.Base.{
  ℕ, zero, suc, ◌+◌, ◌≤◌, ◌<◌, ◌≡◌, ◌≢◌, refl, ap, ◌∙◌, false, ◌==◌, length, arith, if◌then◌else◌,
  ◌⊎◌, inl, inr, lt→ltb, ℕ_discrete,
}
use neu_cs5600_cmpsys.Base.Bytes.{Bytes}
use neu_cs5600_cmpsys.Fs.Alloc.{free_blk}
use neu_cs5600_cmpsys.Fs.Bitmap.{fs_block_size, bit_test, bit_clear}
use neu_cs5600_cmpsys.Fs.Bitmap.Bits.{IsMap, bit_test-bit_clear, bit_clear-IsMap, length-bit_clear}
use neu_cs5600_cmpsys.Fs.Bitmap.Alloc.{blocks}
use neu_cs5600_cmpsys.Fs.Block.{u32, ptr_at, num_ptrs_inode}
use neu_cs5600_cmpsys.Fs.Change.{free_from}
use neu_cs5600_cmpsys.Fs.Monad.{Disk, done, update, ◌>>=◌}
use neu_cs5600_cmpsys.Fs.Monad.Laws.{in_reach, read_block_done, write_block_done}

-- The map in block 1 is whole.
pub record HasMap (d : Disk) : Type 0 where
  pub on : 1 < in_reach d
  pub bytes : IsMap (d.block 1)
  pub whole : length (d.block 1) ≡ fs_block_size

-- The disk after some blocks were freed: only the map has changed, no block is newly in use, and
-- those that were not freed are as they were.
pub record Freed (is_freed : ℕ → Type 0) (d d' : Disk) : Type 0 where
  pub map : HasMap d'
  pub count : d'.count ≡ d.count
  pub others : (j : ℕ) → j ≢ 1 → d'.block j ≡ d.block j
  pub freed : (j : ℕ) → is_freed j → bit_test (d'.block 1) j ≡ false
  pub still_free : (j : ℕ) → bit_test (d.block 1) j ≡ false → bit_test (d'.block 1) j ≡ false
  pub kept : (j : ℕ) → (is_freed j → ⊥) → bit_test (d'.block 1) j ≡ bit_test (d.block 1) j

pub free_blk-Freed :
    (d : Disk) (i : ℕ)
    → HasMap d
    → i < blocks
    → (d' : Disk) × (free_blk i d ≡ done tt d') × Freed (λ j. j ≡ i) d d'
unfolding free_blk
free_blk-Freed d i m h =
    let map' : Bytes = bit_clear (d.block 1) i in
    let d' : Disk = record { count = d.count; block = update d.block 1 map' } in
    let test : (j : ℕ) → bit_test map' j ≡ (if i == j then false else bit_test (d.block 1) j) =
      bit_test-bit_clear (d.block 1) m.bytes i (omega (arith, m.whole)) in
    (
      d',
      rw (read_block_done d 1 m.on, free_blk, ◌>>=◌, lt→ltb i blocks h)
          (write_block_done d 1 m.on map' (omega arith)),
      record {
        map = record {
          on = m.on;
          bytes = bit_clear-IsMap (d.block 1) m.bytes i (omega (arith, m.whole));
          whole = length-bit_clear (d.block 1) i ∙ m.whole;
        };
        count = refl;
        others = λ j ne. ground arith;
        freed = λ j e. test j ∙ ground arith;
        still_free = λ j e. test j ∙ ground arith;
        kept = λ j ne. test j ∙ ground arith;
      },
    )

-- The pointers of an inode from `i` on, `n` of them.
abbrev pub Points : Bytes → ℕ → ℕ → ℕ → Type 0
Points in' i n b = (j : ℕ) × (i ≤ j) × (j < i + n) × (b ≡ u32 in' (ptr_at j))

no_pointers : (in' : Bytes) (i : ℕ) (d : Disk) → HasMap d → Freed (Points in' i 0) d d
no_pointers in' i d m = record {
  map = m;
  count = refl;
  others = λ j ne. refl;
  freed = λ j p. absurd (omega (arith, p.1, p.2));
  still_free = λ j e. e;
  kept = λ j ne. refl;
}

-- One step of freeing after another.
pub in_sequence :
    (F G H : ℕ → Type 0) (d d₁ d₂ : Disk)
    → Freed F d d₁
    → Freed G d₁ d₂
    → ((j : ℕ) → H j → F j ⊎ G j)
    → ((j : ℕ) → F j → H j)
    → ((j : ℕ) → G j → H j)
    → Freed H d d₂
in_sequence F G H d d₁ d₂ f g split from_f from_g = record {
  map = g.map;
  count = g.count ∙ f.count;
  others = λ j ne. g.others j ne ∙ f.others j ne;
  freed = λ j h. elim (split j h) [ inl x ↦ g.still_free j (f.freed j x) | inr y ↦ g.freed j y ];
  still_free = λ j e. g.still_free j (f.still_free j e);
  kept = λ j no. g.kept j (λ y. no (from_g j y)) ∙ f.kept j (λ x. no (from_f j x));
}

-- The loop frees the blocks of all pointers, if they are numbers of the map.
pub free_from-Freed :
    (in' : Bytes) (i n : ℕ) (d : Disk)
    → HasMap d
    → i + n ≤ num_ptrs_inode
    → ((j : ℕ) → i ≤ j → j < i + n → u32 in' (ptr_at j) < blocks)
    → (d' : Disk) × (free_from in' i n d ≡ done tt d') × Freed (Points in' i n) d d'
unfolding free_from
free_from-Freed in' i zero d m few small = (d, refl, no_pointers in' i d m)
free_from-Freed in' i (suc n) d m few small =
    let p : ℕ = u32 in' (ptr_at i) in
    let (d₁, run, f) = free_blk-Freed d p m (small i (omega arith) (omega arith)) in
    let (d₂, rest, g) =
      free_from-Freed in' (i + 1) n d₁ f.map (omega arith)
        (λ j lo hi. small j (omega arith) (omega arith)) in
    (
      d₂,
      rw (lt→ltb i num_ptrs_inode (omega arith), free_from, ◌>>=◌, run) rest,
      in_sequence (λ j. j ≡ p) (Points in' (i + 1) n) (Points in' i (suc n)) d d₁ d₂ f g
          (λ b q. elim (ℕ_discrete q.0 i) [
            | yes same ↦ inl (q.3 ∙ ap (λ (j : ℕ). u32 in' (ptr_at j)) same)
            | no other ↦ inr (q.0, omega (arith, q.1), omega (arith, q.2), q.3)
          ])
          (λ b e. (i, omega arith, omega arith, e))
          (λ b q. (q.0, omega (arith, q.1), omega (arith, q.2), q.3)),
    )
