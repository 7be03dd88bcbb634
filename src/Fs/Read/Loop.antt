-- ===== src/Fs/Read/Loop.antt =====
-- `fs_read` (lab4/fs5600.c) returns the bytes of the file, as the inode's pointers place them.
use neu_cs5600_cmpsys.Base.{
  ℕ, zero, suc, ◌+◌, ◌-◌, ◌*◌, ◌/◌, ◌%◌, ◌≤◌, ◌<◌, ◌≡◌, refl, sym, ap, ◌∙◌, ◌⊎◌, inl, inr, true,
  false, ◌&&◌, [], ◌∷◌, ◌++◌, ltb, leb, take, drop, get_or, length, arith, some, Bool-cases, lt→ltb,
}
use Prim.Native.Nat.{min}
use neu_cs5600_cmpsys.Base.Bytes.{Bytes}
use neu_cs5600_cmpsys.Fs.Bitmap.{fs_block_size}
use neu_cs5600_cmpsys.Fs.Block.{u32, mode_at, size_at, ptr_at, num_ptrs_inode, is_dir}
use neu_cs5600_cmpsys.Fs.Monad.{Disk, done, ◌>>=◌}
use neu_cs5600_cmpsys.Fs.Monad.Laws.{in_reach, read_block_done, read_checked_done}
use neu_cs5600_cmpsys.Fs.Path.Walk.{path_inum_done}
use neu_cs5600_cmpsys.Fs.Path.{found, path2inum}
use neu_cs5600_cmpsys.Fs.Read.{pread, read_loop, fs_read}

-- `n` bytes of a buffer from an offset.
abbrev bytes : Bytes → ℕ → ℕ → Bytes
bytes b s zero = []
bytes b s (suc n) = get_or b s 0 ∷ bytes b (s + 1) n

-- Byte `k` of the file: in the block that pointer `k / 4096` names, at `k % 4096`.
abbrev pub byte_of : Disk → Bytes → ℕ → ℕ
byte_of d in' k = get_or (d.block (u32 in' (ptr_at (k / fs_block_size)))) (k % fs_block_size) 0

-- The specification: `n` bytes of the file from `k` on.
abbrev pub slice : Disk → Bytes → ℕ → ℕ → Bytes
slice d in' k zero = []
slice d in' k (suc n) = byte_of d in' k ∷ slice d in' (k + 1) n

-- Each block of the file is on the disk, where an int holds its offset, and is whole.
pub record IsFile (d : Disk) (in' : Bytes) : Type 0 where
  pub small : u32 in' size_at ≤ fs_block_size * num_ptrs_inode
  pub present : (i : ℕ) → i * fs_block_size < u32 in' size_at → u32 in' (ptr_at i) < in_reach d
  pub whole :
      (i : ℕ)
      → i * fs_block_size < u32 in' size_at
      → length (d.block (u32 in' (ptr_at i))) ≡ fs_block_size

bytes-cons : (c : ℕ) (b : Bytes) (s n : ℕ) → bytes (c ∷ b) (suc s) n ≡ bytes b s n
bytes-cons c b s zero = refl
bytes-cons c b s (suc n) =
    let e : suc s + 1 ≡ suc (s + 1) = omega arith in
    rw e (ap (λ (x : Bytes). get_or b s 0 ∷ x) (bytes-cons c b (s + 1) n))

bytes-succ : (c : ℕ) (b : Bytes) (s t n : ℕ) → t ≡ suc s → bytes (c ∷ b) t n ≡ bytes b s n
bytes-succ c b s t n e = rw e (bytes-cons c b s n)

take-drop-bytes : (b : Bytes) (s n : ℕ) → s + n ≤ length b → take n (drop s b) ≡ bytes b s n
take-drop-bytes b s zero h = refl
take-drop-bytes [] zero (suc n) h = absurd (omega arith)
take-drop-bytes (c ∷ b) zero (suc n) h =
    ap (λ (x : Bytes). c ∷ x)
      (take-drop-bytes b 0 n (omega arith) ∙ sym (bytes-succ c b 0 1 n (omega arith)))
take-drop-bytes [] (suc s) (suc n) h = absurd (omega arith)
take-drop-bytes (c ∷ b) (suc s) (suc n) h =
    take-drop-bytes b s (suc n) (omega arith)
    ∙ ap (λ (x : Bytes). get_or b s 0 ∷ x)
        (sym (bytes-succ c b (s + 1) (suc s + 1) n (omega arith)))

slice-append :
    (d : Disk) (in' : Bytes) (k n m : ℕ)
    → slice d in' k n ++ slice d in' (k + n) m ≡ slice d in' k (n + m)
slice-append d in' k zero m =
    let e : k + 0 ≡ k = omega arith in let f : 0 + m ≡ m = omega arith in rw (e, f) refl
slice-append d in' k (suc n) m =
    let e : k + suc n ≡ k + 1 + n = omega arith in
    let f : suc n + m ≡ suc (n + m) = omega arith in
    rw (e, f) (ap (λ (x : Bytes). byte_of d in' k ∷ x) (slice-append d in' (k + 1) n m))

-- Within one block the slice is a piece of that block.
bytes-slice :
    (d : Disk) (in' : Bytes) (i s k n : ℕ)
    → i * fs_block_size + s ≡ k
    → s + n ≤ fs_block_size
    → bytes (d.block (u32 in' (ptr_at i))) s n ≡ slice d in' k n
bytes-slice d in' i s k zero e h = refl
bytes-slice d in' i s k (suc n) e h =
    let p : k / fs_block_size ≡ i = omega arith in
    let q : k % fs_block_size ≡ s = omega arith in
    rw (p, q)
      (ap (λ (x : Bytes). get_or (d.block (u32 in' (ptr_at i))) s 0 ∷ x)
        (bytes-slice d in' i (s + 1) (k + 1) n (omega arith) (omega arith)))

-- What is left to read: `todo` bytes, up to the end of the request or of the file.
record Left (size len offset nread todo : ℕ) : Type 0 where
  in_request : nread + todo ≤ len
  in_file : nread + todo + offset ≤ size
  all : (nread + todo ≡ len) ⊎ (nread + todo + offset ≡ size)

pread_lem :
    (size len offset nread todo start : ℕ)
    → Left size len offset nread todo
    → start < fs_block_size
    → 0 < todo
    → (pread size len offset nread start ≤ todo)
      × (start + pread size len offset nread start ≤ fs_block_size)
      × ((pread size len offset nread start ≡ todo)
          ⊎ (start + pread size len offset nread start ≡ fs_block_size))
      × (0 < pread size len offset nread start)
pread_lem size len offset nread todo start l s pos =
    (ground arith, ground arith, ground arith, ground arith)

-- A piece of a block, and the file from behind it.
chunk :
    (d : Disk) (in' : Bytes) (i s n k k' m t : ℕ)
    → s + n ≤ length (d.block (u32 in' (ptr_at i)))
    → s + n ≤ fs_block_size
    → i * fs_block_size + s ≡ k
    → k' ≡ k + n
    → n + m ≡ t
    → take n (drop s (d.block (u32 in' (ptr_at i)))) ++ slice d in' k' m ≡ slice d in' k t
chunk d in' i s n k k' m t whole inside at next total =
    rw (next, ← total)
      (ap (λ (x : Bytes). x ++ slice d in' (k + n) m)
          (take-drop-bytes (d.block (u32 in' (ptr_at i))) s n whole
            ∙ bytes-slice d in' i s k n at inside)
        ∙ slice-append d in' k n m)

module _ (d : Disk) (in' : Bytes) (file : IsFile d in') (len offset : ℕ) where
  read_loop-slice :
      (f nread i start todo : ℕ)
      → Left (u32 in' size_at) len offset nread todo
      → todo < f
      → start < fs_block_size
      → (todo ≡ 0) ⊎ (i * fs_block_size + start ≡ offset + nread)
      → read_loop f in' len offset nread i start d ≡ done (slice d in' (offset + nread) todo) d
  unfolding read_loop
  read_loop-slice zero nread i start todo l fuel s at = absurd (omega arith)
  read_loop-slice (suc f) nread i start zero l fuel s at =
      let stop : (ltb nread len && ltb (nread + offset) (u32 in' size_at)) ≡ false = ground arith in
      rw (stop, read_loop) refl
  read_loop-slice (suc f) nread i start (suc todo) l fuel s at =
      let n : ℕ = pread (u32 in' size_at) len offset nread start in
      let more : (ltb nread len && ltb (nread + offset) (u32 in' size_at)) ≡ true = ground arith in
      let here : i * fs_block_size < u32 in' size_at = omega arith in
      let inside : ltb i num_ptrs_inode ≡ true =
        lt→ltb i num_ptrs_inode (omega (arith, file.small)) in
      let pl = pread_lem (u32 in' size_at) len offset nread (suc todo) start l s (omega arith) in
      let rest : ℕ = suc todo - n in
      let ih =
        read_loop-slice f (nread + n) (i + 1) 0 rest
          (record { in_request = omega arith; in_file = omega arith; all = omega arith })
          (omega arith) (omega arith) (omega arith) in
      rw
        (
          more,
          read_loop,
          inside,
          ◌>>=◌,
          read_block_done d (u32 in' (ptr_at i)) (file.present i here),
          ih,
        )
        (ap (λ (x : Bytes). done x d)
          (chunk d in' i start n (offset + nread) (offset + (nread + n)) rest (suc todo)
            (omega (arith, file.whole i here)) (omega arith) (omega arith) (omega arith)
            (omega arith)))

  -- The loop of `fs_read` stores the bytes of the file from `offset` on: as many as were asked for,
  -- or those up to the end of the file.
  read_loop_whole :
      offset < u32 in' size_at
      → read_loop (len + 1) in' len offset 0 (offset / fs_block_size) (offset % fs_block_size) d
        ≡ done (slice d in' offset (min len (u32 in' size_at - offset))) d
  read_loop_whole h =
      read_loop-slice (len + 1) 0 (offset / fs_block_size) (offset % fs_block_size)
        (min len (u32 in' size_at - offset))
        (record { in_request = omega arith; in_file = omega arith; all = omega arith })
        (omega arith) (omega arith) (inr (omega arith))
      ∙ ap (λ (k : ℕ). done (slice d in' k (min len (u32 in' size_at - offset))) d) (omega arith)

-- Reading a file: a path that leads to an inode on the disk, of a file whose blocks are on the
-- disk, all of them among the first 2 ^ 19 - 1, whose offsets an int holds, and are whole, gives
-- the bytes from `offset` on, as many as were asked for or those up to the end of the file; none
-- from the end on. The disk does not change.
pub fs_read-slice :
    (d : Disk) (path : Bytes) (inum len offset : ℕ)
    → path2inum d path ≡ some (found inum)
    → inum < in_reach d
    → is_dir (u32 (d.block inum) mode_at) ≡ false
    → IsFile d (d.block inum)
    → fs_read path len offset d
      ≡ done (slice d (d.block inum) offset (min len (u32 (d.block inum) size_at - offset))) d
unfolding fs_read
fs_read-slice d path inum len offset e on plain file =
    elim (Bool-cases (leb (u32 (d.block inum) size_at) offset)) [
      | inl past ↦
          let none_left : min len (u32 (d.block inum) size_at - offset) ≡ 0 = ground arith in
          rw
            (
              path_inum_done d path (found inum) e,
              fs_read,
              ◌>>=◌,
              read_checked_done d inum on,
              plain,
              past,
              none_left,
            )
            refl
      | inr more ↦
          rw
            (
              path_inum_done d path (found inum) e,
              fs_read,
              ◌>>=◌,
              read_checked_done d inum on,
              plain,
              more,
            )
            (read_loop_whole d (d.block inum) file len offset (ground arith))
    ]
