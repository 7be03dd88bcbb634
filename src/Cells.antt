-- ===== src/Cells.antt =====
-- Singly linked cells on a heap, as `node_t` of lab1 and `task` of lab3 are: a cell has a payload
-- and the address of the next cell, `none` for NULL. An address that holds nothing is free.
pub mod Segment
use neu_cs5600_cmpsys.Base.{ℕ, Bool, true, false, Option, none, some, ◌==◌, if◌then◌else◌}

pub record Cell (A : Type 0) : Type 0 where
  pub next : Option ℕ
  pub item : A

abbrev pub Heap : Type 0 → Type 0
Heap A = ℕ → Option (Cell A)

-- Address `p` then holds `c`, or nothing after a `free`.
abbrev pub put : {A : Type 0} → Heap A → ℕ → Option (Cell A) → Heap A
put h p c q = if p == q then c else h q

-- `p->next = n`: `none` if nothing is at `p`.
unfoldable pub link : {A : Type 0} → Heap A → ℕ → Option ℕ → Option (Heap A)
link h p n = elim (h p) [ none ↦ none | some c ↦ some (put h p (some (record c { next = n }))) ]
