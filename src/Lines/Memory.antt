-- ===== src/Lines/Memory.antt =====
-- The nodes of several queues on one heap (lab1/ciphered_queue_main.c, lab1/queue_main.c). A queue
-- is its two pointers; `malloc` is a parameter that looks at the memory.
pub mod Frame
pub mod Loops
use neu_cs5600_cmpsys.Base.{
  ℕ, zero, suc, ◌≡◌, List, [], ◌∷◌, Option, none, some, ◌==◌, if◌then◌else◌,
}
use neu_cs5600_cmpsys.Base.Bytes.{Bytes}
use neu_cs5600_cmpsys.Base.Chain.{◌>>=◌}
use neu_cs5600_cmpsys.Cells.{Cell, Heap}
use neu_cs5600_cmpsys.Cells.Segment.{IsNew}
use neu_cs5600_cmpsys.Queue.{Queue, enqueue, take_node, free_queue}

-- The heap, and the addresses that `malloc` has returned so far, freed since or not.
pub record Memory : Type 0 where
  pub heap : Heap Bytes
  pub issued : List ℕ

pub record Ends : Type 0 where
  pub head : Option ℕ
  pub tail : Option ℕ

abbrev pub nothing : Ends
nothing = record { head = none; tail = none }

abbrev pub queue_of : Heap Bytes → Ends → Queue
queue_of h e = record { head = e.head; tail = e.tail; heap = h }

abbrev pub ends_of : Queue → Ends
ends_of q = record { head = q.head; tail = q.tail }

-- Nodes stand only where `malloc` has put one.
abbrev pub IsBounded : Memory → Type 0
IsBounded m = (a : ℕ) → IsNew a m.issued → m.heap a ≡ none

-- The address that `malloc` returns is not in use.
abbrev pub IsMalloc : (Memory → ℕ) → Type 0
IsMalloc malloc = (m : Memory) → IsBounded m → m.heap (malloc m) ≡ none

-- What a call leaves: the memory and the pointers of the queue it was called on.
pub record Left : Type 0 where
  pub memory : Memory
  pub ends : Ends

abbrev pub left : Queue → List ℕ → Left
left q issued = record { memory = record { heap = q.heap; issued = issued }; ends = ends_of q }

module _ (malloc : Memory → ℕ) where
  unfoldable pub enqueue_in : Memory → Ends → Bytes → Option Left
  enqueue_in m e text = do
    let p = malloc m
    q ← enqueue (queue_of m.heap e) text p
    some (left q (p ∷ m.issued))

  -- The loop of `copy_queue`, its `pnode` at `at`.
  unfoldable pub copy_from : ℕ → Memory → Option ℕ → Ends → Option Left
  unfolding enqueue_in
  copy_from zero m at e = none
  copy_from (suc f) m none e = some (record { memory = m; ends = e })
  copy_from (suc f) m (some p) e = do
    c ← m.heap p
    l ← enqueue_in m e c.item
    d ← l.memory.heap p
    copy_from f l.memory d.next l.ends

  unfoldable pub copy_queue : ℕ → Memory → Ends → Option Left
  unfolding copy_from
  copy_queue fuel m e = copy_from fuel m e.head nothing

-- The string of the node taken off, which is freed, and what is left.
unfoldable pub take_in : Memory → Ends → Option (Option Bytes × Left)
take_in m e = do (text, q) ← take_node (queue_of m.heap e); some (text, left q m.issued)

unfoldable pub free_in : ℕ → Memory → Ends → Option Memory
free_in fuel m e = do
  q ← free_queue fuel (queue_of m.heap e)
  some (record { heap = q.heap; issued = m.issued })
