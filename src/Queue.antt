-- ===== src/Queue.antt =====
-- The queue of lab1 (lab1/queue.c, lab1/queue.h): nodes on a heap, a head and a tail pointer. The
-- address that `malloc` returns is an argument. A node's payload is its copy of the string. `none`
-- stands for a read through a pointer to nothing.
pub mod Contents
mod Tests
use neu_cs5600_cmpsys.Base.{
  ℕ, zero, suc, Bool, true, false, List, [], ◌∷◌, ◌++◌, Option, none, some, ◌==◌, if◌then◌else◌,
}
use neu_cs5600_cmpsys.Base.Bytes.{Bytes, codes}
use neu_cs5600_cmpsys.Base.Chain.{◌>>=◌}
use neu_cs5600_cmpsys.Cells.{Cell, Heap, put, link}

pub record Queue : Type 0 where
  pub head : Option ℕ
  pub tail : Option ℕ
  pub heap : Heap Bytes

unfoldable pub enqueue : Queue → Bytes → ℕ → Option Queue
enqueue q text p =
    let h = put q.heap p (some (record { next = none; item = text })) in
    elim q.tail [
      | none ↦ some (record { head = some p; tail = some p; heap = h })
      | some t ↦ do
        h' ← link h t (some p)
        some (record { head = q.head; tail = some p; heap = h' })
    ]

-- The address of the node taken off, `none` for NULL, and the queue without it.
unfoldable pub dequeue : Queue → Option (Option ℕ × Queue)
dequeue q = elim q.head [
  | none ↦ some (none, q)
  | some p ↦ do
    c ← q.heap p
    some (
      some p,
      record { head = c.next; tail = elim c.next [ none ↦ none | some n ↦ q.tail ]; heap = q.heap },
    )
]

-- What the callers of `dequeue` do with a node: read its string, then free it.
unfoldable pub take_node : Queue → Option (Option Bytes × Queue)
unfolding dequeue
take_node q = do
  (node, q') ← dequeue q
  elim node [
    | none ↦ some (none, q')
    | some p ↦ do c ← q'.heap p; some (some c.item, record q' { heap = put q'.heap p none })
  ]

-- The loop ends when `dequeue` returns NULL; the fuel bounds its rounds.
unfoldable pub free_queue : ℕ → Queue → Option Queue
free_queue zero q = none
free_queue (suc f) q =
    take_node q >>= λ r. elim r.0 [ none ↦ some r.1 | some text ↦ free_queue f r.1 ]

-- The strings that the loop of `print_queue` prints, in order.
pub printed : ℕ → Heap Bytes → Option ℕ → Option (List Bytes)
printed zero h at = none
printed (suc f) h none = some []
printed (suc f) h (some p) = do c ← h p; rest ← printed f h c.next; some (c.item ∷ rest)

-- `[%s]`, and `->` when another node follows
unfoldable pub render : List Bytes → Bytes
render [] = []
render (x ∷ []) = b'[' ∷ (x ++ (b']' ∷ []))
render (x ∷ y ∷ r) = b'[' ∷ (x ++ (b']' ∷ b'-' ∷ b'>' ∷ render (y ∷ r)))

pub print_queue : ℕ → Queue → Option Bytes
unfolding printed render
print_queue fuel q = do
  xs ← printed fuel q.heap q.head
  some (codes "finally: " ++ (render xs ++ (b'\n' ∷ [])))

abbrev pub empty : Heap Bytes → Queue
empty h = record { head = none; tail = none; heap = h }
