-- ===== src/Queue/Tests.antt =====
-- Concrete runs of the queue of lab1 (lab1/queue.c).
use neu_cs5600_cmpsys.Base.{ℕ, ◌≡◌, refl, List, [], ◌∷◌, Option, none, some, arith}
use neu_cs5600_cmpsys.Base.Bytes.{Bytes, codes}
use neu_cs5600_cmpsys.Cells.{Cell}
use neu_cs5600_cmpsys.Queue.{Queue, enqueue, free_queue, empty}
use neu_cs5600_cmpsys.Queue.Contents.{Holds, Frees, enqueue-Holds, free_queue-Frees}

abbrev free_heap : ℕ → Option (Cell Bytes)
free_heap p = none

empty-Holds : Holds (empty free_heap) [] []
empty-Holds = record { segment = refl; distinct = tt; tail = refl }

-- The queue after two calls of `enqueue`, with nodes at 7 and 3.
one :
    (q : Queue) × (enqueue (empty free_heap) (codes "ab") 7 ≡ some q)
    × Holds q (7 ∷ []) (codes "ab" ∷ [])
one = enqueue-Holds (empty free_heap) [] [] (codes "ab") 7 empty-Holds tt

abbrev texts : List Bytes
texts = codes "ab" ∷ codes "c" ∷ []

two : (q : Queue) × (enqueue one.0 (codes "c") 3 ≡ some q) × Holds q (7 ∷ 3 ∷ []) texts
two = enqueue-Holds one.0 (7 ∷ []) (codes "ab" ∷ []) (codes "c") 3 one.2 (ground arith, tt)

free_queue-Frees_example :
    (q : Queue) × (free_queue 3 two.0 ≡ some q)
    × Holds q [] []
    × Frees (7 ∷ 3 ∷ []) two.0.heap q.heap
free_queue-Frees_example = free_queue-Frees 3 two.0 (7 ∷ 3 ∷ []) texts two.2 (omega arith)
