-- ===== src/TaskQueue/Tests.antt =====
-- Concrete runs of the work queue of lab3 (lab3/queue.c).
use neu_cs5600_cmpsys.Base.{ℕ, ◌≡◌, refl, List, [], ◌∷◌, ◌++◌, none, some, arith, length}
use neu_cs5600_cmpsys.TaskQueue.{TaskQueue, new_task, enqueue, queue_count}
use neu_cs5600_cmpsys.TaskQueue.Pool.{Pool, Reach, starts, steps, accept, take, Reach-in_order}
use neu_cs5600_cmpsys.TaskQueue.Contents.{Tasks, Takes, enqueue-Tasks, dequeue-Tasks}

-- No task, with pointers and a heap that hold anything.
abbrev stale : TaskQueue
stale = record { head = some 4; tail = none; count = 0; heap = λ p. none }

stale-Tasks : Tasks stale [] []
stale-Tasks = record { linked = refl; distinct = tt; counted = refl }

one :
    (q : TaskQueue) × (enqueue (new_task stale 7 (some 9) 12) 7 ≡ some q)
    × Tasks q (7 ∷ []) (12 ∷ [])
one = enqueue-Tasks stale [] [] 7 (some 9) 12 stale-Tasks tt

enqueue-Tasks_example :
    (q : TaskQueue) × (enqueue (new_task one.0 3 none 13) 3 ≡ some q)
    × Tasks q (7 ∷ 3 ∷ []) (12 ∷ 13 ∷ [])
enqueue-Tasks_example = enqueue-Tasks one.0 (7 ∷ []) (12 ∷ []) 3 none 13 one.2 (ground arith, tt)

dequeue-Tasks_example : Takes one.0 (7 ∷ []) (12 ∷ [])
dequeue-Tasks_example = dequeue-Tasks one.0 (7 ∷ []) (12 ∷ []) one.2

two :
    (q : TaskQueue) × (enqueue (new_task one.0 3 none 13) 3 ≡ some q)
    × Tasks q (7 ∷ 3 ∷ []) (12 ∷ 13 ∷ [])
two = enqueue-Tasks one.0 (7 ∷ []) (12 ∷ []) 3 none 13 one.2 (ground arith, tt)

-- Two sockets are accepted, and one is taken.
abbrev two_accepted : Pool
two_accepted = record {
  queue = two.0;
  queued = 7 ∷ 3 ∷ [];
  held = [];
  accepted = 12 ∷ 13 ∷ [];
  taken = [];
}

two_accepted-Reach : Reach two_accepted
unfolding queue_count
two_accepted-Reach =
    steps _ _ (steps _ _ (starts stale refl) (accept 12 7 (some 9) one.0 tt tt one.1))
      (accept 13 3 none two.0 (ground arith, tt) tt two.1)

abbrev first_taken : Takes two_accepted.queue (7 ∷ 3 ∷ []) (12 ∷ 13 ∷ [])
first_taken = dequeue-Tasks two_accepted.queue (7 ∷ 3 ∷ []) (12 ∷ 13 ∷ []) two.2

abbrev one_taken : Pool
one_taken = record two_accepted {
  queue = first_taken.1;
  queued = 3 ∷ [];
  held = first_taken.0 ∷ [];
  taken = 12 ∷ [];
}

one_taken-Reach : Reach one_taken
one_taken-Reach =
    steps two_accepted one_taken two_accepted-Reach
      (take first_taken.0 first_taken.1 _ first_taken.3 first_taken.4)

Reach-in_order_example :
    (waiting : List ℕ) × (one_taken.accepted ≡ one_taken.taken ++ waiting)
    × (queue_count one_taken.queue ≡ length waiting)
    × Takes one_taken.queue one_taken.queued waiting
Reach-in_order_example = Reach-in_order one_taken one_taken-Reach
