-- ===== src/TaskQueue.antt =====
-- The work queue of lab3 (lab3/queue.c, lab3/queue.h): tasks on a heap, head, tail and a count. The
-- listener's `malloc` leaves a task's `next` as it finds it, so the last task may point anywhere,
-- and so may the pointers of an empty queue. Each function runs under the mutex `qm`, as one step.
pub mod Contents
pub mod Pool
mod Tests
use neu_cs5600_cmpsys.Base.{ℕ, suc, ◌+◌, ◌-◌, Bool, Option, none, some, ◌==◌, if◌then◌else◌}
use neu_cs5600_cmpsys.Base.Chain.{◌>>=◌}
use neu_cs5600_cmpsys.Cells.{Cell, Heap, put, link}

-- A task's payload is the socket.
pub record TaskQueue : Type 0 where
  pub head : Option ℕ
  pub tail : Option ℕ
  pub count : ℕ
  pub heap : Heap ℕ

-- The listener's new task at the address `t` that `malloc` returned, `junk` being the `next` that
-- was left there.
pub new_task : TaskQueue → ℕ → Option ℕ → ℕ → TaskQueue
new_task q t junk fd = record q { heap = put q.heap t (some (record { next = junk; item = fd })) }

-- `none`: the tail points to nothing.
pub enqueue : TaskQueue → ℕ → Option TaskQueue
enqueue q t =
    if q.count == 0
    then some (record q { head = some t; tail = some t; count = q.count + 1 })
    else do
      last ← q.tail
      h ← link q.heap last (some t)
      some (record q { tail = some t; count = q.count + 1; heap = h })

-- A caller finds the queue empty and waits for `nonempty`, or takes the task at an address.
pub data Dequeued : Type 0 where
  waits : Dequeued
  takes : ℕ → TaskQueue → Dequeued

pub dequeue : TaskQueue → Option Dequeued
dequeue q = if q.count == 0 then some waits else do
  p ← q.head
  c ← q.heap p
  some (takes p (record q { head = c.next; count = q.count - 1 }))

pub queue_count : TaskQueue → ℕ
queue_count q = q.count
