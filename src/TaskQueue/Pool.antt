-- ===== src/TaskQueue/Pool.antt =====
-- The listener and the workers of the server of lab3 (lab3/dbserver.c, `listen_thread`;
-- lab3/worker.c, `worker`) round their work queue, as a step relation. `malloc` returns an address
-- that no live task has. A worker reads the socket of its task when it has taken it; what
-- `dispatch` does with it is no concern of the queue.
use mathlib.Core.List.{append_assoc}
use mathlib.Core.Path.{subst}
use neu_cs5600_cmpsys.Base.{
  ℕ, ◌≡◌, refl, sym, ap, ◌∙◌, List, [], ◌∷◌, ◌++◌, Option, none, some, length, drop,
}
use neu_cs5600_cmpsys.Cells.{Cell}
use neu_cs5600_cmpsys.Cells.Segment.{IsNew}
use neu_cs5600_cmpsys.TaskQueue.{TaskQueue, new_task, enqueue, waits, takes, dequeue, queue_count}
use neu_cs5600_cmpsys.TaskQueue.Contents.{Tasks, Takes, enqueue-Tasks, dequeue-Tasks}

-- The queue; the addresses of the tasks in it and of those that workers hold; the sockets that were
-- accepted and those that workers took, each in order.
pub record Pool : Type 0 where
  pub queue : TaskQueue
  pub queued : List ℕ
  pub held : List ℕ
  pub accepted : List ℕ
  pub taken : List ℕ

pub data Step (m : Pool) : Pool → Type 0 where
  -- the listener: `accept`, `malloc`, `enqueue`
  accept :
      (fd t : ℕ) (junk : Option ℕ) (q' : TaskQueue)
      → IsNew t m.queued
      → IsNew t m.held
      → enqueue (new_task m.queue t junk fd) t ≡ some q'
      → Step m
          (record m { queue = q'; queued = m.queued ++ t ∷ []; accepted = m.accepted ++ fd ∷ [] })
  -- a worker: `dequeue`, with the task's socket
  take :
      (p : ℕ) (q' : TaskQueue) (c : Cell ℕ)
      → dequeue m.queue ≡ some (takes p q')
      → q'.heap p ≡ some c
      → Step m (record m {
        queue = q';
        queued = drop 1 m.queued;
        held = p ∷ m.held;
        taken = m.taken ++ c.item ∷ [];
      })
  -- a worker frees its task
  free :
      (before after : List ℕ) (p : ℕ)
      → m.held ≡ before ++ p ∷ after
      → Step m (record m { held = before ++ after })

-- The queue is empty at first, and its pointers hold anything.
pub data Reach : Pool → Type 0 where
  starts :
      (q : TaskQueue)
      → queue_count q ≡ 0
      → Reach (record { queue = q; queued = []; held = []; accepted = []; taken = [] })
  steps : (m m' : Pool) → Reach m → Step m m' → Reach m'

-- What is in the queue is what was accepted and not taken.
record InOrder (m : Pool) : Type 0 where
  waiting : List ℕ
  tasks : Tasks m.queue m.queued waiting
  order : m.accepted ≡ m.taken ++ waiting

accept-InOrder :
    (m : Pool) (fd t : ℕ) (junk : Option ℕ) (q' : TaskQueue)
    → InOrder m
    → IsNew t m.queued
    → enqueue (new_task m.queue t junk fd) t ≡ some q'
    → InOrder
        (record m { queue = q'; queued = m.queued ++ t ∷ []; accepted = m.accepted ++ fd ∷ [] })
accept-InOrder m fd t junk q' i new e =
    let (q'', run, w) = enqueue-Tasks m.queue m.queued i.waiting t junk fd i.tasks new in
    let same : q'' ≡ q' = (let h : some q'' ≡ some q' = sym run ∙ e in cc) in
    record {
      waiting = i.waiting ++ fd ∷ [];
      tasks = subst (λ (q : TaskQueue). Tasks q (m.queued ++ t ∷ []) (i.waiting ++ fd ∷ [])) same w;
      order = ap (λ (l : List ℕ). l ++ fd ∷ []) i.order ∙ append_assoc m.taken i.waiting (fd ∷ []);
    }

abbrev item_or : ℕ → Option (Cell ℕ) → ℕ
item_or x none = x
item_or x (some c) = c.item

take-InOrder :
    (m : Pool) (p : ℕ) (q' : TaskQueue) (c : Cell ℕ) (waiting : List ℕ)
    → Tasks m.queue m.queued waiting
    → m.accepted ≡ m.taken ++ waiting
    → dequeue m.queue ≡ some (takes p q')
    → q'.heap p ≡ some c
    → InOrder (record m {
      queue = q';
      queued = drop 1 m.queued;
      held = p ∷ m.held;
      taken = m.taken ++ c.item ∷ [];
    })
take-InOrder m p q' c [] w o e cell =
    absurd
      (let h : some waits ≡ some (takes p q') = sym (dequeue-Tasks m.queue m.queued [] w) ∙ e in cc)
take-InOrder m p q' c (x ∷ fds) w o e cell =
    let (p'', q'', n, run, here, rest) = dequeue-Tasks m.queue m.queued (x ∷ fds) w in
    let h : some (takes p'' q'') ≡ some (takes p q') = sym run ∙ e in
    let place : p'' ≡ p = cc in
    let same : q'' ≡ q' = cc in
    let moved : q''.heap p'' ≡ q'.heap p =
      ap (λ (q : TaskQueue). q.heap p'') same ∙ ap q'.heap place in
    let found : some c ≡ some (record { next = n; item = x }) = sym cell ∙ sym moved ∙ here in
    let item : c.item ≡ x = ap (item_or x) found in
    record {
      waiting = fds;
      tasks = subst (λ (q : TaskQueue). Tasks q (drop 1 m.queued) fds) same rest;
      order = o ∙ rw item (sym (append_assoc m.taken (x ∷ []) fds));
    }

Reach-InOrder : (m : Pool) → Reach m → InOrder m
unfolding queue_count
Reach-InOrder _ (starts q e) = record {
  waiting = [];
  tasks = record { linked = refl; distinct = tt; counted = e };
  order = refl;
}
Reach-InOrder _ (steps m _ r (accept fd t junk q' new _ e)) =
    accept-InOrder m fd t junk q' (Reach-InOrder m r) new e
Reach-InOrder _ (steps m _ r (take p q' c e cell)) =
    let i = Reach-InOrder m r in take-InOrder m p q' c i.waiting i.tasks i.order e cell
Reach-InOrder _ (steps m _ r (free before after p e)) =
    let i = Reach-InOrder m r in record { waiting = i.waiting; tasks = i.tasks; order = i.order }

-- In every state that the listener and the workers can reach, the sockets that were accepted are
-- those that were taken, in the same order, and behind them those that are waiting; `queue_count`
-- is the number of the waiting ones; and the next `dequeue` waits if there is none, and else takes
-- the task of the first of them.
pub Reach-in_order :
    (m : Pool)
    → Reach m
    → (waiting : List ℕ) × (m.accepted ≡ m.taken ++ waiting)
      × (queue_count m.queue ≡ length waiting)
      × Takes m.queue m.queued waiting
unfolding queue_count
Reach-in_order m r =
    let i = Reach-InOrder m r in
    (i.waiting, i.order, i.tasks.counted, dequeue-Tasks m.queue m.queued i.waiting i.tasks)
