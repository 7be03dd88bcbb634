-- ===== src/TaskQueue/Contents.antt =====
-- The work queue of lab3 refines a list of sockets, first in first out.
use neu_cs5600_cmpsys.Base.{
  ℕ, ◌+◌, ◌≡◌, refl, sym, ap, List, [], ◌∷◌, ◌++◌, Option, some, arith, length, drop, length-append,
  ◌-◌,
}
use neu_cs5600_cmpsys.Cells.{put}
use neu_cs5600_cmpsys.Cells.Segment.{
  IsNew, Distinct, last, Distinct-append, last-append, Segment, Segment-put, Segment-last,
  Segment-link, link_at,
}
use neu_cs5600_cmpsys.TaskQueue.{TaskQueue, new_task, enqueue, waits, takes, dequeue}

-- What the head and the tail mean while tasks are queued; of an empty queue nothing is known.
abbrev pub Linked : TaskQueue → List ℕ → List ℕ → Type 0
Linked q [] fds = fds ≡ []
Linked q (p ∷ ps) fds =
    (to : Option ℕ) × Segment q.heap q.head (p ∷ ps) fds to × (q.tail ≡ some (last p ps))

-- The tasks at `ps` hold the sockets `fds`, front first.
pub record Tasks (q : TaskQueue) (ps fds : List ℕ) : Type 0 where
  pub linked : Linked q ps fds
  pub distinct : Distinct ps
  pub counted : q.count ≡ length fds

-- A new task, whatever its `next` holds, is queued last; the tasks before it keep their order.
pub enqueue-Tasks :
    (q : TaskQueue) (ps fds : List ℕ) (t : ℕ) (junk : Option ℕ) (fd : ℕ)
    → Tasks q ps fds
    → IsNew t ps
    → (q' : TaskQueue) × (enqueue (new_task q t junk fd) t ≡ some q')
      × Tasks q' (ps ++ t ∷ []) (fds ++ fd ∷ [])
unfolding enqueue new_task
enqueue-Tasks q [] [] t junk fd w new = (
  record (new_task q t junk fd) { head = some t; tail = some t; count = q.count + 1 },
  rw (w.counted, enqueue) refl,
  record {
    linked = (junk, (junk, refl, ground arith, refl), refl);
    distinct = (tt, tt);
    counted = omega (arith, w.counted);
  },
)
enqueue-Tasks q [] (x ∷ fds) t junk fd w new = absurd (ground (arith, w.linked))
enqueue-Tasks q (p ∷ ps) [] t junk fd w new = absurd w.linked.1
enqueue-Tasks q (p ∷ ps) (x ∷ fds) t junk fd w new =
    let c = some (record { next = junk; item = fd }) in
    let h = put q.heap t c in
    let (to, seg, tail) = w.linked in
    let seg' = Segment-put q.heap t c q.head (p ∷ ps) (x ∷ fds) to new seg in
    let (y, e) = Segment-last h q.head p ps (x ∷ fds) to seg' in
    let h' = put h (last p ps) (some (record { next = some t; item = y })) in
    (
      record q { tail = some t; count = q.count + 1; heap = h' },
      ground (arith, link_at h (last p ps) (some t) _ e, w.counted),
      record {
        linked = (
          junk,
          Segment-link h q.head p t ps (x ∷ fds) to junk y fd seg' w.distinct new (ground arith) e,
          ap some (sym (last-append p t ps)),
        );
        distinct = Distinct-append t (p ∷ ps) w.distinct new;
        counted = omega (arith, w.counted, length-append fds (fd ∷ []));
      },
    )

-- A wait on no sockets; else the task of the first one is taken.
abbrev pub Takes : TaskQueue → List ℕ → List ℕ → Type 0
Takes q ps [] = dequeue q ≡ some waits
Takes q ps (x ∷ fds) =
    (p : ℕ) × (q' : TaskQueue) × (n : Option ℕ) × (dequeue q ≡ some (takes p q'))
    × (q'.heap p ≡ some (record { next = n; item = x }))
    × Tasks q' (drop 1 ps) fds

rest-Linked :
    (q : TaskQueue) (n : Option ℕ) (p : ℕ) (ps fds : List ℕ) (to : Option ℕ)
    → Segment q.heap n ps fds to
    → q.tail ≡ some (last p ps)
    → Linked (record q { head = n; count = q.count - 1 }) ps fds
rest-Linked q n p [] [] to s t = refl
rest-Linked q n p [] (x ∷ fds) to s t = absurd s
rest-Linked q n p (r ∷ ps) fds to s t = (to, s, t)

-- A caller waits exactly when no socket is queued; else it takes the task of the first one, and the
-- others stay queued in their order.
pub dequeue-Tasks : (q : TaskQueue) (ps fds : List ℕ) → Tasks q ps fds → Takes q ps fds
unfolding dequeue
dequeue-Tasks q ps [] w = ground (arith, w.counted)
dequeue-Tasks q [] (x ∷ fds) w = absurd (ground (arith, w.linked))
dequeue-Tasks q (p ∷ ps) (x ∷ fds) w =
    let (to, seg, tail) = w.linked in
    let (n, at_head, cell, rest) = seg in
    (
      p,
      record q { head = n; count = q.count - 1 },
      n,
      ground (arith, w.counted),
      cell,
      record {
        linked = rest-Linked q n p ps fds to rest tail;
        distinct = w.distinct.1;
        counted = omega (arith, w.counted);
      },
    )
