-- ===== src/Queue/Contents.antt =====
-- The queue of lab1 refines a list: what each operation does to the strings that are queued.
use neu_cs5600_cmpsys.Base.{
  ℕ, zero, suc, ◌<◌, ◌≡◌, refl, sym, ap, ◌∙◌, List, [], ◌∷◌, ◌++◌, Option, none, some, arith,
  length, drop,
}
use neu_cs5600_cmpsys.Base.Bytes.{Bytes, codes}
use neu_cs5600_cmpsys.Cells.{Cell, Heap, put}
use neu_cs5600_cmpsys.Cells.Segment.{
  IsNew, Distinct, last, Distinct-append, last-append, Segment, Segment-put, Segment-last,
  Segment-link, link_at,
}
use neu_cs5600_cmpsys.Queue.{
  Queue, enqueue, dequeue, take_node, free_queue, printed, render, print_queue,
}

-- The tail pointer: NULL for no nodes, else the address of the last.
abbrev pub tail_of : List ℕ → Option ℕ
tail_of [] = none
tail_of (p ∷ ps) = some (last p ps)

-- The nodes at `ps` hold `xs`, front first.
pub record Holds (q : Queue) (ps : List ℕ) (xs : List Bytes) : Type 0 where
  pub segment : Segment q.heap q.head ps xs none
  pub distinct : Distinct ps
  pub tail : q.tail ≡ tail_of ps

-- Enqueueing in a well-formed queue, at an address that no node has, succeeds: the string stands
-- last, behind the others in their order, and the queue is well formed.
pub enqueue-Holds :
    (q : Queue) (ps : List ℕ) (xs : List Bytes) (text : Bytes) (p : ℕ)
    → Holds q ps xs
    → IsNew p ps
    → (q' : Queue) × (enqueue q text p ≡ some q') × Holds q' (ps ++ p ∷ []) (xs ++ text ∷ [])
unfolding enqueue
enqueue-Holds q [] [] text p w new =
    let h' = put q.heap p (some (record { next = none; item = text })) in
    (
      record { head = some p; tail = some p; heap = h' },
      rw (w.tail, enqueue) refl,
      record { segment = (none, refl, ground arith, refl); distinct = (tt, tt); tail = refl },
    )
enqueue-Holds q [] (x ∷ xs) text p w new = absurd w.segment
enqueue-Holds q (r ∷ ps) xs text p w new =
    let h = put q.heap p (some (record { next = none; item = text })) in
    let seg =
      Segment-put q.heap p (some (record { next = none; item = text })) q.head (r ∷ ps) xs none new
        w.segment in
    let (y, e) = Segment-last h q.head r ps xs none seg in
    let h' = put h (last r ps) (some (record { next = some p; item = y })) in
    (
      record { head = q.head; tail = some p; heap = h' },
      rw (w.tail, enqueue, link_at h (last r ps) (some p) _ e) refl,
      record {
        segment =
            Segment-link h q.head r p ps xs none none y text seg w.distinct new (ground arith) e;
        distinct = Distinct-append p (r ∷ ps) w.distinct new;
        tail = ap some (sym (last-append r p ps));
      },
    )

-- NULL from no strings; else the first of them, and a queue of the rest.
abbrev pub Dequeues : Queue → List ℕ → List Bytes → Type 0
Dequeues q ps [] = take_node q ≡ some (none, q)
Dequeues q ps (x ∷ xs) = (q' : Queue) × (take_node q ≡ some (some x, q')) × Holds q' (drop 1 ps) xs

pub take_node-some :
    (q : Queue) (p : ℕ) (c : Cell Bytes)
    → q.head ≡ some p
    → q.heap p ≡ some c
    → take_node q
      ≡ some (
        some c.item,
        record {
          head = c.next;
          tail = elim c.next [ none ↦ none | some _ ↦ q.tail ];
          heap = put q.heap p none;
        },
      )
unfolding take_node dequeue
take_node-some q p c e f = ground arith

next_tail :
    (h : Heap Bytes) (n : Option ℕ) (p : ℕ) (ps : List ℕ) (xs : List Bytes)
    → Segment h n ps xs none
    → elim n [ none ↦ none | some _ ↦ some (last p ps) ] ≡ tail_of ps
next_tail h n p [] [] s = rw s refl
next_tail h n p [] (x ∷ xs) s = absurd s
next_tail h n p (q ∷ ps) [] s = absurd s
next_tail h n p (q ∷ ps) (x ∷ xs) s = rw s.1 refl

-- Dequeueing from a well-formed queue: from an empty one NULL, and the queue as it was; else the
-- first string, whose node is freed, and the rest is well formed.
pub take_node-Holds : (q : Queue) (ps : List ℕ) (xs : List Bytes) → Holds q ps xs → Dequeues q ps xs
unfolding take_node dequeue
take_node-Holds q [] [] w = ground (arith, w.segment)
take_node-Holds q [] (x ∷ xs) w = absurd w.segment
take_node-Holds q (p ∷ ps) [] w = absurd w.segment
take_node-Holds q (p ∷ ps) (x ∷ xs) w =
    let (n, at_head, cell, rest) = w.segment in
    (
      record { head = n; tail = tail_of ps; heap = put q.heap p none },
      take_node-some q p _ at_head cell
          ∙ ap
              (λ (t : Option ℕ).
                some (some x, record { head = n; tail = t; heap = put q.heap p none }))
              (ap (λ (t : Option ℕ). elim n [ none ↦ none | some _ ↦ t ]) w.tail
                ∙ next_tail q.heap n p ps xs rest),
      record {
        segment = Segment-put q.heap p none n ps xs none w.distinct.0 rest;
        distinct = w.distinct.1;
        tail = refl;
      },
    )

-- The node of the first string is freed, and nothing else on the heap changes.
take_node-heap :
    (q q' : Queue) (p : ℕ) (ps : List ℕ) (x : Bytes) (xs : List Bytes)
    → Holds q (p ∷ ps) (x ∷ xs)
    → take_node q ≡ some (some x, q')
    → (a : ℕ) → q'.heap a ≡ put q.heap p none a
take_node-heap q q' p ps x xs w run a =
    let (n, at_head, cell, rest) = w.segment in
    ap (λ (o : Option (Option Bytes × Queue)). elim o [ none ↦ none | some s ↦ s.1.heap a ])
      (sym run ∙ take_node-some q p _ at_head cell)

-- Nothing stands at the addresses.
abbrev pub Gone : List ℕ → Heap Bytes → Type 0
Gone [] h = Unit
Gone (p ∷ ps) h = (h p ≡ none) × Gone ps h

-- The heap after the nodes at `ps` were freed: nothing stands at their addresses, and everything
-- else stays.
pub record Frees (ps : List ℕ) (h h' : Heap Bytes) : Type 0 where
  pub freed : Gone ps h'
  pub others : (a : ℕ) → IsNew a ps → h' a ≡ h a

Frees-cons :
    (p : ℕ) (ps : List ℕ) (h h₁ h₂ : Heap Bytes)
    → IsNew p ps
    → ((a : ℕ) → h₁ a ≡ put h p none a)
    → Frees ps h₁ h₂
    → Frees (p ∷ ps) h h₂
Frees-cons p ps h h₁ h₂ new first rest = record {
  freed = (rest.others p new ∙ first p ∙ ground arith, rest.freed);
  others = λ a n. rest.others a n.1 ∙ first a ∙ ground (arith, n.0);
}

-- On a well-formed queue, and with a round to spare, `free_queue` ends with an empty queue: the
-- nodes of the queue are all freed, and whatever else is on the heap stays as it was.
pub free_queue-Frees :
    (fuel : ℕ) (q : Queue) (ps : List ℕ) (xs : List Bytes)
    → Holds q ps xs
    → length xs < fuel
    → (q' : Queue) × (free_queue fuel q ≡ some q') × Holds q' [] [] × Frees ps q.heap q'.heap
unfolding free_queue
free_queue-Frees zero q ps xs w h = absurd (omega arith)
free_queue-Frees (suc f) q [] [] w h =
    (q, ground (arith, take_node-Holds q [] [] w), w, record { freed = tt; others = λ a n. refl })
free_queue-Frees (suc f) q [] (x ∷ xs) w h = absurd w.segment
free_queue-Frees (suc f) q (p ∷ ps) [] w h = absurd w.segment
free_queue-Frees (suc f) q (p ∷ ps) (x ∷ xs) w h =
    let (q₁, run, w₁) = take_node-Holds q (p ∷ ps) (x ∷ xs) w in
    let (q₂, run₂, w₂, rest) = free_queue-Frees f q₁ ps xs w₁ (omega arith) in
    (
      q₂,
      rw (run, free_queue) run₂,
      w₂,
      Frees-cons p ps q.heap q₁.heap q₂.heap w.distinct.0 (take_node-heap q q₁ p ps x xs w run)
          rest,
    )

printed-Segment :
    (fuel : ℕ) (h : Heap Bytes) (at : Option ℕ) (ps : List ℕ) (xs : List Bytes)
    → Segment h at ps xs none
    → length xs < fuel
    → printed fuel h at ≡ some xs
unfolding printed
printed-Segment zero h at ps xs s f = absurd (omega arith)
printed-Segment (suc f) h at [] [] s g = rw (s, printed) refl
printed-Segment (suc f) h at [] (x ∷ xs) s g = absurd s
printed-Segment (suc f) h at (p ∷ ps) [] s g = absurd s
printed-Segment (suc f) h at (p ∷ ps) (x ∷ xs) s g =
    simp (s.1, s.2, printed-Segment f h s.0 ps xs s.3 (omega arith))

-- `print_queue` prints the strings of a well-formed queue, front first, in brackets, with `->`
-- between them.
pub print_queue-Holds :
    (fuel : ℕ) (q : Queue) (ps : List ℕ) (xs : List Bytes)
    → Holds q ps xs
    → length xs < fuel
    → print_queue fuel q ≡ some (codes "finally: " ++ (render xs ++ (b'\n' ∷ [])))
unfolding print_queue
print_queue-Holds fuel q ps xs w h = rw (printed-Segment fuel q.heap q.head ps xs w.segment h) refl
