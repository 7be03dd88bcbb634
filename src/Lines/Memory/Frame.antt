-- ===== src/Lines/Memory/Frame.antt =====
-- What the operations on one queue leave of the others on the same heap
-- (lab1/ciphered_queue_main.c).
use neu_cs5600_cmpsys.Base.{
  ℕ, ◌≡◌, ◌≢◌, refl, sym, ap, ◌∙◌, List, [], ◌∷◌, ◌++◌, Option, none, some, arith,
}
use neu_cs5600_cmpsys.Base.Bytes.{Bytes}
use neu_cs5600_cmpsys.Cells.{Cell, Heap, put}
use neu_cs5600_cmpsys.Cells.Segment.{
  IsNew, IsNew-append, last, last-IsNew, Segment, Segment-last, Segment-put, link_at,
}
use neu_cs5600_cmpsys.Queue.{Queue, enqueue, take_node}
use neu_cs5600_cmpsys.Queue.Contents.{
  Holds, tail_of, enqueue-Holds, take_node-some, take_node-Holds,
}
use neu_cs5600_cmpsys.Lines.Memory.{
  Memory, Ends, queue_of, IsBounded, IsMalloc, Left, left, enqueue_in, take_in,
}

none≢some : {A : Type 0} {x : A} → none ≢ some x
none≢some e = absurd (ground arith)

-- No address of the first list is in the second.
abbrev pub Apart : List ℕ → List ℕ → Type 0
Apart [] ps = Unit
Apart (r ∷ rs) ps = IsNew r ps × Apart rs ps

-- From `m` to `m'` the nodes of one queue change from `ps` to `ps'`, and nobody else's nodes do.
pub record Moves (m : Memory) (ps : List ℕ) (m' : Memory) (ps' : List ℕ) : Type 0 where
  pub frame : (a : ℕ) (c : Cell Bytes) → IsNew a ps → m.heap a ≡ some c → m'.heap a ≡ some c
  pub apart : (a : ℕ) (c : Cell Bytes) → IsNew a ps → m.heap a ≡ some c → IsNew a ps'
  pub bounded : IsBounded m → IsBounded m'

pub Moves-refl : (m : Memory) (ps : List ℕ) → Moves m ps m ps
Moves-refl m ps = record { frame = λ a c n e. e; apart = λ a c n e. n; bounded = λ b. b }

pub Moves-trans :
    (m m' m'' : Memory) (ps ps' ps'' : List ℕ)
    → Moves m ps m' ps'
    → Moves m' ps' m'' ps''
    → Moves m ps m'' ps''
Moves-trans m m' m'' ps ps' ps'' v w = record {
  frame = λ a c n e. w.frame a c (v.apart a c n e) (v.frame a c n e);
  apart = λ a c n e. w.apart a c (v.apart a c n e) (v.frame a c n e);
  bounded = λ b. w.bounded (v.bounded b);
}

-- The queue that a call leaves holds `xs`, and only its own nodes, `ps` before, have moved.
pub record Keeps (m : Memory) (ps : List ℕ) (l : Left) (xs : List Bytes) : Type 0 where
  pub nodes : List ℕ
  pub holds : Holds (queue_of l.memory.heap l.ends) nodes xs
  pub moves : Moves m ps l.memory nodes

-- Nothing is at an address that no node has.
pub Segment-IsNew :
    (h : Heap Bytes) (a : ℕ) (at : Option ℕ) (ps : List ℕ) (xs : List Bytes)
    → h a ≡ none
    → Segment h at ps xs none
    → IsNew a ps
Segment-IsNew h a at [] xs e s = tt
Segment-IsNew h a at (p ∷ ps) [] e s = absurd s
Segment-IsNew h a at (p ∷ ps) (x ∷ xs) e s =
    (λ q. none≢some (sym e ∙ ap h q ∙ s.2), Segment-IsNew h a s.0 ps xs e s.3)

-- A segment stays when its nodes do.
pub Segment-Moves :
    (m m' : Memory) (qs qs' : List ℕ) (at : Option ℕ) (ps : List ℕ) (xs : List Bytes)
    → Moves m qs m' qs'
    → Apart ps qs
    → Segment m.heap at ps xs none
    → Segment m'.heap at ps xs none × Apart ps qs'
Segment-Moves m m' qs qs' at [] [] v d s = (s, tt)
Segment-Moves m m' qs qs' at [] (x ∷ xs) v d s = absurd s
Segment-Moves m m' qs qs' at (p ∷ ps) [] v d s = absurd s
Segment-Moves m m' qs qs' at (p ∷ ps) (x ∷ xs) v d s =
    let rest = Segment-Moves m m' qs qs' s.0 ps xs v d.1 s.3 in
    ((s.0, s.1, v.frame p _ d.0 s.2, rest.0), (v.apart p _ d.0 s.2, rest.1))

tail_of-IsNew : (a : ℕ) (ps : List ℕ) → IsNew a ps → some a ≢ tail_of ps
tail_of-IsNew a [] n e = absurd (ground arith)
tail_of-IsNew a (p ∷ ps) n e = last-IsNew a p ps n (ground arith)

-- What is at an address after a call that may fail.
abbrev at_after : Option Queue → ℕ → Option (Cell Bytes)
at_after none a = none
at_after (some q) a = q.heap a

module _ (q : Queue) (text : Bytes) (p a : ℕ) (new : a ≢ p) where
  enqueue-none : q.tail ≡ none → at_after (enqueue q text p) a ≡ q.heap a
  unfolding enqueue
  enqueue-none e = rw (e, enqueue) (ground arith)

  enqueue-last :
      (t : ℕ) (c : Cell Bytes)
      → q.tail ≡ some t
      → a ≢ t
      → put q.heap p (some (record { next = none; item = text })) t ≡ some c
      → at_after (enqueue q text p) a ≡ q.heap a
  unfolding enqueue
  enqueue-last t c e n at_t =
      rw
        (
          e,
          link_at (put q.heap p (some (record { next = none; item = text }))) t (some p) c at_t,
          enqueue,
        )
        (ground arith)

-- `enqueue` changes a node of its queue, and the new one.
enqueue-heap :
    (q : Queue) (ps : List ℕ) (xs : List Bytes) (text : Bytes) (p a : ℕ)
    → Holds q ps xs
    → IsNew p ps
    → a ≢ p
    → IsNew a ps
    → at_after (enqueue q text p) a ≡ q.heap a
enqueue-heap q [] xs text p a w new n m = enqueue-none q text p a n w.tail
enqueue-heap q (r ∷ ps) xs text p a w new n m =
    let h = put q.heap p (some (record { next = none; item = text })) in
    let (y, e) =
      Segment-last h q.head r ps xs none
        (Segment-put q.heap p _ q.head (r ∷ ps) xs none new w.segment) in
    enqueue-last q text p a n (last r ps) _ w.tail (last-IsNew a r ps m) e

-- What stands at an address after `take_node` is what stood there, or nothing.
take_node-heap :
    (q : Queue) (p a : ℕ) (c : Cell Bytes) (r : Option Bytes × Queue)
    → q.head ≡ some p
    → q.heap p ≡ some c
    → take_node q ≡ some r
    → r.1.heap a ≡ put q.heap p none a
take_node-heap q p a c r e f run =
    ap (λ (o : Option (Option Bytes × Queue)). elim o [ none ↦ none | some s ↦ s.1.heap a ])
      (sym run ∙ take_node-some q p c e f)

module _ (malloc : Memory → ℕ) (fresh : IsMalloc malloc) where
  -- `enqueue` moves only its own queue's nodes.
  pub enqueue_in-Keeps :
      (m : Memory) (e : Ends) (ps : List ℕ) (xs : List Bytes) (text : Bytes)
      → IsBounded m
      → Holds (queue_of m.heap e) ps xs
      → (l : Left) × (enqueue_in malloc m e text ≡ some l) × Keeps m ps l (xs ++ text ∷ [])
  unfolding enqueue_in
  enqueue_in-Keeps m e ps xs text b w =
      let q = queue_of m.heap e in
      let p = malloc m in
      let free = fresh m b in
      let new = Segment-IsNew m.heap p e.head ps xs free w.segment in
      let (q', run, w') = enqueue-Holds q ps xs text p w new in
      let other = λ (a : ℕ) (c : Cell Bytes) (g : m.heap a ≡ some c) (f : a ≡ p).
        none≢some (sym free ∙ ap m.heap (sym f) ∙ g) in
      let same = λ (a : ℕ) (n : a ≢ p) (o : IsNew a ps).
        ap (λ o. at_after o a) (sym run) ∙ enqueue-heap q ps xs text p a w new n o in
      (
        left q' (p ∷ m.issued),
        rw run refl,
        record {
          nodes = ps ++ p ∷ [];
          holds = w';
          moves = record {
            frame = λ a c n g. same a (other a c g) n ∙ g;
            apart = λ a c n g. IsNew-append a p ps n (other a c g);
            bounded = λ _ a n.
                same a n.0 (Segment-IsNew m.heap a e.head ps xs (b a n.1) w.segment) ∙ b a n.1;
          };
        },
      )

-- `take_node` frees a node of its queue, and writes nowhere else.
pub take_in-Keeps :
    (m : Memory) (e : Ends) (p : ℕ) (ps : List ℕ) (x : Bytes) (xs : List Bytes)
    → Holds (queue_of m.heap e) (p ∷ ps) (x ∷ xs)
    → (l : Left) × (take_in m e ≡ some (some x, l)) × Keeps m (p ∷ ps) l xs
unfolding take_in
take_in-Keeps m e p ps x xs w =
    let q = queue_of m.heap e in
    let (n, at_head, cell, rest) = w.segment in
    let (q', run, w') = take_node-Holds q (p ∷ ps) (x ∷ xs) w in
    let same = λ (a : ℕ). take_node-heap q p a _ (some x, q') at_head cell run in
    (
      left q' m.issued,
      rw run refl,
      record {
        nodes = ps;
        holds = w';
        moves = record {
          frame = λ a c o g. same a ∙ ground (arith, o.0, g);
          apart = λ a c o g. o.1;
          bounded = λ b a o. same a ∙ ground (arith, b a o);
        };
      },
    )
