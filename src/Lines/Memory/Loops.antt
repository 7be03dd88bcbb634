-- ===== src/Lines/Memory/Loops.antt =====
-- The loops over one queue among several: freeing it, and copying it
-- (lab1/ciphered_queue_main.c, copy_queue; lab1/queue.c, free_queue).
use neu_cs5600_cmpsys.Base.{
  ℕ, zero, suc, ◌<◌, ◌≡◌, refl, ap, ◌∙◌, List, [], ◌∷◌, ◌++◌, Option, none, some, arith, length,
}
use mathlib.Core.List.{append_assoc, append-nil}
use neu_cs5600_cmpsys.Base.Bytes.{Bytes}
use neu_cs5600_cmpsys.Base.Chain.{>>=-eq-some}
use neu_cs5600_cmpsys.Cells.Segment.{Segment}
use neu_cs5600_cmpsys.Queue.{Queue, take_node, free_queue}
use neu_cs5600_cmpsys.Queue.Contents.{Holds, take_node-Holds}
use neu_cs5600_cmpsys.Lines.Memory.{
  Memory, Ends, nothing, queue_of, IsBounded, IsMalloc, Left, left, copy_from, copy_queue, take_in,
  free_in,
}
use neu_cs5600_cmpsys.Lines.Memory.Frame.{
  Apart, Moves, Moves-refl, Moves-trans, Keeps, Segment-Moves, enqueue_in-Keeps, take_in-Keeps,
}

-- `dequeue` on an empty queue.
pub take_in_empty :
    (m : Memory) (e : Ends)
    → Holds (queue_of m.heap e) [] []
    → take_in m e ≡ some (none, record { memory = m; ends = e })
unfolding take_in
take_in_empty m e w = rw (take_node-Holds (queue_of m.heap e) [] [] w) refl

-- The rounds of `free_queue`.
free_in_round :
    (f : ℕ) (m : Memory) (e : Ends) (x : Bytes) (l : Left) (r : Option Bytes × Queue)
    → take_node (queue_of m.heap e) ≡ some r
    → ◌≡◌ {A = Option (Option Bytes × Left)} (some (r.0, left r.1 m.issued)) (some (some x, l))
    → free_in (suc f) m e ≡ free_in f l.memory l.ends
unfolding free_in free_queue
free_in_round f m e x l (none, q) taken eq = absurd (ground (arith, eq))
free_in_round f m e x l (some y, q) taken eq = rw taken (
    ap
      (λ (o : Option (Option Bytes × Left)). elim o [
        | none ↦ none
        | some s ↦ free_in f s.1.memory s.1.ends
      ])
      eq)

free_in-take :
    (f : ℕ) (m : Memory) (e : Ends) (x : Bytes) (l : Left)
    → take_in m e ≡ some (some x, l)
    → free_in (suc f) m e ≡ free_in f l.memory l.ends
unfolding take_in
free_in-take f m e x l run =
    let (r, taken, eq) = >>=-eq-some (take_node (queue_of m.heap e)) _ run in
    free_in_round f m e x l r taken eq

free_in_empty :
    (f : ℕ) (m : Memory) (e : Ends) → Holds (queue_of m.heap e) [] [] → free_in (suc f) m e ≡ some m
unfolding free_in free_queue
free_in_empty f m e w = rw (take_node-Holds (queue_of m.heap e) [] [] w) refl

-- With a round to spare, `free_queue` ends, and moves nobody else's nodes.
pub free_in-Moves :
    (fuel : ℕ) (m : Memory) (e : Ends) (ps : List ℕ) (xs : List Bytes)
    → Holds (queue_of m.heap e) ps xs
    → length xs < fuel
    → (m' : Memory) × (free_in fuel m e ≡ some m') × Moves m ps m' []
free_in-Moves zero m e ps xs w h = absurd (omega arith)
free_in-Moves (suc f) m e [] [] w h = (m, free_in_empty f m e w, Moves-refl m [])
free_in-Moves (suc f) m e [] (x ∷ xs) w h = absurd w.segment
free_in-Moves (suc f) m e (p ∷ ps) [] w h = absurd w.segment
free_in-Moves (suc f) m e (p ∷ ps) (x ∷ xs) w h =
    let (l, run, k) = take_in-Keeps m e p ps x xs w in
    let (m', rest, v) = free_in-Moves f l.memory l.ends k.nodes xs k.holds (omega arith) in
    (m', free_in-take f m e x l run ∙ rest, Moves-trans m l.memory m' (p ∷ ps) k.nodes [] k.moves v)

Apart-nil : (ps : List ℕ) → Apart ps []
Apart-nil [] = tt
Apart-nil (p ∷ ps) = (tt, Apart-nil ps)

-- `copy_queue` adds the strings of a queue to another whose nodes are others, and leaves the first.
module _ (malloc : Memory → ℕ) (fresh : IsMalloc malloc) where
  copy_from-Keeps :
      (fuel : ℕ) (m : Memory) (at : Option ℕ) (ps : List ℕ) (xs : List Bytes) (e : Ends)
      (qs : List ℕ) (ys : List Bytes)
      → IsBounded m
      → Segment m.heap at ps xs none
      → Apart ps qs
      → Holds (queue_of m.heap e) qs ys
      → length xs < fuel
      → (l : Left) × (copy_from malloc fuel m at e ≡ some l) × Keeps m qs l (ys ++ xs)
  unfolding copy_from
  copy_from-Keeps zero m at ps xs e qs ys b s d w h = absurd (omega arith)
  copy_from-Keeps (suc f) m at [] [] e qs ys b s d w h = (
    record { memory = m; ends = e },
    rw (s, copy_from) refl,
    record { nodes = qs; holds = rw append-nil w; moves = Moves-refl m qs },
  )
  copy_from-Keeps (suc f) m at [] (x ∷ xs) e qs ys b s d w h = absurd s
  copy_from-Keeps (suc f) m at (p ∷ ps) [] e qs ys b s d w h = absurd s
  copy_from-Keeps (suc f) m at (p ∷ ps) (x ∷ xs) e qs ys b s d w h =
      let (l, run, k) = enqueue_in-Keeps malloc fresh m e qs ys x b w in
      let (rest, d') = Segment-Moves m l.memory qs k.nodes s.0 ps xs k.moves d.1 s.3 in
      let (l', run', k') =
        copy_from-Keeps f l.memory s.0 ps xs l.ends k.nodes (ys ++ x ∷ []) (k.moves.bounded b) rest
          d' k.holds (omega arith) in
      (
        l',
        rw (s.1, copy_from, s.2, run, k.moves.frame p _ d.0 s.2) run',
        record {
          nodes = k'.nodes;
          holds = rw append_assoc at k'.holds;
          moves = Moves-trans m l.memory l'.memory qs k.nodes k'.nodes k.moves k'.moves;
        },
      )

  -- The copy of a queue holds the same strings, in nodes that nothing else has.
  pub copy_queue-Keeps :
      (fuel : ℕ) (m : Memory) (e : Ends) (ps : List ℕ) (xs : List Bytes)
      → IsBounded m
      → Holds (queue_of m.heap e) ps xs
      → length xs < fuel
      → (l : Left) × (copy_queue malloc fuel m e ≡ some l) × Keeps m [] l xs
  unfolding copy_queue
  copy_queue-Keeps fuel m e ps xs b w h =
      copy_from-Keeps fuel m e.head ps xs nothing [] [] b w.segment (Apart-nil ps)
        (record { segment = refl; distinct = tt; tail = refl }) h
