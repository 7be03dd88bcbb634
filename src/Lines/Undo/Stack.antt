-- ===== src/Lines/Undo/Stack.antt =====
-- Several queues on one heap, the last first (lab1/ciphered_queue_main.c): each holds its strings
-- in nodes that no other queue has.
use neu_cs5600_cmpsys.Base.{ℕ, suc, ◌≤◌, List, [], ◌∷◌, length, arith}
use neu_cs5600_cmpsys.Base.Bytes.{Bytes}
use neu_cs5600_cmpsys.Cells.{Heap}
use neu_cs5600_cmpsys.Queue.Contents.{Holds}
use neu_cs5600_cmpsys.Lines.Memory.{Memory, Ends, queue_of, IsBounded, Left}
use neu_cs5600_cmpsys.Lines.Memory.Frame.{Apart, Moves, Keeps, Segment-Moves}
use neu_cs5600_cmpsys.Lines.Undo.{Session}

-- The nodes of a queue, and its strings.
pub record View : Type 0 where
  pub nodes : List ℕ
  pub strings : List Bytes

abbrev pub AllApart : List ℕ → List View → Type 0
AllApart ps [] = Unit
AllApart ps (v ∷ vs) = Apart v.nodes ps × AllApart ps vs

abbrev pub Stacked : Heap Bytes → List Ends → List View → Type 0
Stacked h [] [] = Unit
Stacked h [] (v ∷ vs) = ⊥
Stacked h (e ∷ es) [] = ⊥
Stacked h (e ∷ es) (v ∷ vs) =
    Holds (queue_of h e) v.nodes v.strings × AllApart v.nodes vs × Stacked h es vs

-- None of the queues is longer than `n`.
abbrev pub Short : ℕ → List View → Type 0
Short n [] = Unit
Short n (v ∷ vs) = (length v.strings ≤ n) × Short n vs

pub Short-suc : (n : ℕ) (vs : List View) → Short n vs → Short (suc n) vs
Short-suc n [] h = tt
Short-suc n (v ∷ vs) h = (omega arith, Short-suc n vs h.1)

pub AllApart-nil : (vs : List View) → AllApart [] vs
AllApart-nil [] = tt
AllApart-nil (v ∷ vs) = (nil v.nodes, AllApart-nil vs)
  where
    nil : (ps : List ℕ) → Apart ps []
    nil [] = tt
    nil (p ∷ ps) = (tt, nil ps)

-- The other queues stay when one queue's nodes move.
pub Stacked-Moves :
    (m m' : Memory) (qs qs' : List ℕ) (es : List Ends) (vs : List View)
    → Moves m qs m' qs'
    → AllApart qs vs
    → Stacked m.heap es vs
    → Stacked m'.heap es vs × AllApart qs' vs
Stacked-Moves m m' qs qs' [] [] v d s = (tt, tt)
Stacked-Moves m m' qs qs' [] (w ∷ vs) v d s = absurd s
Stacked-Moves m m' qs qs' (e ∷ es) [] v d s = absurd s
Stacked-Moves m m' qs qs' (e ∷ es) (w ∷ vs) v d s =
    let (seg, a) = Segment-Moves m m' qs qs' e.head w.nodes w.strings v d.0 s.0.segment in
    let (rest, b) = Stacked-Moves m m' qs qs' es vs v d.1 s.2 in
    ((record { segment = seg; distinct = s.0.distinct; tail = s.0.tail }, s.1, rest), (a, b))

-- The state between two lines.
pub record IsValid (s : Session) (vs : List View) : Type 0 where
  pub bounded : IsBounded s.memory
  pub stacked : Stacked s.memory.heap s.queues vs

abbrev pub session_of : Left → List Ends → Session
session_of l es = record { memory = l.memory; queues = l.ends ∷ es }

abbrev pub view_of :
    (m : Memory) (ps : List ℕ) (l : Left) (xs : List Bytes) → Keeps m ps l xs → View
view_of m ps l xs k = record { nodes = k.nodes; strings = xs }

-- A call on a queue that is not among the others leaves all of them valid.
pub Keeps-IsValid :
    (m : Memory) (ps : List ℕ) (l : Left) (xs : List Bytes) (es : List Ends) (vs : List View)
    (k : Keeps m ps l xs)
    → IsBounded m
    → AllApart ps vs
    → Stacked m.heap es vs
    → IsValid (session_of l es) (view_of m ps l xs k ∷ vs)
Keeps-IsValid m ps l xs es vs k b d s =
    let (rest, a) = Stacked-Moves m l.memory ps k.nodes es vs k.moves d s in
    record { bounded = k.moves.bounded b; stacked = (k.holds, a, rest) }

-- The queues that are left when one has been freed.
pub freed_valid :
    (m m' : Memory) (ps : List ℕ) (es : List Ends) (vs : List View)
    → Moves m ps m' []
    → IsBounded m
    → AllApart ps vs
    → Stacked m.heap es vs
    → IsValid (record { memory = m'; queues = es }) vs
freed_valid m m' ps es vs v b d s = record {
  bounded = v.bounded b;
  stacked = (Stacked-Moves m m' ps [] es vs v d s).0;
}
