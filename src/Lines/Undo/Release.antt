-- ===== src/Lines/Undo/Release.antt =====
-- The end of the second program of lab1 (lab1/ciphered_queue_main.c): all queues are freed.
use neu_cs5600_cmpsys.Base.{ℕ, ◌<◌, ◌≡◌, refl, sym, List, [], ◌∷◌, ◌++◌, some, arith}
use neu_cs5600_cmpsys.Cells.Segment.{IsNew}
use neu_cs5600_cmpsys.Queue.Contents.{Holds}
use neu_cs5600_cmpsys.Lines.Memory.{Memory, Ends, queue_of}
use neu_cs5600_cmpsys.Lines.Memory.Frame.{Apart, Moves, Moves-refl, Segment-Moves}
use neu_cs5600_cmpsys.Lines.Memory.Loops.{free_in-Moves}
use neu_cs5600_cmpsys.Lines.Undo.{free_all}
use neu_cs5600_cmpsys.Lines.Undo.Stack.{View, AllApart, Stacked, Short}

-- The nodes of all queues.
abbrev pub all_nodes : List View → List ℕ
all_nodes [] = []
all_nodes (v ∷ vs) = v.nodes ++ all_nodes vs

Apart-nil : (ps : List ℕ) → Apart ps []
Apart-nil [] = tt
Apart-nil (p ∷ ps) = (tt, Apart-nil ps)

Apart-cons : (ps : List ℕ) (r : ℕ) (rs : List ℕ) → IsNew r ps → Apart ps rs → Apart ps (r ∷ rs)
Apart-cons [] r rs n a = tt
Apart-cons (p ∷ ps) r rs n a = ((λ e. n.0 (sym e), a.0), Apart-cons ps r rs n.1 a.1)

Apart-sym : (rs ps : List ℕ) → Apart rs ps → Apart ps rs
Apart-sym [] ps a = Apart-nil ps
Apart-sym (r ∷ rs) ps a = Apart-cons ps r rs a.0 (Apart-sym rs ps a.1)

IsNew-append_lists : (a : ℕ) (ps qs : List ℕ) → IsNew a ps → IsNew a qs → IsNew a (ps ++ qs)
IsNew-append_lists a [] qs m n = n
IsNew-append_lists a (p ∷ ps) qs m n = (m.0, IsNew-append_lists a ps qs m.1 n)

IsNew-append_parts : (a : ℕ) (ps qs : List ℕ) → IsNew a (ps ++ qs) → IsNew a ps × IsNew a qs
IsNew-append_parts a [] qs n = (tt, n)
IsNew-append_parts a (p ∷ ps) qs n = let (l, r) = IsNew-append_parts a ps qs n.1 in ((n.0, l), r)

Apart-append : (ps qs rs : List ℕ) → Apart ps qs → Apart ps rs → Apart ps (qs ++ rs)
Apart-append [] qs rs a b = tt
Apart-append (p ∷ ps) qs rs a b =
    (IsNew-append_lists p qs rs a.0 b.0, Apart-append ps qs rs a.1 b.1)

AllApart-all_nodes : (ps : List ℕ) (vs : List View) → AllApart ps vs → Apart ps (all_nodes vs)
AllApart-all_nodes ps [] a = Apart-nil ps
AllApart-all_nodes ps (v ∷ vs) a =
    Apart-append ps v.nodes (all_nodes vs) (Apart-sym v.nodes ps a.0) (AllApart-all_nodes ps vs a.1)

Moves-append :
    (m m' m'' : Memory) (ps qs : List ℕ)
    → Moves m qs m' []
    → Moves m' ps m'' []
    → Moves m (ps ++ qs) m'' []
Moves-append m m' m'' ps qs v w = record {
  frame = λ a c n e. let s = IsNew-append_parts a ps qs n in w.frame a c s.0 (v.frame a c s.1 e);
  apart = λ a c n e. tt;
  bounded = λ b. w.bounded (v.bounded b);
}

-- With a round to spare for the longest, all queues are freed.
pub free_all-Moves :
    (fuel n : ℕ) (m : Memory) (es : List Ends) (vs : List View)
    → Stacked m.heap es vs
    → Short n vs
    → n < fuel
    → (m' : Memory) × (free_all fuel m es ≡ some m') × Moves m (all_nodes vs) m' []
unfolding free_all
free_all-Moves fuel n m [] [] s h f = (m, refl, Moves-refl m [])
free_all-Moves fuel n m [] (v ∷ vs) s h f = absurd s
free_all-Moves fuel n m (e ∷ es) [] s h f = absurd s
free_all-Moves fuel n m (e ∷ es) (v ∷ vs) s h f =
    let (m', run, moves) = free_all-Moves fuel n m es vs s.2 h.1 f in
    let (seg, _) =
      Segment-Moves m m' (all_nodes vs) [] e.head v.nodes v.strings moves
        (AllApart-all_nodes v.nodes vs s.1) s.0.segment in
    let w : Holds (queue_of m'.heap e) v.nodes v.strings = record {
      segment = seg;
      distinct = s.0.distinct;
      tail = s.0.tail;
    } in
    let (m'', run', moves') = free_in-Moves fuel m' e v.nodes v.strings w (omega arith) in
    (m'', rw run run', Moves-append m m' m'' v.nodes (all_nodes vs) moves moves')
