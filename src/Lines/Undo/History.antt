-- ===== src/Lines/Undo/History.antt =====
-- A line as a step of the history of queues (lab1/ciphered_queue_main.c): a command pushes the
-- changed copy, `undo` takes the last one off.
use neu_cs5600_cmpsys.Base.{
  ℕ, ◌<◌, ◌≡◌, refl, ◌∙◌, Bool, true, false, List, [], ◌∷◌, some, arith, lt→ltb, length,
}
use neu_cs5600_cmpsys.Base.Bytes.{Bytes}
use neu_cs5600_cmpsys.Base.Chain.{◌>>=◌}
use neu_cs5600_cmpsys.Lines.Memory.{Memory, Ends, IsMalloc, Left, copy_queue}
use neu_cs5600_cmpsys.Lines.Memory.Loops.{copy_queue-Keeps, free_in-Moves}
use neu_cs5600_cmpsys.Lines.Undo.{
  Word, encode_enqueue, dequeue_decode, enqueue, dequeue, undo, other, check_cmd, gq_size, Ran, act,
  undo_last, settle, command,
}
use neu_cs5600_cmpsys.Lines.Undo.Act.{effect, IsKeyed, act_lem}
use neu_cs5600_cmpsys.Lines.Undo.Stack.{
  View, AllApart-nil, IsValid, session_of, view_of, Keeps-IsValid, freed_valid,
}

abbrev pub is_undo : Word → Bool
is_undo undo = true
is_undo encode_enqueue = false
is_undo dequeue_decode = false
is_undo enqueue = false
is_undo dequeue = false
is_undo other = false

-- One less, but the first stays.
abbrev pub pop : {A : Type 0} → List A → List A
pop [] = []
pop (x ∷ []) = x ∷ []
pop (x ∷ y ∷ l) = y ∷ l

check_cmd-undo : (argv : List Bytes) → check_cmd undo argv ≡ true
unfolding check_cmd
check_cmd-undo argv = ground arith

module _ (malloc : Memory → ℕ) (fresh : IsMalloc malloc) (fuel : ℕ) where
  -- The copy is made and the command has run on it.
  record Acted (w : Word) (argv : List Bytes) (m : Memory) (e : Ends) (es : List Ends) (v : View)
      (vs : List View) : Type 0 where
    copy : Left
    ran : Ran
    view : View
    copied : copy_queue malloc fuel m e ≡ some copy
    acts : act malloc w argv copy ≡ some ran
    output : ran.output ≡ (effect w argv v.strings).0
    strings : view.strings ≡ (effect w argv v.strings).1
    valid : IsValid (session_of ran.left (e ∷ es)) (view ∷ v ∷ vs)

  copy_act :
      (w : Word) (argv : List Bytes) (m : Memory) (e : Ends) (es : List Ends) (v : View)
      (vs : List View)
      → IsValid (record { memory = m; queues = e ∷ es }) (v ∷ vs)
      → length v.strings < fuel
      → check_cmd w argv ≡ true
      → IsKeyed w argv
      → Acted w argv m e es v vs
  copy_act w argv m e es v vs i h c s =
      let (l, copied, k) =
        copy_queue-Keeps malloc fresh fuel m e v.nodes v.strings i.bounded i.stacked.0 h in
      let j =
        Keeps-IsValid m [] l v.strings (e ∷ es) (v ∷ vs) k i.bounded (AllApart-nil (v ∷ vs))
          i.stacked in
      let (r, acts, out, k') =
        act_lem malloc fresh l w k.nodes v.strings argv j.bounded k.holds c s in
      record {
        copy = l;
        ran = r;
        view = view_of l.memory k.nodes r.left (effect w argv v.strings).1 k';
        copied = copied;
        acts = acts;
        output = out;
        strings = refl;
        valid =
            Keeps-IsValid l.memory k.nodes r.left _ (e ∷ es) (v ∷ vs) k' j.bounded j.stacked.1
              j.stacked.2;
      }

  command_settles :
      (w : Word) (argv : List Bytes) (m : Memory) (e : Ends) (es : List Ends) (v : View)
      (vs : List View) (a : Acted w argv m e es v vs)
      → length (e ∷ es) < gq_size
      → command malloc fuel w argv (record { memory = m; queues = e ∷ es })
        ≡ (settle fuel w a.ran.left (e ∷ es) >>= λ s. some ((effect w argv v.strings).0, s))
  unfolding command
  command_settles w argv m e es v vs a g =
      rw (lt→ltb (length (e ∷ es)) gq_size g, a.copied, a.acts, a.output) refl

  settle_push :
      (w : Word) (l : Left) (es : List Ends)
      → is_undo w ≡ false
      → settle fuel w l es ≡ some (session_of l es)
  settle_push encode_enqueue l es h = refl
  settle_push dequeue_decode l es h = refl
  settle_push enqueue l es h = refl
  settle_push dequeue l es h = refl
  settle_push undo l es h = absurd (ground arith)
  settle_push other l es h = refl

  -- Any command but `undo` leaves the queues as they were, and a further one in front of them.
  pub command_pushes :
      (w : Word) (argv : List Bytes) (m : Memory) (e : Ends) (es : List Ends) (v : View)
      (vs : List View)
      → is_undo w ≡ false
      → IsValid (record { memory = m; queues = e ∷ es }) (v ∷ vs)
      → length v.strings < fuel
      → length (e ∷ es) < gq_size
      → check_cmd w argv ≡ true
      → IsKeyed w argv
      → (l : Left) × (v' : View) × (command malloc fuel w argv
            (record { memory = m; queues = e ∷ es })
          ≡ some ((effect w argv v.strings).0, session_of l (e ∷ es)))
        × (v'.strings ≡ (effect w argv v.strings).1)
        × IsValid (session_of l (e ∷ es)) (v' ∷ v ∷ vs)
  command_pushes w argv m e es v vs u i h g c s =
      let a = copy_act w argv m e es v vs i h c s in
      (
        a.ran.left,
        a.view,
        command_settles w argv m e es v vs a g ∙ rw (settle_push w a.ran.left (e ∷ es) u) refl,
        a.strings,
        a.valid,
      )

  -- The copy freed, and the queue before it, if it is not the first of all.
  undo_last_lem :
      (l : Left) (e : Ends) (es : List Ends) (v' v : View) (vs : List View)
      → IsValid (session_of l (e ∷ es)) (v' ∷ v ∷ vs)
      → length v'.strings < fuel
      → length v.strings < fuel
      → (m : Memory) × (undo_last fuel l.ends l.memory (e ∷ es)
          ≡ some (record { memory = m; queues = pop (e ∷ es) }))
        × IsValid (record { memory = m; queues = pop (e ∷ es) }) (pop (v ∷ vs))
  unfolding undo_last
  undo_last_lem l e [] v' v [] i h h' =
      let (m, run, moves) = free_in-Moves fuel l.memory l.ends v'.nodes v'.strings i.stacked.0 h in
      (
        m,
        rw run refl,
        freed_valid l.memory m v'.nodes (e ∷ []) (v ∷ []) moves i.bounded i.stacked.1 i.stacked.2,
      )
  undo_last_lem l e [] v' v (w ∷ vs) i h h' = absurd i.stacked.2.2
  undo_last_lem l e (d ∷ es) v' v [] i h h' = absurd i.stacked.2.2
  undo_last_lem l e (d ∷ es) v' v (w ∷ vs) i h h' =
      let (m, run, moves) = free_in-Moves fuel l.memory l.ends v'.nodes v'.strings i.stacked.0 h in
      let j =
        freed_valid l.memory m v'.nodes (e ∷ d ∷ es) (v ∷ w ∷ vs) moves i.bounded i.stacked.1
          i.stacked.2 in
      let (m', run', moves') = free_in-Moves fuel m e v.nodes v.strings j.stacked.0 h' in
      (
        m',
        rw (run, run') refl,
        freed_valid m m' v.nodes (d ∷ es) (w ∷ vs) moves' j.bounded j.stacked.1 j.stacked.2,
      )

  -- `undo` takes the last queue off, and leaves the others as they were.
  pub command_pops :
      (argv : List Bytes) (m : Memory) (e : Ends) (es : List Ends) (v : View) (vs : List View)
      → IsValid (record { memory = m; queues = e ∷ es }) (v ∷ vs)
      → length v.strings < fuel
      → length (e ∷ es) < gq_size
      → (m' : Memory) × (command malloc fuel undo argv (record { memory = m; queues = e ∷ es })
          ≡ some ([], record { memory = m'; queues = pop (e ∷ es) }))
        × IsValid (record { memory = m'; queues = pop (e ∷ es) }) (pop (v ∷ vs))
  command_pops argv m e es v vs i h g =
      let a = copy_act undo argv m e es v vs i h (check_cmd-undo argv) tt in
      let (m', run, j) = undo_last_lem a.ran.left e es a.view v vs a.valid (rw a.strings h) h in
      (m', command_settles undo argv m e es v vs a g ∙ rw run refl, j)
