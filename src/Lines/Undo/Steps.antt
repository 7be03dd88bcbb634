-- ===== src/Lines/Undo/Steps.antt =====
-- A command of lab1's second program (lab1/ciphered_queue_main.c) as a step on a history of lists.
use neu_cs5600_cmpsys.Base.{
  ℕ, suc, ◌<◌, ◌≤◌, ◌≡◌, refl, true, false, List, [], ◌∷◌, some, arith, if◌then◌else◌, map, length,
}
use neu_cs5600_cmpsys.Base.Bytes.{Bytes}
use neu_cs5600_cmpsys.Lines.Memory.{Memory, Ends, IsMalloc}
use neu_cs5600_cmpsys.Lines.Undo.{
  Word, encode_enqueue, dequeue_decode, enqueue, dequeue, undo, other, check_cmd, Session, gq_size,
  command, run,
}
use neu_cs5600_cmpsys.Lines.Undo.Act.{effect, effect-length, IsKeyed}
use neu_cs5600_cmpsys.Lines.Undo.Stack.{View, Short, Short-suc, IsValid, session_of}
use neu_cs5600_cmpsys.Lines.Undo.History.{is_undo, pop, command_pushes, command_pops}

-- The lists of strings, the last first, after a command.
abbrev pub after : Word → List Bytes → List (List Bytes) → List (List Bytes)
after w argv [] = []
after w argv (xs ∷ h) = if is_undo w then pop (xs ∷ h) else (effect w argv xs).1 ∷ xs ∷ h

abbrev pub strings_of : View → List Bytes
strings_of v = v.strings

module _ (malloc : Memory → ℕ) (fresh : IsMalloc malloc) (fuel : ℕ) where
  -- A command undone: any command but `undo`, with the words it asks for and a key for which no sum
  -- of the cipher overflows, and then `undo`. Both succeed, the queues are the
  -- ones before the command, with the strings that they held, and the program may go on.
  pub command_undone :
      (w : Word) (argv argv' : List Bytes) (m : Memory) (e : Ends) (es : List Ends) (v : View)
      (vs : List View)
      → is_undo w ≡ false
      → check_cmd w argv ≡ true
      → IsKeyed w argv
      → IsValid (record { memory = m; queues = e ∷ es }) (v ∷ vs)
      → suc (length v.strings) < fuel
      → suc (length (e ∷ es)) < gq_size
      → (s : Session) × (m' : Memory) × (command malloc fuel w argv
            (record { memory = m; queues = e ∷ es })
          ≡ some ((effect w argv v.strings).0, s))
        × (command malloc fuel undo argv' s ≡ some ([], record { memory = m'; queues = e ∷ es }))
        × IsValid (record { memory = m'; queues = e ∷ es }) (v ∷ vs)
  command_undone w argv argv' m e es v vs u c s i f g =
      let (l, v', run, strings, j) =
        command_pushes malloc fresh fuel w argv m e es v vs u i (omega arith) (omega arith) c s in
      let short : length v'.strings < fuel =
        rw strings (omega (arith, effect-length w argv v.strings)) in
      let (m', back, k) =
        command_pops malloc fresh fuel argv' l.memory l.ends (e ∷ es) v' (v ∷ vs) j short g in
      (session_of l (e ∷ es), m', run, back, k)

  -- A command as a step on the lists.
  abbrev pub Steps : Word → List Bytes → Session → ℕ → View → List View → Type 0
  Steps w argv s n v vs =
      (s' : Session) × (v' : View) × (vs' : List View) × (command malloc fuel w argv s
        ≡ some ((effect w argv v.strings).0, s'))
      × IsValid s' (v' ∷ vs')
      × (map strings_of (v' ∷ vs') ≡ after w argv (map strings_of (v ∷ vs)))
      × Short (suc n) (v' ∷ vs')
      × (length s'.queues ≤ suc (length s.queues))

  step_pushes :
      (w : Word) (argv : List Bytes) (m : Memory) (e : Ends) (es : List Ends) (n : ℕ) (v : View)
      (vs : List View)
      → is_undo w ≡ false
      → IsValid (record { memory = m; queues = e ∷ es }) (v ∷ vs)
      → Short n (v ∷ vs)
      → n < fuel
      → length (e ∷ es) < gq_size
      → check_cmd w argv ≡ true
      → IsKeyed w argv
      → Steps w argv (record { memory = m; queues = e ∷ es }) n v vs
  step_pushes w argv m e es n v vs u i h f g c s =
      let (l, v', ran, strings, j) =
        command_pushes malloc fresh fuel w argv m e es v vs u i (omega arith) g c s in
      (
        session_of l (e ∷ es),
        v',
        v ∷ vs,
        ran,
        j,
        rw (u, strings) refl,
        (rw strings (omega (arith, effect-length w argv v.strings)), Short-suc n (v ∷ vs) h),
        omega arith,
      )

  step_pops :
      (argv : List Bytes) (m : Memory) (e : Ends) (es : List Ends) (n : ℕ) (v : View)
      (vs : List View)
      → IsValid (record { memory = m; queues = e ∷ es }) (v ∷ vs)
      → Short n (v ∷ vs)
      → n < fuel
      → length (e ∷ es) < gq_size
      → Steps undo argv (record { memory = m; queues = e ∷ es }) n v vs
  step_pops argv m e [] n v [] i h f g =
      let (m', ran, j) = command_pops malloc fresh fuel argv m e [] v [] i (omega arith) g in
      (_, v, [], ran, j, refl, Short-suc n (v ∷ []) h, omega arith)
  step_pops argv m e [] n v (w ∷ vs) i h f g = absurd i.stacked.2
  step_pops argv m e (d ∷ es) n v [] i h f g = absurd i.stacked.2
  step_pops argv m e (d ∷ es) n v (w ∷ vs) i h f g =
      let (m', ran, j) =
        command_pops malloc fresh fuel argv m e (d ∷ es) v (w ∷ vs) i (omega arith) g in
      (_, w, vs, ran, j, refl, Short-suc n (w ∷ vs) h.1, omega arith)

  pub step :
      (w : Word) (argv : List Bytes) (m : Memory) (e : Ends) (es : List Ends) (n : ℕ) (v : View)
      (vs : List View)
      → IsValid (record { memory = m; queues = e ∷ es }) (v ∷ vs)
      → Short n (v ∷ vs)
      → n < fuel
      → length (e ∷ es) < gq_size
      → check_cmd w argv ≡ true
      → IsKeyed w argv
      → Steps w argv (record { memory = m; queues = e ∷ es }) n v vs
  step undo argv m e es n v vs i h f g c s = step_pops argv m e es n v vs i h f g
  step encode_enqueue argv m e es n v vs i h f g c s =
      step_pushes encode_enqueue argv m e es n v vs refl i h f g c s
  step dequeue_decode argv m e es n v vs i h f g c s =
      step_pushes dequeue_decode argv m e es n v vs refl i h f g c s
  step enqueue argv m e es n v vs i h f g c s =
      step_pushes enqueue argv m e es n v vs refl i h f g c s
  step dequeue argv m e es n v vs i h f g c s =
      step_pushes dequeue argv m e es n v vs refl i h f g c s
  step other argv m e es n v vs i h f g c s = step_pushes other argv m e es n v vs refl i h f g c s
