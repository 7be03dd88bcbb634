-- ===== src/Lines/Undo/Act.antt =====
-- What a command does to the strings of the queue it works on (lab1/ciphered_queue_main.c).
use neu_cs5600_cmpsys.Base.{
  ℕ, zero, suc, ◌<◌, ◌≤◌, ◌≡◌, refl, Bool, true, false, List, [], ◌∷◌, ◌++◌, none, some, arith,
  if◌then◌else◌, length, get_elem?, get_or, length-append,
}
use neu_cs5600_cmpsys.Base.Bytes.{Bytes, codes, streq, atoi}
use neu_cs5600_cmpsys.Base.Int.{ℤ, int, int-some}
use neu_cs5600_cmpsys.Caesar.{illchar, Coded, encode, decode}
use neu_cs5600_cmpsys.Caesar.Shift.{IsSafe}
use neu_cs5600_cmpsys.Caesar.Text.{encode_total, decode_total}
use neu_cs5600_cmpsys.Queue.Contents.{Holds}
use neu_cs5600_cmpsys.Lines.Memory.{Memory, queue_of, IsBounded, IsMalloc, Left}
use neu_cs5600_cmpsys.Lines.Memory.Frame.{Moves-refl, Keeps, enqueue_in-Keeps, take_in-Keeps}
use neu_cs5600_cmpsys.Lines.Memory.Loops.{take_in_empty}
use neu_cs5600_cmpsys.Lines.Plain.{print_line}
use neu_cs5600_cmpsys.Lines.Undo.{
  Word, encode_enqueue, dequeue_decode, enqueue, dequeue, undo, other, check_cmd, Ran, decoded, act,
}

-- The text that `dequeue_decode` shows of a string: ILLCHAR as it is, else what `decode` leaves in
-- the buffer.
abbrev pub plain : ℤ → Bytes → Bytes
plain key s = if streq s illchar then s else elim (decode s key) [ none ↦ [] | some c ↦ c.buffer ]

abbrev pub arg : List Bytes → ℕ → Bytes
arg argv i = get_or argv i []

-- The text that `encode_enqueue` stores: ILLCHAR, or what `encode` leaves in the buffer.
abbrev pub ciphered : ℤ → Bytes → Bytes
ciphered key s = elim (encode s key) [ none ↦ [] | some c ↦ c.returned ]

-- The key of a command that has one is safe: no sum of the cipher overflows.
abbrev pub IsKeyed : Word → List Bytes → Type 0
IsKeyed encode_enqueue argv = IsSafe (atoi (arg argv 1))
IsKeyed dequeue_decode argv = IsSafe (atoi (arg argv 1))
IsKeyed enqueue argv = Unit
IsKeyed dequeue argv = Unit
IsKeyed undo argv = Unit
IsKeyed other argv = Unit

-- What a command prints, and the strings after it.
abbrev pub effect : Word → List Bytes → List Bytes → Bytes × List Bytes
effect encode_enqueue argv xs = ([], xs ++ ciphered (atoi (arg argv 1)) (arg argv 2) ∷ [])
effect enqueue argv xs = ([], xs ++ arg argv 1 ∷ [])
effect dequeue_decode argv [] = (print_line (codes "NULL"), [])
effect dequeue_decode argv (x ∷ xs) = (print_line (plain (atoi (arg argv 1)) x), xs)
effect dequeue argv [] = (print_line (codes "NULL"), [])
effect dequeue argv (x ∷ xs) = (print_line x, xs)
effect undo argv xs = ([], xs)
effect other argv xs = ([], xs)

pub effect-length :
    (w : Word) (argv xs : List Bytes) → length (effect w argv xs).1 ≤ suc (length xs)
effect-length encode_enqueue argv xs = omega (arith, length-append xs)
effect-length enqueue argv xs = omega (arith, length-append xs)
effect-length dequeue_decode argv [] = omega arith
effect-length dequeue_decode argv (x ∷ xs) = omega arith
effect-length dequeue argv [] = omega arith
effect-length dequeue argv (x ∷ xs) = omega arith
effect-length undo argv xs = omega arith
effect-length other argv xs = omega arith

if_some :
    {A : Type 0} (b : Bool) (x y : A) → (if b then some x else some y) ≡ some (if b then x else y)
if_some true x y = refl
if_some false x y = refl

-- A safe key is an int, and the cipher is defined for it.
safe_int : (key : ℤ) → IsSafe key → int key ≡ some key
safe_int key h = int-some key (omega arith) (omega arith)

encode-ciphered :
    (key : ℤ) (s : Bytes)
    → IsSafe key
    → (c : Coded) × (encode s key ≡ some c) × (c.returned ≡ ciphered key s)
encode-ciphered key s h = let (c, run) = encode_total key h s in (c, run, rw (ciphered, run) refl)

decoded-plain : (key : ℤ) (s : Bytes) → IsSafe key → decoded key s ≡ some (plain key s)
unfolding decoded
decoded-plain key s h =
    let (c, run) = decode_total key h s in rw run (if_some (streq s illchar) s c.buffer)

-- The arguments that `check_cmd` has counted are there.
get_elem?-arg : (argv : List Bytes) (i : ℕ) → i < length argv → get_elem? argv i ≡ some (arg argv i)
get_elem?-arg [] i h = absurd (omega arith)
get_elem?-arg (a ∷ argv) zero h = refl
get_elem?-arg (a ∷ argv) (suc i) h = get_elem?-arg argv i (omega arith)

abbrev pub Acts : (malloc : Memory → ℕ) → Word → List Bytes → Left → List ℕ → List Bytes → Type 0
Acts malloc w argv l ps xs =
    (r : Ran) × (act malloc w argv l ≡ some r)
    × (r.output ≡ (effect w argv xs).0)
    × Keeps l.memory ps r.left (effect w argv xs).1

module _ (malloc : Memory → ℕ) (fresh : IsMalloc malloc) (l : Left) where
  act_enqueue :
      (ps : List ℕ) (xs argv : List Bytes)
      → IsBounded l.memory
      → Holds (queue_of l.memory.heap l.ends) ps xs
      → 1 < length argv
      → Acts malloc enqueue argv l ps xs
  unfolding act
  act_enqueue ps xs argv b w h =
      let (l', run, k) = enqueue_in-Keeps malloc fresh l.memory l.ends ps xs (arg argv 1) b w in
      (record { output = []; left = l' }, rw (get_elem?-arg argv 1 h, run) refl, refl, k)

  act_encode :
      (ps : List ℕ) (xs argv : List Bytes)
      → IsBounded l.memory
      → Holds (queue_of l.memory.heap l.ends) ps xs
      → 2 < length argv
      → IsSafe (atoi (arg argv 1))
      → Acts malloc encode_enqueue argv l ps xs
  unfolding act
  act_encode ps xs argv b w h s =
      let key = atoi (arg argv 1) in
      let (c, coded, q) = encode-ciphered key (arg argv 2) s in
      let text = ciphered key (arg argv 2) in
      let (l', run, k) = enqueue_in-Keeps malloc fresh l.memory l.ends ps xs text b w in
      (
        record { output = []; left = l' },
        rw
            (
              get_elem?-arg argv 1 (omega arith),
              safe_int key s,
              get_elem?-arg argv 2 h,
              coded,
              q,
              run,
            )
            refl,
        refl,
        k,
      )

  act_dequeue :
      (ps : List ℕ) (xs argv : List Bytes)
      → Holds (queue_of l.memory.heap l.ends) ps xs
      → Acts malloc dequeue argv l ps xs
  unfolding act
  act_dequeue [] [] argv w = (
    record { output = print_line (codes "NULL"); left = l },
    rw (take_in_empty l.memory l.ends w) refl,
    refl,
    record { nodes = []; holds = w; moves = Moves-refl l.memory [] },
  )
  act_dequeue [] (x ∷ xs) argv w = absurd w.segment
  act_dequeue (p ∷ ps) [] argv w = absurd w.segment
  act_dequeue (p ∷ ps) (x ∷ xs) argv w =
      let (l', run, k) = take_in-Keeps l.memory l.ends p ps x xs w in
      (record { output = print_line x; left = l' }, rw run refl, refl, k)

  act_decode :
      (ps : List ℕ) (xs argv : List Bytes)
      → Holds (queue_of l.memory.heap l.ends) ps xs
      → 1 < length argv
      → IsSafe (atoi (arg argv 1))
      → Acts malloc dequeue_decode argv l ps xs
  unfolding act
  act_decode [] [] argv w h s = (
    record { output = print_line (codes "NULL"); left = l },
    rw (get_elem?-arg argv 1 h, safe_int (atoi (arg argv 1)) s, take_in_empty l.memory l.ends w)
        refl,
    refl,
    record { nodes = []; holds = w; moves = Moves-refl l.memory [] },
  )
  act_decode [] (x ∷ xs) argv w h s = absurd w.segment
  act_decode (p ∷ ps) [] argv w h s = absurd w.segment
  act_decode (p ∷ ps) (x ∷ xs) argv w h s =
      let key = atoi (arg argv 1) in
      let (l', run, k) = take_in-Keeps l.memory l.ends p ps x xs w in
      (
        record { output = print_line (plain key x); left = l' },
        rw (get_elem?-arg argv 1 h, safe_int key s, run, decoded-plain key x s) refl,
        refl,
        k,
      )

  -- A command with the words it asks for and a safe key does to the queue what `effect` says of its
  -- strings.
  pub act_lem :
      (w : Word) (ps : List ℕ) (xs argv : List Bytes)
      → IsBounded l.memory
      → Holds (queue_of l.memory.heap l.ends) ps xs
      → check_cmd w argv ≡ true
      → IsKeyed w argv
      → Acts malloc w argv l ps xs
  unfolding act check_cmd
  act_lem encode_enqueue ps xs argv b w h s = act_encode ps xs argv b w (ground arith) s
  act_lem enqueue ps xs argv b w h s = act_enqueue ps xs argv b w (ground arith)
  act_lem dequeue_decode ps xs argv b w h s = act_decode ps xs argv w (ground arith) s
  act_lem dequeue ps xs argv b w h s = act_dequeue ps xs argv w
  act_lem undo ps xs argv b w h s = (
    record { output = []; left = l },
    refl,
    refl,
    record { nodes = ps; holds = w; moves = Moves-refl l.memory ps },
  )
  act_lem other ps xs argv b w h s = (
    record { output = []; left = l },
    refl,
    refl,
    record { nodes = ps; holds = w; moves = Moves-refl l.memory ps },
  )
