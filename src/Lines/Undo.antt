-- ===== src/Lines/Undo.antt =====
-- The second program of lab1 (lab1/ciphered_queue_main.c): each line works on a copy of the last
-- queue, and `undo` goes back to the one before. `none` stands for a read through a pointer to
-- nothing or before an array, for a write behind the array of queues, for a number that overflows
-- an int, and for fuel that has run out.
pub mod Stack
pub mod Act
pub mod History
pub mod Release
pub mod Steps
pub mod Runs
use neu_cs5600_cmpsys.Base.{
  ℕ, Bool, true, false, List, [], ◌∷◌, ◌++◌, Option, none, some, ◌==◌, ltb, if◌then◌else◌, length,
  get_elem?,
}
use neu_cs5600_cmpsys.Base.Bytes.{Bytes, codes, streq, atoi}
use neu_cs5600_cmpsys.Base.Int.{ℤ, int}
use neu_cs5600_cmpsys.Base.Chain.{◌>>=◌}
use neu_cs5600_cmpsys.Caesar.{illchar, encode, decode}
use neu_cs5600_cmpsys.Queue.{Queue, print_queue}
use neu_cs5600_cmpsys.Lines.{process_cmd}
use neu_cs5600_cmpsys.Lines.Memory.{
  Memory, Ends, nothing, queue_of, Left, enqueue_in, copy_queue, take_in, free_in,
}
use neu_cs5600_cmpsys.Lines.Plain.{print_line, text_or_null}

-- The words that `process_line2` tells apart.
pub data Word : Type 0 where
  encode_enqueue dequeue_decode enqueue dequeue undo other : Word

unfoldable pub word : Bytes → Word
unfolding streq
word s =
    if streq s (codes "encode_enqueue")
    then encode_enqueue
    else if streq s (codes "dequeue_decode")
    then dequeue_decode
    else if streq s (codes "enqueue")
    then enqueue
    else if streq s (codes "dequeue")
    then dequeue
    else if streq s (codes "undo")
    then undo
    else other

-- How many words `check_cmd` asks for.
abbrev pub words_needed : Word → ℕ
words_needed encode_enqueue = 3
words_needed dequeue_decode = 2
words_needed enqueue = 2
words_needed dequeue = 0
words_needed undo = 0
words_needed other = 0

unfoldable pub check_cmd : Word → List Bytes → Bool
check_cmd w argv = if ltb (length argv) (words_needed w) then false else true

-- The queues of `gq` up to the last one, that one first.
pub record Session : Type 0 where
  pub memory : Memory
  pub queues : List Ends

-- `queue_t *gq[50000]`
abbrev pub gq_size : ℕ
gq_size = 50000

pub record Ran : Type 0 where
  pub output : Bytes
  pub left : Left

-- What `dequeue_decode` leaves in a node's string.
unfoldable pub decoded : ℤ → Bytes → Option Bytes
unfolding streq
decoded key text =
    if streq text illchar then some text else (decode text key >>= λ c. some c.buffer)

abbrev pub decoded_or_null : ℤ → Option Bytes → Option (Option Bytes)
decoded_or_null key none = some none
decoded_or_null key (some text) = decoded key text >>= λ s. some (some s)

module _ (malloc : Memory → ℕ) where
  -- A command on the copy: what it prints, and the copy afterwards. Of a key that is no int `atoi`
  -- gives nothing that C defines.
  unfoldable pub act : Word → List Bytes → Left → Option Ran
  unfolding decoded
  act encode_enqueue argv l = do
    digits ← get_elem? argv 1
    key ← int (atoi digits)
    text ← get_elem? argv 2
    c ← encode text key
    l' ← enqueue_in malloc l.memory l.ends c.returned
    some (record { output = []; left = l' })
  act dequeue_decode argv l = do
    digits ← get_elem? argv 1
    key ← int (atoi digits)
    (text, l') ← take_in l.memory l.ends
    shown ← decoded_or_null key text
    some (record { output = print_line (text_or_null shown); left = l' })
  act enqueue argv l = do
    text ← get_elem? argv 1
    l' ← enqueue_in malloc l.memory l.ends text
    some (record { output = []; left = l' })
  act dequeue argv l = do
    (text, l') ← take_in l.memory l.ends
    some (record { output = print_line (text_or_null text); left = l' })
  act undo argv l = some (record { output = []; left = l })
  act other argv l = some (record { output = []; left = l })

module _ (fuel : ℕ) where
  -- `undo` frees the copy, then the queue before it unless that is the first of all.
  unfoldable pub undo_last : Ends → Memory → List Ends → Option Session
  undo_last copy m [] = none
  undo_last copy m (e ∷ []) = do
    m' ← free_in fuel m copy
    some (record { memory = m'; queues = e ∷ [] })
  undo_last copy m (e ∷ d ∷ es) = do
    m' ← free_in fuel m copy
    m'' ← free_in fuel m' e
    some (record { memory = m''; queues = d ∷ es })

  abbrev pub settle : Word → Left → List Ends → Option Session
  settle undo l es = undo_last l.ends l.memory es
  settle w l es = some (record { memory = l.memory; queues = l.ends ∷ es })

  -- The queues are freed from the first on.
  unfoldable pub free_all : Memory → List Ends → Option Memory
  free_all m [] = some m
  free_all m (e ∷ es) = do m' ← free_all m es; free_in fuel m' e

  unfoldable pub final_print : Session → Option Bytes
  final_print s = elim s.queues [
    | [] ↦ none
    | ◌∷◌ e es ↦ print_queue fuel (queue_of s.memory.heap e)
  ]

module _ (malloc : Memory → ℕ) (fuel : ℕ) where
  -- The last queue copied, the command on the copy; the result is what it prints.
  unfoldable pub command : Word → List Bytes → Session → Option (Bytes × Session)
  unfolding act undo_last
  command w argv s = elim s.queues [
    | [] ↦ none
    | ◌∷◌ e es ↦
        if ltb (length s.queues) gq_size
        then (do
          l ← copy_queue malloc fuel s.memory e
          r ← act malloc w argv l
          s' ← settle fuel w r.left s.queues
          some (r.output, s'))
        else none
  ]

  -- For the result 1 no session is given: it is the one before.
  unfoldable pub process_line2 : Session → Bytes → Option (Bytes × Option Session)
  unfolding command process_cmd
  process_line2 s line = do
    argv ← process_cmd line 3
    name ← get_elem? argv 0
    if check_cmd (word name) argv
        then (do (out, s') ← command (word name) argv s; some (out, some s'))
        else some (print_line (codes "ERROR"), none)

  -- `main` from the loop on: what is printed, and the memory at the end.
  unfoldable pub run : Session → List Bytes → Option (Bytes × Memory)
  unfolding process_line2 free_all final_print
  run s [] = do out ← final_print fuel s; m ← free_all fuel s.memory s.queues; some (out, m)
  run s (line ∷ lines) = do
    (out, next) ← process_line2 s line
    elim next [
      | none ↦ (free_all fuel s.memory s.queues >>= λ m. some (out, m))
      | some s' ↦ (run s' lines >>= λ r. some (out ++ r.0, r.1))
    ]
