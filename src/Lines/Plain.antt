-- ===== src/Lines/Plain.antt =====
-- The first program of lab1 (lab1/queue_main.c): each line of the file is a command on one queue.
-- `none` stands for a read through a pointer to nothing, or before an array, and for fuel that has
-- run out. Standard output is the list of the lines that are printed.
pub mod Runs
use neu_cs5600_cmpsys.Base.{
  ℕ, Bool, true, false, List, [], ◌∷◌, ◌++◌, Option, none, some, ◌==◌, if◌then◌else◌, get_elem?,
}
use neu_cs5600_cmpsys.Base.Bytes.{Bytes, codes, streq}
use neu_cs5600_cmpsys.Base.Chain.{◌>>=◌}
use neu_cs5600_cmpsys.Queue.{Queue, print_queue}
use neu_cs5600_cmpsys.Lines.{process_cmd}
use neu_cs5600_cmpsys.Lines.Memory.{
  Memory, Ends, nothing, queue_of, Left, enqueue_in, take_in, free_in,
}

-- What a line leaves: what it printed, the queue, and whether the program ends there.
pub record Step : Type 0 where
  pub output : Bytes
  pub left : Left
  pub exits : Bool

-- `printf("%s\n", ...)`
abbrev pub print_line : Bytes → Bytes
print_line s = s ++ b'\n' ∷ []

abbrev pub goes_on : Bytes → Left → Step
goes_on out l = record { output = out; left = l; exits = false }

abbrev pub error_exit : Memory → Step
error_exit m = record {
  output = print_line (codes "ERROR");
  left = record { memory = m; ends = nothing };
  exits = true;
}

abbrev pub text_or_null : Option Bytes → Bytes
text_or_null none = codes "NULL"
text_or_null (some s) = s

module _ (malloc : Memory → ℕ) (fuel : ℕ) where
  -- With no argument the queue is freed and the program exits.
  unfoldable pub enqueue_line : Option Bytes → Left → Option Step
  unfolding enqueue_in free_in
  enqueue_line none l = do m ← free_in fuel l.memory l.ends; some (error_exit m)
  enqueue_line (some text) l = do l' ← enqueue_in malloc l.memory l.ends text; some (goes_on [] l')

  unfoldable pub dequeue_line : Left → Option Step
  unfolding take_in
  dequeue_line l = do
    (text, l') ← take_in l.memory l.ends
    some (goes_on (print_line (text_or_null text)) l')

  unfoldable pub process_line : Left → Bytes → Option Step
  unfolding enqueue_line dequeue_line process_cmd streq
  process_line l line = do
    argv ← process_cmd line 2
    command ← get_elem? argv 0
    if streq command (codes "enqueue")
        then enqueue_line (get_elem? argv 1) l
        else if streq command (codes "dequeue")
        then dequeue_line l
        else some (goes_on [] l)

  -- `main` from the loop on; `final_print` and the last `free_queue` come behind the lines.
  unfoldable pub run : Left → List Bytes → Option (Bytes × Memory)
  unfolding process_line
  run l [] = do
    out ← print_queue fuel (queue_of l.memory.heap l.ends)
    m ← free_in fuel l.memory l.ends
    some (out, m)
  run l (line ∷ lines) = do
    s ← process_line l line
    let rest = run s.left lines
    if s.exits then some (s.output, s.left.memory) else (rest >>= λ r. some (s.output ++ r.0, r.1))
