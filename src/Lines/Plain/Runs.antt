-- ===== src/Lines/Plain/Runs.antt =====
-- The whole first program of lab1 (lab1/queue_main.c) against a list.
use neu_cs5600_cmpsys.Base.{
  ℕ, ◌≤◌, ◌≡◌, true, false, List, [], ◌∷◌, ◌++◌, Option, none, some, if◌then◌else◌, length,
}
use neu_cs5600_cmpsys.Base.Bytes.{Bytes, codes, streq}
use neu_cs5600_cmpsys.Queue.{render}
use neu_cs5600_cmpsys.Queue.Contents.{Holds}
use neu_cs5600_cmpsys.Lines.{Command}
use neu_cs5600_cmpsys.Lines.Memory.{Memory, queue_of, IsBounded, IsMalloc}
use neu_cs5600_cmpsys.Lines.Plain.{Step, print_line}

-- What a command does to a list: what it prints, and the list after it, `none` when it is the end.
pub record Effect : Type 0 where
  pub prints : Bytes
  pub strings : Option (List Bytes)

abbrev pub enqueue_effect : List Bytes → List Bytes → Effect
enqueue_effect [] xs = record { prints = print_line (codes "ERROR"); strings = none }
enqueue_effect (a ∷ args) xs = record { prints = []; strings = some (xs ++ a ∷ []) }

abbrev pub dequeue_effect : List Bytes → Effect
dequeue_effect [] = record { prints = print_line (codes "NULL"); strings = some [] }
dequeue_effect (x ∷ xs) = record { prints = print_line x; strings = some xs }

abbrev pub effect : Command → List Bytes → Effect
effect c xs =
    if streq c.name (codes "enqueue")
    then enqueue_effect c.args xs
    else if streq c.name (codes "dequeue")
    then dequeue_effect xs
    else record { prints = []; strings = some xs }

-- What the commands print, and the list at the end.
abbrev pub session : List Command → List Bytes → Bytes
session [] xs = codes "finally: " ++ (render xs ++ b'\n' ∷ [])
session (c ∷ cs) xs = elim ((effect c xs).strings) [
  | none ↦ (effect c xs).prints
  | some ys ↦ (effect c xs).prints ++ session cs ys
]

abbrev shown : Command → List Command → List Bytes → Option (List Bytes) → Bytes
shown c cs xs none = (effect c xs).prints
shown c cs xs (some ys) = (effect c xs).prints ++ session cs ys

-- The queue that a line leaves, if the program goes on.
abbrev LeavesAs : Step → Option (List Bytes) → ℕ → Type 0
LeavesAs s none n = s.exits ≡ true
LeavesAs s (some ys) n =
    (ps : List ℕ) × (s.exits ≡ false)
    × IsBounded s.left.memory
    × Holds (queue_of s.left.memory.heap s.left.ends) ps ys
    × (length ys ≤ n)

module _ (malloc : Memory → ℕ) (fresh : IsMalloc malloc) (fuel : ℕ) where
  abbrev Does : Option Step → Effect → ℕ → Type 0
  Does o e n = (s : Step) × (o ≡ some s) × (s.output ≡ e.prints) × LeavesAs s e.strings n
