-- ===== src/Lines/Tests.antt =====
-- Concrete runs of lab1's two programs (lab1/queue_main.c, lab1/ciphered_queue_main.c).
use Prim.Native.Nat.{max}
use neu_cs5600_cmpsys.Base.{ℕ, suc, ◌≡◌, ◌≤◌, refl, List, [], ◌∷◌, ◌++◌, none, some, arith}
use neu_cs5600_cmpsys.Base.Bytes.{Bytes, codes}
use neu_cs5600_cmpsys.Cells.Segment.{IsNew}
use neu_cs5600_cmpsys.Lines.{process_cmd, Command}
use neu_cs5600_cmpsys.Lines.Words.{line_of, process_cmd-line_of}
use neu_cs5600_cmpsys.Lines.Memory.{Memory, nothing, IsBounded, IsMalloc}
use neu_cs5600_cmpsys.Lines.Undo
use neu_cs5600_cmpsys.Lines.Undo.{enqueue, undo, Session, command, check_cmd}
use neu_cs5600_cmpsys.Lines.Undo.Stack.{IsValid}
use neu_cs5600_cmpsys.Lines.Undo.Steps.{command_undone}

-- A `malloc` that returns an address behind all it has returned.
abbrev above : List ℕ → ℕ
above [] = 1
above (a ∷ l) = max (suc a) (above l)

abbrev next_free : Memory → ℕ
next_free m = above m.issued

IsNew-above : (a : ℕ) (l : List ℕ) → above l ≤ a → IsNew a l
IsNew-above a [] h = tt
IsNew-above a (b ∷ l) h = (ground arith, IsNew-above a l (ground arith))

next_free-IsMalloc : IsMalloc next_free
next_free-IsMalloc m b = b (above m.issued) (IsNew-above (above m.issued) m.issued (omega arith))

abbrev no_memory : Memory
no_memory = record { heap = λ _. none; issued = [] }

no_memory-IsBounded : IsBounded no_memory
no_memory-IsBounded a n = refl

abbrev line : Bytes → Bytes
line s = s ++ b'\n' ∷ []

process_cmd-line_of_example :
    process_cmd (line_of (codes "encode_enqueue") (codes "3" ∷ codes "xYz" ∷ codes "more" ∷ [])) 3
    ≡ some (codes "encode_enqueue" ∷ codes "3" ∷ codes "xYz" ∷ [])
process_cmd-line_of_example =
    process_cmd-line_of 2 (codes "encode_enqueue") (codes "3" ∷ codes "xYz" ∷ codes "more" ∷ [])
      (ground arith) (ground arith)

abbrev plain_lines : List Bytes
plain_lines =
    line (codes "enqueue ab")
    ∷ line (codes "enqueue c")
    ∷ line (codes "dequeue")
    ∷ line (codes "what")
    ∷ []

abbrev plain_commands : List Command
plain_commands =
    record { name = codes "enqueue"; args = codes "ab" ∷ [] }
    ∷ record { name = codes "enqueue"; args = codes "c" ∷ [] }
    ∷ record { name = codes "dequeue"; args = [] }
    ∷ record { name = codes "what"; args = [] }
    ∷ []

abbrev undo_lines : List Bytes
undo_lines =
    line (codes "enqueue ab")
    ∷ line (codes "encode_enqueue 3 xYz9")
    ∷ line (codes "dequeue")
    ∷ line (codes "undo")
    ∷ []

abbrev undo_commands : List Command
undo_commands =
    record { name = codes "enqueue"; args = codes "ab" ∷ [] }
    ∷ record { name = codes "encode_enqueue"; args = codes "3" ∷ codes "xYz9" ∷ [] }
    ∷ record { name = codes "dequeue"; args = [] }
    ∷ record { name = codes "undo"; args = [] }
    ∷ []

-- Two queues, both empty.
two-IsValid :
    IsValid
      (record { memory = no_memory; queues = nothing ∷ nothing ∷ [] })
      (record { nodes = []; strings = [] } ∷ record { nodes = []; strings = [] } ∷ [])
two-IsValid = record {
  bounded = no_memory-IsBounded;
  stacked = (
    record { segment = refl; distinct = tt; tail = refl },
    (tt, tt),
    (record { segment = refl; distinct = tt; tail = refl }, tt, tt),
  );
}

command_undone_example :
    (s : Session) × (m : Memory) × (command next_free 3 enqueue
        (codes "enqueue" ∷ codes "ab" ∷ [])
        (record { memory = no_memory; queues = nothing ∷ nothing ∷ [] })
      ≡ some ([], s))
    × (command next_free 3 undo (codes "undo" ∷ []) s
        ≡ some ([], record { memory = m; queues = nothing ∷ nothing ∷ [] }))
    × IsValid
        (record { memory = m; queues = nothing ∷ nothing ∷ [] })
        (record { nodes = []; strings = [] } ∷ record { nodes = []; strings = [] } ∷ [])
unfolding check_cmd
command_undone_example =
    command_undone next_free next_free-IsMalloc 3 enqueue (codes "enqueue" ∷ codes "ab" ∷ [])
      (codes "undo" ∷ []) no_memory nothing (nothing ∷ []) (record { nodes = []; strings = [] })
      (record { nodes = []; strings = [] } ∷ []) refl refl tt two-IsValid (omega arith)
      (omega arith)
