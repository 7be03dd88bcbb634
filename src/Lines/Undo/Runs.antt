-- ===== src/Lines/Undo/Runs.antt =====
-- The whole second program of lab1 (lab1/ciphered_queue_main.c) against a history of lists.
use neu_cs5600_cmpsys.Base.{
  ℕ, suc, ◌+◌, ◌<◌, ◌≤◌, ◌≡◌, refl, ap, true, false, List, [], ◌∷◌, ◌++◌, none, some, arith,
  Bool-cases, if◌then◌else◌, map, length, inl, inr,
}
use neu_cs5600_cmpsys.Base.Bytes.{Bytes, codes}
use neu_cs5600_cmpsys.Queue.{render}
use neu_cs5600_cmpsys.Queue.Contents.{print_queue-Holds}
use neu_cs5600_cmpsys.Lines.{process_cmd, Command, Reads}
use neu_cs5600_cmpsys.Lines.Memory.{Memory, Ends, queue_of, IsMalloc}
use neu_cs5600_cmpsys.Lines.Plain.{print_line}
use neu_cs5600_cmpsys.Lines.Undo.{
  word, check_cmd, Session, gq_size, command, process_line2, final_print, run,
}
use neu_cs5600_cmpsys.Lines.Undo.Act.{effect, IsKeyed}
use neu_cs5600_cmpsys.Lines.Undo.Stack.{View, Short, IsValid}
use neu_cs5600_cmpsys.Lines.Undo.Release.{free_all-Moves}
use neu_cs5600_cmpsys.Lines.Undo.Steps.{after, strings_of, step}

-- What the commands print on a history of lists, and the last list at the end.
abbrev pub session : List Command → List (List Bytes) → Bytes
session cs [] = []
session [] (xs ∷ h) = codes "finally: " ++ (render xs ++ b'\n' ∷ [])
session (c ∷ cs) (xs ∷ h) =
    let w = word c.name in
    let argv = c.name ∷ c.args in
    let rest = session cs (after w argv (xs ∷ h)) in
    if check_cmd w argv then (effect w argv xs).0 ++ rest else print_line (codes "ERROR")

-- The keys of all commands are safe.
abbrev pub AreKeyed : List Command → Type 0
AreKeyed [] = Unit
AreKeyed (c ∷ cs) = IsKeyed (word c.name) (c.name ∷ c.args) × AreKeyed cs

module _ (malloc : Memory → ℕ) (fresh : IsMalloc malloc) (fuel : ℕ) where
  -- The end of `main`.
  run_end :
      (m : Memory) (e : Ends) (es : List Ends) (n : ℕ) (v : View) (vs : List View)
      → IsValid (record { memory = m; queues = e ∷ es }) (v ∷ vs)
      → Short n (v ∷ vs)
      → n < fuel
      → (m' : Memory) × (run malloc fuel (record { memory = m; queues = e ∷ es }) []
          ≡ some (session [] (map strings_of (v ∷ vs)), m'))
  unfolding run final_print
  run_end m e es n v vs i h f =
      let (m', freed, _) = free_all-Moves fuel n m (e ∷ es) (v ∷ vs) i.stacked h f in
      (
        m',
        rw
            (
              print_queue-Holds fuel (queue_of m.heap e) v.nodes v.strings i.stacked.0
                  (omega arith),
              freed,
            )
            refl,
      )

  -- A line that is an error, and one that is not.
  line_error :
      (s : Session) (line : Bytes) (c : Command)
      → process_cmd line 3 ≡ some (c.name ∷ c.args)
      → check_cmd (word c.name) (c.name ∷ c.args) ≡ false
      → process_line2 malloc fuel s line ≡ some (print_line (codes "ERROR"), none)
  unfolding process_line2
  line_error s line c r e = rw (r, e) refl

  line_runs :
      (s s' : Session) (out : Bytes) (line : Bytes) (c : Command)
      → process_cmd line 3 ≡ some (c.name ∷ c.args)
      → check_cmd (word c.name) (c.name ∷ c.args) ≡ true
      → command malloc fuel (word c.name) (c.name ∷ c.args) s ≡ some (out, s')
      → process_line2 malloc fuel s line ≡ some (out, some s')
  unfolding process_line2
  line_runs s s' out line c r e ran = rw (r, e, ran) refl

  pub run_from :
      (lines : List Bytes) (cs : List Command) (m : Memory) (es : List Ends) (n : ℕ) (v : View)
      (vs : List View)
      → Reads 3 lines cs
      → AreKeyed cs
      → IsValid (record { memory = m; queues = es }) (v ∷ vs)
      → Short n (v ∷ vs)
      → n + length lines < fuel
      → length es + length lines ≤ gq_size
      → (m' : Memory) × (run malloc fuel (record { memory = m; queues = es }) lines
          ≡ some (session cs (map strings_of (v ∷ vs)), m'))
  unfolding run
  run_from lines cs m [] n v vs r s i h f g = absurd i.stacked
  run_from [] [] m (e ∷ es) n v vs r s i h f g = run_end m e es n v vs i h (omega arith)
  run_from [] (c ∷ cs) m (e ∷ es) n v vs r s i h f g = absurd r
  run_from (line ∷ lines) [] m (e ∷ es) n v vs r s i h f g = absurd r
  run_from (line ∷ lines) (c ∷ cs) m (e ∷ es) n v vs r s i h f g =
      elim (Bool-cases (check_cmd (word c.name) (c.name ∷ c.args))) [
        | inl ok ↦
            let (s', v', vs', ran, j, states, short, count) =
              step malloc fresh fuel (word c.name) (c.name ∷ c.args) m e es n v vs i h (omega arith)
                (omega arith) ok s.0 in
            let (m', rest) =
              run_from lines cs s'.memory s'.queues (suc n) v' vs' r.1 s.1 j short (omega arith)
                (omega arith) in
            (
              m',
              rw
                  (
                    line_runs (record { memory = m; queues = e ∷ es }) s' _ line c r.0 ok ran,
                    rest,
                    ok,
                  )
                  (ap
                    (λ (hs : List (List Bytes)).
                      some
                        ((effect (word c.name) (c.name ∷ c.args) v.strings).0 ++ session cs hs, m'))
                    states),
            )
        | inr wrong ↦
            let (m', freed, _) =
              free_all-Moves fuel n m (e ∷ es) (v ∷ vs) i.stacked h (omega arith) in
            (
              m',
              rw
                  (
                    line_error (record { memory = m; queues = e ∷ es }) line c r.0 wrong,
                    freed,
                    wrong,
                  )
                  refl,
            )
      ]
