-- ===== src/Lines.antt =====
-- The lines of lab1's programs: `process_cmd`, which lab1/queue_main.c and
-- lab1/ciphered_queue_main.c both declare, cuts a line into words. Plain models the rest of the
-- first program, Undo the second, and Memory the nodes that both keep on one heap.
pub mod Words
pub mod Memory
pub mod Plain
pub mod Undo
mod Tests
use neu_cs5600_cmpsys.Base.{
  ℕ, ◌≡◌, Bool, true, false, List, [], ◌∷◌, ◌++◌, Option, none, some, ◌==◌, if◌then◌else◌, take,
}
use neu_cs5600_cmpsys.Base.Bytes.{Bytes}
use neu_cs5600_cmpsys.Base.Chain.{◌>>=◌}

-- A word that is empty is no token of `strtok`.
abbrev pub flush : Bytes → List Bytes → List Bytes
flush [] ws = ws
flush (c ∷ t) ws = (c ∷ t) ∷ ws

-- What the calls of `strtok` on spaces return, `t` being what was read of the word that is open.
unfoldable pub tokens : Bytes → Bytes → List Bytes
tokens t [] = flush t []
tokens t (c ∷ s) = if c == b' ' then flush t (tokens [] s) else tokens (t ++ (c ∷ [])) s

-- A newline at the end of the text is cut off.
unfoldable pub chomp : Bytes → Bytes
chomp [] = []
chomp (c ∷ []) = if c == b'\n' then [] else c ∷ []
chomp (c ∷ d ∷ s) = c ∷ chomp (d ∷ s)

-- Only the last word loses its newline. With no word the code reads before its array: `none`.
unfoldable pub chomp_last : List Bytes → Option (List Bytes)
chomp_last [] = none
chomp_last (w ∷ []) = some (chomp w ∷ [])
chomp_last (w ∷ v ∷ ws) = do rest ← chomp_last (v ∷ ws); some (w ∷ rest)

-- The arguments: the first words of the line, as many as fit.
unfoldable pub process_cmd : Bytes → ℕ → Option (List Bytes)
unfolding tokens chomp_last chomp
process_cmd line n = chomp_last (take n (tokens [] line))

-- The words of a line, the first apart.
pub record Command : Type 0 where
  pub name : Bytes
  pub args : List Bytes

-- What `process_cmd` reads of each line.
abbrev pub Reads : ℕ → List Bytes → List Command → Type 0
Reads n [] [] = Unit
Reads n [] (c ∷ cs) = ⊥
Reads n (line ∷ lines) [] = ⊥
Reads n (line ∷ lines) (c ∷ cs) = (process_cmd line n ≡ some (c.name ∷ c.args)) × Reads n lines cs
