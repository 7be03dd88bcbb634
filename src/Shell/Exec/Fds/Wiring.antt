-- ===== src/Shell/Exec/Fds/Wiring.antt =====
-- The standard descriptors of a command between two pipes (lab2/cmdrun.c, cmd_exec).
use mathlib.Core.Path.{subst}
use neu_cs5600_cmpsys.Base.{
  ℕ, ◌≡◌, ◌≢◌, ◌≤◌, sym, ap, ◌∙◌, false, List, [], ◌∷◌, Option, none, some, arith, ◌==◌,
  if◌then◌else◌,
}
use neu_cs5600_cmpsys.Cells.Segment.{IsNew}
use neu_cs5600_cmpsys.Shell.Exec.Fds.{
  File, pipe_read, pipe_write, Fds, put, close, dup2, Made, no_pipe, made, with_pipe, child_pipes,
}
use neu_cs5600_cmpsys.Shell.Exec.Fds.Tables.{
  Table, Between, dup2-put, put_same, put_other, used_ne, new_is_high, Table-put, Table-close,
  dup2-input, dup2-output,
}

abbrev pub or_else : Option File → File → File
or_else none f = f
or_else (some g) f = g

-- The ends of a pipe that was made are new descriptors.
abbrev pub IsMade : Fds → Made → Type 0
IsMade fds no_pipe = Unit
IsMade fds (made r w) = (fds r ≡ none) × (fds w ≡ none) × (r ≢ w)

abbrev pub write_end : ℕ → Made → Option File
write_end n no_pipe = none
write_end n (made r w) = some (pipe_write n)

abbrev pub read_end : ℕ → Made → Option File
read_end n no_pipe = none
read_end n (made r w) = some (pipe_read n)

-- The first half of `child_pipes`: the pipe before the command.
abbrev from_last : Fds → ℕ → Fds
from_last fds pass = let f₁ = dup2 fds pass 0 in if pass == 0 then f₁ else close f₁ pass

from_last-none :
    (fds : Fds) (pass : ℕ) (i o e : File) (x : List ℕ)
    → pass ≡ 0
    → Table fds i o e x
    → Table (from_last fds pass) i o e x
from_last-none fds pass i o e x h t =
    subst (λ p. Table (from_last fds p) i o e x) (sym h) (dup2-input fds i o e x t 0 i t.input)

from_last-some :
    (fds : Fds) (pass : ℕ) (f i o e : File) (x x' : List ℕ)
    → 3 ≤ pass
    → fds pass ≡ some f
    → Table fds i o e x
    → ((a : ℕ) → a ≢ pass → IsNew a x' → IsNew a x)
    → Table (from_last fds pass) f o e x'
from_last-some fds pass f i o e x x' h q t sub =
    let high : (pass == 0) ≡ false = ground arith in
    rw high
      (Table-close (dup2 fds pass 0) f o e pass x x' h (dup2-input fds i o e x t pass f q) sub)

-- What `from_last` leaves at a descriptor above the standard ones.
from_last_other :
    (fds : Fds) (pass a : ℕ) (f : File)
    → fds pass ≡ some f
    → 3 ≤ a
    → a ≢ pass
    → from_last fds pass a ≡ fds a
from_last_other fds pass a f q h n =
    ap (λ (t : Fds). (if pass == 0 then t else close t pass) a) (dup2-put fds pass 0 f q)
    ∙ ground arith

-- The second half: the write end of the command's own pipe.
to_own :
    (fds : Fds) (i o e g : File) (r w : ℕ)
    → 3 ≤ r
    → 3 ≤ w
    → Table fds i o e (w ∷ r ∷ [])
    → fds w ≡ some g
    → Table (close (close (dup2 fds w 1) r) w) i g e []
to_own fds i o e g r w hr hw t q =
    let t₁ = dup2-output fds i o e (w ∷ r ∷ []) t w g q in
    let t₂ =
      Table-close (dup2 fds w 1) i g e r (w ∷ r ∷ []) (w ∷ []) hr t₁ (λ a n m. (m.0, (n, tt))) in
    Table-close (close (dup2 fds w 1) r) i g e w (w ∷ []) [] hw t₂ (λ a n m. (n, tt))

pub with_pipe-Table :
    (n : ℕ) (fds : Fds) (i o e : File) (x : List ℕ) (r w : ℕ)
    → 3 ≤ r
    → 3 ≤ w
    → Table fds i o e x
    → Table (with_pipe n fds (made r w)) i o e (w ∷ r ∷ x)
with_pipe-Table n fds i o e x r w hr hw t =
    Table-put (put fds r (some (pipe_read n))) i o e (r ∷ x)
      (Table-put fds i o e x t r (some (pipe_read n)) hr) w (some (pipe_write n)) hw

pub child_pipes-Table :
    (n : ℕ) (fds : Fds) (pass : ℕ) (k : Option File) (m : Made) (i o e : File)
    → Between fds pass k i o e
    → IsMade fds m
    → Table (child_pipes (with_pipe n fds m) pass m) (or_else k i) (or_else (write_end n m) o) e []
child_pipes-Table n fds pass none no_pipe i o e b m = from_last-none fds pass i o e [] b.0 b.1
child_pipes-Table n fds pass (some f) no_pipe i o e b m =
    from_last-some fds pass f i o e (pass ∷ []) [] b.0 b.1 b.2 (λ a n' m'. (n', tt))
child_pipes-Table n fds pass none (made r w) i o e b m =
    let hr = new_is_high fds i o e [] b.1 r m.0 in
    let hw = new_is_high fds i o e [] b.1 w m.1 in
    let f₀ = with_pipe n fds (made r w) in
    let t = with_pipe-Table n fds i o e [] r w hr hw b.1 in
    let at_zero : f₀ pass ≡ some i = ap f₀ b.0 ∙ t.input in
    to_own (from_last f₀ pass) i o e (pipe_write n) r w hr hw
      (from_last-none f₀ pass i o e (w ∷ r ∷ []) b.0 t)
      (from_last_other f₀ pass w i at_zero hw (λ q. omega (arith, b.0, q))
        ∙ put_same (put fds r (some (pipe_read n))) w (some (pipe_write n)))
child_pipes-Table n fds pass (some f) (made r w) i o e b m =
    let hr = used_high b.2 r m.0 in
    let hw = used_high b.2 w m.1 in
    let f₀ = with_pipe n fds (made r w) in
    let t = with_pipe-Table n fds i o e (pass ∷ []) r w hr hw b.2 in
    let pr = used_ne fds pass r f b.1 m.0 in
    let pw = used_ne fds pass w f b.1 m.1 in
    let at_pass : f₀ pass ≡ some f =
      put_other (put fds r (some (pipe_read n))) w pass (some (pipe_write n)) pw
      ∙ put_other fds r pass (some (pipe_read n)) pr
      ∙ b.1 in
    to_own (from_last f₀ pass) f o e (pipe_write n) r w hr hw
      (from_last-some f₀ pass f i o e (w ∷ r ∷ pass ∷ []) (w ∷ r ∷ []) b.0 at_pass t
        (λ a n' m'. (m'.0, (m'.1.0, (n', tt)))))
      (from_last_other f₀ pass w f at_pass hw (λ q. pw (sym q))
        ∙ put_same (put fds r (some (pipe_read n))) w (some (pipe_write n)))
  where
    used_high : Table fds i o e (pass ∷ []) → (d : ℕ) → fds d ≡ none → 3 ≤ d
    used_high t d q = new_is_high fds i o e (pass ∷ []) t d q
