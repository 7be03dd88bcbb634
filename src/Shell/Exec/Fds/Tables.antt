-- ===== src/Shell/Exec/Fds/Tables.antt =====
-- Tables of descriptors in which the standard three are open, and which others are
-- (lab2/cmdrun.c, cmd_exec).
use neu_cs5600_cmpsys.Base.{
  ℕ, ◌≡◌, ◌≢◌, ◌≤◌, refl, sym, ap, ◌∙◌, inl, inr, List, [], ◌∷◌, Option, none, some, arith, ◌==◌,
  Bool-cases,
}
use neu_cs5600_cmpsys.Cells.Segment.{IsNew}
use neu_cs5600_cmpsys.Shell.Exec.Fds.{File, Fds, put, close, dup2}

-- The standard descriptors, and no others but those listed.
pub record Table (fds : Fds) (i o e : File) (x : List ℕ) : Type 0 where
  pub input : fds 0 ≡ some i
  pub output : fds 1 ≡ some o
  pub error : fds 2 ≡ some e
  pub others : (d : ℕ) → 3 ≤ d → IsNew d x → fds d ≡ none

-- The shell between two commands: with its standard descriptors alone, or with the read end of the
-- last pipe besides, from which the next command reads.
abbrev pub Between : Fds → ℕ → Option File → File → File → File → Type 0
Between fds pass none i o e = (pass ≡ 0) × Table fds i o e []
Between fds pass (some f) i o e = (3 ≤ pass) × (fds pass ≡ some f) × Table fds i o e (pass ∷ [])

pub put_same : (fds : Fds) (d : ℕ) (f : Option File) → put fds d f d ≡ f
put_same fds d f = ground arith

pub put_other : (fds : Fds) (d a : ℕ) (f : Option File) → a ≢ d → put fds d f a ≡ fds a
put_other fds d a f n = ground arith

pub dup2-put :
    (fds : Fds) (from to : ℕ) (f : File)
    → fds from ≡ some f
    → dup2 fds from to ≡ put fds to (some f)
dup2-put fds from to f h = rw (h, dup2) refl

-- A descriptor in use is none that is new.
pub used_ne : (fds : Fds) (a b : ℕ) (f : File) → fds a ≡ some f → fds b ≡ none → a ≢ b
used_ne fds a b f u n e = none≢some (sym n ∙ ap fds (sym e) ∙ u)
  where
    none≢some : none ≢ some f
    none≢some q = absurd (ground arith)

module _ (fds : Fds) (i o e : File) (x : List ℕ) (t : Table fds i o e x) where
  pub new_is_high : (d : ℕ) → fds d ≡ none → 3 ≤ d
  new_is_high d n =
      let a = used_ne fds 0 d i t.input n in
      let b = used_ne fds 1 d o t.output n in
      let c = used_ne fds 2 d e t.error n in ground (arith, a, b, c)

  pub Table-put : (d : ℕ) (f : Option File) → 3 ≤ d → Table (put fds d f) i o e (d ∷ x)
  Table-put d f h = record {
    input = put_other fds d 0 f (λ q. omega arith) ∙ t.input;
    output = put_other fds d 1 f (λ q. omega arith) ∙ t.output;
    error = put_other fds d 2 f (λ q. omega arith) ∙ t.error;
    others = λ a n m. put_other fds d a f m.0 ∙ t.others a n m.1;
  }

pub Table-close :
    (fds : Fds) (i o e : File) (d : ℕ) (x x' : List ℕ)
    → 3 ≤ d
    → Table fds i o e x
    → ((a : ℕ) → a ≢ d → IsNew a x' → IsNew a x)
    → Table (close fds d) i o e x'
Table-close fds i o e d x x' h t sub = record {
  input = put_other fds d 0 none (λ q. omega arith) ∙ t.input;
  output = put_other fds d 1 none (λ q. omega arith) ∙ t.output;
  error = put_other fds d 2 none (λ q. omega arith) ∙ t.error;
  others = λ a n m. elim (Bool-cases (a == d)) [
    | inl same ↦ rw same refl
    | inr other ↦ rw other (t.others a n (sub a (λ q. absurd (ground arith)) m))
  ];
}

-- A standard descriptor replaced.
module _ (fds : Fds) (i o e : File) (x : List ℕ) (t : Table fds i o e x) (from : ℕ) (f : File)
    (h : fds from ≡ some f) where
  pub dup2-input : Table (dup2 fds from 0) f o e x
  dup2-input = rw (dup2-put fds from 0 f h) (record {
    input = put_same fds 0 (some f);
    output = put_other fds 0 1 (some f) (λ q. omega arith) ∙ t.output;
    error = put_other fds 0 2 (some f) (λ q. omega arith) ∙ t.error;
    others = λ a n m. put_other fds 0 a (some f) (λ q. omega arith) ∙ t.others a n m;
  })

  pub dup2-output : Table (dup2 fds from 1) i f e x
  dup2-output = rw (dup2-put fds from 1 f h) (record {
    input = put_other fds 1 0 (some f) (λ q. omega arith) ∙ t.input;
    output = put_same fds 1 (some f);
    error = put_other fds 1 2 (some f) (λ q. omega arith) ∙ t.error;
    others = λ a n m. put_other fds 1 a (some f) (λ q. omega arith) ∙ t.others a n m;
  })

  pub dup2-error : Table (dup2 fds from 2) i o f x
  dup2-error = rw (dup2-put fds from 2 f h) (record {
    input = put_other fds 2 0 (some f) (λ q. omega arith) ∙ t.input;
    output = put_other fds 2 1 (some f) (λ q. omega arith) ∙ t.output;
    error = put_same fds 2 (some f);
    others = λ a n m. put_other fds 2 a (some f) (λ q. omega arith) ∙ t.others a n m;
  })
