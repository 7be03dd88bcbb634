-- ===== src/Fs/Dir/Search.antt =====
-- The search through the entries of a directory block (lab4/fs5600.c).
use neu_cs5600_cmpsys.Base.{
  ℕ, zero, suc, ◌+◌, ◌≤◌, ◌<◌, ◌≡◌, ◌≢◌, refl, sym, ap, ◌∙◌, inl, inr, Bool, true, false, none,
  some, arith, Bool-cases, ℕ_discrete,
}
use neu_cs5600_cmpsys.Fs.Dir.{search_from}

-- Only the tests of the entries in range count.
pub search_from-ext :
    (p q : ℕ → Bool) (k n : ℕ)
    → ((j : ℕ) → k ≤ j → j < k + n → p j ≡ q j)
    → search_from p k n ≡ search_from q k n
unfolding search_from
search_from-ext p q k zero h = refl
search_from-ext p q k (suc n) h =
    let here : p k ≡ q k = h k (omega arith) (omega arith) in
    let rest : search_from p (k + 1) n ≡ search_from q (k + 1) n =
      search_from-ext p q (k + 1) n (λ j a b. h j (omega arith) (omega arith)) in
    ground arith

pub search_from-none :
    (p : ℕ → Bool) (k n : ℕ) → search_from p k n ≡ none → (j : ℕ) → k ≤ j → j < k + n → p j ≡ false
unfolding search_from
search_from-none p k zero e j a b = absurd (omega arith)
search_from-none p k (suc n) e j a b = elim (Bool-cases (p k)) [
  | inl t ↦ absurd (ground arith)
  | inr f ↦ elim (ℕ_discrete k j) [
    | yes same ↦ ap p (sym same) ∙ f
    | no other ↦ search_from-none p (k + 1) n (ground arith) j (omega arith) (omega arith)
  ]
]

pub search_from-some :
    (p : ℕ → Bool) (k n j : ℕ) → search_from p k n ≡ some j → (p j ≡ true) × (k ≤ j) × (j < k + n)
unfolding search_from
search_from-some p k zero j e = absurd (ground arith)
search_from-some p k (suc n) j e = elim (Bool-cases (p k)) [
  | inl t ↦ let same : k ≡ j = ground arith in (ap p (sym same) ∙ t, omega arith, omega arith)
  | inr f ↦
      let (t, a, b) = search_from-some p (k + 1) n j (ground arith) in
      (t, omega (arith, a), omega (arith, b))
]

-- A search that only one entry in range passes finds it.
pub search_from-only :
    (p : ℕ → Bool) (k n j : ℕ)
    → p j ≡ true
    → ((i : ℕ) → k ≤ i → i < k + n → i ≢ j → p i ≡ false)
    → k ≤ j
    → j < k + n
    → search_from p k n ≡ some j
unfolding search_from
search_from-only p k zero j t h a b = absurd (omega arith)
search_from-only p k (suc n) j t h a b = elim (ℕ_discrete k j) [
  | yes same ↦ rw same (rw (t, search_from) refl)
  | no other ↦
      rw (h k (omega arith) (omega arith) other, search_from)
        (search_from-only p (k + 1) n j t (λ i c d. h i (omega arith) (omega arith)) (omega arith)
          (omega arith))
]

pub search_from-all :
    (p : ℕ → Bool) (k n : ℕ)
    → ((j : ℕ) → k ≤ j → j < k + n → p j ≡ false)
    → search_from p k n ≡ none
unfolding search_from
search_from-all p k zero h = refl
search_from-all p k (suc n) h =
    rw (h k (omega arith) (omega arith), search_from)
      (search_from-all p (k + 1) n (λ j a b. h j (omega arith) (omega arith)))
