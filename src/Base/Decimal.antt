-- ===== src/Base/Decimal.antt =====
-- What the C library prints for `%d` of a number that is not negative.
use Prim.Native.Nat.{ℕ, zero, suc, ◌+◌, ◌-◌, ◌*◌, ◌/◌, ◌%◌, ◌≤◌, ◌<◌}
use mathlib.Core.Path.{◌≡◌, refl, ap, ◌∙◌}
use mathlib.Core.Logic.{◌≢◌, inl, inr}
use mathlib.Core.Bool.{true, false}
use mathlib.Core.List.{[], ◌∷◌, ◌++◌}
use native.Mathlib.Omega.{arith}
use neu_cs5600_cmpsys.Base.Tests.{ltb, ◌==◌, if◌then◌else◌, Bool-cases}
use neu_cs5600_cmpsys.Base.Lists.{length, length-append}
use neu_cs5600_cmpsys.Base.Int.{pos}
use neu_cs5600_cmpsys.Base.Bytes.{
  Bytes, NoNul, is_digit, digits_from, signed, isspace, skip_spaces, atoi,
}

-- A number has fewer digits than its successor counts, so that is enough fuel.
pub decimal_from : ℕ → ℕ → Bytes
decimal_from zero n = []
decimal_from (suc f) n =
    let front = decimal_from f (n / 10) in
    if ltb n 10 then (b'0' + n) ∷ [] else front ++ (b'0' + n % 10) ∷ []

pub decimal : ℕ → Bytes
unfolding decimal_from
decimal n = decimal_from (suc n) n

abbrev AreDigits : Bytes → Type 0
AreDigits [] = Unit
AreDigits (c ∷ s) = (is_digit c ≡ true) × AreDigits s

AreDigits-append : (s t : Bytes) → AreDigits s → AreDigits t → AreDigits (s ++ t)
AreDigits-append [] t a b = b
AreDigits-append (c ∷ s) t a b = (a.0, AreDigits-append s t a.1 b)

decimal_from-AreDigits : (f n : ℕ) → AreDigits (decimal_from f n)
unfolding decimal_from
decimal_from-AreDigits zero n = tt
decimal_from-AreDigits (suc f) n = elim (Bool-cases (ltb n 10)) [
  | inl small ↦ rw small (ground arith, tt)
  | inr large ↦ rw large (
      AreDigits-append (decimal_from f (n / 10)) ((b'0' + n % 10) ∷ [])
        (decimal_from-AreDigits f (n / 10)) (ground arith, tt))
]

-- A further digit at the end.
digits_from-append :
    (acc : ℕ) (s : Bytes) (d : ℕ)
    → AreDigits s
    → is_digit d ≡ true
    → digits_from acc (s ++ d ∷ []) ≡ digits_from acc s * 10 + (d - b'0')
unfolding digits_from
digits_from-append acc [] d a h = rw (h, digits_from) refl
digits_from-append acc (c ∷ s) d a h =
    rw (a.0, digits_from) (digits_from-append (acc * 10 + (c - b'0')) s d a.1 h)

digits_from-decimal_from : (f n : ℕ) → n < f → digits_from 0 (decimal_from f n) ≡ n
unfolding digits_from decimal_from
digits_from-decimal_from zero n h = absurd (omega arith)
digits_from-decimal_from (suc f) n h = elim (Bool-cases (ltb n 10)) [
  | inl small ↦ rw small (ground arith)
  | inr large ↦
      let e =
        digits_from-append 0 (decimal_from f (n / 10)) (b'0' + n % 10)
          (decimal_from-AreDigits f (n / 10)) (ground arith) in
      let i = digits_from-decimal_from f (n / 10) (ground arith) in
      rw large (e ∙ rw i (omega arith))
]

-- Digits are no spaces and no signs.
atoi-digits : (c : ℕ) (s : Bytes) → is_digit c ≡ true → atoi (c ∷ s) ≡ pos (digits_from 0 (c ∷ s))
unfolding atoi skip_spaces isspace signed
atoi-digits c s h =
    let a : isspace c ≡ false = ground arith in
    let m : (c == b'-') ≡ false = ground arith in
    let p : (c == b'+') ≡ false = ground arith in rw (a, skip_spaces, m, p, signed) refl

decimal_from-ne : (f n : ℕ) → decimal_from (suc f) n ≢ []
unfolding decimal_from
decimal_from-ne f n = elim (Bool-cases (ltb n 10)) [
  | inl small ↦ rw small (λ e. ground arith)
  | inr large ↦ rw large (append_ne (decimal_from f (n / 10)) (b'0' + n % 10))
]
  where
    append_ne : (s : Bytes) (d : ℕ) → s ++ d ∷ [] ≢ []
    append_ne [] d e = ground arith
    append_ne (c ∷ s) d e = ground arith

atoi_of_digits : (s : Bytes) → AreDigits s → s ≢ [] → atoi s ≡ pos (digits_from 0 s)
atoi_of_digits [] a n = absurd (n refl)
atoi_of_digits (c ∷ s) a n = atoi-digits c s a.0

-- `atoi` reads what `%d` printed.
pub atoi-decimal : (n : ℕ) → atoi (decimal n) ≡ pos n
unfolding decimal
atoi-decimal n =
    atoi_of_digits (decimal_from (suc n) n) (decimal_from-AreDigits (suc n) n) (decimal_from-ne n n)
    ∙ ap pos (digits_from-decimal_from (suc n) n (omega arith))

AreDigits-NoNul : (s : Bytes) → AreDigits s → NoNul s
AreDigits-NoNul [] a = tt
AreDigits-NoNul (c ∷ s) a = (ground arith, AreDigits-NoNul s a.1)

pub decimal-NoNul : (n : ℕ) → NoNul (decimal n)
unfolding decimal
decimal-NoNul n = AreDigits-NoNul (decimal_from (suc n) n) (decimal_from-AreDigits (suc n) n)

-- 10 to the power `k`
abbrev pub power_ten : ℕ → ℕ
power_ten zero = 1
power_ten (suc k) = power_ten k * 10

decimal_from-length : (f n k : ℕ) → n < power_ten (suc k) → length (decimal_from f n) ≤ suc k
unfolding decimal_from
decimal_from-length zero n k h = omega arith
decimal_from-length (suc f) n zero h =
    let small : ltb n 10 ≡ true = ground arith in rw small (omega arith)
decimal_from-length (suc f) n (suc k) h = elim (Bool-cases (ltb n 10)) [
  | inl small ↦ rw small (omega arith)
  | inr large ↦
      let i = decimal_from-length f (n / 10) k (omega arith) in
      rw large (omega (arith, length-append (decimal_from f (n / 10)) ((b'0' + n % 10) ∷ [])))
]

-- A number below a power of ten has no more digits than the exponent.
pub decimal-length : (n k : ℕ) → n < power_ten (suc k) → length (decimal n) ≤ suc k
unfolding decimal
decimal-length n k h = decimal_from-length (suc n) n k h
