-- ===== src/Fs/Bitmap/Bits.antt =====
-- A bit that is set or cleared, and every other bit as it was, for maps of bytes.
use Prim.Native.Nat.{bit_and, bit_or}
use neu_cs5600_cmpsys.Base.{
  ℕ, zero, suc, ◌-◌, ◌/◌, ◌%◌, ◌^◌, ◌<◌, ◌≡◌, refl, ◌∙◌, Bool, true, false, not, ◌&&◌, ◌==◌, ltb,
  ltb→lt, if◌then◌else◌, get_or, get_or-set, get_or-replicate_lt, replicate, length, arith,
  length-set, Bool-cases, if_ind, inl, inr,
}
use neu_cs5600_cmpsys.Base.Bytes.{Bytes}
use neu_cs5600_cmpsys.Fs.Bitmap.{mask, bit_set, bit_clear, bit_test}

-- The test passes at every number under the bound.
passes : (ℕ → Bool) → ℕ → Bool
passes test zero = true
passes test (suc bound) = if test bound then passes test bound else false

at_each :
    (test : ℕ → Bool) {bound : ℕ} (k : ℕ) → k < bound → passes test bound ≡ true → test k ≡ true
unfolding passes
at_each test {bound = zero} k below all = absurd (omega arith)
at_each test {bound = suc bound} k below all = elim (Bool-cases (k == bound)) [
  | inl here ↦ let e : k ≡ bound = ground arith in rw e (ground arith)
  | inr lower ↦ at_each test {bound = bound} k (ground arith) (ground arith)
]

abbrev same : Bool → Bool → Bool
same true b = b
same false b = not b

same_iff : (a b : Bool) → same a b ≡ true → a ≡ b
same_iff true true e = refl
same_iff true false e = ground arith
same_iff false true e = ground arith
same_iff false false e = refl

-- The bit `k` of a byte.
abbrev pub bit : ℕ → ℕ → Bool
bit x k = not (bit_and x (2 ^ k) == 0)

abbrev set_ok : ℕ → ℕ → ℕ → Bool
set_ok x k j =
    ltb (bit_or x (2 ^ k)) 256 && same (bit (bit_or x (2 ^ k)) j) (if k == j then true else bit x j)

abbrev clear_ok : ℕ → ℕ → ℕ → Bool
clear_ok x k j =
    ltb (bit_and x (255 - 2 ^ k)) 256
    && same (bit (bit_and x (255 - 2 ^ k)) j) (if k == j then false else bit x j)

set_table : passes (λ x. passes (λ k. passes (λ j. set_ok x k j) 8) 8) 256 ≡ true
unfolding passes
set_table = refl

clear_table : passes (λ x. passes (λ k. passes (λ j. clear_ok x k j) 8) 8) 256 ≡ true
unfolding passes
clear_table = refl

at_table :
    (p : ℕ → ℕ → ℕ → Bool) (x k j : ℕ)
    → passes (λ x. passes (λ k. passes (λ j. p x k j) 8) 8) 256 ≡ true
    → x < 256
    → k < 8
    → j < 8
    → p x k j ≡ true
at_table p x k j h hx hk hj =
    let hx' = at_each (λ x. passes (λ k. passes (λ j. p x k j) 8) 8) x hx h in
    let hk' = at_each (λ k. passes (λ j. p x k j) 8) k hk hx' in at_each (λ j. p x k j) j hj hk'

and_right : (a b : Bool) → (a && b) ≡ true → b ≡ true
and_right true b e = e
and_right false b e = ground arith

and_left : (a b : Bool) → (a && b) ≡ true → a ≡ true
and_left true b e = refl
and_left false b e = e

module _ (x k j : ℕ) (hx : x < 256) (hk : k < 8) (hj : j < 8) where
  pub bit-bit_or : bit (bit_or x (2 ^ k)) j ≡ (if k == j then true else bit x j)
  bit-bit_or = same_iff _ _ (and_right _ _ (at_table set_ok x k j set_table hx hk hj))

  pub bit-bit_and : bit (bit_and x (255 - 2 ^ k)) j ≡ (if k == j then false else bit x j)
  bit-bit_and = same_iff _ _ (and_right _ _ (at_table clear_ok x k j clear_table hx hk hj))

  pub bit_or-lt : bit_or x (2 ^ k) < 256
  bit_or-lt = ltb→lt _ _ (and_left _ _ (at_table set_ok x k j set_table hx hk hj))

  pub bit_and-lt : bit_and x (255 - 2 ^ k) < 256
  bit_and-lt = ltb→lt _ _ (and_left _ _ (at_table clear_ok x k j clear_table hx hk hj))

-- A map whose elements are bytes.
abbrev pub IsMap : Bytes → Type 0
IsMap map = (i : ℕ) → get_or map i 0 < 256

place_eq : (i j : ℕ) → i / 8 ≡ j / 8 → (i % 8 == j % 8) ≡ (i == j)
place_eq i j e = ground arith

module _ (map : Bytes) (bytes : IsMap map) (i : ℕ) (inside : i / 8 < length map) where
  -- After `bit_set` the bit is set, and every other bit is as it was.
  pub bit_test-bit_set :
      (j : ℕ) → bit_test (bit_set map i) j ≡ (if i == j then true else bit_test map j)
  unfolding bit_test bit_set
  bit_test-bit_set j =
      let x : ℕ = get_or map (i / 8) 0 in
      rw (get_or-set map (i / 8) (j / 8) (bit_or x (mask i)) 0 inside)
        (elim (Bool-cases (i / 8 == j / 8)) [
          | inl e ↦
              let p : i / 8 ≡ j / 8 = ground arith in
              rw e (
                bit-bit_or x (i % 8) (j % 8) (bytes (i / 8)) (omega arith) (omega arith)
                ∙ rw (place_eq i j p, p) refl)
          | inr e ↦ let q : (i == j) ≡ false = ground arith in rw (e, q) refl
        ])

  -- After `bit_clear` the bit is clear, and every other bit is as it was.
  pub bit_test-bit_clear :
      (j : ℕ) → bit_test (bit_clear map i) j ≡ (if i == j then false else bit_test map j)
  unfolding bit_test bit_clear
  bit_test-bit_clear j =
      let x : ℕ = get_or map (i / 8) 0 in
      rw (get_or-set map (i / 8) (j / 8) (bit_and x (255 - mask i)) 0 inside)
        (elim (Bool-cases (i / 8 == j / 8)) [
          | inl e ↦
              let p : i / 8 ≡ j / 8 = ground arith in
              rw e (
                bit-bit_and x (i % 8) (j % 8) (bytes (i / 8)) (omega arith) (omega arith)
                ∙ rw (place_eq i j p, p) refl)
          | inr e ↦ let q : (i == j) ≡ false = ground arith in rw (e, q) refl
        ])

  pub bit_set-IsMap : IsMap (bit_set map i)
  unfolding bit_set
  bit_set-IsMap j =
      rw (get_or-set map (i / 8) j (bit_or (get_or map (i / 8) 0) (mask i)) 0 inside) (
        if_ind (λ (x : ℕ). x < 256) (i / 8 == j) _ _
          (λ _.
            bit_or-lt (get_or map (i / 8) 0) (i % 8) 0 (bytes (i / 8)) (omega arith) (omega arith))
          (λ _. bytes j))

  pub bit_clear-IsMap : IsMap (bit_clear map i)
  unfolding bit_clear
  bit_clear-IsMap j =
      rw (get_or-set map (i / 8) j (bit_and (get_or map (i / 8) 0) (255 - mask i)) 0 inside) (
        if_ind (λ (x : ℕ). x < 256) (i / 8 == j) _ _
          (λ _.
            bit_and-lt (get_or map (i / 8) 0) (i % 8) 0 (bytes (i / 8)) (omega arith) (omega arith))
          (λ _. bytes j))

pub length-bit_clear : (map : Bytes) (i : ℕ) → length (bit_clear map i) ≡ length map
unfolding bit_clear
length-bit_clear map i = length-set map (i / 8) _

full_byte : passes (λ k. bit 255 k) 8 ≡ true
unfolding passes
full_byte = refl

-- A map of full bytes has every bit set.
pub bit_test-replicate : (n j : ℕ) → j / 8 < n → bit_test (replicate n 255) j ≡ true
unfolding bit_test
bit_test-replicate n j h =
    rw (get_or-replicate_lt {A = ℕ} n (j / 8) 255 0 h)
      (at_each (λ k. bit 255 k) (j % 8) (omega arith) full_byte)
