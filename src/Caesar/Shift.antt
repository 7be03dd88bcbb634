-- ===== src/Caesar/Shift.antt =====
-- One character through the cipher (lab1/caesar.c): the loop of `decode` ends, and undoes the shift
-- of `encode`, where no sum overflows.
use neu_cs5600_cmpsys.Base.{
  ℕ, zero, suc, ◌+◌, ◌-◌, ◌*◌, ◌%◌, ◌≤◌, ◌<◌, ◌≡◌, refl, ap, some, leb, arith, Bool, true, false,
}
use neu_cs5600_cmpsys.Base.Int.{
  ℤ, pos, negsuc, pos_part, neg_part, int, int_max, int-some, ◌+ℤ◌, ◌-ℤ◌, +ℤ_parts, -ℤ_parts,
}
use neu_cs5600_cmpsys.Caesar.{
  Kind, digit, lower, upper, illegal, kind, first, base, rem_from, encode_char, raise, decode_char,
}

-- The range of a kind that the code shifts.
abbrev pub InRange : Kind → ℕ → Type 0
InRange illegal c = ⊥
InRange k c = (first k ≤ c) × (c < first k + base k)

pub kind-InRange : (c : ℕ) (k : Kind) → InRange k c → kind c ≡ k
unfolding kind
kind-InRange c digit h = ground arith
kind-InRange c lower h = ground arith
kind-InRange c upper h = ground arith
kind-InRange c illegal h = absurd h

abbrev pub is_legal : Kind → Bool
is_legal illegal = false
is_legal _ = true

pub InRange-kind : (c : ℕ) (k : Kind) → kind c ≡ k → is_legal k ≡ true → InRange k c
unfolding kind
InRange-kind c digit e l = ground arith
InRange-kind c lower e l = ground arith
InRange-kind c upper e l = ground arith
InRange-kind c illegal e l = cc

-- The value that the loop of `decode` ends with: the start, raised by a multiple of the base.
record Raised (b : ℕ) (z : ℤ) (y : ℕ) : Type 0 where
  rounds : ℕ
  total : y + neg_part z ≡ pos_part z + rounds * b

-- The sum of `c` and the base stays an int: before a round `c` is below `k`, which is the key and
-- the first character of the range.
raise-Raised :
    (f b c k : ℕ) (z : ℤ)
    → 0 < b
    → neg_part z ≤ f
    → c + neg_part z ≤ pos_part z + k
    → k + b ≤ int_max + 1
    → (y : ℕ) × (raise f b c z ≡ some y) × Raised b z y
unfolding raise ◌+ℤ◌
raise-Raised f b c k (pos x) h g l m = (x, refl, record { rounds = 0; total = omega arith })
raise-Raised zero b c k (negsuc x) h g l m = absurd (omega arith)
raise-Raised (suc f) b c k (negsuc x) h g l m =
    let room : leb (c + b) int_max ≡ true = ground arith in
    let (y, e, r) =
      raise-Raised f b (c + b) k (negsuc x +ℤ pos b) h (ground arith) (ground arith) m in
    (
      y,
      rw (room, raise) e,
      record { rounds = suc r.rounds; total = omega (arith, r.total, +ℤ_parts (negsuc x) (pos b)) },
    )

-- A key that is far enough from the ends of an int for no sum to overflow: 122 is the code of `z`.
abbrev pub IsSafe : ℤ → Type 0
IsSafe key = pos_part key + neg_part key + 122 ≤ int_max

in_bounds :
    (c : ℕ) (k : Kind)
    → InRange k c
    → (0 < base k)
      × (c < first k + base k)
      × (first k ≤ c)
      × (first k + base k ≤ 123)
      × (base k ≤ 26)
in_bounds c digit h = omega arith
in_bounds c lower h = omega arith
in_bounds c upper h = omega arith
in_bounds c illegal h = absurd h

encode_int :
    (key : ℤ) (k : Kind) (c : ℕ)
    → InRange k c
    → IsSafe key
    → int (pos (c - first k) +ℤ key) ≡ some (pos (c - first k) +ℤ key)
encode_int key k c h s =
    let b = in_bounds c k h in
    int-some (pos (c - first k) +ℤ key) (sum_pos (c - first k) key (omega (arith, b)) s)
      (sum_neg (c - first k) key s)
  where
    sum_pos : (x : ℕ) (z : ℤ) → x ≤ 25 → IsSafe z → pos_part (pos x +ℤ z) ≤ int_max
    sum_pos x z l m = unfold ◌+ℤ◌ in ground arith

    sum_neg : (x : ℕ) (z : ℤ) → IsSafe z → neg_part (pos x +ℤ z) ≤ int_max
    sum_neg x z m = unfold ◌+ℤ◌ in ground arith

decode_int :
    (key : ℤ) (k : Kind) (c : ℕ)
    → InRange k c
    → IsSafe key
    → int (pos (c - first k) -ℤ key) ≡ some (pos (c - first k) -ℤ key)
decode_int key k c h s =
    let b = in_bounds c k h in
    int-some (pos (c - first k) -ℤ key) (difference_pos (c - first k) key (omega (arith, b)) s)
      (difference_neg (c - first k) key s)
  where
    difference_pos : (x : ℕ) (z : ℤ) → x ≤ 25 → IsSafe z → pos_part (pos x -ℤ z) ≤ int_max
    difference_pos x z l m = unfold ◌-ℤ◌ in ground arith

    difference_neg : (x : ℕ) (z : ℤ) → IsSafe z → neg_part (pos x -ℤ z) ≤ int_max
    difference_neg x z m = unfold ◌-ℤ◌ in ground arith

-- The loop of `decode` on a character of a range.
raised :
    (key : ℤ) (k : Kind) (c : ℕ) (z : ℤ)
    → InRange k c
    → IsSafe key
    → z ≡ pos (c - first k) -ℤ key
    → (y : ℕ) × (raise (neg_part z) (base k) c z ≡ some y) × Raised (base k) z y
raised key k c z h s e =
    let b = in_bounds c k h in
    let parts = -ℤ_parts (pos (c - first k)) key in
    let l : c + neg_part z ≤ pos_part z + (first k + pos_part key) =
      rw e (omega (arith, b, parts)) in
    raise-Raised (neg_part z) (base k) c (first k + pos_part key) z b.0 (omega arith) l
      (omega (arith, b))

-- No sum of `encode` overflows for a safe key, nor does one of `decode`, whose loop ends; what it
-- leaves is the character less the key, up to a multiple of the base.
pub encode_char_total :
    (key : ℤ) (k : Kind) (c : ℕ)
    → InRange k c
    → IsSafe key
    → (d : ℕ) × (encode_char key k c ≡ some d)
unfolding encode_char
encode_char_total key k c h s =
    (rem_from (pos (c - first k) +ℤ key) (base k) (first k), rw (encode_int key k c h s) refl)

pub decode_char_total :
    (key : ℤ) (k : Kind) (c : ℕ)
    → InRange k c
    → IsSafe key
    → (d : ℕ) × (decode_char key k c ≡ some d)
unfolding decode_char
decode_char_total key k c h s =
    let (y, e, r) = raised key k c (pos (c - first k) -ℤ key) h s refl in
    (y % base k + first k, rw (decode_int key k c h s, e) refl)

-- The character that `encode` writes for a key that is not negative.
abbrev pub shifted : ℕ → Kind → ℕ → ℕ
shifted n k c = (c - first k + n) % base k + first k

pub shifted-InRange : (n : ℕ) (k : Kind) (c : ℕ) → InRange k c → InRange k (shifted n k c)
shifted-InRange n digit c h = omega arith
shifted-InRange n lower c h = omega arith
shifted-InRange n upper c h = omega arith
shifted-InRange n illegal c h = h

pub encode_char-shifted :
    (n : ℕ) (k : Kind) (c : ℕ)
    → InRange k c
    → IsSafe (pos n)
    → encode_char (pos n) k c ≡ some (shifted n k c)
unfolding encode_char
encode_char-shifted n k c h s =
    rw (encode_int (pos n) k c h s) (unfold ◌+ℤ◌ rem_from in ground arith)

-- What the loop leaves of a shifted character, at a base and a first character.
back :
    (b f c n e y : ℕ) (z : ℤ)
    → Raised b z y
    → e ≡ (c - f + n) % b + f
    → pos_part z + n ≡ neg_part z + (e - f)
    → (m : ℕ) × (y + n ≡ (c - f + n) % b + m * b)
back b f c n e y z r s t = (r.rounds, omega (arith, r.total))

undo :
    (n : ℕ) (k : Kind) (c : ℕ)
    → InRange k c
    → IsSafe (pos n)
    → ((m y : ℕ) → y + n ≡ (c - first k + n) % base k + m * base k → y % base k + first k ≡ c)
    → decode_char (pos n) k (shifted n k c) ≡ some c
unfolding decode_char
undo n k c h s same =
    let e : ℕ = shifted n k c in
    let z : ℤ = pos (e - first k) -ℤ pos n in
    let range = shifted-InRange n k c h in
    let (y, run, r) = raised (pos n) k e z range s refl in
    let (m, q) =
      back (base k) (first k) c n e y z r refl
        (omega (arith, -ℤ_parts (pos (e - first k)) (pos n))) in
    rw (decode_int (pos n) k e range s, run) (ap (λ (x : ℕ). some x) (same m y q))

-- Decoding undoes encoding on a character of its range, for a safe key that is not negative.
pub decode_char-shifted :
    (n : ℕ) (k : Kind) (c : ℕ)
    → InRange k c
    → IsSafe (pos n)
    → decode_char (pos n) k (shifted n k c) ≡ some c
decode_char-shifted n digit c h s = undo n digit c h s λ m y e. omega arith
decode_char-shifted n lower c h s = undo n lower c h s λ m y e. omega arith
decode_char-shifted n upper c h s = undo n upper c h s λ m y e. omega arith
decode_char-shifted n illegal c h s = absurd h
