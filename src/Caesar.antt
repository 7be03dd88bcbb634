-- ===== src/Caesar.antt =====
-- The Caesar cipher of lab1 (lab1/caesar.c). Both functions work in place and return the buffer, or
-- the text ILLCHAR when they meet a character that is neither a digit nor a letter; the buffer is
-- then changed up to that character. `none` stands for a sum that overflows an int, which C leaves
-- undefined, and for fuel that has run out.
pub mod Shift
pub mod Text
mod Tests
use neu_cs5600_cmpsys.Base.{
  ℕ, zero, suc, ◌+◌, ◌-◌, ◌%◌, Bool, true, false, ◌&&◌, [], ◌∷◌, Option, none, some, leb,
  if◌then◌else◌,
}
use neu_cs5600_cmpsys.Base.Bytes.{Bytes, codes}
use neu_cs5600_cmpsys.Base.Chain.{◌>>=◌}
use neu_cs5600_cmpsys.Base.Int.{ℤ, pos, negsuc, neg_part, int, int_max, ◌+ℤ◌, ◌-ℤ◌}

-- The ranges that the code tells apart, with the first character and the size of each.
pub data Kind : Type 0 where
  digit lower upper illegal : Kind

unfoldable pub kind : ℕ → Kind
kind c =
    if leb b'0' c && leb c b'9'
    then digit
    else if leb b'a' c && leb c b'z'
    then lower
    else if leb b'A' c && leb c b'Z'
    then upper
    else illegal

abbrev pub first : Kind → ℕ
first digit = b'0'
first lower = b'a'
first upper = b'A'
first illegal = 0

abbrev pub base : Kind → ℕ
base digit = 10
base lower = 26
base upper = 26
base illegal = 1

-- `x % n + lo`: the remainder has the sign of `x`.
unfoldable pub rem_from : ℤ → ℕ → ℕ → ℕ
rem_from (pos x) n lo = x % n + lo
rem_from (negsuc x) n lo = lo - suc x % n

unfoldable pub encode_char : ℤ → Kind → ℕ → Option ℕ
unfolding rem_from int ◌+ℤ◌
encode_char key k c = do x ← int (pos (c - first k) +ℤ key); some (rem_from x (base k) (first k))

-- What a function returns, and what it leaves in the buffer.
pub record Coded : Type 0 where
  pub returned : Bytes
  pub buffer : Bytes

abbrev pub illchar : Bytes
illchar = codes "ILLCHAR"

-- One more character in front: it stays in front of what the buffer holds, and of what is returned
-- unless that is ILLCHAR, as the flag says.
pub record Rest : Type 0 where
  pub legal : Bool
  pub text : Bytes

unfoldable pub encode_from : ℤ → Bytes → Option Rest
unfolding encode_char
encode_from key [] = some (record { legal = true; text = [] })
encode_from key (c ∷ s) =
    let rest = encode_from key s in
    elim (kind c) [
      | illegal ↦ some (record { legal = false; text = c ∷ s })
      | k ↦ do x ← encode_char key k c; r ← rest; some (record r { text = x ∷ r.text })
    ]

abbrev pub coded : Rest → Coded
coded r = record { returned = if r.legal then r.text else illchar; buffer = r.text }

unfoldable pub encode : Bytes → ℤ → Option Coded
unfolding encode_from
encode plaintext key = do r ← encode_from key plaintext; some (coded r)

-- `while (c - lo - key < 0) c += n`, with fuel: `c`, and the value of `c - lo - key` beside it,
-- which is negative before each round.
pub raise : ℕ → ℕ → ℕ → ℤ → Option ℕ
unfolding ◌+ℤ◌
raise f n c (pos x) = some x
raise zero n c (negsuc x) = none
raise (suc f) n c (negsuc x) = elim (leb (c + n) int_max) [
  | false ↦ none
  | true ↦ raise f n (c + n) (negsuc x +ℤ pos n)
]

-- Each round adds at least one, so the number of units below zero is enough fuel.
pub decode_char : ℤ → Kind → ℕ → Option ℕ
unfolding raise int ◌-ℤ◌
decode_char key k c = do
  x ← int (pos (c - first k) -ℤ key)
  y ← raise (neg_part x) (base k) c x
  some (y % base k + first k)

pub decode_from : ℤ → Bytes → Option Rest
unfolding decode_char
decode_from key [] = some (record { legal = true; text = [] })
decode_from key (c ∷ s) =
    let rest = decode_from key s in
    elim (kind c) [
      | illegal ↦ some (record { legal = false; text = c ∷ s })
      | k ↦ do d ← decode_char key k c; r ← rest; some (record r { text = d ∷ r.text })
    ]

pub decode : Bytes → ℤ → Option Coded
unfolding decode_from
decode ciphertext key = do r ← decode_from key ciphertext; some (coded r)
