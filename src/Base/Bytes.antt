-- ===== src/Base/Bytes.antt =====
-- Byte strings without the terminating NUL, and the C library's functions on them.
use Prim.Native.Char.{code}
use Prim.Native.String.{String}
use neu_cs5600_cmpsys.Base.Tests.{◌==◌, leb, if◌then◌else◌}
use neu_cs5600_cmpsys.Base.Int.{ℤ, pos, sub_ℕ}
use mathlib.Core.Path.{◌≡◌, refl}
use mathlib.Core.Logic.{◌≢◌, ◌↔◌}
use mathlib.Core.Bool.{Bool, true, false, ◌&&◌, ◌||◌}
use mathlib.Core.List.{List, [], ◌∷◌}
use Prim.Native.Nat.{ℕ, ◌+◌, ◌-◌, ◌*◌}
use native.Mathlib.Omega.{arith}

abbrev pub Bytes : Type 0
Bytes = List ℕ

-- The bytes of an ASCII text.
abbrev pub codes : String → Bytes
codes String.[] = []
codes (String.◌∷◌ c s) = code c ∷ codes s

-- `strcmp(a, b) == 0`
unfoldable pub streq : Bytes → Bytes → Bool
streq [] [] = true
streq [] (y ∷ b) = false
streq (x ∷ a) [] = false
streq (x ∷ a) (y ∷ b) = x == y && streq a b

pub streq_iff : (a b : Bytes) → (streq a b ≡ true) ↔ (a ≡ b)
unfolding streq
streq_iff [] [] = ground arith
streq_iff [] (y ∷ b) = ground arith
streq_iff (x ∷ a) [] = ground arith
streq_iff (x ∷ a) (y ∷ b) = ground (arith, streq_iff a b)

pub streq_refl : (a : Bytes) → streq a a ≡ true
streq_refl a = (streq_iff a a).1 refl

abbrev is_space : ℕ → Bool
is_space c = c == b' ' || (leb 9 c && leb c 13)

abbrev pub is_digit : ℕ → Bool
is_digit c = leb b'0' c && leb c b'9'

-- `isspace` in the C locale
unfoldable pub isspace : ℕ → Bool
isspace c = is_space c

unfoldable pub digits_from : ℕ → Bytes → ℕ
digits_from n [] = n
digits_from n (c ∷ s) = elim (is_digit c) [ true ↦ digits_from (n * 10 + (c - b'0')) s | false ↦ n ]

-- What follows the spaces: a sign or none, then digits, up to the first other byte.
unfoldable pub signed : Bytes → ℤ
signed [] = pos 0
signed (c ∷ s) =
    if c == b'-'
    then sub_ℕ 0 (digits_from 0 s)
    else pos (digits_from 0 (if c == b'+' then s else c ∷ s))

unfoldable pub skip_spaces : Bytes → Bytes
skip_spaces [] = []
skip_spaces (c ∷ s) = if isspace c then skip_spaces s else c ∷ s

-- `atoi`, and `strtol` in base 10. Of a number out of range nothing is said: the two differ there.
unfoldable pub atoi : Bytes → ℤ
unfolding digits_from signed skip_spaces isspace
atoi s = signed (skip_spaces s)

-- The string that begins at the start of a buffer.
unfoldable pub c_string : Bytes → Bytes
c_string [] = []
c_string (c ∷ buf) = if c == 0 then [] else c ∷ c_string buf

-- No NUL in the text.
abbrev pub NoNul : Bytes → Type 0
NoNul [] = Unit
NoNul (c ∷ s) = (c ≢ 0) × NoNul s
