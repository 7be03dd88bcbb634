-- ===== src/Caesar/Tests.antt =====
-- Concrete runs of the cipher (lab1/caesar.c).
use neu_cs5600_cmpsys.Base.{◌≡◌, refl, ◌∷◌, ◌++◌, none, some, arith}
use neu_cs5600_cmpsys.Base.Bytes.{codes}
use neu_cs5600_cmpsys.Base.Int.{pos}
use neu_cs5600_cmpsys.Caesar.{
  digit, lower, upper, kind, illchar, Coded, encode, decode, encode_from,
}
use neu_cs5600_cmpsys.Caesar.Text.{IsLegal, decode-encode, encode_illegal}

mixed-IsLegal : IsLegal (codes "xYz9")
mixed-IsLegal = (
  (lower, omega arith),
  ((upper, omega arith), ((lower, omega arith), ((digit, omega arith), tt))),
)

encodes :
    encode (codes "xYz9") (pos 3) ≡ some (record { returned = codes "aBc2"; buffer = codes "aBc2" })
unfolding encode encode_from kind
encodes = refl

decode-encode_example :
    (e : Coded) × (encode (codes "xYz9") (pos 3) ≡ some e)
    × (decode e.returned (pos 3) ≡ some (record { returned = codes "xYz9"; buffer = codes "xYz9" }))
decode-encode_example = decode-encode 3 (codes "xYz9") mixed-IsLegal (omega arith)

-- A key for which the sum overflows.
overflows : encode (codes "b") (pos 2147483647) ≡ none
unfolding encode encode_from kind
overflows = refl

encode_illegal_example :
    encode (codes "xYz9" ++ b'!' ∷ codes "ab") (pos 3)
    ≡ some (record { returned = illchar; buffer = codes "aBc2!ab" })
unfolding kind encode encode_from
encode_illegal_example = encode_illegal (pos 3) (codes "xYz9") b'!' (codes "ab") mixed-IsLegal refl
