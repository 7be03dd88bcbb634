-- ===== src/Server/Wire.antt =====
-- The bytes of a request on the socket (lab3/lab3.h), and the server's answer as bytes
-- (lab3/worker.c). `none` stands for undefined behaviour, as in Server.
use neu_cs5600_cmpsys.Base.{
  ℕ, suc, ◌≡◌, ◌<◌, refl, sym, ap, ◌∙◌, Bool, false, List, [], ◌∷◌, ◌++◌, Option, none, some, arith,
  ltb, ◌==◌, if◌then◌else◌, length, length-append, length-drop, take, drop,
}
use neu_cs5600_cmpsys.Base.Bytes.{Bytes, NoNul, c_string}
use neu_cs5600_cmpsys.Base.Decimal.{decimal}
use neu_cs5600_cmpsys.Base.Chain.{◌>>=◌}
use neu_cs5600_cmpsys.Server.{
  Request, Server, Response, answers, quits, Read, failed, received, dispatch,
}

-- `struct request`: `char op_status`, `char name[31]`, `char len[8]`.
pub record Struct : Type 0 where
  pub op_status : ℕ
  pub name : Bytes
  pub len : Bytes

abbrev pub name_size : ℕ
name_size = 31

abbrev pub len_size : ℕ
len_size = 8

-- `sizeof(struct request)`
abbrev pub rq_size : ℕ
rq_size = 40

abbrev pub image : Struct → Bytes
image rq = rq.op_status ∷ (rq.name ++ rq.len)

unfoldable pub struct_of : Bytes → Struct
struct_of [] = record { op_status = 0; name = []; len = [] }
struct_of (c ∷ s) = record { op_status = c; name = take name_size s; len = drop name_size s }

-- A string and its NUL, written to the start of an array.
abbrev pub put_string : Bytes → Bytes → Bytes
put_string text arr = text ++ 0 ∷ drop (suc (length text)) arr

-- `sprintf(rq.len, "%d", n)`; digits that do not fit are a write behind the array.
unfoldable pub sprintf_len : Struct → ℕ → Option Struct
sprintf_len rq n =
    if ltb (length (decimal n)) len_size
    then some (record rq { len = put_string (decimal n) rq.len })
    else none

-- The strings that the server reads.
abbrev pub request_of : Struct → Request
request_of rq = record { op_status = rq.op_status; name = c_string rq.name; len = c_string rq.len }

-- The struct is sent back with a new status; a success has the length of what follows it.
unfoldable pub reply_bytes : Struct → Response → Option Bytes
unfolding sprintf_len
reply_bytes rq r =
    if r.status == b'K'
    then (sprintf_len (record rq { op_status = r.status }) (length r.payload) >>= λ rq'.
        some (image rq' ++ r.payload))
    else some (image (record rq { op_status = r.status }))

-- The struct after a `read` into it, and the test of what the `read` returned.
abbrev pub struct_after : Struct → Read → Struct
struct_after rq failed = rq
struct_after rq (received text) = struct_of (text ++ drop (length text) (image rq))

abbrev pub is_whole : Read → Bool
is_whole failed = false
is_whole (received text) = length text == rq_size

-- What `dispatch` writes on the socket with this struct, read whole or not; Q ends the process.
unfoldable pub serve_as :
    Server → Struct → Bool → Bytes → List Read → Option (Bytes × Option Server)
unfolding reply_bytes
serve_as s rq whole buf reads =
    dispatch s (if whole then some (request_of rq) else none) buf reads >>= λ o. elim o [
      | answers r s' ↦ (reply_bytes rq r >>= λ bytes. some (bytes, some s'))
      | quits ↦ some ([], none)
    ]

-- `dispatch` on a socket: the first `read`, what stood in the struct before it, and the array and
-- the `read`s of `handle_write`.
unfoldable pub serve : Server → Struct → Read → Bytes → List Read → Option (Bytes × Option Server)
unfolding serve_as struct_of
serve s rq₀ first buf reads = serve_as s (struct_after rq₀ first) (is_whole first) buf reads

split_append :
    (a b : Bytes)
    → ◌≡◌ {A = Bytes × Bytes} (take (length a) (a ++ b), drop (length a) (a ++ b)) (a, b)
split_append [] b = refl
split_append (c ∷ a) b = ap (λ (p : Bytes × Bytes). (c ∷ p.0, p.1)) (split_append a b)

-- What is sent is read back as the same struct.
pub struct_of-image : (rq : Struct) → length rq.name ≡ name_size → struct_of (image rq) ≡ rq
unfolding struct_of
struct_of-image rq h =
    ap (λ (p : Bytes × Bytes). record { op_status = rq.op_status; name = p.0; len = p.1 })
      (rw (sym h) (split_append rq.name rq.len))

pub c_string-put_string : (text arr : Bytes) → NoNul text → c_string (put_string text arr) ≡ text
unfolding c_string
c_string-put_string text arr h = c_string_nul text (drop (suc (length text)) arr) h
  where
    c_string_nul : (text rest : Bytes) → NoNul text → c_string (text ++ 0 ∷ rest) ≡ text
    c_string_nul [] rest h = refl
    c_string_nul (c ∷ text) rest h = ground (arith, c_string_nul text rest h.1, h.0)

pub length-put_string :
    (text arr : Bytes) → length text < length arr → length (put_string text arr) ≡ length arr
length-put_string text arr h =
    length-append text (0 ∷ drop (suc (length text)) arr)
    ∙ omega (arith, length-drop (suc (length text)) arr)
