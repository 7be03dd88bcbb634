-- ===== src/Client/Calls.antt =====
-- The client's calls against the server (lab3/dbclient.c, lab3/worker.c): what a set stores, a get
-- prints.
use neu_cs5600_cmpsys.Base.{
  ℕ, zero, suc, ◌≡◌, ◌<◌, ◌≤◌, refl, sym, ap, ◌∙◌, true, false, List, [], ◌∷◌, ◌++◌, some, arith,
  ltb, lt→ltb, length, length-append, take, drop,
}
use mathlib.Core.List.{append-nil}
use neu_cs5600_cmpsys.Base.Bytes.{Bytes, NoNul, codes}
use neu_cs5600_cmpsys.Base.Decimal.{decimal, decimal-NoNul, decimal-length, power_ten}
use neu_cs5600_cmpsys.Server.{Server, Response, answers, Read, received, dispatch}
use neu_cs5600_cmpsys.Server.Wire.{
  Struct, name_size, len_size, rq_size, image, struct_of, put_string, sprintf_len, request_of,
  reply_bytes, struct_after, is_whole, serve_as, serve, struct_of-image, c_string-put_string,
  length-put_string,
}
use neu_cs5600_cmpsys.Client.{named, report, do_set}

-- The arrays have their sizes.
abbrev pub IsStruct : Struct → Type 0
IsStruct rq = (length rq.name ≡ name_size) × (length rq.len ≡ len_size)

length-image : (rq : Struct) → IsStruct rq → length (image rq) ≡ rq_size
length-image rq h = ap suc (length-append rq.name rq.len ∙ omega (arith, h.0, h.1))

drop_all : (s : Bytes) → drop (length s) s ≡ []
drop_all [] = refl
drop_all (c ∷ s) = drop_all s

-- A whole struct that is read takes the place of the one before.
pub struct_after-image :
    (rq rq' : Struct) → IsStruct rq → IsStruct rq' → struct_after rq (received (image rq')) ≡ rq'
struct_after-image rq rq' h h' =
    let e : length (image rq') ≡ length (image rq) =
      length-image rq' h' ∙ sym (length-image rq h) in
    ap (λ n. struct_of (image rq' ++ drop n (image rq))) e
    ∙ ap (λ t. struct_of (image rq' ++ t)) (drop_all (image rq))
    ∙ ap struct_of (append-nil (image rq'))
    ∙ struct_of-image rq' h'.0

-- The struct with its length field written.
abbrev pub sized : Struct → ℕ → Struct
sized rq n = record rq { len = put_string (decimal n) rq.len }

pub sprintf_len-some :
    (rq : Struct) (n : ℕ) → n < power_ten 7 → sprintf_len rq n ≡ some (sized rq n)
unfolding sprintf_len
sprintf_len-some rq n h =
    let e : ltb (length (decimal n)) len_size ≡ true =
      lt→ltb (length (decimal n)) len_size (omega (arith, decimal-length n 6 h)) in
    rw e refl

pub sized-IsStruct : (rq : Struct) (n : ℕ) → IsStruct rq → n < power_ten 7 → IsStruct (sized rq n)
sized-IsStruct rq n h f =
    (h.0, length-put_string (decimal n) rq.len (omega (arith, h.1, decimal-length n 6 f)) ∙ h.1)

take_short : (n : ℕ) (s : Bytes) → length s ≤ n → take n s ≡ s
take_short zero [] h = refl
take_short zero (c ∷ s) h = absurd (omega arith)
take_short (suc n) [] h = refl
take_short (suc n) (c ∷ s) h = ap (λ (t : Bytes). c ∷ t) (take_short n s (omega arith))

module _ (name : Bytes) (fits : length name < name_size) (clean : NoNul name) where
  pub named-IsStruct : (rq : Struct) (op : ℕ) → IsStruct rq → IsStruct (named rq op name)
  named-IsStruct rq op h =
      let e : take 30 name ≡ name = take_short 30 name (omega arith) in
      (rw e (length-put_string name rq.name (omega (arith, h.0)) ∙ h.0), h.1)

  -- The server reads the name and the length that the client wrote.
  pub request_of-sized :
      (rq : Struct) (op n : ℕ)
      → request_of (sized (named rq op name) n)
        ≡ record { op_status = op; name = name; len = decimal n }
  request_of-sized rq op n =
      let e : take 30 name ≡ name = take_short 30 name (omega arith) in
      rw
        (
          e,
          c_string-put_string name rq.name clean,
          c_string-put_string (decimal n) rq.len (decimal-NoNul n),
        )
        refl

serve_as_whole :
    (s s' : Server) (rq : Struct) (buf bytes : Bytes) (reads : List Read) (r : Response)
    → IsStruct rq
    → dispatch s (some (request_of rq)) buf reads ≡ some (answers r s')
    → reply_bytes rq r ≡ some bytes
    → serve_as s rq (is_whole (received (image rq))) buf reads ≡ some (bytes, some s')
unfolding serve_as
serve_as_whole s s' rq buf bytes reads r h run e =
    let whole : is_whole (received (image rq)) ≡ true = ground (arith, length-image rq h) in
    rw (whole, run, e) refl

-- A whole request that is answered.
pub serve_whole :
    (s s' : Server) (rq rq₀ : Struct) (buf bytes : Bytes) (reads : List Read) (r : Response)
    → IsStruct rq
    → IsStruct rq₀
    → dispatch s (some (request_of rq)) buf reads ≡ some (answers r s')
    → reply_bytes rq r ≡ some bytes
    → serve s rq₀ (received (image rq)) buf reads ≡ some (bytes, some s')
unfolding serve
serve_whole s s' rq rq₀ buf bytes reads r h h₀ run e =
    ap (λ q. serve_as s q (is_whole (received (image rq))) buf reads)
      (struct_after-image rq₀ rq h₀ h)
    ∙ serve_as_whole s s' rq buf bytes reads r h run e

pub reply_bytes_okay :
    (rq : Struct) (payload : Bytes)
    → length payload < power_ten 7
    → reply_bytes rq (record { status = b'K'; payload = payload })
      ≡ some (image (sized (record rq { op_status = b'K' }) (length payload)) ++ payload)
unfolding reply_bytes
reply_bytes_okay rq payload h =
    rw (sprintf_len-some (record rq { op_status = b'K' }) (length payload) h) refl

pub image_whole : (rq : Struct) → IsStruct rq → ltb (length (image rq)) rq_size ≡ false
image_whole rq h = ground (arith, length-image rq h)

report_okay :
    (tag errno : Bytes) (rq : Struct)
    → IsStruct rq
    → rq.op_status ≡ b'K'
    → report tag errno false (received (image rq)) rq ≡ codes "ok" ++ b'\n' ∷ []
unfolding report
report_okay tag errno rq h k = rw (image_whole rq h, report, k) refl

-- A set whose reply was read whole, and is `K`.
pub set_reads :
    (rq₀ rq : Struct) (errno name text : Bytes)
    → IsStruct (named rq₀ b'W' name)
    → IsStruct rq
    → length text < power_ten 7
    → rq.op_status ≡ b'K'
    → do_set rq₀ errno name text false (received (image rq))
      ≡ some (record {
        sent = image (sized (named rq₀ b'W' name) (length text)) ++ text;
        printed = codes "ok" ++ b'\n' ∷ [];
        result = b'K';
        data_read = [];
      })
unfolding do_set
set_reads rq₀ rq errno name text h h' f k =
    let q₀ = sized (named rq₀ b'W' name) (length text) in
    rw (sprintf_len-some (named rq₀ b'W' name) (length text) f) (
      ap
        (λ (q : Struct). some (record {
          sent = image q₀ ++ text;
          printed = report (codes "WRITE") errno false (received (image rq)) q;
          result = q.op_status;
          data_read = [];
        }))
        (struct_after-image q₀ rq (sized-IsStruct (named rq₀ b'W' name) (length text) h f) h')
      ∙ rw (report_okay (codes "WRITE") errno rq h' k, k) refl)
