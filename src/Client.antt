-- ===== src/Client.antt =====
-- The database client (lab3/dbclient.c): the requests that it sends, what it prints of the replies,
-- and, in Options, its command line. What `read` returns from the socket, and what stands in
-- memory that the code leaves uninitialised, are arguments, as is the text of `strerror(errno)`.
-- `none` stands for undefined behaviour, or for a `read` that never returns.
pub mod Options
pub mod Replies
pub mod Calls
pub mod Gets
pub mod RoundTrip
mod Tests
use neu_cs5600_cmpsys.Base.{
  ℕ, zero, suc, ◌+◌, ◌-◌, Bool, true, false, not, ◌&&◌, List, [], ◌∷◌, ◌++◌, Option, none, some,
  ltb, ◌==◌, if◌then◌else◌, length, take, drop,
}
use neu_cs5600_cmpsys.Base.Bytes.{Bytes, codes, atoi, c_string}
use neu_cs5600_cmpsys.Base.Decimal.{decimal}
use neu_cs5600_cmpsys.Base.Chain.{◌>>=◌}
use neu_cs5600_cmpsys.Base.Int.{pos, negsuc}
use neu_cs5600_cmpsys.Server.{Read, failed, received}
use neu_cs5600_cmpsys.Server.Wire.{
  Struct, name_size, rq_size, image, put_string, sprintf_len, struct_after,
}

-- What a call writes on the socket, what it prints, the status it returns, and the data that a get
-- returns.
pub record Called : Type 0 where
  pub sent : Bytes
  pub printed : Bytes
  pub result : ℕ
  pub data_read : Bytes

-- `snprintf(rq.name, sizeof(rq.name), "%s", name)` and `rq.op_status = op`
abbrev pub named : Struct → ℕ → Bytes → Struct
named rq op name = record rq {
  op_status = op;
  name = put_string (take (name_size - 1) name) rq.name;
}

-- The message of a reply that could not be read; `none` for one that was.
abbrev pub read_problem : Bytes → Bytes → Read → Option Bytes
read_problem tag errno failed = some (tag ++ codes ": REPLY: READ ERROR: " ++ errno ++ b'\n' ∷ [])
read_problem tag errno (received text) =
    if ltb (length text) rq_size
    then some (tag ++ codes ": REPLY: SHORT READ: " ++ decimal (length text) ++ b'\n' ∷ [])
    else none

abbrev pub failed_text : Bytes → ℕ → Bytes
failed_text tag status = tag ++ codes ": FAILED (" ++ status ∷ codes ")" ++ b'\n' ∷ []

-- What `do_set` and `do_del` print of the struct after the read.
unfoldable pub report : Bytes → Bytes → Bool → Read → Struct → Bytes
report tag errno quiet r rq = elim (read_problem tag errno r) [
  | some text ↦ text
  | none ↦
      if not (rq.op_status == b'K') && not quiet
      then failed_text tag rq.op_status
      else if not quiet
      then codes "ok" ++ b'\n' ∷ []
      else []
]

-- `read(sock, ptr, max - ptr)` stores at `ptr`.
abbrev pub store_at : ℕ → Bytes → Bytes → Bytes
store_at at text buf = take at buf ++ text ++ drop (at + length text) buf

module _ (errno : Bytes) where
  -- The loop that reads the value, with `at` for `ptr - buf`: what it prints, and the buffer. A
  -- read of no bytes is tried again.
  unfoldable pub get_data : ℕ → ℕ → Bytes → List Read → Option (Bytes × Bytes)
  get_data len at buf [] = if ltb at len then none else some ([], buf)
  get_data len at buf (failed ∷ rs) =
      if ltb at len
      then some (codes "READ DATA: READ ERROR: " ++ errno ++ b'\n' ∷ [], buf)
      else some ([], buf)
  get_data len at buf (received text ∷ rs) =
      let rest = get_data len (at + length text) (store_at at text buf) rs in
      if ltb at len then rest else some ([], buf)

  -- The value is returned if the caller wants it, and printed otherwise, up to a NUL.
  unfoldable pub get_value : Struct → Bool → Bytes → List Read → Option (Bytes × Bytes)
  unfolding get_data
  get_value rq wanted buf rs = elim (atoi (c_string rq.len)) [
    | negsuc n ↦ none
    | pos len ↦ do
      (text, value) ← get_data len 0 buf rs
      some (
          if wanted
          then (text, value)
          else (text ++ codes "=" ++ b'"' ∷ (c_string value ++ b'"' ∷ b'\n' ∷ []), []))
  ]

  -- What `do_get` does with the struct, `rq` as it was sent and `rq'` after the read.
  unfoldable pub get_reply : Struct → Struct → Bool → Read → Bytes → List Read → Option Called
  unfolding get_value
  get_reply rq rq' wanted r buf rs =
      let called : Bytes × Bytes → Called =
        λ p. record { sent = image rq; printed = p.0; result = rq'.op_status; data_read = p.1 } in
      elim (read_problem (codes "READ") errno r) [
        | some text ↦ some (called (text, []))
        | none ↦
            if rq'.op_status == b'K'
            then (get_value rq' wanted buf rs >>= λ p. some (called p))
            else some (called (failed_text (codes "READ") rq'.op_status, []))
      ]

module _ (rq₀ : Struct) (errno : Bytes) where
  unfoldable pub do_del : Bytes → Bool → Read → Called
  unfolding report
  do_del name quiet r =
      let rq = named rq₀ b'D' name in
      let rq' = struct_after rq r in
      record {
        sent = image rq;
        printed = report (codes "DEL") errno quiet r rq';
        result = rq'.op_status;
        data_read = [];
      }

  unfoldable pub do_set : Bytes → Bytes → Bool → Read → Option Called
  unfolding report
  do_set name text quiet r = do
    rq ← sprintf_len (named rq₀ b'W' name) (length text)
    let rq' = struct_after rq r
    some (record {
      sent = image rq ++ text;
      printed = report (codes "WRITE") errno quiet r rq';
      result = rq'.op_status;
      data_read = [];
    })

  unfoldable pub do_quit : Bytes
  do_quit = image (record rq₀ { op_status = b'Q' })

  -- `buf` is what stands in the array of `len` bytes at first.
  unfoldable pub do_get : Bytes → Bool → Read → Bytes → List Read → Option Called
  unfolding get_reply
  do_get name wanted r buf rs = do
    rq ← sprintf_len (named rq₀ b'R' name) 0
    get_reply errno rq (struct_after rq r) wanted r buf rs
