-- ===== src/Server.antt =====
-- The database server's requests (lab3/worker.c, lab3/lab3.h) and its statistics (lab3/stats.c).
-- What `read` returns from the socket, and what stands in memory that the code leaves
-- uninitialised, are arguments. `none` stands for undefined behaviour, or for a `read` that never
-- returns. The trace file and the random sleep are left out.
pub mod Answers
pub mod Receive
pub mod Wire
mod Tests
use neu_cs5600_cmpsys.Base.{
  ℕ, zero, suc, ◌+◌, ◌-◌, ◌%◌, ◌^◌, Bool, true, false, List, [], ◌∷◌, ◌++◌, Option, none, some, ltb,
  ◌==◌, if◌then◌else◌, length, take, drop, set,
}
use neu_cs5600_cmpsys.Base.Bytes.{Bytes, atoi, c_string}
use neu_cs5600_cmpsys.Base.Chain.{◌>>=◌}
use neu_cs5600_cmpsys.Base.Int.{ℤ, pos, negsuc}
use neu_cs5600_cmpsys.Kv.{Kv, kv_read, kv_write, kv_delete}

-- The counters, each an int, as the 32 bits of it.
pub record Stats : Type 0 where
  pub n_writes : ℕ
  pub n_reads : ℕ
  pub n_deletes : ℕ
  pub n_fails : ℕ

-- `n++`, which goes on from the greatest int with the least.
abbrev pub bump : ℕ → ℕ
bump n = (n + 1) % 2 ^ 32

pub inc_write : Stats → Stats
inc_write s = record s { n_writes = bump s.n_writes }

pub inc_read : Stats → Stats
inc_read s = record s { n_reads = bump s.n_reads }

pub inc_delete : Stats → Stats
inc_delete s = record s { n_deletes = bump s.n_deletes }

pub inc_fail : Stats → Stats
inc_fail s = record s { n_fails = bump s.n_fails }

-- The strings in `name` and in `len`.
pub record Request : Type 0 where
  pub op_status : ℕ
  pub name : Bytes
  pub len : Bytes

pub record Server : Type 0 where
  pub kv : Kv
  pub stats : Stats

-- `op_status` of the reply, and the bytes that follow it; its name, which is the request's, and its
-- length field, which has the number of those bytes, are left out.
pub record Response : Type 0 where
  pub status : ℕ
  pub payload : Bytes

pub data Outcome : Type 0 where
  answers : Response → Server → Outcome
  quits : Outcome

pub resp_fail : Server → Outcome
unfolding inc_fail
resp_fail s =
    answers (record { status = b'X'; payload = [] }) (record s { stats = inc_fail s.stats })

pub resp_okay : Server → Bytes → Outcome
resp_okay s text = answers (record { status = b'K'; payload = text }) s

-- What one `read` returns: an error, or bytes, none at the end of the stream.
pub data Read : Type 0 where
  failed : Read
  received : Bytes → Read

-- How the loop ended: the last value of `n`.
pub data Ended : Type 0 where
  unset negative zero_bytes filled : Ended

-- `read(sock, buf, len)` stores from the start of the buffer.
pub store : Bytes → Bytes → Bytes
store text buf = text ++ drop (length text) buf

-- The loop `for (ptr = buf; ptr < max; )`, with `at` for `ptr - buf`, which `bytes` equals: how it
-- ended, `bytes`, and the buffer.
pub receive : ℕ → ℕ → Ended → Bytes → List Read → Option (Ended × ℕ × Bytes)
unfolding store
receive len at n buf [] = if ltb at len then none else some (n, at, buf)
receive len at n buf (failed ∷ rs) =
    if ltb at len then some (negative, at, buf) else some (n, at, buf)
receive len at n buf (received [] ∷ rs) =
    if ltb at len then some (zero_bytes, at, buf) else some (n, at, buf)
receive len at n buf (received (c ∷ text) ∷ rs) =
    let rest = receive len (at + length (c ∷ text)) filled (store (c ∷ text) buf) rs in
    if ltb at len then rest else some (n, at, buf)

pub finish_write : Server → Request → Ended → Bytes → Option Outcome
unfolding resp_fail resp_okay c_string
finish_write s rq unset buf = none
finish_write s rq negative buf = some (resp_fail s)
finish_write s rq zero_bytes buf = some (resp_fail s)
finish_write s rq filled buf = do
  (ret, kv) ← kv_write s.kv rq.name (c_string buf)
  let s' = record s { kv = kv }
  some (if ret == 0 then resp_okay s' [] else resp_fail s')

-- `buf` is what stands in the array of `len + 1` bytes at first.
pub handle_write : Server → Request → Bytes → List Read → Option Outcome
unfolding inc_write receive finish_write
handle_write s rq buf reads = elim (atoi rq.len) [
  | negsuc n ↦ none
  | pos len ↦ do
    (n, bytes, buf') ← receive len 0 unset buf reads
    finish_write (record s { stats = inc_write s.stats }) rq n (set buf' len 0)
]

unfoldable pub handle_read : Server → Request → Outcome
unfolding inc_read resp_fail resp_okay
handle_read s rq =
    let s' = record s { stats = inc_read s.stats } in
    elim (kv_read s.kv rq.name) [ none ↦ resp_fail s' | some text ↦ resp_okay s' text ]

pub handle_delete : Server → Request → Outcome
unfolding inc_delete resp_okay
handle_delete s rq =
    resp_okay (record { kv = kv_delete s.kv rq.name; stats = inc_delete s.stats }) []

-- `none` in place of the request: the first `read` did not return a whole request.
unfoldable pub dispatch : Server → Option Request → Bytes → List Read → Option Outcome
unfolding resp_fail handle_write handle_read handle_delete
dispatch s none buf reads = some (resp_fail s)
dispatch s (some rq) buf reads =
    if rq.op_status == b'W'
    then handle_write s rq buf reads
    else if rq.op_status == b'R'
    then some (handle_read s rq)
    else if rq.op_status == b'D'
    then some (handle_delete s rq)
    else if rq.op_status == b'Q'
    then some quits
    else some (resp_fail s)
