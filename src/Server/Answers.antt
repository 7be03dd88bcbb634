-- ===== src/Server/Answers.antt =====
-- What the server answers, counts and keeps, whatever the request (lab3/worker.c).
use neu_cs5600_cmpsys.Base.{
  ℕ, Bool, ◌≡◌, ◌<◌, ◌⊎◌, inl, inr, false, List, [], Option, none, some, arith, ◌==◌, if◌then◌else◌,
  length, set, Bool-cases,
}
use neu_cs5600_cmpsys.Base.Bytes.{Bytes, c_string, atoi}
use neu_cs5600_cmpsys.Base.Chain.{◌>>=◌, >>=-eq-some}
use neu_cs5600_cmpsys.Base.Int.{ℤ, pos, negsuc}
use neu_cs5600_cmpsys.Kv.{kv_write, kv_delete}
use neu_cs5600_cmpsys.Kv.Buckets.{IsValid}
use neu_cs5600_cmpsys.Kv.Write.{kv_write-IsValid}
use neu_cs5600_cmpsys.Kv.Delete.{kv_delete-IsValid}
use neu_cs5600_cmpsys.Server.{
  Stats, bump, inc_write, inc_fail, Request, Server, Response, answers, quits, resp_fail, resp_okay,
  Read, Ended, unset, negative, zero_bytes, filled, receive, finish_write, handle_write,
  handle_read, handle_delete, dispatch,
}

-- Whether the request has the operation.
abbrev pub asks : ℕ → Option Request → Bool
asks op none = false
asks op (some rq) = rq.op_status == op

-- A counter after a request: one more, as an int, if it counts the request.
abbrev pub counted : Bool → ℕ → ℕ
counted b n = if b then bump n else n

abbrev pub IsOneOf : Response → Type 0
IsOneOf r = (r.status ≡ b'K') ⊎ (r.status ≡ b'X')

-- The answer to a request, against the counters: one more of the kind that was asked for, one more
-- failure exactly if the answer is `X`; behind the greatest int the least one follows.
pub record Counts (rq : Option Request) (r : Response) (before after : Stats) : Type 0 where
  pub writes : after.n_writes ≡ counted (asks b'W' rq) before.n_writes
  pub reads : after.n_reads ≡ counted (asks b'R' rq) before.n_reads
  pub deletes : after.n_deletes ≡ counted (asks b'D' rq) before.n_deletes
  pub fails : after.n_fails ≡ counted (r.status == b'X') before.n_fails
  pub status : IsOneOf r

finish_write_counts :
    (s : Server) (rq : Request) (n : Ended) (buf : Bytes) (r : Response) (s' : Server)
    → finish_write s rq n buf ≡ some (answers r s')
    → (s'.stats.n_writes ≡ s.stats.n_writes)
      × (s'.stats.n_reads ≡ s.stats.n_reads)
      × (s'.stats.n_deletes ≡ s.stats.n_deletes)
      × (s'.stats.n_fails ≡ counted (r.status == b'X') s.stats.n_fails)
      × IsOneOf r
unfolding finish_write inc_fail
finish_write_counts s rq unset buf r s' h = ground arith
finish_write_counts s rq negative buf r s' h = ground arith
finish_write_counts s rq zero_bytes buf r s' h = ground arith
finish_write_counts s rq filled buf r s' h = ground arith

handle_write_counts :
    (s : Server) (rq : Request) (buf : Bytes) (reads : List Read) (r : Response) (s' : Server)
    → handle_write s rq buf reads ≡ some (answers r s')
    → (s'.stats.n_writes ≡ bump s.stats.n_writes)
      × (s'.stats.n_reads ≡ s.stats.n_reads)
      × (s'.stats.n_deletes ≡ s.stats.n_deletes)
      × (s'.stats.n_fails ≡ counted (r.status == b'X') s.stats.n_fails)
      × IsOneOf r
unfolding handle_write
handle_write_counts s rq buf reads r s' h = go (atoi rq.len) h
  where
    go :
        (z : ℤ)
        → elim z [
          | negsuc n ↦ none
          | pos len ↦ do
            (n, bytes, buf') ← receive len 0 unset buf reads
            finish_write (record s { stats = inc_write s.stats }) rq n (set buf' len 0)
        ]
          ≡ some (answers r s')
        → (s'.stats.n_writes ≡ bump s.stats.n_writes)
          × (s'.stats.n_reads ≡ s.stats.n_reads)
          × (s'.stats.n_deletes ≡ s.stats.n_deletes)
          × (s'.stats.n_fails ≡ counted (r.status == b'X') s.stats.n_fails)
          × IsOneOf r
    go (negsuc n) e = absurd (ground arith)
    go (pos len) e =
        let (t, run, fin) =
          >>=-eq-some (receive len 0 unset buf reads)
            (λ t. finish_write (record s { stats = inc_write s.stats }) rq t.0 (set t.2 len 0)) e in
        finish_write_counts (record s { stats = inc_write s.stats }) rq t.0 (set t.2 len 0) r s' fin

-- Every answer is `K` or `X`, and the counters, ints of 32 bits, tell what was asked and how many
-- requests failed.
pub dispatch-Counts :
    (s : Server) (rq : Option Request) (buf : Bytes) (reads : List Read) (r : Response)
    (s' : Server)
    → dispatch s rq buf reads ≡ some (answers r s')
    → Counts rq r s.stats s'.stats
unfolding dispatch inc_fail
dispatch-Counts s none buf reads r s' h = record {
  writes = ground arith;
  reads = ground arith;
  deletes = ground arith;
  fails = ground arith;
  status = ground arith;
}
dispatch-Counts s (some rq) buf reads r s' h = elim (Bool-cases (rq.op_status == b'W')) [
  | inl w ↦
      let c = handle_write_counts s rq buf reads r s' (rw w at h) in
      record {
        writes = ground (arith, c);
        reads = ground (arith, c);
        deletes = ground (arith, c);
        fails = ground (arith, c);
        status = c.4;
      }
  | inr w ↦ others (rw w at h) w
]
  where
    others :
        (if rq.op_status == b'R'
            then some (handle_read s rq)
            else if rq.op_status == b'D'
            then some (handle_delete s rq)
            else if rq.op_status == b'Q'
            then some quits
            else some (resp_fail s))
          ≡ some (answers r s')
        → (rq.op_status == b'W') ≡ false
        → Counts (some rq) r s.stats s'.stats
    others e w = record {
      writes = ground arith;
      reads = ground arith;
      deletes = ground arith;
      fails = ground arith;
      status = ground arith;
    }

finish_write-IsValid :
    (s : Server) (rq : Request) (n : Ended) (buf : Bytes) (r : Response) (s' : Server)
    → IsValid s.kv
    → length rq.name < 32
    → finish_write s rq n buf ≡ some (answers r s')
    → IsValid s'.kv
unfolding finish_write
finish_write-IsValid s rq unset buf r s' v f h = absurd (ground arith)
finish_write-IsValid s rq negative buf r s' v f h =
    let e : s.kv ≡ s'.kv = ground arith in rw (← e) v
finish_write-IsValid s rq zero_bytes buf r s' v f h =
    let e : s.kv ≡ s'.kv = ground arith in rw (← e) v
finish_write-IsValid s rq filled buf r s' v f h =
    let (t, run, fin) =
      >>=-eq-some (kv_write s.kv rq.name (c_string buf))
        (λ t. some (
          if t.0 == 0
          then resp_okay (record s { kv = t.1 }) []
          else resp_fail (record s { kv = t.1 })))
        h in
    let e : t.1 ≡ s'.kv = ground arith in
    rw (← e) (kv_write-IsValid s.kv rq.name (c_string buf) t v f run)

-- No request breaks the store's invariant, if its name fits in a key.
pub dispatch-IsValid :
    (s : Server) (rq : Request) (buf : Bytes) (reads : List Read) (r : Response) (s' : Server)
    → IsValid s.kv
    → length rq.name < 32
    → dispatch s (some rq) buf reads ≡ some (answers r s')
    → IsValid s'.kv
unfolding dispatch
dispatch-IsValid s rq buf reads r s' v f h = elim (Bool-cases (rq.op_status == b'W')) [
  | inl w ↦ written (atoi rq.len) (unfold handle_write in rw w at h)
  | inr w ↦ elim (Bool-cases (rq.op_status == b'D')) [
    | inl d ↦
        let e : kv_delete s.kv rq.name ≡ s'.kv = ground arith in
        rw (← e) (kv_delete-IsValid s.kv v rq.name)
    | inr d ↦ let e : s.kv ≡ s'.kv = ground arith in rw (← e) v
  ]
]
  where
    written :
        (z : ℤ)
        → elim z [
          | negsuc n ↦ none
          | pos len ↦ do
            (n, bytes, buf') ← receive len 0 unset buf reads
            finish_write (record s { stats = inc_write s.stats }) rq n (set buf' len 0)
        ]
          ≡ some (answers r s')
        → IsValid s'.kv
    written (negsuc n) e = absurd (ground arith)
    written (pos len) e =
        let (t, run, fin) =
          >>=-eq-some (receive len 0 unset buf reads)
            (λ t. finish_write (record s { stats = inc_write s.stats }) rq t.0 (set t.2 len 0)) e in
        finish_write-IsValid (record s { stats = inc_write s.stats }) rq t.0 (set t.2 len 0) r s' v
          f fin
