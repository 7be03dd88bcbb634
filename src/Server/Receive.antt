-- ===== src/Server/Receive.antt =====
-- The loop that reads the value of a write request (lab3/worker.c, `handle_write`).
use neu_cs5600_cmpsys.Base.{
  ℕ, zero, suc, ◌+◌, ◌≡◌, ◌≢◌, ◌<◌, refl, ◌∙◌, ◌⊎◌, List, [], ◌∷◌, ◌++◌, none, some, arith, length,
  set, drop,
}
use neu_cs5600_cmpsys.Base.Bytes.{Bytes, NoNul, c_string, atoi, streq_refl}
use neu_cs5600_cmpsys.Base.Int.{pos}
use neu_cs5600_cmpsys.Kv.{Kv, kv_read, kv_write, table_max}
use neu_cs5600_cmpsys.Kv.Buckets.{IsValid}
use neu_cs5600_cmpsys.Kv.Write.{kv_write-Writes}
use neu_cs5600_cmpsys.Server.{
  inc_write, inc_read, Request, Server, answers, Read, received, unset, filled, store, receive,
  finish_write, handle_write, handle_read, dispatch,
}

-- The text at the start of the buffer, closed by the NUL that the handler writes behind it.
c_string_closed :
    (text rest : Bytes)
    → NoNul text
    → rest ≢ []
    → c_string (set (text ++ rest) (length text) 0) ≡ text
unfolding c_string
c_string_closed [] [] f n = absurd (n refl)
c_string_closed [] (c ∷ rest) f n = ground arith
c_string_closed (c ∷ text) rest f n = ground (arith, c_string_closed text rest f.1 n, f.0)

drop_ne : (n : ℕ) (buf : Bytes) → n < length buf → drop n buf ≢ []
drop_ne zero [] h = absurd (omega arith)
drop_ne zero (c ∷ buf) h = λ e. absurd (ground arith)
drop_ne (suc n) [] h = absurd (omega arith)
drop_ne (suc n) (c ∷ buf) h = drop_ne n buf (omega arith)

receive_once :
    (c : ℕ) (text buf : Bytes) (rs : List Read)
    → receive (length (c ∷ text)) 0 unset buf (received (c ∷ text) ∷ rs)
      ≡ receive (length (c ∷ text)) (length (c ∷ text)) filled (store (c ∷ text) buf) rs
unfolding receive
receive_once c text buf rs = ground arith

receive_done : (len : ℕ) (buf : Bytes) → receive len len filled buf [] ≡ some (filled, len, buf)
unfolding receive
receive_done len buf = ground arith

-- A value that comes in two reads is not put together: the second read stores over the first from
-- the start of the buffer.
pub receive_split :
    (a b : ℕ) (x y buf : Bytes)
    → receive
        (length (a ∷ x) + length (b ∷ y))
        0
        unset
        buf
        (received (a ∷ x) ∷ received (b ∷ y) ∷ [])
      ≡ some (
        filled,
        length (a ∷ x) + length (b ∷ y),
        (b ∷ y) ++ drop (length (b ∷ y)) ((a ∷ x) ++ drop (length (a ∷ x)) buf),
      )
unfolding receive store
receive_split a b x y buf = ground arith

read_runs :
    (t : Server) (name v : Bytes)
    → kv_read t.kv name ≡ some v
    → dispatch t (some (record { op_status = b'R'; name = name; len = [] })) [] []
      ≡ some
          (answers (record { status = b'K'; payload = v }) (record t { stats = inc_read t.stats }))
unfolding dispatch
read_runs t name v e = rw (e, handle_read) refl

finish_stored :
    (s : Server) (rq : Request) (buf v : Bytes) (kv' : Kv)
    → c_string buf ≡ v
    → kv_write s.kv rq.name v ≡ some (0, kv')
    → finish_write s rq filled buf
      ≡ some (answers (record { status = b'K'; payload = [] }) (record s { kv = kv' }))
unfolding finish_write
finish_stored s rq buf v kv' e w = rw (e, w) refl

write_runs :
    (s : Server) (name digits buf : Bytes) (c : ℕ) (text : Bytes) (kv' : Kv)
    → c_string (set (store (c ∷ text) buf) (length (c ∷ text)) 0) ≡ c ∷ text
    → atoi digits ≡ pos (length (c ∷ text))
    → kv_write s.kv name (c ∷ text) ≡ some (0, kv')
    → dispatch s
        (some (record { op_status = b'W'; name = name; len = digits }))
        buf
        (received (c ∷ text) ∷ [])
      ≡ some (
          answers
            (record { status = b'K'; payload = [] })
            (record { kv = kv'; stats = inc_write s.stats }))
unfolding dispatch
write_runs s name digits buf c text kv' e l w =
    let rq : Request = record { op_status = b'W'; name = name; len = digits } in
    rw
      (
        l,
        handle_write,
        receive_once c text buf [],
        receive_done (length (c ∷ text)) (store (c ∷ text) buf),
      )
      (finish_stored (record s { stats = inc_write s.stats }) rq
        (set (store (c ∷ text) buf) (length (c ∷ text)) 0) (c ∷ text) kv' e w)

module _ (s : Server) (valid : IsValid s.kv) (name digits buf : Bytes) where
  -- A write whose value comes in one read is answered `K`, and a read of the name is then answered
  -- with the value.
  pub dispatch-write-read :
      (c : ℕ) (text : Bytes)
      → length name < 32
      → (s.kv.size < table_max) ⊎ (kv_read s.kv name ≢ none)
      → NoNul (c ∷ text)
      → length buf ≡ length (c ∷ text) + 1
      → atoi digits ≡ pos (length (c ∷ text))
      → (s' : Server) × (dispatch s
            (some (record { op_status = b'W'; name = name; len = digits }))
            buf
            (received (c ∷ text) ∷ [])
          ≡ some (answers (record { status = b'K'; payload = [] }) s'))
        × ((r : Server) × (dispatch s'
                (some (record { op_status = b'R'; name = name; len = [] }))
                []
                []
              ≡ some (answers (record { status = b'K'; payload = c ∷ text }) r)))
  unfolding store
  dispatch-write-read c text fits room clean size len =
      let rest = drop (length (c ∷ text)) buf in
      let stored : c_string (set ((c ∷ text) ++ rest) (length (c ∷ text)) 0) ≡ c ∷ text =
        c_string_closed (c ∷ text) rest clean (drop_ne (length (c ∷ text)) buf (omega arith)) in
      let (kv', run, w) = kv_write-Writes s.kv valid name (c ∷ text) fits room in
      let s' : Server = record { kv = kv'; stats = inc_write s.stats } in
      (
        s',
        write_runs s name digits buf c text kv' stored len run,
        (
          record { kv = kv'; stats = inc_read (inc_write s.stats) },
          read_runs s' name (c ∷ text) (w.reads name ∙ rw (streq_refl name) refl),
        ),
      )
