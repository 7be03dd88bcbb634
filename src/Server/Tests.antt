-- ===== src/Server/Tests.antt =====
-- Concrete requests to the server (lab3/worker.c).
use neu_cs5600_cmpsys.Base.{◌≡◌, refl, [], ◌∷◌, some, inl, arith}
use neu_cs5600_cmpsys.Base.Bytes.{Bytes, codes, atoi}
use neu_cs5600_cmpsys.Kv.{kv_init, kv_delete}
use neu_cs5600_cmpsys.Kv.Buckets.{IsValid}
use neu_cs5600_cmpsys.Kv.Write.{kv_init-IsValid}
use neu_cs5600_cmpsys.Server.{
  Stats, inc_read, inc_delete, inc_fail, Request, Server, answers, resp_fail, resp_okay, received,
  handle_read, handle_delete, dispatch,
}
use neu_cs5600_cmpsys.Server.Answers.{Counts, dispatch-Counts, dispatch-IsValid}
use neu_cs5600_cmpsys.Server.Receive.{dispatch-write-read}

abbrev zeros : Stats
zeros = record { n_writes = 0; n_reads = 0; n_deletes = 0; n_fails = 0 }

abbrev new_server : Server
new_server = record { kv = kv_init; stats = zeros }

abbrev name_a : Bytes
name_a = codes "a"

abbrev read_a : Request
read_a = record { op_status = b'R'; name = name_a; len = [] }

-- A read of a name that the store does not hold.
dispatch-Counts_example :
    Counts (some read_a) (record { status = b'X'; payload = [] }) zeros (inc_fail (inc_read zeros))
unfolding dispatch handle_read resp_fail
dispatch-Counts_example =
    dispatch-Counts new_server (some read_a) [] [] (record { status = b'X'; payload = [] })
      (record new_server { stats = inc_fail (inc_read zeros) })
      (ground (arith, kv_init-IsValid.1 name_a))

dispatch-IsValid_example : IsValid (kv_delete kv_init name_a)
unfolding dispatch handle_delete resp_okay
dispatch-IsValid_example =
    dispatch-IsValid new_server (record { op_status = b'D'; name = name_a; len = [] }) [] []
      (record { status = b'K'; payload = [] })
      (record { kv = kv_delete kv_init name_a; stats = inc_delete zeros }) kv_init-IsValid.0
      (omega arith) refl

dispatch-write-read_example :
    (s' : Server) × (dispatch new_server
        (some (record { op_status = b'W'; name = name_a; len = codes "2" }))
        (9 ∷ 9 ∷ 9 ∷ [])
        (received (codes "hi") ∷ [])
      ≡ some (answers (record { status = b'K'; payload = [] }) s'))
    × ((r : Server) × (dispatch s' (some read_a) [] []
          ≡ some (answers (record { status = b'K'; payload = codes "hi" }) r)))
unfolding kv_init atoi
dispatch-write-read_example =
    dispatch-write-read new_server kv_init-IsValid.0 name_a (codes "2") (9 ∷ 9 ∷ 9 ∷ []) b'h'
      (codes "i") (omega arith) (inl (omega arith)) (ground arith, (ground arith, tt)) refl refl
