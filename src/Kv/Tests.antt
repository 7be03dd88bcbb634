-- ===== src/Kv/Tests.antt =====
-- Concrete runs of the key-value store and of its monitor (lab3/kvstore.c).
use neu_cs5600_cmpsys.Base.{◌+◌, ◌≤◌, ◌<◌, ◌≡◌, refl, none, some, inl, if◌then◌else◌, arith}
use neu_cs5600_cmpsys.Base.Int.{pos, negsuc}
use neu_cs5600_cmpsys.Base.Bytes.{Bytes, codes, streq}
use neu_cs5600_cmpsys.Kv.{
  Kv, kv_init, kv_read, kv_write, kv_delete, hash33, insert, write_new, kv_entry_init, kv_dump,
  dump_from, hash_from, extend,
}
use neu_cs5600_cmpsys.Kv.Chain.{heads, read}
use neu_cs5600_cmpsys.Kv.Buckets.{IsValid}
use neu_cs5600_cmpsys.Kv.Write.{
  Writes, kv_init-IsValid, kv_write-IsValid, kv_write-Writes, kv_write_full,
}
use neu_cs5600_cmpsys.Kv.Delete.{kv_read-delete, kv_delete_drops}
use neu_cs5600_cmpsys.Kv.Monitor.{
  Monitor, enter_read, enter_write, call_read, call_write, read_wait, write_in, Reach, here, next,
}
use neu_cs5600_cmpsys.Kv.Monitor.Safety.{Reach-exclusive, Reach-awake, Reach-enters}

-- Two keys of one bucket.
abbrev ab : Bytes
ab = codes "ab"

abbrev ba : Bytes
ba = codes "bA"

abbrev one : Kv
one = insert kv_init (hash33 ab) (ab, codes "1")

abbrev two : Kv
two = insert one (hash33 ba) (ba, codes "2")

one-IsValid : IsValid one
unfolding kv_write write_new kv_entry_init kv_init read hash33 hash_from extend streq
one-IsValid = kv_write-IsValid kv_init ab (codes "1") (0, one) kv_init-IsValid.0 (omega arith) refl

two-IsValid : IsValid two
unfolding kv_write write_new kv_entry_init kv_init insert read hash33 hash_from extend streq
two-IsValid = kv_write-IsValid one ba (codes "2") (0, two) one-IsValid (omega arith) refl

abbrev full : Kv
full = record kv_init { size = 200 }

full-IsValid : IsValid full
unfolding kv_init kv_dump dump_from
full-IsValid = record {
  width = kv_init-IsValid.0.width;
  placed = kv_init-IsValid.0.placed;
  counted = omega arith;
  limited = omega arith;
}

kv_write-Writes_example :
    (kv' : Kv) × (kv_write two ab (codes "3") ≡ some (0, kv')) × Writes two ab (codes "3") kv'
unfolding kv_init insert
kv_write-Writes_example =
    kv_write-Writes two two-IsValid ab (codes "3") (omega arith) (inl (omega arith))

kv_write_full_example : kv_write full ab (codes "1") ≡ some (1, full)
unfolding kv_read
kv_write_full_example = kv_write_full full full-IsValid ab (codes "1") refl (kv_init-IsValid.1 ab)

kv_read-delete_example :
    kv_read (kv_delete two ab) ba ≡ (if streq ab ba then none else kv_read two ba)
unfolding kv_init insert hash33 hash_from extend streq heads
kv_read-delete_example = kv_read-delete two two-IsValid ab refl ba

kv_delete_drops_example :
    (kv_read (kv_delete two ba) ab ≡ none) × ((kv_delete two ba).size + 1 ≡ two.size)
unfolding kv_init insert hash33 hash_from extend streq kv_read read heads
kv_delete_drops_example = kv_delete_drops two two-IsValid ba (codes "2") ab refl refl refl

-- A writer inside, and a reader that found it there and sleeps.
abbrev waiting : Monitor
waiting = record {
  active_users = negsuc 0;
  readers = 0;
  writers = 1;
  asleep_readers = 1;
  asleep_writers = 0;
  ready_readers = 0;
  ready_writers = 0;
}

waiting-Reach : Reach waiting
unfolding enter_read enter_write
waiting-Reach =
    next (next (next (next here call_write) (write_in (negsuc 0) refl refl)) call_read)
      (read_wait refl refl)

abbrev calling : Monitor
calling = record {
  active_users = pos 0;
  readers = 0;
  writers = 0;
  asleep_readers = 0;
  asleep_writers = 0;
  ready_readers = 1;
  ready_writers = 1;
}

calling-Reach : Reach calling
calling-Reach = next (next here call_write) call_read

Reach-exclusive_example : (waiting.writers ≤ 1) × (0 < waiting.writers → waiting.readers ≡ 0)
Reach-exclusive_example = Reach-exclusive {m = waiting} waiting-Reach

Reach-awake_example :
    0 < waiting.readers + waiting.writers + waiting.ready_readers + waiting.ready_writers
Reach-awake_example = Reach-awake {m = waiting} waiting-Reach (omega arith)

Reach-enters_example :
    (enter_read calling.active_users ≡ some (pos 1))
    × (enter_write calling.active_users ≡ some (negsuc 0))
Reach-enters_example = Reach-enters {m = calling} calling-Reach refl
