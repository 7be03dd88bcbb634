-- ===== src/Kv/Monitor/Safety.antt =====
-- The monitor admits one writer or any number of readers, and loses no wake-up.
use neu_cs5600_cmpsys.Base.{
  ℕ, zero, suc, ◌+◌, ◌<◌, ◌≤◌, ◌≡◌, refl, ◌⊎◌, inl, inr, false, none, some, arith,
}
use neu_cs5600_cmpsys.Base.Int.{ℤ, pos, negsuc}
use neu_cs5600_cmpsys.Kv.Monitor.{
  Monitor, enter_read, enter_write, leave_read, is_zero, Step, Reach, call_read, call_write,
  read_in, read_wait, write_in, write_wait, read_out, read_out_wakes_reader, read_out_wakes_writer,
  read_out_wakes_none, write_out, spurious_reader, spurious_writer, here, next,
}

-- `activeUsers` against the threads that are inside.
abbrev pub Agrees : ℤ → ℕ → ℕ → Type 0
Agrees (pos n) readers writers = (readers ≡ n) × (writers ≡ 0)
Agrees (negsuc n) readers writers = (n ≡ 0) × (readers ≡ 0) × (writers ≡ 1)

-- A thread sleeps only while somebody is inside, or while a woken thread has yet to run.
abbrev pub NoLostWakeUp : Monitor → Type 0
NoLostWakeUp m =
    (m.asleep_readers + m.asleep_writers ≡ 0)
    ⊎ (0 < m.readers + m.writers + m.ready_readers + m.ready_writers)

pub record IsSafe (m : Monitor) : Type 0 where
  pub agrees : Agrees m.active_users m.readers m.writers
  pub awake : NoLostWakeUp m

enter_read-Agrees : (u a : ℤ) (r w : ℕ) → Agrees u r w → enter_read u ≡ some a → Agrees a (suc r) w
unfolding enter_read
enter_read-Agrees u a r w g e = ground arith

enter_write-Agrees :
    (u a : ℤ) (r w : ℕ) → Agrees u r w → enter_write u ≡ some a → Agrees a r (suc w)
unfolding enter_write
enter_write-Agrees u a r w g e = ground arith

leave_read-Agrees : (u : ℤ) (r w : ℕ) → Agrees u (suc r) w → Agrees (leave_read u) r w
unfolding leave_read
leave_read-Agrees (pos zero) r w g = ground arith
leave_read-Agrees (pos (suc n)) r w g = ground arith
leave_read-Agrees (negsuc n) r w g = ground arith

write_out-Agrees : (u : ℤ) (r w : ℕ) → Agrees u r (suc w) → Agrees (pos 0) r w
write_out-Agrees (pos n) r w g = ground arith
write_out-Agrees (negsuc n) r w g = ground arith

blocked_read : (u : ℤ) (r w : ℕ) → Agrees u r w → enter_read u ≡ none → 0 < r + w
unfolding enter_read
blocked_read u r w g e = ground arith

blocked_write : (u : ℤ) (r w : ℕ) → Agrees u r w → enter_write u ≡ none → 0 < r + w
unfolding enter_write
blocked_write u r w g e = ground arith

remain_read : (u : ℤ) (r w : ℕ) → Agrees u (suc r) w → is_zero (leave_read u) ≡ false → 0 < r
unfolding is_zero leave_read
remain_read (pos zero) r w g e = ground arith
remain_read (pos (suc n)) r w g e = ground arith
remain_read (negsuc n) r w g e = ground arith

Step-IsSafe : {m n : Monitor} → Step m n → IsSafe m → IsSafe n
Step-IsSafe {m} call_read s = record { agrees = s.agrees; awake = ground arith }
Step-IsSafe {m} call_write s = record { agrees = s.agrees; awake = ground arith }
Step-IsSafe {m} (read_in a e f) s = record {
  agrees = enter_read-Agrees m.active_users a m.readers m.writers s.agrees f;
  awake = inr (omega arith);
}
Step-IsSafe {m} (read_wait e f) s = record {
  agrees = s.agrees;
  awake = inr (omega (arith, blocked_read m.active_users m.readers m.writers s.agrees f));
}
Step-IsSafe {m} (write_in a e f) s = record {
  agrees = enter_write-Agrees m.active_users a m.readers m.writers s.agrees f;
  awake = inr (omega arith);
}
Step-IsSafe {m} (write_wait e f) s = record {
  agrees = s.agrees;
  awake = inr (omega (arith, blocked_write m.active_users m.readers m.writers s.agrees f));
}
Step-IsSafe {m} (read_out {n} e f) s = record {
  agrees = leave_read-Agrees m.active_users n m.writers (rw e at s.agrees);
  awake = inr (omega (arith, remain_read m.active_users n m.writers (rw e at s.agrees) f));
}
Step-IsSafe {m} (read_out_wakes_reader {n} e f g) s = record {
  agrees = leave_read-Agrees m.active_users n m.writers (rw e at s.agrees);
  awake = inr (omega arith);
}
Step-IsSafe {m} (read_out_wakes_writer {n} e f g) s = record {
  agrees = leave_read-Agrees m.active_users n m.writers (rw e at s.agrees);
  awake = inr (omega arith);
}
Step-IsSafe {m} (read_out_wakes_none {n} e f g h) s = record {
  agrees = leave_read-Agrees m.active_users n m.writers (rw e at s.agrees);
  awake = inl (omega arith);
}
Step-IsSafe {m} (write_out {n} e) s = record {
  agrees = write_out-Agrees m.active_users m.readers n (rw e at s.agrees);
  awake = inl refl;
}
Step-IsSafe {m} (spurious_reader e) s = record { agrees = s.agrees; awake = inr (omega arith) }
Step-IsSafe {m} (spurious_writer e) s = record { agrees = s.agrees; awake = inr (omega arith) }

Reach-IsSafe : {m : Monitor} → Reach m → IsSafe m
Reach-IsSafe here = record { agrees = (refl, refl); awake = inl refl }
Reach-IsSafe (next r st) = Step-IsSafe st (Reach-IsSafe r)

exclusive : (u : ℤ) (r w : ℕ) → Agrees u r w → (w ≤ 1) × (0 < w → r ≡ 0)
exclusive (pos n) r w g = ground arith
exclusive (negsuc n) r w g = ground arith

-- In every state that the threads can reach, at most one writer is inside, and no reader beside it.
pub Reach-exclusive : {m : Monitor} → Reach m → (m.writers ≤ 1) × (0 < m.writers → m.readers ≡ 0)
Reach-exclusive {m} r = exclusive m.active_users m.readers m.writers (Reach-IsSafe r).agrees

-- In every state that the threads can reach, a thread that sleeps on the condition is not
-- forgotten: some thread is inside the store, or some woken thread has yet to test `activeUsers`.
pub Reach-awake :
    {m : Monitor}
    → Reach m
    → 0 < m.asleep_readers + m.asleep_writers
    → 0 < m.readers + m.writers + m.ready_readers + m.ready_writers
Reach-awake {m} r h = let s = Reach-IsSafe r in omega (arith, s.awake)

empty_enters : (u : ℤ) → Agrees u 0 0 → u ≡ pos 0
empty_enters (pos n) g = ground arith
empty_enters (negsuc n) g = ground arith

-- In every reachable state with nobody inside, any ready thread gets in with its next test: a
-- reader, and a writer too.
pub Reach-enters :
    {m : Monitor}
    → Reach m
    → m.readers + m.writers ≡ 0
    → (enter_read m.active_users ≡ some (pos 1)) × (enter_write m.active_users ≡ some (negsuc 0))
unfolding enter_read enter_write
Reach-enters {m} r h =
    let r0 : m.readers ≡ 0 = omega arith in
    let w0 : m.writers ≡ 0 = omega arith in
    let u = empty_enters m.active_users (rw (r0, w0) at (Reach-IsSafe r).agrees) in
    rw u (refl, refl)
