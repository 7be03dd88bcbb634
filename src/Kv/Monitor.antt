-- ===== src/Kv/Monitor.antt =====
-- The monitor round the store (lab3/kvstore.c): `activeUsers`, the mutex `kvm` and the condition
-- `nonuser`. What a thread does between a lock and the next unlock or wait is one step, since the
-- mutex is held; threads are counted by what they are at.
pub mod Safety
use neu_cs5600_cmpsys.Base.{
  ℕ, zero, suc, ◌+◌, ◌-◌, ◌<◌, ◌≤◌, ◌≡◌, Bool, true, false, Option, none, some, ◌==◌,
}
use neu_cs5600_cmpsys.Base.Int.{ℤ, pos, negsuc, ◌+ℤ◌, ◌-ℤ◌, ltb_ℤ}

pub record Monitor : Type 0 where
  pub active_users : ℤ
  -- threads inside the store
  pub readers : ℕ
  pub writers : ℕ
  -- threads asleep on `nonuser`
  pub asleep_readers : ℕ
  pub asleep_writers : ℕ
  -- threads that were woken, or that have just come, and have yet to test `activeUsers`
  pub ready_readers : ℕ
  pub ready_writers : ℕ

-- `while (activeUsers < 0) wait; activeUsers++`: `none` is the wait. `kv_read` and `kv_dump` enter
-- so.
unfoldable pub enter_read : ℤ → Option ℤ
enter_read (negsuc n) = none
enter_read (pos n) = some (pos (suc n))

-- `while (activeUsers) wait; activeUsers = -1`, in `kv_write`, `kv_delete` and `kv_destroy`
unfoldable pub enter_write : ℤ → Option ℤ
enter_write (pos zero) = some (negsuc 0)
enter_write (pos (suc n)) = none
enter_write (negsuc n) = none

-- `--activeUsers`
unfoldable pub leave_read : ℤ → ℤ
leave_read (pos zero) = negsuc 0
leave_read (pos (suc n)) = pos n
leave_read (negsuc n) = negsuc (suc n)

-- `!activeUsers`: the last reader signals
unfoldable pub is_zero : ℤ → Bool
is_zero (pos zero) = true
is_zero (pos (suc n)) = false
is_zero (negsuc n) = false

pub data Step (m : Monitor) : Monitor → Type 0 where
  -- a call of `kv_read` or `kv_dump`; a call of `kv_write`, `kv_delete` or `kv_destroy`
  call_read : Step m (record m { ready_readers = suc m.ready_readers })
  call_write : Step m (record m { ready_writers = suc m.ready_writers })
  read_in :
      {n : ℕ} (a : ℤ)
      → m.ready_readers ≡ suc n
      → enter_read m.active_users ≡ some a
      → Step m (record m { active_users = a; readers = suc m.readers; ready_readers = n })
  read_wait :
      {n : ℕ}
      → m.ready_readers ≡ suc n
      → enter_read m.active_users ≡ none
      → Step m (record m { asleep_readers = suc m.asleep_readers; ready_readers = n })
  write_in :
      {n : ℕ} (a : ℤ)
      → m.ready_writers ≡ suc n
      → enter_write m.active_users ≡ some a
      → Step m (record m { active_users = a; writers = suc m.writers; ready_writers = n })
  write_wait :
      {n : ℕ}
      → m.ready_writers ≡ suc n
      → enter_write m.active_users ≡ none
      → Step m (record m { asleep_writers = suc m.asleep_writers; ready_writers = n })
  -- a reader leaves, and is not the last
  read_out :
      {n : ℕ}
      → m.readers ≡ suc n
      → is_zero (leave_read m.active_users) ≡ false
      → Step m (record m { active_users = leave_read m.active_users; readers = n })
  -- the last reader leaves, and its signal wakes a sleeping reader, a sleeping writer, or nobody
  read_out_wakes_reader :
      {n k : ℕ}
      → m.readers ≡ suc n
      → is_zero (leave_read m.active_users) ≡ true
      → m.asleep_readers ≡ suc k
      → Step m (record m {
        active_users = leave_read m.active_users;
        readers = n;
        asleep_readers = k;
        ready_readers = suc m.ready_readers;
      })
  read_out_wakes_writer :
      {n k : ℕ}
      → m.readers ≡ suc n
      → is_zero (leave_read m.active_users) ≡ true
      → m.asleep_writers ≡ suc k
      → Step m (record m {
        active_users = leave_read m.active_users;
        readers = n;
        asleep_writers = k;
        ready_writers = suc m.ready_writers;
      })
  read_out_wakes_none :
      {n : ℕ}
      → m.readers ≡ suc n
      → is_zero (leave_read m.active_users) ≡ true
      → m.asleep_readers ≡ 0
      → m.asleep_writers ≡ 0
      → Step m (record m { active_users = leave_read m.active_users; readers = n })
  -- `activeUsers = 0` and the broadcast
  write_out :
      {n : ℕ}
      → m.writers ≡ suc n
      → Step m (record m {
        active_users = pos 0;
        writers = n;
        asleep_readers = 0;
        asleep_writers = 0;
        ready_readers = m.ready_readers + m.asleep_readers;
        ready_writers = m.ready_writers + m.asleep_writers;
      })
  -- `pthread_cond_wait` may return with no signal
  spurious_reader :
      {n : ℕ}
      → m.asleep_readers ≡ suc n
      → Step m (record m { asleep_readers = n; ready_readers = suc m.ready_readers })
  spurious_writer :
      {n : ℕ}
      → m.asleep_writers ≡ suc n
      → Step m (record m { asleep_writers = n; ready_writers = suc m.ready_writers })

-- All that may happen from the start of the program.
abbrev pub start : Monitor
start = record {
  active_users = pos 0;
  readers = 0;
  writers = 0;
  asleep_readers = 0;
  asleep_writers = 0;
  ready_readers = 0;
  ready_writers = 0;
}

pub data Reach : Monitor → Type 0 where
  here : Reach start
  next : {m n : Monitor} → Reach m → Step m n → Reach n
