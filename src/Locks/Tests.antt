-- ===== src/Locks/Tests.antt =====
-- Locks on small inputs: process 7 holds the mutex, process 8 wants it.
use coin_data.Prelude.{
  Result, ℕ, ◌≡◌, refl, true, false, [], ◌∷◌, ◌++◌, ok, fault, Fault, arith, replicate,
}
use coin_data.Locks.{
  ProcessMutex, Attempt, lock_area, deadline, acquired, timed_out, owner_dead, locked_func,
  failed_func,
}
use coin_data.Locks.Areas.{waited, lock_area-waited}

abbrev mutex : ProcessMutex
mutex = record { holder_pid = 7; owener_pid = 7; is_died = false }

abbrev got : Attempt
got = record { code = acquired; holder_lives = true; owener_lives = true }

-- 100 milliseconds wait for 100 microseconds.
deadline_example : deadline 5 0 100 ≡ (5, 100000)
unfolding deadline
deadline_example = refl

lock_area-waited_example :
    (acquired ≡ acquired
      → lock_area (replicate 2 waited ++ got ∷ []) 8 true mutex
        ≡ ok (locked_func, record { holder_pid = 0; owener_pid = 7; is_died = false }))
    × (acquired ≡ owner_dead
        → lock_area (replicate 2 waited ++ got ∷ []) 8 true mutex ≡ fault Fault.aborted)
    × (acquired ≡ timed_out
        → true ≡ false
        → (m' : ProcessMutex) × (lock_area (replicate 2 waited ++ got ∷ []) 8 true mutex
            ≡ ok (failed_func, m')))
lock_area-waited_example =
    lock_area-waited 2 8 true got [] mutex (λ e. absurd (omega (arith, e)))
      (λ e. absurd (omega (arith, e)))

-- What a guard does that reads the holder of the mutex
abbrev read_holder : ProcessMutex → Result (ℕ × ProcessMutex)
read_holder m = ok (m.holder_pid, m)
