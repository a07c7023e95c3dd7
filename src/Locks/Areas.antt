-- ===== src/Locks/Areas.antt =====
-- When a lock area calls its function, and what a guard with a timeout does.
use coin_data.Prelude.{
  ℕ, zero, suc, ◌+◌, ◌*◌, ◌≡◌, ◌≢◌, Bool, true, false, List, ◌∷◌, ◌++◌, Result, ok, fault, Fault,
  arith, if◌then◌else◌, replicate, ◌==◌,
}
use coin_data.Locks.{
  ProcessMutex, Attempt, unlock, deadline, timedlock, inside, missed, lock_area, acquired,
  timed_out, owner_dead, locked_func, failed_func,
}

-- The time passed, and the holder lives.
abbrev pub waited : Attempt
waited = record { code = timed_out; holder_lives = true; owener_lives = true }

-- A lock area for a held mutex waits as long as the time passes and the holder lives. When it then
-- gets the mutex it calls its function, or the other one if the mutex is marked as dead, and gives
-- the mutex back; when the system says that the holder has died the process is aborted; when the
-- time passes and no holder lives it calls the other function.
pub lock_area-waited :
    (n pid : ℕ) (unlocked : Bool) (last : Attempt) (rest : List Attempt) (m : ProcessMutex)
    → m.holder_pid ≢ 0
    → pid ≢ 0
    → ((last.code ≡ acquired)
        → lock_area (replicate n waited ++ last ∷ rest) pid true m
          ≡ ok (if m.is_died then failed_func else locked_func, record m { holder_pid = 0 }))
      × ((last.code ≡ owner_dead)
          → lock_area (replicate n waited ++ last ∷ rest) pid unlocked m ≡ fault Fault.aborted)
      × ((last.code ≡ timed_out)
          → last.holder_lives ≡ false
          → (m' : ProcessMutex) × (lock_area (replicate n waited ++ last ∷ rest) pid unlocked m
              ≡ ok (failed_func, m')))
unfolding lock_area timedlock inside missed unlock
lock_area-waited zero pid unlocked last rest m h p = (
  λ e. ground (arith, e, h, p),
  λ e. ground (arith, e),
  λ e l. (if last.owener_lives then m else record m { is_died = true }, ground (arith, e, l, h)),
)
lock_area-waited (suc n) pid unlocked last rest m h p =
    let (a, b, c) = lock_area-waited n pid unlocked last rest m h p in
    (
      λ e. ground (arith, h, a e),
      λ e. ground (arith, h, b e),
      λ e l. (let (m', f) = c e l in (m', ground (arith, h, f))),
    )

-- What the end of a guard makes of its result `a` and of the mutex as it is then
abbrev pub at_end {ℓ} : {A : Type ℓ} → Bool → A → ProcessMutex → Result (A × ProcessMutex)
at_end unlocked a m =
    if m.holder_pid == 0
    then fault Fault.aborted
    else if unlocked
    then ok (a, record m { holder_pid = 0 })
    else fault Fault.aborted

-- A deadline of `ms` milliseconds lies `ms` microseconds behind the time that it is made at.
pub deadline-microseconds :
    (sec nsec ms : ℕ)
    → (deadline sec nsec ms).1 + (deadline sec nsec ms).0 * 1000000000
      ≡ sec * 1000000000 + nsec + ms * 1000
unfolding deadline
deadline-microseconds sec nsec ms = omega arith
