-- ===== src/Locks.antt =====
-- `ProcessMutex`, `ProcessLockGuard` and `ProcessLockArea` of src/coin-data/local/impl/shm_memory.hpp
-- and shm_memory.cpp: a mutex in shared memory that knows its holder. What the system's mutex gives to
-- a call, and which processes live, are arguments.
pub mod Areas
pub mod Tests
use coin_data.Prelude.{
  ℕ, ◌+◌, ◌*◌, ◌/◌, ◌%◌, Bool, true, false, List, [], ◌∷◌, Option, none, some, Result, ok, fault,
  Fault, ◌>>=◌, ◌==◌, if◌then◌else◌,
}

-- What locking the system's mutex gives: 0, `ETIMEDOUT`, `EINVAL`, or another error, among them
-- `EOWNERDEAD`, which a robust mutex gives when its holder has died.
pub data Code : Type 0 where
  acquired : Code
  timed_out : Code
  invalid : Code
  owner_dead : Code
  other_error : Code

pub record ProcessMutex : Type 0 where
  pub holder_pid : ℕ
  pub owener_pid : ℕ
  pub is_died : Bool

unfoldable pub lock : Code → ℕ → ProcessMutex → Bool × ProcessMutex
lock acquired pid m = (true, record m { holder_pid = pid })
lock timed_out pid m = (false, m)
lock invalid pid m = (false, m)
lock owner_dead pid m = (false, m)
lock other_error pid m = (false, m)

-- `unlocked` says whether unlocking the system's mutex gives 0.
unfoldable pub unlock : Bool → ProcessMutex → Result ProcessMutex
unlock unlocked m =
    if m.holder_pid == 0
    then fault Fault.aborted
    else (if unlocked then ok (record m { holder_pid = 0 }) else fault Fault.aborted)

-- The point in time that `timedlock` waits for, in seconds and nanoseconds
unfoldable pub deadline : ℕ → ℕ → ℕ → ℕ × ℕ
deadline sec nsec ms =
    let now = sec * 1000 * 1000 * 1000 + nsec + ms * 1000 in
    (now / 1000 / 1000 / 1000, now % (1000 * 1000 * 1000))

unfoldable pub timedlock : Code → ℕ → ProcessMutex → Result (Code × ProcessMutex)
timedlock acquired pid m = ok (acquired, record m { holder_pid = pid })
timedlock timed_out pid m = ok (timed_out, m)
timedlock invalid pid m = ok (invalid, m)
timedlock owner_dead pid m = fault Fault.aborted
timedlock other_error pid m = fault Fault.aborted

-- A `ProcessLockGuard` with a timeout, around what is done before it ends, which may change the
-- mutex; the result of `timedlock` is not looked at.
unfoldable pub timed_guard {ℓ} :
    {A : Type ℓ}
    → Code
    → ℕ
    → Bool
    → (ProcessMutex → Result (A × ProcessMutex))
    → ProcessMutex
    → Result (A × ProcessMutex)
unfolding timedlock unlock
timed_guard code pid unlocked body m = timedlock code pid m >>= λ (_, m1).
    body m1 >>= λ (a, m2). unlock unlocked m2 >>= λ m3. ok (a, m3)

-- Which function a lock area calls
pub data Called : Type 0 where
  locked_func : Called
  failed_func : Called
  -- it still waits
  no_func : Called

-- One turn of the loop: what the system's mutex gives, and whether the holder and the owner live
pub record Attempt : Type 0 where
  pub code : Code
  pub holder_lives : Bool
  pub owener_lives : Bool

-- What the constructor does after it got the mutex
unfoldable pub inside : Bool → ProcessMutex → Result (Called × ProcessMutex)
unfolding unlock
inside unlocked m =
    unlock unlocked m >>= λ m1. if m.is_died then ok (failed_func, m1) else ok (locked_func, m1)

-- The turn of the loop for a mutex that was not got: none to go on
unfoldable pub missed : Attempt → ProcessMutex → Option ProcessMutex
missed a m =
    if m.holder_pid == 0
    then (if a.owener_lives then some m else some (record m { is_died = true }))
    else (if a.holder_lives
        then none
        else (if a.owener_lives then some m else some (record m { is_died = true })))

-- The constructor of `ProcessLockArea` with both functions, over the turns of its loop
unfoldable pub lock_area : List Attempt → ℕ → Bool → ProcessMutex → Result (Called × ProcessMutex)
unfolding timedlock inside missed
lock_area [] pid unlocked m = ok (no_func, m)
lock_area (a ∷ later) pid unlocked m = timedlock a.code pid m >>= λ (code, m1). elim code [
  | acquired ↦ inside unlocked m1
  | timed_out ↦ elim (missed a m1) [
    | none ↦ lock_area later pid unlocked m1
    | some m2 ↦ ok (failed_func, m2)
  ]
  | invalid ↦ elim (missed a m1) [
    | none ↦ lock_area later pid unlocked m1
    | some m2 ↦ ok (failed_func, m2)
  ]
  | owner_dead ↦ fault Fault.aborted
  | other_error ↦ fault Fault.aborted
]
