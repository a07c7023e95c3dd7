-- ===== src/Prelude/Faults.antt =====
-- Code that can stop the process, or whose behaviour C++ leaves undefined.

pub data Fault : Type 0 where
  -- a division or a remainder by zero
  divide_by_zero : Fault
  -- a field of a null pointer
  null_pointer : Fault
  -- an object that was destroyed
  use_after_free : Fault
  -- an element outside an array
  out_of_range : Fault
  -- `abort()`, `exit()` or an exception that the code throws
  aborted : Fault
  -- the model's bound on a loop was too small
  out_of_fuel : Fault

pub data Result {ℓ} (A : Type ℓ) : Type ℓ where
  ok : A → Result A
  fault : Fault → Result A

-- What follows a step runs only if the step succeeds.
module _ {ℓ κ} {A : Type ℓ} {B : Type κ} where
  infixl 5 ◌>>=◌
  abbrev pub ◌>>=◌ : Result A → (A → Result B) → Result B
  m >>= next = elim m [ fault e ↦ fault e | ok a ↦ next a ]
