-- ===== src/Ret.antt =====
-- Results with a reason: `Ret` of src/coin-commons/utils/ret.hpp, with `Ret<bool>` in Flag. The call
-- with a value and a flag cannot be compiled, as it returns the flag for the result, and is left out.
pub mod Flag
use coin_data.Prelude.{◌≡◌, refl, Bool, true, false, ◌&&◌, [], ◌++◌, not, if◌then◌else◌}
use coin_data.Strings.{Text}

pub record Ret (A : Type 0) : Type 0 where
  pub value : A
  pub ret : Bool
  pub reason : Text

module _ {A : Type 0} where
  -- `Ret(v, ret, reason)`
  abbrev pub make : A → Bool → Text → Ret A
  make v ret reason = record { value = v; ret = ret; reason = reason }

  -- `Ret(v, reason)`
  abbrev pub make_reason : A → Text → Ret A
  make_reason v reason = record { value = v; ret = false; reason = reason }

  -- `operator=` of a value
  abbrev pub set_value : Ret A → A → Ret A
  set_value r v = record { value = v; ret = false; reason = [] }

  -- `operator=` of a result: the flag is copied twice.
  abbrev pub assign : Ret A → Ret A → Ret A
  assign this r = record this { value = r.value; ret = r.ret }

  -- `operator()` of a flag and a reason
  abbrev pub call : Ret A → Bool → Text → Ret A
  call r ret reason = record r { ret = ret; reason = r.reason ++ reason }

  -- `operator==` of two results; `beq` is that of the values.
  abbrev pub is_same : (A → A → Bool) → Ret A → Ret A → Bool
  is_same beq a b = if beq a.value b.value then (if a.ret then b.ret else not b.ret) else false

  abbrev pub clear_reason : Ret A → Ret A
  clear_reason r = record r { reason = [] }

  -- `operator<<`
  abbrev pub add_reason : Ret A → Text → Ret A
  add_reason r s = record r { reason = r.reason ++ s }

  -- After an assignment the two count as the same, and the reason is still the old one.
  assign-is_same :
      (beq : A → A → Bool) (this r : Ret A)
      → beq r.value r.value ≡ true
      → (is_same beq (assign this r) r ≡ true) × ((assign this r).reason ≡ this.reason)
  assign-is_same beq this r same = (flags r.ret, refl)
    where
      flags : (b : Bool) → (if beq r.value r.value then (if b then b else not b) else false) ≡ true
      flags true = rw same refl
      flags false = rw same refl
