-- ===== src/Ret/Flag.antt =====
-- `Ret<bool>` of src/coin-commons/utils/ret.hpp: its value is the flag.
use coin_data.Prelude.{Bool, not, [], ◌++◌, if◌then◌else◌}
use coin_data.Strings.{Text}

pub record RetBool : Type 0 where
  pub value : Bool
  pub reason : Text

abbrev pub set_value : RetBool → Bool → RetBool
set_value r v = record { value = v; reason = [] }

abbrev pub assign : RetBool → RetBool → RetBool
assign this r = r

abbrev pub call : RetBool → Bool → Text → RetBool
call r v reason = record { value = v; reason = r.reason ++ reason }

abbrev pub is_same : RetBool → RetBool → Bool
is_same a b = if a.value then b.value else not b.value

abbrev pub clear_reason : RetBool → RetBool
clear_reason r = record r { reason = [] }

abbrev pub add_reason : RetBool → Text → RetBool
add_reason r s = record r { reason = r.reason ++ s }
