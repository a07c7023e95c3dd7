-- ===== src/Runtime.antt =====
-- The functions that libraries register with src/coin-commons/utils/utils.cpp, and `ok`, `shutdown`,
-- `init` and `spin_once`. A function is a number, 0 for an empty one; `calls` are the calls, first to
-- last.
pub mod Laws
pub mod Tests
use coin_data.Prelude.{ℕ, Bool, true, false, List, [], ◌∷◌, ◌++◌, ◌==◌, if◌then◌else◌}

pub record Runtime : Type 0 where
  -- `g_ok_`
  pub is_ok : Bool
  pub init_funcs : List ℕ
  pub ok_funcs : List ℕ
  pub exit_funcs : List ℕ
  pub spin_funcs : List ℕ
  pub calls : List ℕ

abbrev pub push : ℕ → List ℕ → List ℕ
push func funcs = if func == 0 then funcs else funcs ++ func ∷ []

unfoldable pub register_init : ℕ → Runtime → Runtime
register_init func r = record r { init_funcs = push func r.init_funcs }

unfoldable pub register_ok : ℕ → Runtime → Runtime
register_ok func r = record r { ok_funcs = push func r.ok_funcs }

unfoldable pub register_exit : ℕ → Runtime → Runtime
register_exit func r = record r { exit_funcs = push func r.exit_funcs }

unfoldable pub register_spin_once : ℕ → Runtime → Runtime
register_spin_once func r = record r { spin_funcs = push func r.spin_funcs }

-- The calls; the debug setting is left out.
unfoldable pub init : Runtime → Runtime
init r = record r { calls = r.calls ++ r.init_funcs }

-- The loop returns at its first function, which it does not call.
unfoldable pub is_running : Runtime → Bool
is_running r = if r.is_ok then elim r.ok_funcs [ [] ↦ true | f ∷ fs ↦ false ] else false

unfoldable pub shutdown : Runtime → Runtime
shutdown r = record r { calls = r.calls ++ r.exit_funcs; is_ok = false }

unfoldable pub spin_funcs_once : Runtime → Runtime
spin_funcs_once r = record r { calls = r.calls ++ r.spin_funcs }
