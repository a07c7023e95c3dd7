-- ===== src/Runtime/Tests.antt =====
-- A process with one function of each kind.
use coin_data.Prelude.{true, [], ◌∷◌}
use coin_data.Runtime.{Runtime}

abbrev runtime : Runtime
runtime = record {
  is_ok = true;
  init_funcs = 1 ∷ [];
  ok_funcs = [];
  exit_funcs = 2 ∷ [];
  spin_funcs = 3 ∷ [];
  calls = [];
}
