-- ===== src/Runtime/Laws.antt =====
-- When the process counts as running.
use coin_data.Prelude.{ℕ, ◌≡◌, ◌≢◌, refl, false, List, [], ◌∷◌, ◌++◌, arith}
use coin_data.Runtime.{Runtime, register_ok, register_exit, is_running, shutdown}

snoc_not_empty : (xs : List ℕ) (x : ℕ) → (xs ++ x ∷ []) ≢ []
snoc_not_empty [] x e = cc
snoc_not_empty (y ∷ ys) x e = cc

-- After a function that is not empty was registered with `register_ok`, `ok` is false whatever the
-- function says; it is false after `shutdown` too, which calls the functions of `register_exit` in
-- the order in which they were registered.
pub is_running-false :
    (func : ℕ) (r : Runtime)
    → func ≢ 0
    → (is_running (register_ok func r) ≡ false)
      × (is_running (shutdown r) ≡ false)
      × ((shutdown (register_exit func r)).calls ≡ r.calls ++ (r.exit_funcs ++ func ∷ []))
unfolding is_running register_ok register_exit shutdown
is_running-false func r n =
    (ground (arith, n, snoc_not_empty r.ok_funcs func), refl, ground (arith, n))
