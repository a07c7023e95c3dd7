-- ===== src/NodeMonitor/Tests.antt =====
-- One node under watch and one waited for.
use coin_data.Prelude.{ℕ, ◌≡◌, ◌≢◌, refl, [], ◌∷◌, some, none, arith, ok, lookup, nat_key}
use coin_data.NodeMonitor.{NodeWatcher, Monitor, find_name, find_id, on_create}
use coin_data.NodeMonitor.Lifecycle.{IsOrdered, on_create-IsOrdered}

abbrev camera : NodeWatcher
camera = record { name = 10; callbacks = 100 }

abbrev monitor : Monitor
monitor = record { by_name = (10, 1) ∷ []; by_wd = (1, camera) ∷ []; waiting = (20, 200) ∷ [] }

monitor-IsOrdered : IsOrdered monitor
unfolding find_name find_id lookup
monitor-IsOrdered = record {
  forth = λ f k e. ground (arith, e);
  back = λ f k e. ground (arith, e);
  apart = λ f k e. ground (arith, e);
}

waits : lookup 20 monitor.waiting ≡ some 200
unfolding lookup
waits = refl

second_is_fresh : find_id 2 monitor ≡ none
unfolding find_id lookup
second_is_fresh = refl

watched : lookup 1 monitor.by_wd ≡ some camera
unfolding lookup
watched = refl

found : find_name 10 monitor ≡ some 1
unfolding find_name lookup
found = refl

on_create-IsOrdered_example :
    (m' : Monitor) × (on_create (some 2) 20 monitor ≡ ok m')
    × IsOrdered m'
    × (find_name 20 m' ≡ some 2)
    × (lookup 2 m'.by_wd ≡ some (record { name = 20; callbacks = 200 }))
    × (lookup 20 m'.waiting ≡ none)
    × ((other : ℕ)
        → other ≢ 20
        → (find_name other m' ≡ find_name other monitor)
          × (lookup other m'.waiting ≡ lookup other monitor.waiting))
    × ((k : ℕ) → k ≢ 2 → lookup k m'.by_wd ≡ lookup k monitor.by_wd)
on_create-IsOrdered_example =
    on_create-IsOrdered 2 20 200 monitor monitor-IsOrdered waits second_is_fresh
