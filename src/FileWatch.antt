-- ===== src/FileWatch.antt =====
-- `INotifyMonitor` of src/coin-data/local/impl/shmobj_manager.cpp: the two maps between files and watch
-- descriptors. A file is a number here; what `inotify_add_watch` returns is an argument, none if it
-- fails.
pub mod Pairing
pub mod Tests
use coin_data.Prelude.{
  ℕ, Bool, true, false, List, [], ◌∷◌, Option, none, some, lookup, emplace, erase, nat_key,
}

pub record Watches : Type 0 where
  -- `inotify_map_`
  pub by_file : List (ℕ × ℕ)
  -- `inotify_map_rev_`
  pub by_wd : List (ℕ × ℕ)

unfoldable pub add_watch : Option ℕ → ℕ → Watches → Bool × Watches
add_watch wd file w = elim (lookup file w.by_file) [
  | some d ↦ (false, w)
  | none ↦ elim wd [
    | none ↦ (false, w)
    | some d ↦ (true, record { by_file = emplace file d w.by_file; by_wd = emplace d file w.by_wd })
  ]
]

unfoldable pub remove_file : ℕ → Watches → Bool × Watches
remove_file file w = elim (lookup file w.by_file) [
  | none ↦ (false, w)
  | some d ↦ (true, record { by_file = erase file w.by_file; by_wd = erase d w.by_wd })
]

unfoldable pub remove_wd : ℕ → Watches → Bool × Watches
remove_wd wd w = elim (lookup wd w.by_wd) [
  | none ↦ (false, w)
  | some file ↦ (true, record { by_file = erase file w.by_file; by_wd = erase wd w.by_wd })
]

-- `find` of a descriptor; the code gives an empty string for none.
unfoldable pub find_wd : ℕ → Watches → Option ℕ
find_wd wd w = lookup wd w.by_wd

-- `find` of a file; the code gives -1 for none.
unfoldable pub find_file : ℕ → Watches → Option ℕ
find_file file w = lookup file w.by_file
