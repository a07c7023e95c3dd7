-- ===== src/NodeMonitor.antt =====
-- `NodeMonitor` of src/coin-data/node/node.cpp: the nodes under watch, those that are waited for, and
-- the events. A name, and the map of callbacks of a node, are numbers; what `inotify_add_watch` returns
-- is an argument, none if it fails.
pub mod Lifecycle
pub mod Tests
use coin_data.Prelude.{
  ℕ, Bool, true, false, List, [], ◌∷◌, Option, none, some, Result, ok, fault, Fault, lookup,
  emplace, erase, nat_key, if◌then◌else◌,
}

-- `NodeWatcher`
pub record NodeWatcher : Type 0 where
  pub name : ℕ
  pub callbacks : ℕ

pub record Monitor : Type 0 where
  -- `inotify_map_`
  pub by_name : List (ℕ × ℕ)
  -- `inotify_map_rev_`
  pub by_wd : List (ℕ × NodeWatcher)
  -- `wait_node_callback_map_`
  pub waiting : List (ℕ × ℕ)

-- `find` of a name; the code gives -1 for none.
unfoldable pub find_name : ℕ → Monitor → Option ℕ
find_name name m = lookup name m.by_name

-- `find` of a descriptor; the code gives an empty string for none.
unfoldable pub find_id : ℕ → Monitor → Option ℕ
find_id wd m = elim (lookup wd m.by_wd) [ none ↦ none | some node ↦ some node.name ]

-- `add_`
unfoldable pub add_watched : Option ℕ → ℕ → ℕ → Monitor → Bool × Monitor
add_watched wd name callbacks m = elim (lookup name m.by_name) [
  | some d ↦ (false, m)
  | none ↦ elim wd [
    | none ↦ (false, m)
    | some d ↦ (
      true,
      record m {
        by_name = emplace name d m.by_name;
        by_wd = emplace d (record { name = name; callbacks = callbacks }) m.by_wd;
      },
    )
  ]
]

-- `add`; `exists` is what `is_node_exist` says.
unfoldable pub add_node : Bool → Option ℕ → ℕ → ℕ → Monitor → Bool × Monitor
add_node exists wd name callbacks m = elim (find_name name m) [
  | some d ↦ (false, m)
  | none ↦ elim (lookup name m.waiting) [
    | some c ↦ (false, m)
    | none ↦
        if exists
        then add_watched wd name callbacks m
        else (true, record m { waiting = emplace name callbacks m.waiting })
  ]
]

-- `remove_`
unfoldable pub remove_watched : ℕ → Monitor → Bool × Monitor
remove_watched name m = elim (lookup name m.by_name) [
  | none ↦ (false, m)
  | some d ↦ (true, record m { by_name = erase name m.by_name; by_wd = erase d m.by_wd })
]

-- `remove` of a name
unfoldable pub remove_node : ℕ → Monitor → Bool × Monitor
remove_node name m =
    let m' = (remove_watched name m).1 in (true, record m' { waiting = erase name m'.waiting })

-- `remove` of a descriptor: after the watcher was erased its name is read once more.
unfoldable pub remove_id : ℕ → Monitor → Result (Bool × Monitor)
remove_id wd m = elim (lookup wd m.by_wd) [
  | none ↦ ok (false, m)
  | some node ↦ fault Fault.use_after_free
]

-- The event `IN_CREATE` in the root: an exception leaves the thread if the node could not be added.
unfoldable pub on_create : Option ℕ → ℕ → Monitor → Result Monitor
on_create wd name m = elim (lookup name m.waiting) [
  | none ↦ fault Fault.aborted
  | some callbacks ↦
      let (r, m') = add_watched wd name callbacks m in
      if r then ok (record m' { waiting = erase name m'.waiting }) else fault Fault.aborted
]

-- The event `destroy` of a watched node.
unfoldable pub on_destroy : ℕ → Monitor → Monitor
on_destroy wd m = elim (lookup wd m.by_wd) [
  | none ↦ m
  | some node ↦
      (remove_watched node.name
        (record m { waiting = emplace node.name node.callbacks m.waiting })).1
]
