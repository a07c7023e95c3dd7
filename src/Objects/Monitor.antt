-- ===== src/Objects/Monitor.antt =====
-- What the manager does by itself: `node_monitor_`, when a process ends, and
-- `inotify_shared_object_monitor_`, when the map of a node has changed.
use coin_data.Prelude.{
  ℕ, Bool, true, false, List, [], ◌∷◌, none, some, Result, ok, fault, Fault, ◌>>=◌, lookup, emplace,
  erase, nat_key, sub_size,
}
use coin_data.Objects.{
  ObjectInfo, Shared, Retention, ExtNodeMapItem, Manager, read_node, read_segment, read_info,
  read_retention, write_info, write_node, write_retention,
}
use coin_data.Objects.Discovery.{NodeFile, discovery_shm}

-- The object that a retention points at; the code does not ask whether there is one.
unfoldable pub read_ptr : Retention → Shared → Result (ℕ × ObjectInfo)
unfolding read_info
read_ptr x sh = elim x.ptr [
  | none ↦ fault Fault.null_pointer
  | some p ↦ read_info p sh >>= λ i. ok (p, i)
]

-- `release_shared_obj_` of `node_monitor_`, for the retention of one name
unfoldable pub release_shared_obj : ℕ → Manager → Shared → Result (Manager × Shared)
unfolding read_retention read_ptr write_info write_retention
release_shared_obj r m sh = read_retention r m >>= λ x. read_ptr x sh >>= λ (p, i). ok (
  write_retention r (record x { link = none }) m,
  write_info p (record i { ref_cnt = sub_size i.ref_cnt 1; is_destroy = true }) sh,
)

-- The loop over `obj_list` of a node whose process has ended; the result is `obj_removed_list`.
unfoldable pub release_list :
    List (ℕ × ℕ) → List (ℕ × ℕ) → Manager → Shared → Result (List (ℕ × ℕ) × Manager × Shared)
unfolding release_shared_obj
release_list [] removed m sh = ok (removed, m, sh)
release_list ((name, r) ∷ objs) removed m sh =
    release_shared_obj r m sh >>= λ (m1, sh1). release_list objs (emplace name r removed) m1 sh1

-- One node in a turn of `node_monitor_`; `kill` says which processes have ended.
unfoldable pub check_node : (ℕ → Bool) → ℕ → Manager → Shared → Result (Manager × Shared)
unfolding read_node read_segment release_list write_node
check_node has_ended node m sh = read_node node m >>= λ item. elim item.shared_info [
  | none ↦ ok (m, sh)
  | some map ↦ read_segment item sh >>= λ s. elim (has_ended s.self_pid) [
    | false ↦ ok (m, sh)
    | true ↦ release_list item.obj_list item.obj_removed_list m sh >>= λ (removed, m1, sh1). ok (
      write_node node (record { shared_info = none; obj_list = []; obj_removed_list = removed }) m1,
      sh1,
    )
  ]
]

-- A turn of `node_monitor_`, given the names of the nodes in the map
unfoldable pub node_monitor :
    (ℕ → Bool) → List (ℕ × ExtNodeMapItem) → Manager → Shared → Result (Manager × Shared)
unfolding check_node
node_monitor has_ended [] m sh = ok (m, sh)
node_monitor has_ended ((node, item) ∷ nodes) m sh =
    check_node has_ended node m sh >>= λ (m1, sh1). node_monitor has_ended nodes m1 sh1

-- The first loop of the event: the names that were removed are looked for once more, and are no
-- longer removed when they are found. The argument `removed` is what is left of the loop.
unfoldable pub find_again :
    List NodeFile → ℕ → List (ℕ × ℕ) → Manager → Shared → Result (Manager × Shared)
unfolding discovery_shm read_node write_node
find_again files node [] m sh = ok (m, sh)
find_again files node ((key, r) ∷ removed) m sh =
    discovery_shm files node key (some r) r m sh >>= λ (found, m1, sh1). elim found [
      | none ↦ find_again files node removed m1 sh1
      | some _ ↦ read_node node m1 >>= λ item.
          find_again files node removed
            (write_node node (record item { obj_removed_list = erase key item.obj_removed_list })
              m1)
            sh1
    ]

-- The second loop: an object that was destroyed loses the node's reference, and its retention is kept
-- as removed. The lists after the loop are part of the result.
unfoldable pub drop_destroyed :
    List (ℕ × ℕ) → List (ℕ × ℕ) → Manager → Shared → Result (List (ℕ × ℕ) × List (ℕ × ℕ) × Shared)
unfolding read_retention read_ptr write_info
drop_destroyed [] removed m sh = ok ([], removed, sh)
drop_destroyed ((key, r) ∷ objs) removed m sh = read_retention r m >>= λ x.
    read_ptr x sh >>= λ (p, i). elim i.is_destroy [
      | true ↦
          drop_destroyed objs (emplace key r removed) m
            (write_info p (record i { ref_cnt = sub_size i.ref_cnt 1 }) sh)
      | false ↦ drop_destroyed objs removed m sh >>= λ (kept, removed', sh').
          ok ((key, r) ∷ kept, removed', sh')
    ]

-- The event for a node, once its name was read from the event
unfoldable pub inotify_shared_object_monitor :
    List NodeFile → ℕ → Manager → Shared → Result (Manager × Shared)
unfolding find_again drop_destroyed read_node write_node
inotify_shared_object_monitor files node m sh = elim (lookup node m.node_map) [
  | none ↦ ok (m, sh)
  | some item ↦ find_again files node item.obj_removed_list m sh >>= λ (m1, sh1).
      read_node node m1 >>= λ item1.
      drop_destroyed item1.obj_list item1.obj_removed_list m1 sh1 >>= λ (objs, removed, sh2).
      ok (write_node node (record item1 { obj_list = objs; obj_removed_list = removed }) m1, sh2)
]
