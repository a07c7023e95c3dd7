-- ===== src/Objects/Discovery.antt =====
-- Finding an object of a node: `discovery_ext_map_`, `discovery_shm_` and `discovery`.
use coin_data.Prelude.{
  ℕ, Bool, true, false, List, [], ◌∷◌, Option, none, some, Result, ok, fault, Fault, ◌>>=◌, lookup,
  emplace, nat_key, add_size,
}
use coin_data.Objects.{
  Shared, Mapping, ExtNodeMapItem, Manager, read_info, read_retention, write_info, write_node,
  write_retention,
}
use coin_data.Objects.Create.{hand_out}

unfoldable pub discovery_ext_map : ℕ → ℕ → Manager → Option ℕ
discovery_ext_map node key m = elim (lookup node m.node_map) [
  | none ↦ none
  | some item ↦ elim (lookup key item.obj_list) [
    | some r ↦ some r
    | none ↦ lookup key item.obj_removed_list
  ]
]

-- A file in the directory of a node whose name is a number: whether its process lives, whether it is
-- valid, the mapping that attaching it makes, and whether the memory it is read through is in use.
pub record NodeFile : Type 0 where
  pub is_alive : Bool
  pub is_valid : Bool
  pub mapping : Mapping
  pub is_busy : Bool

-- The mapping that a file is read through: the one that the node has, or a new one, which the node
-- keeps if it is in the map.
unfoldable pub attach : ℕ → Mapping → Manager → Mapping × Manager
unfolding write_node
attach node new m = elim (lookup node m.node_map) [
  | none ↦ (new, m)
  | some item ↦ elim item.shared_info [
    | none ↦ (new, write_node node (record item { shared_info = some new }) m)
    | some old ↦ (old, m)
  ]
]

-- The retention that a discovered object gets: the one that was given, or a new one of the base class
unfoldable pub relink : ℕ → ℕ → Option ℕ → ℕ → Mapping → Manager → Result (ℕ × Manager)
unfolding read_retention write_retention
relink node p given fresh map m = elim given [
  | none ↦ ok (
    fresh,
    write_retention fresh
        (record { node_name = node; ptr = some p; kind = none; link = some map.handle; users = 0 })
        m,
  )
  | some r ↦ read_retention r m >>= λ x.
      ok (
        r,
        write_retention r (record x { node_name = node; ptr = some p; link = some map.handle }) m,
      )
]

-- The node's own mapping and lists, or those of a node that is put on record now
unfoldable pub node_for : ℕ → Mapping → Manager → ExtNodeMapItem
node_for node map m = elim (lookup node m.node_map) [
  | none ↦ record { shared_info = some map; obj_list = []; obj_removed_list = [] }
  | some item ↦ item
]

-- The lock area of `discovery_shm_`
unfoldable pub take_object :
    ℕ → ℕ → Option ℕ → ℕ → Mapping → Manager → Shared → Result (Option ℕ × Manager × Shared)
unfolding read_info write_info relink node_for write_node
take_object node key given fresh map m sh = elim (lookup map.segment sh.segments) [
  | none ↦ fault Fault.use_after_free
  | some s ↦ elim (lookup key s.shm_obj_map) [
    | none ↦ ok (none, m, sh)
    | some p ↦ read_info p sh >>= λ i. relink node p given fresh map m >>= λ (r, m1).
        let item = node_for node map m in
        ok (
          some r,
          write_node node (record item { obj_list = emplace key r item.obj_list }) m1,
          write_info p (record i { ref_cnt = add_size i.ref_cnt 1 }) sh,
        )
  ]
]

-- The loop of `discovery_shm_` over the files of a node
unfoldable pub discovery_shm :
    List NodeFile → ℕ → ℕ → Option ℕ → ℕ → Manager → Shared → Result (Option ℕ × Manager × Shared)
unfolding attach take_object
discovery_shm [] node key given fresh m sh = ok (none, m, sh)
discovery_shm (file ∷ files) node key given fresh m sh = elim (file.is_alive) [
  | false ↦ discovery_shm files node key given fresh m sh
  | true ↦ elim (file.is_valid) [
    | false ↦ discovery_shm files node key given fresh m sh
    | true ↦
        let (map, m1) = attach node file.mapping m in
        elim (file.is_busy) [
          | false ↦ discovery_shm files node key given fresh m1 sh
          | true ↦ take_object node key given fresh map m1 sh >>= λ (found, m2, sh2). elim found [
            | some r ↦ ok (some r, m2, sh2)
            | none ↦ discovery_shm files node key given fresh m2 sh2
          ]
        ]
  ]
]

-- The retention without an object that is kept for a name that was found nowhere
unfoldable pub wait_for : ℕ → ℕ → ℕ → ℕ → Manager → Manager
unfolding write_node write_retention
wait_for tname node key fresh m =
    let item : ExtNodeMapItem = elim (lookup node m.node_map) [
      | none ↦ record { shared_info = none; obj_list = []; obj_removed_list = [] }
      | some item ↦ item
    ] in
    write_node node (record item { obj_removed_list = emplace key fresh item.obj_removed_list })
      (write_retention fresh
        (record { node_name = node; ptr = none; kind = some tname; link = none; users = 0 }) m)

unfoldable pub discovery :
    List NodeFile → ℕ → ℕ → ℕ → ℕ → Manager → Shared → Result (ℕ × Manager × Shared)
unfolding discovery_ext_map discovery_shm wait_for hand_out
discovery files tname node key fresh m sh = elim (discovery_ext_map node key m) [
  | some r ↦ hand_out r m >>= λ m1. ok (r, m1, sh)
  | none ↦ discovery_shm files node key none fresh m sh >>= λ (found, m1, sh1). elim found [
    | some r ↦ hand_out r m1 >>= λ m2. ok (r, m2, sh1)
    | none ↦ hand_out fresh (wait_for tname node key fresh m1) >>= λ m2. ok (fresh, m2, sh1)
  ]
]
