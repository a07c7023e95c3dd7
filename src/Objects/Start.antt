-- ===== src/Objects/Start.antt =====
-- `init` of the manager and its destructor.
use coin_data.Prelude.{
  ℕ, ◌≡◌, refl, Bool, false, [], none, some, Result, ok, ◌>>=◌, arith, lookup, emplace,
  insert_or_assign, nat_key, if◌then◌else◌, lookup-emplace, lookup-insert_or_assign,
}
use coin_data.Objects.{
  ShmSystemSharedInfo, Shared, Mapping, ExtNodeMapItem, Manager, read_node, read_segment,
  write_segment, has_shared_object,
}
use coin_data.Objects.Owner.{IsOpen}

abbrev pub new_segment : ℕ → ShmSystemSharedInfo
new_segment pid = record {
  self_pid = pid;
  shm_obj_map = [];
  shm_obj_removed_map = [];
  update_time = 0;
}

-- `init`, given the mapping of the new segment; the files of dead processes are removed before.
unfoldable pub init_manager : ℕ → Mapping → Manager → Shared → Manager × Shared
init_manager node map m sh = (
  record m {
    self_node = node;
    node_map =
        emplace node (record { shared_info = some map; obj_list = []; obj_removed_list = [] })
          m.node_map;
  },
  record sh { segments = insert_or_assign map.segment (new_segment m.self_pid) sh.segments },
)

-- The destructor of `ShmObjManager`; the map is dropped unless another process uses the memory.
unfoldable pub close_manager : Bool → Manager → Shared → Result (Manager × Shared)
unfolding read_node read_segment write_segment
close_manager is_busy m sh =
    if is_busy
    then ok (m, sh)
    else (read_node m.self_node m >>= λ item. read_segment item sh >>= λ s.
        ok (
          record m { shm_obj_map_size = 0 },
          write_segment item (record s { shm_obj_map = [] }) sh,
        ))

-- After `init` of a node that is not in the map the manager is attached to a segment without objects.
pub init_manager-IsOpen :
    (node name : ℕ) (map : Mapping) (m : Manager) (sh : Shared)
    → lookup node m.node_map ≡ none
    → IsOpen
        (init_manager node map m sh).0
        (init_manager node map m sh).1
        (record { shared_info = some map; obj_list = []; obj_removed_list = [] })
        map
        (new_segment m.self_pid)
      × (has_shared_object name (init_manager node map m sh).0 (init_manager node map m sh).1
          ≡ ok false)
unfolding init_manager has_shared_object read_node read_segment lookup
init_manager-IsOpen node name map m sh e =
    let item : ExtNodeMapItem = record {
      shared_info = some map;
      obj_list = [];
      obj_removed_list = [];
    } in
    (
      record {
        node = ground (arith, e, lookup-emplace node node item m.node_map e);
        mapping = refl;
        segment = ground (
          arith,
          lookup-insert_or_assign map.segment map.segment (new_segment m.self_pid) sh.segments,
        );
      },
      ground (
        arith,
        e,
        lookup-emplace node node item m.node_map e,
        lookup-insert_or_assign map.segment map.segment (new_segment m.self_pid) sh.segments,
      ),
    )
