-- ===== src/Objects/Owner.antt =====
-- What `create` does in the process that owns the node.
use coin_data.Prelude.{
  ℕ, ◌≡◌, ◌≢◌, true, none, some, ok, arith, lookup, emplace, erase, insert_or_assign, nat_key,
  lookup-emplace, lookup-insert_or_assign, length,
}
use coin_data.Objects.{
  ShmSystemSharedInfo, Shared, Retention, Mapping, ExtNodeMapItem, Manager, read_node, read_segment,
  read_info, read_retention, write_segment, write_node, write_retention, has_shared_object,
  is_linked, lock_object,
}
use coin_data.Objects.Create.{
  Fresh, make_info, make_object, revive, create_new, create, release_func_for,
}

-- The manager has its own node, attached to its segment.
pub record IsOpen (m : Manager) (sh : Shared) (item : ExtNodeMapItem) (map : Mapping)
    (s : ShmSystemSharedInfo) : Type 0 where
  pub node : lookup m.self_node m.node_map ≡ some item
  pub mapping : item.shared_info ≡ some map
  pub segment : lookup map.segment sh.segments ≡ some s

-- `create` of a name that is in none of the node's lists and maps gives a new retention, through
-- which the object can be locked; its info has one reference, this process and the release function
-- of the type; the name is found afterwards, and no other name changes.
pub create-new :
    (fresh : Fresh) (tname name : ℕ) (m : Manager) (sh : Shared) (item : ExtNodeMapItem)
    (map : Mapping) (s : ShmSystemSharedInfo)
    → IsOpen m sh item map s
    → lookup name item.obj_list ≡ none
    → lookup name item.obj_removed_list ≡ none
    → lookup name s.shm_obj_map ≡ none
    → (m' : Manager) × (sh' : Shared) × (create fresh tname name m sh
        ≡ ok (some fresh.retention, m', sh'))
      × (lookup fresh.info sh'.infos ≡ some (make_info fresh tname m))
      × (has_shared_object name m' sh' ≡ ok true)
      × (lock_object fresh.retention m' sh' ≡ ok true)
      × ((other : ℕ) → other ≢ name → has_shared_object other m' sh' ≡ has_shared_object other m sh)
unfolding create create_new revive make_object read_node read_segment has_shared_object lock_object
    is_linked read_info read_retention write_node write_retention write_segment make_info
create-new fresh tname name m sh item map s p a b c =
    let item' : ExtNodeMapItem = record item {
      obj_list = emplace name fresh.retention item.obj_list;
      obj_removed_list = erase name item.obj_removed_list;
    } in
    let objs = emplace name fresh.info s.shm_obj_map in
    let s' : ShmSystemSharedInfo = record s { shm_obj_map = objs; update_time = fresh.time } in
    let x : Retention = record {
      node_name = m.self_node;
      ptr = some fresh.info;
      kind = some tname;
      link = some map.handle;
      users = 1;
    } in
    (
      record m {
        node_map = insert_or_assign m.self_node item' m.node_map;
        retentions = insert_or_assign fresh.retention x m.retentions;
        shm_obj_release_map =
            emplace tname (release_func_for fresh.release_func tname m) m.shm_obj_release_map;
        shm_obj_map_size = length objs;
      },
      record sh {
        segments = insert_or_assign map.segment s' sh.segments;
        objects = insert_or_assign fresh.object tname sh.objects;
        infos = insert_or_assign fresh.info (make_info fresh tname m) sh.infos;
      },
      ground (arith, p.node, p.mapping, p.segment, a, b, c),
      ground
          (arith, lookup-insert_or_assign fresh.info fresh.info (make_info fresh tname m) sh.infos),
      ground (
        arith,
        p.mapping,
        lookup-insert_or_assign m.self_node m.self_node item' m.node_map,
        lookup-insert_or_assign map.segment map.segment s' sh.segments,
        lookup-emplace name name fresh.info s.shm_obj_map c,
      ),
      ground (
        arith,
        p.mapping,
        lookup-insert_or_assign m.self_node m.self_node item' m.node_map,
        lookup-insert_or_assign fresh.retention fresh.retention x m.retentions,
        lookup-insert_or_assign fresh.info fresh.info (make_info fresh tname m) sh.infos,
      ),
      λ other ne. ground (
        arith,
        p.node,
        p.mapping,
        p.segment,
        lookup-insert_or_assign m.self_node m.self_node item' m.node_map,
        lookup-insert_or_assign map.segment map.segment s' sh.segments,
        lookup-emplace name other fresh.info s.shm_obj_map c,
      ),
    )
