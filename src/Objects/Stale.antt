-- ===== src/Objects/Stale.antt =====
-- A retention whose object was destroyed and released by its owner.
use coin_data.Prelude.{
  ℕ, ◌≡◌, ◌≢◌, true, false, List, [], ◌∷◌, some, ok, fault, Fault, arith, lookup, emplace, erase,
  insert_or_assign, nat_key, lookup-erase, lookup-insert_or_assign,
}
use coin_data.Objects.{
  ObjectInfo, Shared, Retention, Mapping, ExtNodeMapItem, Manager, read_node, read_info,
  read_retention, write_info, write_node, is_linked, lock_object,
}
use coin_data.Objects.Create.{release_object, destroy_info}
use coin_data.Objects.Destroy.{release_entry, clear_entries}
use coin_data.Objects.Discovery.{NodeFile}
use coin_data.Objects.Monitor.{find_again, drop_destroyed, read_ptr, inotify_shared_object_monitor}

-- A process has one name for an object of another node whose owner has destroyed it. It cannot lock
-- the object. After the event that drops its reference, which was the last one, and after the owner
-- has cleared its removed objects, locking reads the info that was freed.
pub lock_object-released :
    (m : Manager) (sh : Shared) (files : List NodeFile) (node name key r p : ℕ) (map : Mapping)
    (x : Retention) (i : ObjectInfo)
    → lookup node m.node_map
      ≡ some (record { shared_info = some map; obj_list = (name, r) ∷ []; obj_removed_list = [] })
    → lookup r m.retentions ≡ some x
    → x.node_name ≡ node
    → x.link ≡ some map.handle
    → x.ptr ≡ some p
    → lookup p sh.infos ≡ some i
    → i.is_destroy ≡ true
    → i.ref_cnt ≡ 1
    → i.release_func_addr ≢ 0
    → lookup i.obj_ptr sh.objects ≡ some i.type_name
    → (m1 : Manager) × (sh1 sh2 : Shared) × (lock_object r m sh ≡ ok false)
      × (inotify_shared_object_monitor files node m sh ≡ ok (m1, sh1))
      × (clear_entries i.created_pid ((key, p) ∷ []) sh1 ≡ ok ([], sh2))
      × (lock_object r m1 sh2 ≡ fault Fault.use_after_free)
unfolding inotify_shared_object_monitor find_again drop_destroyed read_ptr read_node read_info
    read_retention write_info write_node clear_entries release_entry release_object destroy_info
    lock_object is_linked
lock_object-released m sh files node name key r p map x i a b c d e f g h k l =
    let item : ExtNodeMapItem = record {
      shared_info = some map;
      obj_list = [];
      obj_removed_list = emplace name r [];
    } in
    let j : ObjectInfo = record i { ref_cnt = 0 } in
    let infos = insert_or_assign p j sh.infos in
    (
      record m { node_map = insert_or_assign node item m.node_map },
      record sh { infos = infos },
      record sh { infos = erase p infos; objects = erase i.obj_ptr sh.objects },
      ground (arith, a, b, c, d, e, f, g),
      ground (arith, a, b, e, f, g, h, lookup-insert_or_assign node node item m.node_map),
      ground (arith, h, k, l, lookup-insert_or_assign p p j sh.infos),
      ground (
        arith,
        b,
        c,
        d,
        e,
        lookup-insert_or_assign node node item m.node_map,
        lookup-erase p p infos,
      ),
    )
