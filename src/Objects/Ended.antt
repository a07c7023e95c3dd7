-- ===== src/Objects/Ended.antt =====
-- What `destroy` does in the process that owns the node.
use coin_data.Prelude.{
  ℕ, ◌≡◌, true, false, none, some, ok, fault, Fault, ◌≢◌, arith, ◌>>=◌, ◌==◌, if◌then◌else◌, lookup,
  emplace, erase, insert_or_assign, nat_key, lookup-erase, lookup-insert_or_assign, length,
  sub_size,
}
use coin_data.Objects.{
  ObjectInfo, ShmSystemSharedInfo, Shared, Retention, Mapping, ExtNodeMapItem, Manager, read_node,
  read_segment, read_info, read_retention, write_info, write_segment, write_node, write_retention,
  has_shared_object, is_linked, lock_object,
}
use coin_data.Objects.Create.{release_object, destroy_info}
use coin_data.Objects.Destroy.{clear_shm_obj_remove_map, forget, retire, map_size, destroy}
use coin_data.Objects.Owner.{IsOpen}
use coin_data.Objects.Cleared.{IsSound, Clears, clear_entries-Clears}
use coin_data.Objects.Entries.{Absent, AreMine, is_dropped, kept_entries, is_dropped-Absent}
use coin_data.Objects.Marked.{marked, marked-IsSound, AreMine-insert, is_dropped-insert}

-- The owner's manager and memory before `destroy` of a name that it has: the object, its retention,
-- which somebody else points at too, and removed objects of this process, each with an info of its
-- own.
pub record IsReady (m : Manager) (sh : Shared) (item : ExtNodeMapItem) (map : Mapping)
    (s : ShmSystemSharedInfo) (name r p : ℕ) (x : Retention) (i : ObjectInfo) : Type 0 where
  pub opened : IsOpen m sh item map s
  pub listed : lookup name item.obj_list ≡ some r
  pub retention : lookup r m.retentions ≡ some x
  pub shared : x.users ≢ 0
  pub named : lookup name s.shm_obj_map ≡ some p
  pub info : lookup p sh.infos ≡ some i
  pub sound : IsSound sh
  pub mine : AreMine m.self_pid s.shm_obj_removed_map sh.infos
  pub absent : Absent p s.shm_obj_removed_map

-- The node and the manager after `forget`
unfoldable pub forgotten_node : ℕ → ℕ → ExtNodeMapItem → ExtNodeMapItem
forgotten_node name r item = record item {
  obj_list = erase name item.obj_list;
  obj_removed_list = emplace name r item.obj_removed_list;
}

unfoldable pub forgotten : ℕ → ℕ → Retention → ExtNodeMapItem → Manager → Manager
unfolding forgotten_node
forgotten name r x item m = record m {
  node_map = insert_or_assign m.self_node (forgotten_node name r item) m.node_map;
  retentions = insert_or_assign r (record x { ptr = none; link = none }) m.retentions;
}

module _ (removed_key : ℕ → ℕ → ℕ) (time : ℕ) (m : Manager) (sh : Shared) (item : ExtNodeMapItem)
    (map : Mapping) (s : ShmSystemSharedInfo) (name r p : ℕ) (x : Retention) (i : ObjectInfo)
    (h : IsReady m sh item map s name r p x i) where
  forget-listed : forget name m ≡ ok (forgotten name r x item m)
  unfolding forget forgotten read_node read_retention write_node write_retention
  forget-listed = ground (arith, h.opened.node, h.listed, h.retention, h.shared)

  -- The memory after the clearing, before the segment is written
  cleared :
      (sh1 : Shared) × Clears m.self_pid s.shm_obj_removed_map (write_info p (marked i) sh) sh1
  unfolding write_info
  cleared =
      clear_entries-Clears m.self_pid s.shm_obj_removed_map (write_info p (marked i) sh)
        (marked-IsSound p i sh h.sound h.info)
        (AreMine-insert m.self_pid p (marked i) s.shm_obj_removed_map sh.infos h.absent h.mine)

  -- The segment after the clearing
  kept_segment : ShmSystemSharedInfo
  kept_segment = record s {
    shm_obj_removed_map =
        kept_entries s.shm_obj_removed_map (insert_or_assign p (marked i) sh.infos);
  }

  cleared-info : lookup p (cleared.0).infos ≡ some (marked i)
  unfolding write_info
  cleared-info = ground (
    arith,
    (cleared.1).infos p,
    is_dropped-Absent p s.shm_obj_removed_map (insert_or_assign p (marked i) sh.infos) h.absent,
    lookup-insert_or_assign p p (marked i) sh.infos,
  )

  cleared-object : lookup i.obj_ptr (cleared.0).objects ≡ some i.type_name
  unfolding write_info marked
  cleared-object = ground (
    arith,
    (cleared.1).objects p (marked i),
    is_dropped-Absent p s.shm_obj_removed_map (insert_or_assign p (marked i) sh.infos) h.absent,
    lookup-insert_or_assign p p (marked i) sh.infos,
  )

  -- The memory after the clearing
  tidied : Shared
  tidied = record (cleared.0) { segments = insert_or_assign map.segment kept_segment sh.segments }

  clear-tidied :
      clear_shm_obj_remove_map
        (forgotten_node name r item)
        (forgotten name r x item m)
        (write_info p (marked i) sh)
      ≡ ok tidied
  unfolding clear_shm_obj_remove_map forgotten_node forgotten read_segment write_segment write_info
      kept_segment tidied
  clear-tidied =
      ground (arith, h.opened.mapping, h.opened.segment, (cleared.1).result, (cleared.1).segments)

  destroy-retire : destroy removed_key time name m sh ≡ (
      retire removed_key time name p (forgotten_node name r item) tidied >>= λ sh2.
      map_size (forgotten_node name r item) sh2 (forgotten name r x item m) >>= λ m2.
      ok (true, m2, sh2))
  unfolding destroy read_node read_segment read_info forgotten forgotten_node marked
  destroy-retire = ground (
    arith,
    forget-listed,
    h.opened.mapping,
    h.opened.segment,
    h.named,
    h.info,
    clear-tidied,
    lookup-insert_or_assign m.self_node m.self_node (forgotten_node name r item) m.node_map,
  )

  -- What `destroy` leaves of the segment, the infos and the objects
  last_segment : ShmSystemSharedInfo
  unfolding kept_segment
  last_segment =
      if i.ref_cnt == 1
      then record kept_segment { shm_obj_map = erase name s.shm_obj_map }
      else record kept_segment {
        shm_obj_map = erase name s.shm_obj_map;
        shm_obj_removed_map = emplace (removed_key name time) p kept_segment.shm_obj_removed_map;
        update_time = time;
      }

  last : Shared
  last = elim (i.ref_cnt == 1) [
    | true ↦ record {
      segments = insert_or_assign map.segment last_segment tidied.segments;
      infos = erase p (cleared.0).infos;
      objects = erase i.obj_ptr (cleared.0).objects;
    }
    | false ↦ record {
      segments = insert_or_assign map.segment last_segment tidied.segments;
      infos =
          insert_or_assign p (record (marked i) { ref_cnt = sub_size i.ref_cnt 1 })
            (cleared.0).infos;
      objects = (cleared.0).objects;
    }
  ]

  retire-last : retire removed_key time name p (forgotten_node name r item) tidied ≡ ok last
  unfolding retire read_info read_segment release_object destroy_info write_info write_segment
      tidied last last_segment forgotten_node kept_segment marked
  retire-last = ground (
    arith,
    h.opened.mapping,
    cleared-info,
    cleared-object,
    lookup-insert_or_assign map.segment map.segment kept_segment sh.segments,
  )

  last_manager : Manager
  last_manager = record (forgotten name r x item m) {
    shm_obj_map_size = length (erase name s.shm_obj_map);
  }

  destroy-last : destroy removed_key time name m sh ≡ ok (true, last_manager, last)
  unfolding map_size read_segment forgotten_node last last_segment last_manager kept_segment
  destroy-last = ground (
    arith,
    destroy-retire,
    retire-last,
    h.opened.mapping,
    lookup-insert_or_assign map.segment map.segment last_segment tidied.segments,
  )

  -- `destroy` of an object that the node has and whose retention is in use elsewhere in the
  -- process, with removed objects of this process that each have an info of their own, and every
  -- info a living object of its own, returns true. The name is gone and the retention no longer
  -- leads to the object. If the owner's reference was the last one the info and the object are
  -- gone; if not the info stays with one reference less, marked as destroyed, and so does the
  -- object. Every removed object without references is released.
  pub destroy-ended :
      (m' : Manager) × (sh' : Shared) × (destroy removed_key time name m sh ≡ ok (true, m', sh'))
      × (has_shared_object name m' sh' ≡ ok false)
      × (lock_object r m' sh' ≡ ok false)
      × (lookup p sh'.infos ≡ (
          if i.ref_cnt == 1
          then none
          else some (record i { is_destroy = true; ref_cnt = sub_size i.ref_cnt 1 })))
      × (lookup i.obj_ptr sh'.objects ≡ (if i.ref_cnt == 1 then none else some i.type_name))
      × ((q : ℕ) → is_dropped q s.shm_obj_removed_map sh.infos ≡ true → lookup q sh'.infos ≡ none)
  unfolding last last_segment last_manager forgotten forgotten_node has_shared_object lock_object
      is_linked read_node read_segment read_retention marked write_info kept_segment
  destroy-ended = (
    last_manager,
    last,
    destroy-last,
    ground (
      arith,
      h.opened.mapping,
      lookup-insert_or_assign m.self_node m.self_node (forgotten_node name r item) m.node_map,
      lookup-insert_or_assign map.segment map.segment last_segment tidied.segments,
      lookup-erase name name s.shm_obj_map,
    ),
    ground (arith, lookup-insert_or_assign r r (record x { ptr = none; link = none }) m.retentions),
    ground (
      arith,
      lookup-erase p p (cleared.0).infos,
      lookup-insert_or_assign p p (record (marked i) { ref_cnt = sub_size i.ref_cnt 1 })
          (cleared.0).infos,
    ),
    ground (arith, cleared-object, lookup-erase i.obj_ptr i.obj_ptr (cleared.0).objects),
    λ q d. ground (
      arith,
      d,
      (cleared.1).infos q,
      is_dropped-insert p q (marked i) s.shm_obj_removed_map sh.infos h.absent,
      is_dropped-Absent p s.shm_obj_removed_map sh.infos h.absent,
      lookup-erase p q (cleared.0).infos,
      lookup-insert_or_assign p q (record (marked i) { ref_cnt = sub_size i.ref_cnt 1 })
          (cleared.0).infos,
    ),
  )

-- `destroy` of an object whose retention nobody else points at unlocks a mutex that it has destroyed.
pub destroy-unused :
    (removed_key : ℕ → ℕ → ℕ) (time name r : ℕ) (m : Manager) (sh : Shared) (item : ExtNodeMapItem)
    (x : Retention)
    → lookup m.self_node m.node_map ≡ some item
    → lookup name item.obj_list ≡ some r
    → lookup r m.retentions ≡ some x
    → x.users ≡ 0
    → destroy removed_key time name m sh ≡ fault Fault.use_after_free
unfolding destroy forget read_node read_retention
destroy-unused removed_key time name r m sh item x a b c d = ground (arith, a, b, c, d)
