-- ===== src/Objects/Destroy.antt =====
-- The end of a named object: `clear_shm_obj_remove_map_` and `destroy`.
use coin_data.Prelude.{
  ℕ, Bool, true, false, List, [], ◌∷◌, none, some, Result, ok, fault, Fault, ◌>>=◌, ◌==◌, length,
  lookup, emplace, erase, nat_key, sub_size,
}
use coin_data.Objects.{
  ObjectInfo, Shared, ExtNodeMapItem, Manager, read_node, read_segment, read_info, read_retention,
  write_info, write_segment, write_node, write_retention,
}
use coin_data.Objects.Create.{release_object, destroy_info}

-- What `clear_shm_obj_remove_map_` does to an entry without references: the two exceptions, the
-- release function, which destroys the object, and `ObjectInfo::destroy`.
unfoldable pub release_entry : ℕ → ℕ → ObjectInfo → Shared → Result Shared
unfolding release_object destroy_info
release_entry pid p i sh = elim (i.created_pid == pid) [
  | false ↦ fault Fault.aborted
  | true ↦ elim (i.release_func_addr == 0) [
    | true ↦ fault Fault.aborted
    | false ↦ release_object i.obj_ptr sh >>= λ sh'. ok (destroy_info p sh')
  ]
]

-- The loop of `clear_shm_obj_remove_map_` over the entries of the map
unfoldable pub clear_entries : ℕ → List (ℕ × ℕ) → Shared → Result (List (ℕ × ℕ) × Shared)
unfolding read_info release_entry
clear_entries pid [] sh = ok ([], sh)
clear_entries pid ((key, p) ∷ entries) sh = read_info p sh >>= λ i. elim (i.ref_cnt == 0) [
  | true ↦ release_entry pid p i sh >>= λ sh'. clear_entries pid entries sh'
  | false ↦ clear_entries pid entries sh >>= λ (kept, sh'). ok ((key, p) ∷ kept, sh')
]

unfoldable pub clear_shm_obj_remove_map : ExtNodeMapItem → Manager → Shared → Result Shared
unfolding read_segment clear_entries write_segment
clear_shm_obj_remove_map item m sh = read_segment item sh >>= λ s.
    clear_entries m.self_pid s.shm_obj_removed_map sh >>= λ (kept, sh').
    ok (write_segment item (record s { shm_obj_removed_map = kept }) sh')

-- The first block of `destroy`: the node forgets the retention, and remembers it as removed. The
-- map of the node holds one pointer itself. If nobody else points at the retention, `erase` destroys
-- it, and with it the mutex that the block still holds and unlocks at its end.
unfoldable pub forget : ℕ → Manager → Result Manager
unfolding read_node read_retention write_node write_retention
forget name m = read_node m.self_node m >>= λ item. elim (lookup name item.obj_list) [
  | none ↦ ok m
  | some r ↦ read_retention r m >>= λ x. elim (x.users == 0) [
    | true ↦ fault Fault.use_after_free
    | false ↦ ok (
        write_node m.self_node
          (record item {
            obj_list = erase name item.obj_list;
            obj_removed_list = emplace name r item.obj_removed_list;
          })
          (write_retention r (record x { ptr = none; link = none }) m))
  ]
]

-- The lock area of the object in `destroy`, after the clearing: the object is released if the owner's
-- reference is the last one, and is moved to the removed map, under the key that is made of the name
-- and the time, if not.
unfoldable pub retire : (ℕ → ℕ → ℕ) → ℕ → ℕ → ℕ → ExtNodeMapItem → Shared → Result Shared
unfolding read_info read_segment release_object destroy_info write_info write_segment
retire removed_key time name p item sh = read_info p sh >>= λ i. read_segment item sh >>= λ s.
    elim (i.ref_cnt == 1) [
      | true ↦ release_object i.obj_ptr sh >>= λ sh'. ok (
          write_segment item (record s { shm_obj_map = erase name s.shm_obj_map })
            (destroy_info p sh'))
      | false ↦ ok (
          write_segment item
            (record s {
              shm_obj_map = erase name s.shm_obj_map;
              shm_obj_removed_map = emplace (removed_key name time) p s.shm_obj_removed_map;
              update_time = time;
            })
            (write_info p (record i { ref_cnt = sub_size i.ref_cnt 1 }) sh))
    ]

-- The size of the map is written when an entry was erased.
unfoldable pub map_size : ExtNodeMapItem → Shared → Manager → Result Manager
unfolding read_segment
map_size item sh m =
    read_segment item sh >>= λ s. ok (record m { shm_obj_map_size = length s.shm_obj_map })

unfoldable pub destroy : (ℕ → ℕ → ℕ) → ℕ → ℕ → Manager → Shared → Result (Bool × Manager × Shared)
unfolding forget read_node read_segment read_info write_info clear_shm_obj_remove_map retire
    map_size
destroy removed_key time name m sh = forget name m >>= λ m1. read_node m1.self_node m1 >>= λ item.
    read_segment item sh >>= λ s. elim (lookup name s.shm_obj_map) [
      | none ↦ ok (true, m1, sh)
      | some p ↦ read_info p sh >>= λ i.
          clear_shm_obj_remove_map item m1 (write_info p (record i { is_destroy = true }) sh)
          >>= λ sh1. retire removed_key time name p item sh1 >>= λ sh2.
              map_size item sh2 m1 >>= λ m2. ok (true, m2, sh2)
    ]
