-- ===== src/Objects/Create.antt =====
-- Making and releasing objects: `create`, `make` and `reset`.
use coin_data.Prelude.{
  ℕ, ◌+◌, Bool, true, false, Option, none, some, Result, ok, fault, Fault, ◌>>=◌, ◌==◌, length,
  lookup, insert_or_assign, emplace, erase, nat_key,
}
use coin_data.Objects.{
  ObjectInfo, ShmSystemSharedInfo, Shared, Retention, ExtNodeMapItem, Manager, read_node,
  read_segment, read_info, read_retention, write_segment, write_node, write_retention,
}

-- What the environment gives to a call: addresses that are not in use, and the time.
pub record Fresh : Type 0 where
  pub object : ℕ
  pub info : ℕ
  pub retention : ℕ
  pub release_func : ℕ
  pub time : ℕ

-- The entry of `shm_obj_release_map_` for a type
unfoldable pub release_func_for : ℕ → ℕ → Manager → ℕ
release_func_for fresh tname m = elim (lookup tname m.shm_obj_release_map) [
  | none ↦ fresh
  | some f ↦ f
]

-- `SharedObject::make`, `ObjectInfo::create` and the constructor of `ObjectInfo`
unfoldable pub make_info : Fresh → ℕ → Manager → ObjectInfo
unfolding release_func_for
make_info fresh tname m = record {
  obj_ptr = fresh.object;
  ref_cnt = 1;
  is_destroy = false;
  type_name = tname;
  created_pid = m.self_pid;
  release_func_addr = release_func_for fresh.release_func tname m;
}

unfoldable pub make_object : Fresh → ℕ → Manager → Shared → Shared
unfolding make_info
make_object fresh tname m sh = record sh {
  objects = insert_or_assign fresh.object tname sh.objects;
  infos = insert_or_assign fresh.info (make_info fresh tname m) sh.infos;
}

-- The retention that `create` takes: the one that was kept for the name, or a new one.
unfoldable pub revive : Fresh → ℕ → ℕ → ExtNodeMapItem → Manager → Result (ℕ × Retention)
revive fresh tname name item m =
    let link : Option ℕ = elim item.shared_info [ none ↦ none | some map ↦ some map.handle ] in
    elim (lookup name item.obj_removed_list) [
      | some r ↦ read_retention r m >>= λ x. ok (
        r,
        record x {
          node_name = m.self_node;
          ptr = some fresh.info;
          link = link;
          users = x.users + 1;
        },
      )
      | none ↦ ok (
        fresh.retention,
        record {
          node_name = m.self_node;
          ptr = some fresh.info;
          kind = some tname;
          link = link;
          users = 1;
        },
      )
    ]

-- The body of the lock area of `create` for a name that is not in the map
unfoldable pub create_new :
    Fresh
    → ℕ
    → ℕ
    → ExtNodeMapItem
    → ShmSystemSharedInfo
    → Manager
    → Shared
    → Result (Option ℕ × Manager × Shared)
unfolding make_object revive write_node write_retention write_segment
create_new fresh tname name item s m sh =
    let objs = emplace name fresh.info s.shm_obj_map in
    let s' = record s { shm_obj_map = objs; update_time = fresh.time } in
    let funcs = emplace tname (release_func_for fresh.release_func tname m) m.shm_obj_release_map in
    revive fresh tname name item m >>= λ (r, x).
    let item' = record item {
      obj_list = emplace name r item.obj_list;
      obj_removed_list = erase name item.obj_removed_list;
    } in
    ok (
      some r,
      write_retention r x (
          write_node m.self_node item'
            (record m { shm_obj_release_map = funcs; shm_obj_map_size = length objs })),
      write_segment item s' (make_object fresh tname m sh),
    )

-- A pointer to a retention is handed out.
unfoldable pub hand_out : ℕ → Manager → Result Manager
unfolding read_retention write_retention
hand_out r m =
    read_retention r m >>= λ x. ok (write_retention r (record x { users = x.users + 1 }) m)

-- `dynamic_pointer_cast<SharedObjectRetention<T>>`
unfoldable pub cast : ℕ → ℕ → Manager → Result (Option ℕ × Manager)
unfolding read_retention hand_out
cast tname r m = read_retention r m >>= λ x. elim x.kind [
  | none ↦ ok (none, m)
  | some t ↦ elim (t == tname) [
    | true ↦ hand_out r m >>= λ m'. ok (some r, m')
    | false ↦ ok (none, m)
  ]
]

unfoldable pub create : Fresh → ℕ → ℕ → Manager → Shared → Result (Option ℕ × Manager × Shared)
unfolding read_node read_segment create_new cast
create fresh tname name m sh = read_node m.self_node m >>= λ item.
    elim (lookup name item.obj_list) [
      | some r ↦ cast tname r m >>= λ (o, m'). ok (o, m', sh)
      | none ↦ read_segment item sh >>= λ s. elim (lookup name s.shm_obj_map) [
        | some p ↦ ok (none, m, sh)
        | none ↦ create_new fresh tname name item s m sh
      ]
    ]

-- `make`: an object that has no name
unfoldable pub make : Fresh → ℕ → Manager → Shared → Result (ℕ × Manager × Shared)
unfolding make_object write_retention
make fresh tname m sh = ok (
  fresh.retention,
  write_retention fresh.retention
      (record {
        node_name = m.self_node;
        ptr = some fresh.info;
        kind = some tname;
        link = none;
        users = 1;
      })
      (record m {
        shm_obj_release_map =
            emplace tname (release_func_for fresh.release_func tname m) m.shm_obj_release_map;
      }),
  make_object fresh tname m sh,
)

-- `SharedObject::release`: an object is destroyed once.
unfoldable pub release_object : ℕ → Shared → Result Shared
release_object o sh = elim (lookup o sh.objects) [
  | none ↦ fault Fault.use_after_free
  | some t ↦ ok (record sh { objects = erase o sh.objects })
]

-- `ObjectInfo::destroy`
unfoldable pub destroy_info : ℕ → Shared → Shared
destroy_info p sh = record sh { infos = erase p sh.infos }

-- `reset` of a pointer that may be null
unfoldable pub reset : Option ℕ → Manager → Shared → Result (Bool × Manager × Shared)
unfolding read_retention read_info release_object destroy_info write_retention
reset none m sh = ok (false, m, sh)
reset (some r) m sh = read_retention r m >>= λ x. elim x.ptr [
  | none ↦ fault Fault.null_pointer
  | some p ↦ read_info p sh >>= λ i. release_object i.obj_ptr sh >>= λ sh'.
      ok (true, write_retention r (record x { ptr = none }) m, destroy_info p sh')
]
