-- ===== src/Objects.antt =====
-- `ShmObjManager` of src/coin-data/local/impl/shmobj_manager.hpp and shmobj_manager.cpp: objects in
-- shared memory with a name, an owner and a count of references. Names, addresses and the keys of
-- retentions are numbers. What an allocation, the clock or the file system gives is an argument.
-- Each function holds its locks from start to end and is one step.
pub mod Create
pub mod Start
pub mod Destroy
pub mod Discovery
pub mod Monitor
pub mod Names
pub mod Owner
pub mod Entries
pub mod Cleared
pub mod Marked
pub mod Ended
pub mod Counts
pub mod Found
pub mod Lost
pub mod Stale
pub mod Tests
use coin_data.Prelude.{
  ℕ, ◌+◌, Bool, true, false, List, [], ◌∷◌, Option, none, some, Result, ok, fault, Fault, ◌>>=◌,
  ◌==◌, lookup, insert_or_assign, erase, nat_key, if◌then◌else◌,
}

-- `ObjectInfo`, without its mutex and its hash code
pub record ObjectInfo : Type 0 where
  pub obj_ptr : ℕ
  pub ref_cnt : ℕ
  pub is_destroy : Bool
  pub type_name : ℕ
  pub created_pid : ℕ
  pub release_func_addr : ℕ

-- `ShmSystemSharedInfo`
pub record ShmSystemSharedInfo : Type 0 where
  pub self_pid : ℕ
  pub shm_obj_map : List (ℕ × ℕ)
  pub shm_obj_removed_map : List (ℕ × ℕ)
  pub update_time : ℕ

-- The shared memory: what lies at the addresses in use.
pub record Shared : Type 0 where
  pub segments : List (ℕ × ShmSystemSharedInfo)
  pub infos : List (ℕ × ObjectInfo)
  -- objects, with the name of their type
  pub objects : List (ℕ × ℕ)

-- `SharedObjectRetentionBase`: `kind` is the type of the derived class, none for the base class;
-- `link` is the mapping that both weak pointers point at; `users` counts the pointers to the
-- retention outside the manager.
pub record Retention : Type 0 where
  pub node_name : ℕ
  pub ptr : Option ℕ
  pub kind : Option ℕ
  pub link : Option ℕ
  pub users : ℕ

-- What `shared_info` and `shm_manager` of a node point at: a mapping of a segment.
pub record Mapping : Type 0 where
  pub handle : ℕ
  pub segment : ℕ

-- `ExtNodeMapItem`
pub record ExtNodeMapItem : Type 0 where
  pub shared_info : Option Mapping
  pub obj_list : List (ℕ × ℕ)
  pub obj_removed_list : List (ℕ × ℕ)

-- The manager of one process.
pub record Manager : Type 0 where
  pub self_pid : ℕ
  pub self_node : ℕ
  pub node_map : List (ℕ × ExtNodeMapItem)
  pub retentions : List (ℕ × Retention)
  pub shm_obj_release_map : List (ℕ × ℕ)
  pub shm_obj_map_size : ℕ

unfoldable pub read_node : ℕ → Manager → Result ExtNodeMapItem
read_node node m = elim (lookup node m.node_map) [
  | none ↦ fault Fault.null_pointer
  | some item ↦ ok item
]

unfoldable pub read_segment : ExtNodeMapItem → Shared → Result ShmSystemSharedInfo
read_segment item sh = elim item.shared_info [
  | none ↦ fault Fault.null_pointer
  | some map ↦ elim (lookup map.segment sh.segments) [
    | none ↦ fault Fault.use_after_free
    | some s ↦ ok s
  ]
]

unfoldable pub read_info : ℕ → Shared → Result ObjectInfo
read_info p sh = elim (lookup p sh.infos) [ none ↦ fault Fault.use_after_free | some i ↦ ok i ]

unfoldable pub read_retention : ℕ → Manager → Result Retention
read_retention r m = elim (lookup r m.retentions) [
  | none ↦ fault Fault.use_after_free
  | some x ↦ ok x
]

-- `info->ref_cnt.fetch_add(1)` and `fetch_sub(1)`, and other writes to an info
unfoldable pub write_info : ℕ → ObjectInfo → Shared → Shared
write_info p i sh = record sh { infos = insert_or_assign p i sh.infos }

unfoldable pub write_segment : ExtNodeMapItem → ShmSystemSharedInfo → Shared → Shared
write_segment item s sh = elim item.shared_info [
  | none ↦ sh
  | some map ↦ record sh { segments = insert_or_assign map.segment s sh.segments }
]

unfoldable pub write_node : ℕ → ExtNodeMapItem → Manager → Manager
write_node node item m = record m { node_map = insert_or_assign node item m.node_map }

unfoldable pub write_retention : ℕ → Retention → Manager → Manager
write_retention r x m = record m { retentions = insert_or_assign r x m.retentions }

-- `hasSharedObject`
unfoldable pub has_shared_object : ℕ → Manager → Shared → Result Bool
has_shared_object name m sh = read_node m.self_node m >>= λ item. read_segment item sh >>= λ s.
    elim (lookup name s.shm_obj_map) [ none ↦ ok false | some p ↦ ok true ]

-- Both weak pointers of a retention can be locked.
unfoldable pub is_linked : Retention → Manager → Bool
is_linked x m = elim (lookup x.node_name m.node_map) [
  | none ↦ false
  | some item ↦ elim item.shared_info [
    | none ↦ false
    | some map ↦ elim x.link [ none ↦ false | some h ↦ h == map.handle ]
  ]
]

-- `lock_object`: whether the function is called with the object.
unfoldable pub lock_object : ℕ → Manager → Shared → Result Bool
lock_object r m sh = read_retention r m >>= λ x.
    if is_linked x m
    then elim x.ptr [
      | none ↦ ok false
      | some p ↦ read_info p sh >>= λ i. if i.is_destroy then ok false else ok true
    ]
    else ok false
