-- ===== src/Objects/Tests.antt =====
-- The object manager on small inputs. Node 1 runs in process 100 and has object 7 under the address 50.
use coin_data.Prelude.{
  ℕ, ◌+◌, ◌≡◌, ◌≢◌, refl, true, false, List, [], ◌∷◌, none, some, ok, fault, Fault, arith, ◌==◌,
  lookup, nat_key,
}
use coin_data.Objects.{
  ObjectInfo, ShmSystemSharedInfo, Shared, Retention, Mapping, ExtNodeMapItem, Manager,
  has_shared_object, lock_object,
}
use coin_data.Objects.Create.{Fresh, make_info, create}
use coin_data.Objects.Destroy.{clear_entries, destroy}
use coin_data.Objects.Discovery.{NodeFile, discovery_shm}
use coin_data.Objects.Monitor.{drop_destroyed, inotify_shared_object_monitor, check_node}
use coin_data.Objects.Names.{IsPlain, read_node_idx, read_node_idx-names}
use coin_data.Objects.Owner.{IsOpen, create-new}
use coin_data.Objects.Cleared.{IsSound, Clears, clear_entries-Clears}
use coin_data.Objects.Entries.{Absent, IsMine, AreMine, is_dropped}
use coin_data.Objects.Discovery.{attach, node_for}
use coin_data.Objects.Ended.{IsReady, destroy-ended}
use coin_data.Objects.Counts.{points, holds, AreKnown, IsCounted, drop_destroyed-IsCounted}
use coin_data.Objects.Found.{target, IsGiven, discovery_shm-IsCounted}
use coin_data.Objects.Lost.{check_node-ended}
use coin_data.Objects.Stale.{lock_object-released}

abbrev map_1 : Mapping
map_1 = record { handle = 9; segment = 3 }

abbrev info_7 : ObjectInfo
info_7 = record {
  obj_ptr = 60;
  ref_cnt = 1;
  is_destroy = false;
  type_name = 4;
  created_pid = 100;
  release_func_addr = 80;
}

abbrev segment_1 : ShmSystemSharedInfo
segment_1 = record {
  self_pid = 100;
  shm_obj_map = (7, 50) ∷ [];
  shm_obj_removed_map = [];
  update_time = 0;
}

abbrev shared_1 : Shared
shared_1 = record {
  segments = (3, segment_1) ∷ [];
  infos = (50, info_7) ∷ [];
  objects = (60, 4) ∷ [];
}

abbrev retention_7 : Retention
retention_7 = record { node_name = 1; ptr = some 50; kind = some 4; link = some 9; users = 1 }

abbrev node_1 : ExtNodeMapItem
node_1 = record { shared_info = some map_1; obj_list = (7, 20) ∷ []; obj_removed_list = [] }

abbrev owner : Manager
owner = record {
  self_pid = 100;
  self_node = 1;
  node_map = (1, node_1) ∷ [];
  retentions = (20, retention_7) ∷ [];
  shm_obj_release_map = (4, 80) ∷ [];
  shm_obj_map_size = 1;
}

-- Process 200 has node 2, and has attached node 1.
abbrev node_1_empty : ExtNodeMapItem
node_1_empty = record { shared_info = some map_1; obj_list = []; obj_removed_list = [] }

abbrev client : Manager
client = record {
  self_pid = 200;
  self_node = 2;
  node_map = (1, node_1_empty) ∷ [];
  retentions = [];
  shm_obj_release_map = [];
  shm_obj_map_size = 0;
}

abbrev fresh : Fresh
fresh = record { object = 61; info = 51; retention = 21; release_func = 81; time = 5 }

owner-IsOpen : IsOpen owner shared_1 node_1 map_1 segment_1
unfolding lookup
owner-IsOpen = record { node = refl; mapping = refl; segment = refl }

shared_1-IsSound : IsSound shared_1
unfolding lookup
shared_1-IsSound = record {
  live = λ p i e. ground (arith, e);
  own = λ p q i j e f o. ground (arith, e, f);
}

create-new_example :
    (m' : Manager) × (sh' : Shared) × (create fresh 4 8 owner shared_1 ≡ ok (some 21, m', sh'))
    × (lookup 51 sh'.infos
        ≡ some (record {
          obj_ptr = 61;
          ref_cnt = 1;
          is_destroy = false;
          type_name = 4;
          created_pid = 100;
          release_func_addr = 80;
        }))
    × (has_shared_object 8 m' sh' ≡ ok true)
    × (lock_object 21 m' sh' ≡ ok true)
    × ((other : ℕ)
        → other ≢ 8
        → has_shared_object other m' sh' ≡ has_shared_object other owner shared_1)
unfolding lookup make_info
create-new_example =
    create-new fresh 4 8 owner shared_1 node_1 map_1 segment_1 owner-IsOpen refl refl refl

owner-IsReady : IsReady owner shared_1 node_1 map_1 segment_1 7 20 50 retention_7 info_7
unfolding lookup AreMine Absent
owner-IsReady = record {
  opened = owner-IsOpen;
  listed = refl;
  retention = refl;
  shared = omega arith;
  named = refl;
  info = refl;
  sound = shared_1-IsSound;
  mine = tt;
  absent = tt;
}

destroy-ended_example :
    (m' : Manager) × (sh' : Shared) × (destroy (λ name time. name + time) 6 7 owner shared_1
      ≡ ok (true, m', sh'))
    × (has_shared_object 7 m' sh' ≡ ok false)
    × (lock_object 20 m' sh' ≡ ok false)
    × (lookup 50 sh'.infos ≡ none)
    × (lookup 60 sh'.objects ≡ none)
    × ((q : ℕ) → is_dropped q [] shared_1.infos ≡ true → lookup q sh'.infos ≡ none)
unfolding lookup
destroy-ended_example =
    destroy-ended (λ name time. name + time) 6 owner shared_1 node_1 map_1 segment_1 7 20 50
      retention_7 info_7 owner-IsReady

abbrev unused_7 : ObjectInfo
unused_7 = record info_7 { ref_cnt = 0; is_destroy = true }

-- The object, removed and without references
abbrev shared_2 : Shared
shared_2 = record { segments = []; infos = (50, unused_7) ∷ []; objects = (60, 4) ∷ [] }

shared_2-IsSound : IsSound shared_2
unfolding lookup
shared_2-IsSound = record {
  live = λ p i e. ground (arith, e);
  own = λ p q i j e f o. ground (arith, e, f);
}

shared_2-AreMine : AreMine 100 ((75, 50) ∷ []) shared_2.infos
unfolding AreMine IsMine Absent lookup
shared_2-AreMine = ((unused_7, refl, refl, λ e. absurd (omega (arith, e))), tt, tt)

clear_entries-Clears_example : (sh' : Shared) × Clears 100 ((75, 50) ∷ []) shared_2 sh'
clear_entries-Clears_example =
    clear_entries-Clears 100 ((75, 50) ∷ []) shared_2 shared_2-IsSound shared_2-AreMine

-- The owner has destroyed the object, while the client has it too.
abbrev gone_7 : ObjectInfo
gone_7 = record info_7 { ref_cnt = 1; is_destroy = true }

abbrev shared_3 : Shared
shared_3 = record {
  segments = (3, segment_1) ∷ [];
  infos = (50, gone_7) ∷ [];
  objects = (60, 4) ∷ [];
}

shared_3-AreKnown : AreKnown ((7, 20) ∷ []) owner shared_3
unfolding AreKnown lookup
shared_3-AreKnown = ((retention_7, 50, gone_7, refl, refl, refl), tt)

shared_3-IsCounted : IsCounted (λ p. 0) ((7, 20) ∷ []) owner shared_3
unfolding holds points lookup
shared_3-IsCounted = record {
  counted = λ p i e. ground (arith, e);
  bounded = λ p i e. ground (arith, e);
}

drop_destroyed-IsCounted_example :
    (kept removed' : List (ℕ × ℕ)) × (sh' : Shared) × (drop_destroyed
        ((7, 20) ∷ [])
        []
        owner
        shared_3
      ≡ ok (kept, removed', sh'))
    × IsCounted (λ p. 0) kept owner sh'
drop_destroyed-IsCounted_example =
    drop_destroyed-IsCounted (λ p. 0) ((7, 20) ∷ []) [] owner shared_3 shared_3-AreKnown
      shared_3-IsCounted

lock_object-released_example :
    (m1 : Manager) × (sh1 sh2 : Shared) × (lock_object 20 owner shared_3 ≡ ok false)
    × (inotify_shared_object_monitor [] 1 owner shared_3 ≡ ok (m1, sh1))
    × (clear_entries 100 ((75, 50) ∷ []) sh1 ≡ ok ([], sh2))
    × (lock_object 20 m1 sh2 ≡ fault Fault.use_after_free)
unfolding lookup
lock_object-released_example =
    lock_object-released owner shared_3 [] 1 7 75 20 50 map_1 retention_7 gone_7 refl refl refl refl
      refl refl refl refl (λ e. absurd (omega (arith, e))) refl

check_node-ended_example :
    (m' : Manager) × (sh' : Shared) × (check_node (λ pid. pid == 100) 1 owner shared_3
      ≡ ok (m', sh'))
    × IsCounted (λ p. 0) [] m' sh'
    × ((p : ℕ) (i : ObjectInfo)
        → lookup p shared_3.infos ≡ some i
        → holds p ((7, 20) ∷ []) owner ≢ 0
        → (j : ObjectInfo) × (lookup p sh'.infos ≡ some j) × (j.is_destroy ≡ true))
    × ((r : ℕ) (x : Retention)
        → lookup r m'.retentions ≡ some x
        → x.node_name ≡ 1
        → lock_object r m' sh' ≡ ok false)
    × ((other : ℕ) → other ≢ 1 → lookup other m'.node_map ≡ lookup other owner.node_map)
unfolding lookup
check_node-ended_example =
    check_node-ended (λ pid. pid == 100) (λ p. 0) 1 owner shared_3 node_1 map_1 segment_1 refl refl
      refl refl shared_3-AreKnown shared_3-IsCounted

abbrev file_1 : NodeFile
file_1 = record { is_alive = true; is_valid = true; mapping = map_1; is_busy = true }

shared_1-IsCounted : IsCounted (λ p. 1) [] client shared_1
unfolding holds lookup
shared_1-IsCounted = record {
  counted = λ p i e. ground (arith, e);
  bounded = λ p i e. ground (arith, e);
}

discovery_shm-IsCounted_example :
    (m' : Manager) × (sh' : Shared) × (item' : ExtNodeMapItem) × (discovery_shm
        (file_1 ∷ [])
        1
        7
        none
        30
        client
        shared_1
      ≡ ok (some 30, m', sh'))
    × (lookup 1 m'.node_map ≡ some item')
    × (item'.shared_info ≡ some map_1)
    × (lookup 7 item'.obj_list ≡ some 30)
    × (lock_object 30 m' sh' ≡ ok true)
    × IsCounted (λ p. 1) item'.obj_list m' sh'
unfolding lookup target Absent IsGiven attach node_for
discovery_shm-IsCounted_example =
    discovery_shm-IsCounted (λ p. 1) file_1 [] 1 7 none 30 client client shared_1 node_1_empty map_1
      segment_1 50 info_7 refl refl refl refl refl refl refl refl refl tt tt shared_1-IsCounted
      (omega arith)

-- Process 200 has not heard of node 1 yet.
abbrev newcomer : Manager
newcomer = record client { node_map = [] }

newcomer-IsCounted : IsCounted (λ p. 1) [] newcomer shared_1
unfolding holds points lookup
newcomer-IsCounted = record {
  counted = λ p i e. ground (arith, e);
  bounded = λ p i e. ground (arith, e);
}

first_discovery :
    (m' : Manager) × (sh' : Shared) × (item' : ExtNodeMapItem) × (discovery_shm
        (file_1 ∷ [])
        1
        7
        none
        30
        newcomer
        shared_1
      ≡ ok (some 30, m', sh'))
    × (lookup 1 m'.node_map ≡ some item')
    × (item'.shared_info ≡ some map_1)
    × (lookup 7 item'.obj_list ≡ some 30)
    × (lock_object 30 m' sh' ≡ ok true)
    × IsCounted (λ p. 1) item'.obj_list m' sh'
unfolding lookup target Absent IsGiven attach node_for
first_discovery =
    discovery_shm-IsCounted (λ p. 1) file_1 [] 1 7 none 30 newcomer newcomer shared_1 node_1_empty
      map_1 segment_1 50 info_7 refl refl refl refl refl refl refl refl refl tt tt
      newcomer-IsCounted (omega arith)

node_name-IsPlain : IsPlain (97 ∷ [])
unfolding IsPlain
node_name-IsPlain = ((λ e. absurd (omega (arith, e))), tt)

read_node_idx-names_example :
    (read_node_idx (47 ∷ 97 ∷ 47 ∷ 98 ∷ []) ≡ (97 ∷ [], 98 ∷ []))
    × (read_node_idx (47 ∷ 97 ∷ []) ≡ (97 ∷ [], 47 ∷ 97 ∷ []))
    × ((c : ℕ) → c ≢ 47 → read_node_idx (c ∷ 98 ∷ []) ≡ ([], c ∷ 98 ∷ []))
read_node_idx-names_example = read_node_idx-names (97 ∷ []) (98 ∷ []) node_name-IsPlain
