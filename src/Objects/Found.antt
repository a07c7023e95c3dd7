-- ===== src/Objects/Found.antt =====
-- An object that another process discovers is counted once more.
use coin_data.Prelude.{
  ℕ, ◌+◌, ◌<◌, ◌^◌, ◌≡◌, refl, sym, ap, ◌∙◌, true, not, List, [], ◌∷◌, Option, none, some, ok,
  arith, ◌==◌, if◌then◌else◌, lookup, emplace, insert_or_assign, nat_key, lookup-insert_or_assign,
  lookup-emplace, add_size, Option-cases, inl, inr,
}
use coin_data.Objects.{
  ObjectInfo, ShmSystemSharedInfo, Shared, Retention, Mapping, ExtNodeMapItem, Manager, read_info,
  read_retention, write_info, write_node, write_retention, is_linked, lock_object,
}
use coin_data.Objects.Entries.{Absent}
use coin_data.Objects.Discovery.{NodeFile, attach, relink, node_for, take_object, discovery_shm}
use coin_data.Objects.Counts.{points, holds, IsCounted}

holds-write_retention :
    (p r : ℕ) (x : Retention) (objs : List (ℕ × ℕ)) (m : Manager)
    → Absent r objs
    → holds p objs (write_retention r x m) ≡ holds p objs m
unfolding holds points write_retention Absent
holds-write_retention p r x [] m a = refl
holds-write_retention p r x ((key, q) ∷ objs) m (ne, a) =
    ground (arith, lookup-insert_or_assign r q x m.retentions, holds-write_retention p r x objs m a)

holds-insert_or_assign :
    (p key r : ℕ) (objs : List (ℕ × ℕ)) (m : Manager)
    → lookup key objs ≡ none
    → holds p (insert_or_assign key r objs) m ≡ points p r m + holds p objs m
unfolding holds lookup insert_or_assign
holds-insert_or_assign p key r [] m e = refl
holds-insert_or_assign p key r ((k, q) ∷ objs) m e =
    ground (arith, holds-insert_or_assign p key r objs m)

holds-write_node :
    (p node : ℕ) (item : ExtNodeMapItem) (objs : List (ℕ × ℕ)) (m : Manager)
    → holds p objs (write_node node item m) ≡ holds p objs m
unfolding holds points write_node
holds-write_node p node item [] m = refl
holds-write_node p node item ((key, r) ∷ objs) m =
    ground (arith, holds-write_node p node item objs m)

-- With a name for one more retention the info that it points at is held once more.
holds-emplace :
    (p q node key r : ℕ) (x : Retention) (item : ExtNodeMapItem) (objs : List (ℕ × ℕ)) (m : Manager)
    → x.ptr ≡ some p
    → lookup key objs ≡ none
    → Absent r objs
    → holds q (emplace key r objs) (write_node node item (write_retention r x m))
      ≡ (if q == p then 1 else 0) + holds q objs m
unfolding emplace points write_retention
holds-emplace p q node key r x item objs m pointed new a =
    let m1 = write_retention r x m in
    ground (
      arith,
      new,
      pointed,
      holds-write_node q node item (insert_or_assign key r objs) m1,
      holds-insert_or_assign q key r objs m1 new,
      holds-write_retention q r x objs m a,
      lookup-insert_or_assign r r x m.retentions,
    )

-- The retention that a discovered object gets, if it is there
unfoldable pub target : Option ℕ → ℕ → ℕ
target none fresh = fresh
target (some r) fresh = r

unfoldable pub IsGiven : Option ℕ → Manager → Type 0
IsGiven none m = Unit
IsGiven (some r) m = (x : Retention) × (lookup r m.retentions ≡ some x)

relink-target :
    (node p : ℕ) (given : Option ℕ) (fresh : ℕ) (map : Mapping) (m : Manager)
    → IsGiven given m
    → (x : Retention) × (relink node p given fresh map m
        ≡ ok (target given fresh, write_retention (target given fresh) x m))
      × (x.node_name ≡ node)
      × (x.ptr ≡ some p)
      × (x.link ≡ some map.handle)
unfolding relink IsGiven target read_retention
relink-target node p none fresh map m g = (
  record { node_name = node; ptr = some p; kind = none; link = some map.handle; users = 0 },
  refl,
  refl,
  refl,
  refl,
)
relink-target node p (some r) fresh map m (x, e) = (
  record x { node_name = node; ptr = some p; link = some map.handle },
  ground (arith, e),
  refl,
  refl,
  refl,
)

-- The node that a discovery goes on with has the mapping that it reads, and no retention changes.
attach-kept :
    (node : ℕ) (new map : Mapping) (m m1 : Manager)
    → attach node new m ≡ (map, m1)
    → ((node_for node map m1).shared_info ≡ some map) × (m1.retentions ≡ m.retentions)
unfolding attach node_for write_node
attach-kept node new map m m1 e = elim (Option-cases (lookup node m.node_map)) [
  | inl unknown ↦ (ground (arith, e, unknown), ground (arith, e, unknown))
  | inr (item, known) ↦ elim (Option-cases item.shared_info) [
    | inl waiting ↦ (
      ground (
        arith,
        e,
        known,
        waiting,
        lookup-insert_or_assign node node (record item { shared_info = some new }) m.node_map,
      ),
      ground (arith, e, known, waiting),
    )
    | inr (old, mapped) ↦ (ground (arith, e, known, mapped), ground (arith, e, known, mapped))
  ]
]

IsGiven-same :
    (given : Option ℕ) (m m1 : Manager)
    → m1.retentions ≡ m.retentions
    → IsGiven given m
    → IsGiven given m1
unfolding IsGiven
IsGiven-same none m m1 e g = tt
IsGiven-same (some r) m m1 e (x, f) = (x, ap (lookup r) e ∙ f)

holds_same :
    (p : ℕ) (objs : List (ℕ × ℕ)) (m m1 : Manager)
    → m1.retentions ≡ m.retentions
    → holds p objs m1 ≡ holds p objs m
unfolding holds points
holds_same p [] m m1 e = refl
holds_same p ((key, r) ∷ objs) m m1 e = ground (arith, e, holds_same p objs m m1 e)

-- Let the first file of a node live and be valid and in use, let the segment that it is read
-- through be there, which is the node's own if the node has one mapped and that of the file if the
-- node is unknown or without a mapping, and let its map have an object that the process has no name
-- for yet, with a retention that no name of the node leads to, and a count with room for one more.
-- Then `discovery_shm_` gives the object a name and a retention that can be locked unless the
-- object is destroyed, the node is on record with that mapping, and the counts stay those of others
-- and one for each name that the process has at the node.
pub discovery_shm-IsCounted :
    (base : ℕ → ℕ) (file : NodeFile) (files : List NodeFile) (node key : ℕ) (given : Option ℕ)
    (fresh : ℕ) (m m1 : Manager) (sh : Shared) (item : ExtNodeMapItem) (map : Mapping)
    (s : ShmSystemSharedInfo) (p : ℕ) (i : ObjectInfo)
    → file.is_alive ≡ true
    → file.is_valid ≡ true
    → file.is_busy ≡ true
    → attach node file.mapping m ≡ (map, m1)
    → node_for node map m1 ≡ item
    → lookup map.segment sh.segments ≡ some s
    → lookup key s.shm_obj_map ≡ some p
    → lookup p sh.infos ≡ some i
    → lookup key item.obj_list ≡ none
    → Absent (target given fresh) item.obj_list
    → IsGiven given m
    → IsCounted base item.obj_list m sh
    → i.ref_cnt + 1 < 2 ^ 64
    → (m' : Manager) × (sh' : Shared) × (item' : ExtNodeMapItem) × (discovery_shm
          (file ∷ files)
          node
          key
          given
          fresh
          m
          sh
        ≡ ok (some (target given fresh), m', sh'))
      × (lookup node m'.node_map ≡ some item')
      × (item'.shared_info ≡ some map)
      × (lookup key item'.obj_list ≡ some (target given fresh))
      × (lock_object (target given fresh) m' sh' ≡ ok (not i.is_destroy))
      × IsCounted base item'.obj_list m' sh'
unfolding discovery_shm take_object read_info write_info write_node lock_object is_linked
    read_retention write_retention IsGiven
discovery_shm-IsCounted base file files node key given fresh m m1 sh item map s p i a b c d e f g h
      k l n o q =
    let (shared, kept) = attach-kept node file.mapping map m m1 d in
    let there : item.shared_info ≡ some map = ap ExtNodeMapItem.shared_info (sym e) ∙ shared in
    let (x, link, named, pointed, linked) =
      relink-target node p given fresh map m1 (IsGiven-same given m m1 kept n) in
    let r = target given fresh in
    let m2 = write_retention r x m1 in
    let item' : ExtNodeMapItem = record item { obj_list = emplace key r item.obj_list } in
    let j : ObjectInfo = record i { ref_cnt = add_size i.ref_cnt 1 } in
    (
      write_node node item' m2,
      write_info p j sh,
      item',
      ground (arith, a, b, c, d, e, f, g, h, link),
      ground (arith, lookup-insert_or_assign node node item' m1.node_map),
      there,
      ground (arith, k, lookup-emplace key key r item.obj_list k),
      ground (
        arith,
        there,
        named,
        pointed,
        linked,
        lookup-insert_or_assign node node item' m1.node_map,
        lookup-insert_or_assign r r x m1.retentions,
        lookup-insert_or_assign p p j sh.infos,
      ),
      record {
        counted = λ t v w. ground (
          arith,
          w,
          h,
          q,
          lookup-insert_or_assign p t j sh.infos,
          o.counted t v,
          o.counted p i,
          holds-emplace p t node key r x item' item.obj_list m1 pointed k l,
          holds_same t item.obj_list m m1 kept,
          holds_same p item.obj_list m m1 kept,
        );
        bounded =
            λ t v w. ground (arith, w, q, lookup-insert_or_assign p t j sh.infos, o.bounded t v);
      },
    )
