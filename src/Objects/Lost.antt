-- ===== src/Objects/Lost.antt =====
-- The end of a process: what another process does with the objects that it had from it.
use native.Mathlib.Decide.{ℕ_discrete}
use coin_data.Prelude.{
  ℕ, ◌≡◌, ◌≢◌, refl, Bool, true, false, List, [], ◌∷◌, none, some, ok, arith, ◌==◌, if◌then◌else◌,
  lookup, emplace, nat_key, lookup-insert_or_assign, sub_size,
}
use coin_data.Objects.{
  ObjectInfo, ShmSystemSharedInfo, Shared, Retention, Mapping, ExtNodeMapItem, Manager, read_node,
  read_segment, read_info, read_retention, write_info, write_node, write_retention, is_linked,
  lock_object,
}
use coin_data.Objects.Monitor.{read_ptr, release_shared_obj, release_list, check_node}
use coin_data.Objects.Counts.{points, holds, AreKnown, AreKnown-write_info, IsCounted}

AreKnown-write_retention :
    (r : ℕ) (x y : Retention) (objs : List (ℕ × ℕ)) (m : Manager) (sh : Shared)
    → lookup r m.retentions ≡ some x
    → y.ptr ≡ x.ptr
    → AreKnown objs m sh
    → AreKnown objs (write_retention r y m) sh
unfolding AreKnown write_retention
AreKnown-write_retention r x y [] m sh e f h = h
AreKnown-write_retention r x y ((key, q) ∷ objs) m sh e f ((z, p, i, a, b, c), t) = (
  (
    if r == q then y else z,
    p,
    i,
    ground (arith, a, lookup-insert_or_assign r q y m.retentions),
    ground (arith, a, b, e, f),
    c,
  ),
  AreKnown-write_retention r x y objs m sh e f t,
)

holds-relinked :
    (p r : ℕ) (x y : Retention) (objs : List (ℕ × ℕ)) (m : Manager)
    → lookup r m.retentions ≡ some x
    → y.ptr ≡ x.ptr
    → holds p objs (write_retention r y m) ≡ holds p objs m
unfolding holds points write_retention
holds-relinked p r x y [] m e f = refl
holds-relinked p r x y ((key, q) ∷ objs) m e f =
    ground
      (arith, e, f, lookup-insert_or_assign r q y m.retentions, holds-relinked p r x y objs m e f)

-- The loop over the objects of a node whose process ended
pub record Releases (base : ℕ → ℕ) (objs removed : List (ℕ × ℕ)) (m : Manager) (sh : Shared)
    : Type 0 where
  pub removed' : List (ℕ × ℕ)
  pub m' : Manager
  pub sh' : Shared
  pub result : release_list objs removed m sh ≡ ok (removed', m', sh')
  pub node_map : m'.node_map ≡ m.node_map
  pub counted : IsCounted base [] m' sh'
  pub destroyed :
      (p : ℕ) (i : ObjectInfo)
      → lookup p sh.infos ≡ some i
      → (j : ObjectInfo) × (lookup p sh'.infos ≡ some j)
        × (i.is_destroy ≡ true → j.is_destroy ≡ true)
        × (holds p objs m ≢ 0 → j.is_destroy ≡ true)

release_list-Releases :
    (base : ℕ → ℕ) (objs removed : List (ℕ × ℕ)) (m : Manager) (sh : Shared)
    → AreKnown objs m sh
    → IsCounted base objs m sh
    → Releases base objs removed m sh
unfolding release_list release_shared_obj AreKnown read_retention read_ptr read_info write_info
    write_retention holds points
release_list-Releases base [] removed m sh h c = record {
  removed' = removed;
  m' = m;
  sh' = sh;
  result = refl;
  node_map = refl;
  counted = c;
  destroyed = λ p i e. (i, e, λ d. d, λ n. absurd (n refl));
}
release_list-Releases base ((key, r) ∷ objs) removed m sh ((x, p, i, a, b, e), t) c =
    let y : Retention = record x { link = none } in
    let j : ObjectInfo = record i { ref_cnt = sub_size i.ref_cnt 1; is_destroy = true } in
    let m1 = write_retention r y m in
    let n =
      release_list-Releases base objs (emplace key r removed) m1 (write_info p j sh)
        (AreKnown-write_info p j objs m1 sh (AreKnown-write_retention r x y objs m sh a refl t))
        (record {
          counted = λ q k g. ground (
            arith,
            a,
            b,
            e,
            g,
            lookup-insert_or_assign p q j sh.infos,
            c.counted q k,
            c.counted p i e,
            c.bounded p i e,
            holds-relinked q r x y objs m a refl,
          );
          bounded =
              λ q k g. ground (arith, e, g, lookup-insert_or_assign p q j sh.infos, c.bounded q k);
        }) in
    record {
      removed' = n.removed';
      m' = n.m';
      sh' = n.sh';
      result = ground (arith, a, b, e, n.result);
      node_map = n.node_map;
      counted = n.counted;
      destroyed = λ q k g. elim (ℕ_discrete p q) [
        | yes same ↦
            let (v, f, d, u) =
              n.destroyed q j (ground (arith, same, lookup-insert_or_assign p q j sh.infos)) in
            (v, f, λ _. d refl, λ _. d refl)
        | no other ↦
            let (v, f, d, u) =
              n.destroyed q k (ground (arith, other, g, lookup-insert_or_assign p q j sh.infos)) in
            (
              v,
              f,
              d,
              λ z.
                  u (λ w. z (ground (arith, w, a, b, other, holds-relinked q r x y objs m a refl))),
            )
      ];
    }

-- When the process of a node has ended, every object that this process had from it is marked as
-- destroyed and loses one reference for each name, no retention of that node can be locked any
-- longer, and no other node changes.
pub check_node-ended :
    (has_ended : ℕ → Bool) (base : ℕ → ℕ) (node : ℕ) (m : Manager) (sh : Shared)
    (item : ExtNodeMapItem) (map : Mapping) (s : ShmSystemSharedInfo)
    → lookup node m.node_map ≡ some item
    → item.shared_info ≡ some map
    → lookup map.segment sh.segments ≡ some s
    → has_ended s.self_pid ≡ true
    → AreKnown item.obj_list m sh
    → IsCounted base item.obj_list m sh
    → (m' : Manager) × (sh' : Shared) × (check_node has_ended node m sh ≡ ok (m', sh'))
      × IsCounted base [] m' sh'
      × ((p : ℕ) (i : ObjectInfo)
          → lookup p sh.infos ≡ some i
          → holds p item.obj_list m ≢ 0
          → (j : ObjectInfo) × (lookup p sh'.infos ≡ some j) × (j.is_destroy ≡ true))
      × ((r : ℕ) (x : Retention)
          → lookup r m'.retentions ≡ some x
          → x.node_name ≡ node
          → lock_object r m' sh' ≡ ok false)
      × ((other : ℕ) → other ≢ node → lookup other m'.node_map ≡ lookup other m.node_map)
unfolding check_node read_node read_segment write_node lock_object is_linked read_retention holds
check_node-ended has_ended base node m sh item map s a b c d e f =
    let n = release_list-Releases base item.obj_list item.obj_removed_list m sh e f in
    let item' : ExtNodeMapItem = record {
      shared_info = none;
      obj_list = [];
      obj_removed_list = n.removed';
    } in
    (
      write_node node item' n.m',
      n.sh',
      ground (arith, a, b, c, d, n.result),
      record {
        counted = λ p i g. ground (arith, n.counted.counted p i g);
        bounded = n.counted.bounded;
      },
      λ p i g h. (let (v, k, l, u) = n.destroyed p i g in (v, k, u h)),
      λ r x g h. ground (arith, g, h, lookup-insert_or_assign node node item' n.m'.node_map),
      λ other ne.
          ground (arith, n.node_map, lookup-insert_or_assign node other item' n.m'.node_map),
    )
