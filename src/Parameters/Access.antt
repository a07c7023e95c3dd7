-- ===== src/Parameters/Access.antt =====
-- What `set` writes, `get` and `operator[]` find.
use native.Mathlib.Decide.{ℕ_discrete}
use coin_data.Prelude.{
  ℕ, ◌≡◌, ◌≢◌, refl, List, [], ◌∷◌, Option, none, some, ok, fault, Fault, ◌==◌, arith,
  if◌then◌else◌, lookup, insert_or_assign, nat_key, lookup-insert_or_assign, inl, inr,
}
use coin_data.Parameters.Keys.{
  Text, text_key, same_iff, join_key, IsPlain, ArePlain, join_key-Misses, split_key-join_key,
}
use coin_data.Parameters.Nodes.{
  AnyDataNode, Memory, read_node, read_table, write_entry, entry, find_parent, as_type, at_key,
  set_key, get_key, table, item,
}
use coin_data.Parameters.Paths.{
  Result-cases, IsTable, read_table-IsTable, find_or_insert-find_parent,
}

-- An item put into the memory, and into a table under a key
unfoldable pub with_item :
    ℕ → AnyDataNode → List (Text × Option ℕ) → Text → ℕ → AnyDataNode → Memory → Memory
with_item c n t last fresh x mem =
    insert_or_assign c (record n { value = table (insert_or_assign last (some fresh) t) })
      (insert_or_assign fresh x mem)

module _ (c : ℕ) (n : AnyDataNode) (t : List (Text × Option ℕ)) (last : Text) (fresh : ℕ)
    (x : AnyDataNode) (mem : Memory) (at : lookup c mem ≡ some n) (is : n.value ≡ table t)
    (new : lookup fresh mem ≡ none)
    (no_table : (t' : List (Text × Option ℕ)) → read_table (entry last t) mem ≢ ok t') where
  -- What was a table is one, with the same entries for other keys.
  read_table-with_item :
      (o : Option ℕ) (u : List (Text × Option ℕ))
      → read_table o mem ≡ ok u
      → (u' : List (Text × Option ℕ)) × (read_table o (with_item c n t last fresh x mem) ≡ ok u')
        × ((k : Text) (w : List (Text × Option ℕ))
            → read_table (entry k u) mem ≡ ok w
            → entry k u' ≡ entry k u)
  unfolding read_table read_node with_item IsTable entry
  read_table-with_item o u e =
      let (q, m, g, h, i) = read_table-IsTable o mem u e in
      let y : AnyDataNode = record n { value = table (insert_or_assign last (some fresh) t) } in
      elim (ℕ_discrete c q) [
        | yes s ↦ (
          insert_or_assign last (some fresh) t,
          ground (arith, g, s, lookup-insert_or_assign c q y (insert_or_assign fresh x mem)),
          λ k w f. ground (
            arith,
            f,
            h,
            i,
            s,
            at,
            is,
            same_iff last k,
            no_table w,
            lookup-insert_or_assign last k (some fresh) t,
          ),
        )
        | no s ↦ (
          u,
          ground (
            arith,
            g,
            h,
            i,
            s,
            new,
            lookup-insert_or_assign c q y (insert_or_assign fresh x mem),
            lookup-insert_or_assign fresh q x mem,
          ),
          λ k w f. refl,
        )
      ]

  find_parent-with_item :
      (ks : List Text) (o b : Option ℕ)
      → find_parent o ks mem ≡ ok b
      → find_parent o ks (with_item c n t last fresh x mem) ≡ ok b
  unfolding find_parent
  find_parent-with_item [] o b e = e
  find_parent-with_item (k ∷ ks) o b e = elim (Result-cases (read_table o mem)) [
    | inr (f, g) ↦ absurd (ground (arith, e, g))
    | inl (u, g) ↦ elim (Result-cases (read_table (entry k u) mem)) [
      | inr (f, h) ↦ absurd (ground (arith, e, g, h))
      | inl (w, h) ↦
          let (u', i, j) = read_table-with_item o u g in
          let (w', l, r) = read_table-with_item (entry k u) w h in
          ground (arith, e, g, h, i, l, j k w h, find_parent-with_item ks (entry k u) b)
    ]
  ]

-- What `set` leaves, read as any type
set_key-reads :
    (tid tid2 root : ℕ) (ks : List Text) (last : Text) (v d new fresh new2 fresh2 c : ℕ)
    (mem : Memory) (top n : AnyDataNode) (t0 t : List (Text × Option ℕ))
    → ArePlain ks
    → IsPlain last
    → lookup root mem ≡ some top
    → top.value ≡ table t0
    → find_parent (some root) ks mem ≡ ok (some c)
    → lookup c mem ≡ some n
    → n.value ≡ table t
    → lookup fresh mem ≡ none
    → lookup new mem ≡ none
    → ((t' : List (Text × Option ℕ)) → read_table (entry last t) mem ≢ ok t')
    → (mem' : Memory) × (set_key tid root (join_key ks last) v new fresh mem ≡ ok mem')
      × (at_key root (join_key ks last) mem' ≡ ok fresh)
      × (lookup new2 mem' ≡ none
          → get_key tid2 root (join_key ks last) d new2 fresh2 mem'
            ≡ (if tid == tid2 then ok (v, mem') else fault Fault.aborted))
unfolding set_key get_key at_key as_type read_table read_node write_entry with_item IsTable
set_key-reads tid tid2 root ks last v d new fresh new2 fresh2 c mem top n t0 t p q a b e f g h i j =
    let key = join_key ks last in
    let x : AnyDataNode = record { key = last; value = item tid v } in
    let y : AnyDataNode = record n { value = table (insert_or_assign last (some fresh) t) } in
    let mem' = with_item c n t last fresh x mem in
    let still = find_parent-with_item c n t last fresh x mem f g h j ks (some root) (some c) e in
    let (u, rt, _) =
      read_table-with_item c n t last fresh x mem f g h j (some root) t0 (ground (arith, a, b)) in
    let (root', top', r1, r2, r3) = read_table-IsTable (some root) mem' u rt in
    (
      mem',
      ground (
        arith,
        a,
        b,
        e,
        f,
        g,
        h,
        split_key-join_key ks last p q,
        find_or_insert-find_parent root key new (some root) ks mem top t0 a b i
            (join_key-Misses ks last p),
        lookup-insert_or_assign fresh c x mem,
      ),
      ground (
        arith,
        rt,
        still,
        split_key-join_key ks last p q,
        lookup-insert_or_assign c c y (insert_or_assign fresh x mem),
        lookup-insert_or_assign last last (some fresh) t,
        same_iff last last,
      ),
      λ k. ground (
        arith,
        f,
        h,
        rt,
        still,
        split_key-join_key ks last p q,
        find_or_insert-find_parent root key new2 (some root) ks mem' top' u (ground (arith, r1, r2))
            r3 k (join_key-Misses ks last p),
        lookup-insert_or_assign c c y (insert_or_assign fresh x mem),
        lookup-insert_or_assign c fresh y (insert_or_assign fresh x mem),
        lookup-insert_or_assign fresh fresh x mem,
        lookup-insert_or_assign last last (some fresh) t,
        same_iff last last,
      ),
    )

-- If the parts of a key lead to a table, in which the last part does not lead to a table, `set`
-- succeeds, `operator[]` then gives the new item and `get` of the same type its value.
pub get_key-set_key :
    (tid root : ℕ) (ks : List Text) (last : Text) (v d new fresh new2 fresh2 c : ℕ) (mem : Memory)
    (top n : AnyDataNode) (t0 t : List (Text × Option ℕ))
    → ArePlain ks
    → IsPlain last
    → lookup root mem ≡ some top
    → top.value ≡ table t0
    → find_parent (some root) ks mem ≡ ok (some c)
    → lookup c mem ≡ some n
    → n.value ≡ table t
    → lookup fresh mem ≡ none
    → lookup new mem ≡ none
    → ((t' : List (Text × Option ℕ)) → read_table (entry last t) mem ≢ ok t')
    → (mem' : Memory) × (set_key tid root (join_key ks last) v new fresh mem ≡ ok mem')
      × (at_key root (join_key ks last) mem' ≡ ok fresh)
      × (lookup new2 mem' ≡ none
          → get_key tid root (join_key ks last) d new2 fresh2 mem' ≡ ok (v, mem'))
get_key-set_key tid root ks last v d new fresh new2 fresh2 c mem top n t0 t p q a b e f g h i j =
    let (mem', l, m, o) =
      set_key-reads tid tid root ks last v d new fresh new2 fresh2 c mem top n t0 t p q a b e f g h
        i j in
    (mem', l, m, λ k. ground (arith, o k))

-- If the parts of a key lead to a table, in which the last part does not lead to a table, `get` of
-- another type than the one that was set throws.
pub get_key-other_type :
    (tid tid2 root : ℕ) (ks : List Text) (last : Text) (v d new fresh new2 fresh2 c : ℕ)
    (mem : Memory) (top n : AnyDataNode) (t0 t : List (Text × Option ℕ))
    → ArePlain ks
    → IsPlain last
    → lookup root mem ≡ some top
    → top.value ≡ table t0
    → find_parent (some root) ks mem ≡ ok (some c)
    → lookup c mem ≡ some n
    → n.value ≡ table t
    → lookup fresh mem ≡ none
    → lookup new mem ≡ none
    → tid ≢ tid2
    → ((t' : List (Text × Option ℕ)) → read_table (entry last t) mem ≢ ok t')
    → (mem' : Memory) × (set_key tid root (join_key ks last) v new fresh mem ≡ ok mem')
      × (lookup new2 mem' ≡ none
          → get_key tid2 root (join_key ks last) d new2 fresh2 mem' ≡ fault Fault.aborted)
get_key-other_type tid tid2 root ks last v d new fresh new2 fresh2 c mem top n t0 t p q a b e f g h
      i ne j =
    let (mem', l, m, o) =
      set_key-reads tid tid2 root ks last v d new fresh new2 fresh2 c mem top n t0 t p q a b e f g h
        i j in
    (mem', l, λ k. ground (arith, ne, o k))
