-- ===== src/NodeMonitor/Lifecycle.antt =====
-- A node is waited for or watched, never both, and comes and goes.
use coin_data.Prelude.{
  ℕ, ◌≡◌, ◌≢◌, none, some, ok, fault, Fault, arith, lookup, emplace, erase, nat_key, lookup-emplace,
  lookup-erase, Option-cases, inl, inr,
}
use coin_data.NodeMonitor.{
  NodeWatcher, Monitor, find_name, find_id, add_watched, remove_watched, remove_node, remove_id,
  on_create, on_destroy,
}

pub record IsOrdered (m : Monitor) : Type 0 where
  pub forth : (name wd : ℕ) → find_name name m ≡ some wd → find_id wd m ≡ some name
  pub back : (name wd : ℕ) → find_id wd m ≡ some name → find_name name m ≡ some wd
  pub apart : (name wd : ℕ) → find_name name m ≡ some wd → lookup name m.waiting ≡ none

-- A node that is waited for and appears, with a descriptor that no other node has, is watched from
-- then on with its callbacks and no longer waited for; the two maps stay inverse and no watched
-- node is waited for; every other name and descriptor is watched and waited for as it was.
pub on_create-IsOrdered :
    (wd name callbacks : ℕ) (m : Monitor)
    → IsOrdered m
    → lookup name m.waiting ≡ some callbacks
    → find_id wd m ≡ none
    → (m' : Monitor) × (on_create (some wd) name m ≡ ok m')
      × IsOrdered m'
      × (find_name name m' ≡ some wd)
      × (lookup wd m'.by_wd ≡ some (record { name = name; callbacks = callbacks }))
      × (lookup name m'.waiting ≡ none)
      × ((other : ℕ)
          → other ≢ name
          → (find_name other m' ≡ find_name other m)
            × (lookup other m'.waiting ≡ lookup other m.waiting))
      × ((k : ℕ) → k ≢ wd → lookup k m'.by_wd ≡ lookup k m.by_wd)
unfolding on_create add_watched find_name find_id
on_create-IsOrdered wd name callbacks m p w fresh =
    let new : lookup name m.by_name ≡ none = elim (Option-cases (lookup name m.by_name)) [
      | inl e ↦ e
      | inr (d, e) ↦ absurd (ground (arith, p.apart name d e, w))
    ] in
    let free : lookup wd m.by_wd ≡ none = ground (arith, fresh) in
    let node : NodeWatcher = record { name = name; callbacks = callbacks } in
    (
      record {
        by_name = emplace name wd m.by_name;
        by_wd = emplace wd node m.by_wd;
        waiting = erase name m.waiting;
      },
      ground (arith, w, new),
      record {
        forth = λ f k e. ground (
          arith,
          e,
          lookup-emplace name f wd m.by_name new,
          lookup-emplace wd k node m.by_wd free,
          p.forth f k,
        );
        back = λ f k e. ground (
          arith,
          e,
          lookup-emplace name f wd m.by_name new,
          lookup-emplace wd k node m.by_wd free,
          p.back f k,
        );
        apart = λ f k e. ground (
          arith,
          e,
          lookup-emplace name f wd m.by_name new,
          lookup-erase name f m.waiting,
          p.apart f k,
        );
      },
      ground (arith, lookup-emplace name name wd m.by_name new),
      ground (arith, lookup-emplace wd wd node m.by_wd free),
      ground (arith, lookup-erase name name m.waiting),
      λ f ne. (
        ground (arith, lookup-emplace name f wd m.by_name new),
        ground (arith, lookup-erase name f m.waiting),
      ),
      λ k ne. ground (arith, lookup-emplace wd k node m.by_wd free),
    )

-- When a watched node is destroyed it is waited for again, with its callbacks, and not watched; the
-- two maps stay inverse and no watched node is waited for; every other name is watched as it was.
pub on_destroy-IsOrdered :
    (wd : ℕ) (node : NodeWatcher) (m : Monitor)
    → IsOrdered m
    → lookup wd m.by_wd ≡ some node
    → IsOrdered (on_destroy wd m)
      × (find_name node.name (on_destroy wd m) ≡ none)
      × (lookup node.name (on_destroy wd m).waiting ≡ some node.callbacks)
      × ((other : ℕ) → other ≢ node.name → find_name other (on_destroy wd m) ≡ find_name other m)
unfolding on_destroy remove_watched find_name find_id
on_destroy-IsOrdered wd node m p e =
    let named : lookup node.name m.by_name ≡ some wd = p.back node.name wd (ground (arith, e)) in
    let free : lookup node.name m.waiting ≡ none = p.apart node.name wd named in
    (
      record {
        forth = λ f k g. ground (
          arith,
          g,
          e,
          named,
          p.forth f k,
          p.forth node.name k,
          lookup-erase node.name f m.by_name,
          lookup-erase wd k m.by_wd,
        );
        back = λ f k g. ground (
          arith,
          g,
          e,
          named,
          p.back f k,
          lookup-erase node.name f m.by_name,
          lookup-erase wd k m.by_wd,
        );
        apart = λ f k g. ground (
          arith,
          g,
          e,
          named,
          p.apart f k,
          lookup-erase node.name f m.by_name,
          lookup-emplace node.name f node.callbacks m.waiting free,
        );
      },
      ground (arith, e, named, lookup-erase node.name node.name m.by_name),
      ground (arith, e, named, lookup-emplace node.name node.name node.callbacks m.waiting free),
      λ f ne. ground (arith, e, named, lookup-erase node.name f m.by_name),
    )

-- `remove` of a name takes the node from the watched and from those waited for; the two maps stay
-- inverse and no watched node is waited for; every other name is watched as it was.
pub remove_node-IsOrdered :
    (name : ℕ) (m : Monitor)
    → IsOrdered m
    → IsOrdered (remove_node name m).1
      × (find_name name (remove_node name m).1 ≡ none)
      × (lookup name (remove_node name m).1.waiting ≡ none)
      × ((other : ℕ) → other ≢ name → find_name other (remove_node name m).1 ≡ find_name other m)
unfolding remove_node remove_watched find_name find_id
remove_node-IsOrdered name m p = elim (Option-cases (lookup name m.by_name)) [
  | inl gone ↦ (
    record {
      forth = λ f k g. ground (arith, g, gone, p.forth f k);
      back = λ f k g. ground (arith, g, gone, p.back f k);
      apart = λ f k g. ground (arith, g, gone, p.apart f k, lookup-erase name f m.waiting);
    },
    ground (arith, gone),
    ground (arith, gone, lookup-erase name name m.waiting),
    λ f ne. ground (arith, gone),
  )
  | inr (wd, there) ↦ (
    record {
      forth = λ f k g. ground (
        arith,
        g,
        there,
        p.forth name wd there,
        p.forth f k,
        lookup-erase name f m.by_name,
        lookup-erase wd k m.by_wd,
      );
      back = λ f k g. ground (
        arith,
        g,
        there,
        p.forth name wd there,
        p.back f k,
        p.back name k,
        lookup-erase name f m.by_name,
        lookup-erase wd k m.by_wd,
      );
      apart = λ f k g. ground (
        arith,
        g,
        there,
        p.apart f k,
        lookup-erase name f m.by_name,
        lookup-erase name f m.waiting,
      );
    },
    ground (arith, there, lookup-erase name name m.by_name),
    ground (arith, there, lookup-erase name name m.waiting),
    λ f ne. ground (arith, there, lookup-erase name f m.by_name),
  )
]

-- `remove` of the descriptor of a watched node reads the watcher that it has erased.
pub remove_id-watched :
    (name wd : ℕ) (m : Monitor)
    → IsOrdered m
    → find_name name m ≡ some wd
    → remove_id wd m ≡ fault Fault.use_after_free
unfolding remove_id find_id
remove_id-watched name wd m p e = ground (arith, p.forth name wd e)
