-- ===== src/Parameters/Paths.antt =====
-- The walk down to the table of a key.
use native.Mathlib.Decide.{ℕ_discrete}
use coin_data.Prelude.{
  ℕ, ◌≡◌, ◌≢◌, refl, List, [], ◌∷◌, Option, none, some, Result, ok, fault, Fault, ◌>>=◌, ◌⊎◌, arith,
  lookup, insert_or_assign, nat_key, lookup-insert_or_assign, Option-cases, inl, inr,
}
use coin_data.Parameters.Keys.{Text, text_key, same_iff, Misses}
use coin_data.Parameters.Nodes.{
  Value, AnyDataNode, Memory, read_node, read_table, write_entry, entry, find_parent,
  find_or_insert, table, item,
}

Value-cases :
    (v : Value) → ((t : List (Text × Option ℕ)) × (v ≡ table t)) ⊎ ((tid d : ℕ) × (v ≡ item tid d))
Value-cases (table t) = inl (t, refl)
Value-cases (item tid d) = inr (tid, d, refl)

pub Result-cases {ℓ} :
    {A : Type ℓ} (r : Result A) → ((a : A) × (r ≡ ok a)) ⊎ ((e : Fault) × (r ≡ fault e))
Result-cases (ok a) = inl (a, refl)
Result-cases (fault e) = inr (e, refl)

-- A pointer that leads to a table
unfoldable pub IsTable : Option ℕ → Memory → List (Text × Option ℕ) → Type 0
IsTable c mem t =
    (a : ℕ) × (n : AnyDataNode) × (c ≡ some a) × (lookup a mem ≡ some n) × (n.value ≡ table t)

pub read_table-IsTable :
    (c : Option ℕ) (mem : Memory) (t : List (Text × Option ℕ))
    → read_table c mem ≡ ok t
    → IsTable c mem t
unfolding read_table read_node IsTable
read_table-IsTable none mem t e = absurd (ground (arith, e))
read_table-IsTable (some a) mem t e = elim (Option-cases (lookup a mem)) [
  | inl f ↦ absurd (ground (arith, e, f))
  | inr (n, f) ↦ elim (Value-cases n.value) [
    | inl (t', g) ↦ (a, n, refl, f, ground (arith, e, f, g))
    | inr (tid, d, g) ↦ absurd (ground (arith, e, f, g))
  ]
]

-- An empty table put into the root under the key changes no entry for another key.
inserted-table :
    (root : ℕ) (key : Text) (new : ℕ) (c : Option ℕ) (k : Text) (mem : Memory) (top : AnyDataNode)
    (t tc : List (Text × Option ℕ))
    → lookup root mem ≡ some top
    → top.value ≡ table t
    → lookup new mem ≡ none
    → key ≢ k
    → read_table c mem ≡ ok tc
    → lookup k tc ≡ none
    → (mem' : Memory) × (tc' : List (Text × Option ℕ)) × (write_entry root key new
          (insert_or_assign new (record { key = key; value = table [] }) mem)
        ≡ ok mem')
      × (read_table c mem' ≡ ok tc')
      × (lookup k tc' ≡ none)
unfolding write_entry read_table read_node IsTable
inserted-table root key new c k mem top t tc a b n ne e f =
    let (q, m, g, h, i) = read_table-IsTable c mem tc e in
    let x : AnyDataNode = record { key = key; value = table [] } in
    let y : AnyDataNode = record top { value = table (insert_or_assign key (some new) t) } in
    let mem1 = insert_or_assign new x mem in
    elim (ℕ_discrete root q) [
      | yes same ↦ (
        insert_or_assign root y mem1,
        insert_or_assign key (some new) t,
        ground (arith, a, b, n, lookup-insert_or_assign new root x mem),
        ground (arith, g, same, lookup-insert_or_assign root q y mem1),
        ground (
          arith,
          a,
          b,
          h,
          i,
          same,
          f,
          same_iff key k,
          ne,
          lookup-insert_or_assign key k (some new) t,
        ),
      )
      | no other ↦ (
        insert_or_assign root y mem1,
        tc,
        ground (arith, a, b, n, lookup-insert_or_assign new root x mem),
        ground (
          arith,
          g,
          h,
          i,
          n,
          other,
          lookup-insert_or_assign root q y mem1,
          lookup-insert_or_assign new q x mem,
        ),
        f,
      )
    ]

-- For a table as the root, an address that is not in use and a key that is none of its parts, the
-- loop of `get` and `set`, which inserts a table for a missing part, does what the loop of
-- `operator[]` does, and changes nothing.
pub find_or_insert-find_parent :
    (root : ℕ) (key : Text) (new : ℕ) (c : Option ℕ) (ks : List Text) (mem : Memory)
    (top : AnyDataNode) (t : List (Text × Option ℕ))
    → lookup root mem ≡ some top
    → top.value ≡ table t
    → lookup new mem ≡ none
    → Misses key ks
    → find_or_insert root key new c ks mem ≡ (find_parent c ks mem >>= λ a. ok (a, mem))
unfolding find_or_insert find_parent read_table read_node write_entry entry Misses
find_or_insert-find_parent root key new c [] mem top t a b n h = refl
find_or_insert-find_parent root key new c (k ∷ ks) mem top t a b n (ne, h) =
    elim (Result-cases (read_table c mem)) [
      | inr (e, f) ↦ ground (arith, f)
      | inl (tc, f) ↦ elim (Option-cases (lookup k tc)) [
        | inl g ↦
            let (mem', tc', i, j, l) = inserted-table root key new c k mem top t tc a b n ne f g in
            ground (arith, f, g, i, j, l)
        | inr (o, g) ↦ elim (Result-cases (read_table o mem)) [
          | inr (e, i) ↦ ground (arith, f, g, i)
          | inl (t2, i) ↦
              ground
                (arith, f, g, i, find_or_insert-find_parent root key new o ks mem top t a b n h)
        ]
      ]
    ]
