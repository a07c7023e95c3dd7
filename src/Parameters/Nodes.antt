-- ===== src/Parameters/Nodes.antt =====
-- Nodes and the operations on a tree: `operator[]`, `get`, `set` and `add`.
use coin_data.Prelude.{
  ℕ, true, false, List, [], ◌∷◌, Option, none, some, Result, ok, fault, Fault, ◌>>=◌, ◌==◌, lookup,
  insert_or_assign, nat_key,
}
use coin_data.Parameters.Keys.{Text, text_key, split_key}

-- `__m_value`: the map of a table, whose pointers may be null, or a value of some type
pub data Value : Type 0 where
  table : List (Text × Option ℕ) → Value
  item : ℕ → ℕ → Value

-- `AnyDataNode`
pub record AnyDataNode : Type 0 where
  pub key : Text
  pub value : Value

abbrev pub Memory : Type 0
Memory = List (ℕ × AnyDataNode)

unfoldable pub read_node : Option ℕ → Memory → Result AnyDataNode
read_node none mem = fault Fault.null_pointer
read_node (some a) mem = elim (lookup a mem) [ none ↦ fault Fault.use_after_free | some n ↦ ok n ]

-- The map of a table; for an item the code throws.
unfoldable pub read_table : Option ℕ → Memory → Result (List (Text × Option ℕ))
unfolding read_node
read_table a mem =
    read_node a mem >>= λ n. elim (n.value) [ table t ↦ ok t | item tid v ↦ fault Fault.aborted ]

-- A write of an entry of a table, whose key stays
unfoldable pub write_entry : ℕ → Text → ℕ → Memory → Result Memory
unfolding read_node read_table
write_entry c k a mem = read_node (some c) mem >>= λ n. read_table (some c) mem >>= λ t.
    ok (insert_or_assign c (record n { value = table (insert_or_assign k (some a) t) }) mem)

-- `operator[]` of the map inserts a null pointer for a key that is not there.
unfoldable pub entry : Text → List (Text × Option ℕ) → Option ℕ
entry k t = elim (lookup k t) [ none ↦ none | some o ↦ o ]

-- The loop of `operator[]` over the parts of the key
unfoldable pub find_parent : Option ℕ → List Text → Memory → Result (Option ℕ)
unfolding read_table entry
find_parent c [] mem = ok c
find_parent c (k ∷ ks) mem =
    read_table c mem >>= λ t. read_table (entry k t) mem >>= λ t'. find_parent (entry k t) ks mem

-- The loop of `get` and of `set`: where a part is missing, an empty table is put into the map of the
-- root, under the whole key, and the part is read once more.
unfoldable pub find_or_insert :
    ℕ → Text → ℕ → Option ℕ → List Text → Memory → Result (Option ℕ × Memory)
unfolding read_table write_entry entry
find_or_insert root key new c [] mem = ok (c, mem)
find_or_insert root key new c (k ∷ ks) mem = read_table c mem >>= λ t. elim (lookup k t) [
  | some o ↦ read_table o mem >>= λ t'. find_or_insert root key new o ks mem
  | none ↦
      write_entry root key new (insert_or_assign new (record { key = key; value = table [] }) mem)
      >>= λ mem'. read_table c mem' >>= λ t'.
          read_table (entry k t') mem' >>= λ t2. find_or_insert root key new (entry k t') ks mem'
]

-- `as` of a type
unfoldable pub as_type : ℕ → Option ℕ → Memory → Result ℕ
unfolding read_node
as_type tid a mem = read_node a mem >>= λ n. elim (n.value) [
  | table t ↦ fault Fault.aborted
  | item t v ↦ elim (t == tid) [ true ↦ ok v | false ↦ fault Fault.aborted ]
]

-- `operator[]`
unfoldable pub at_key : ℕ → Text → Memory → Result ℕ
unfolding read_table find_parent
at_key root key mem = read_table (some root) mem >>= λ _.
    find_parent (some root) (split_key key).0 mem >>= λ c. read_table c mem >>= λ t.
    elim (lookup (split_key key).1 t) [
      | none ↦ fault Fault.aborted
      | some none ↦ fault Fault.null_pointer
      | some (some a) ↦ ok a
    ]

-- `set`: a new item takes the place of what the key led to.
unfoldable pub set_key : ℕ → ℕ → Text → ℕ → ℕ → ℕ → Memory → Result Memory
unfolding read_table find_or_insert write_entry
set_key tid root key v new fresh mem = read_table (some root) mem >>= λ _.
    find_or_insert root key new (some root) (split_key key).0 mem >>= λ (c, mem1). elim c [
      | none ↦ fault Fault.null_pointer
      | some a ↦
          write_entry a (split_key key).1 fresh
            (insert_or_assign fresh (record { key = (split_key key).1; value = item tid v }) mem1)
    ]

-- `get`: a key that is not there gets the value that was given.
unfoldable pub get_key : ℕ → ℕ → Text → ℕ → ℕ → ℕ → Memory → Result (ℕ × Memory)
unfolding read_table find_or_insert write_entry as_type entry
get_key tid root key d new fresh mem = read_table (some root) mem >>= λ _.
    find_or_insert root key new (some root) (split_key key).0 mem >>= λ (c, mem1).
    read_table c mem1 >>= λ t. elim (lookup (split_key key).1 t) [
      | some o ↦ as_type tid o mem1 >>= λ v. ok (v, mem1)
      | none ↦ elim c [
        | none ↦ fault Fault.null_pointer
        | some a ↦
            write_entry a (split_key key).1 fresh
              (insert_or_assign fresh (record { key = (split_key key).1; value = item tid d }) mem1)
            >>= λ mem2. as_type tid (some fresh) mem2 >>= λ v. ok (v, mem2)
      ]
    ]

-- `add` of a node
unfoldable pub add_node : ℕ → Option ℕ → Memory → Result Memory
unfolding read_node read_table write_entry
add_node root value mem = read_table (some root) mem >>= λ t. read_node value mem >>= λ n.
    elim (lookup n.key t) [
      | some o ↦ fault Fault.aborted
      | none ↦ elim value [
        | none ↦ fault Fault.null_pointer
        | some a ↦ write_entry root n.key a mem
      ]
    ]

-- The loop of the constructor of a table over its values
unfoldable pub collect : List ℕ → List (Text × Option ℕ) → Memory → Result (List (Text × Option ℕ))
unfolding read_node
collect [] t mem = ok t
collect (a ∷ values) t mem =
    read_node (some a) mem >>= λ n. collect values (insert_or_assign n.key (some a) t) mem

-- `add` of a key and the values of a new table
unfoldable pub add_table : ℕ → Text → List ℕ → ℕ → Memory → Result Memory
unfolding read_table write_entry collect
add_table root key values fresh mem = read_table (some root) mem >>= λ t. elim (lookup key t) [
  | some o ↦ fault Fault.aborted
  | none ↦ collect values [] mem >>= λ t'.
      write_entry root key fresh
        (insert_or_assign fresh (record { key = key; value = table t' }) mem)
]
