-- ===== src/Parameters/Tests.antt =====
-- Parameters on small inputs: a root at 1 with a table `a` at 2, which has an item `b` at 3.
use coin_data.Prelude.{
  ℕ, ◌≡◌, ◌≢◌, refl, List, [], ◌∷◌, Option, none, some, ok, fault, Fault, ◌>>=◌, arith, lookup,
  nat_key,
}
use coin_data.Parameters.Keys.{
  Text, text_key, same, split_key, join_key, IsPlain, ArePlain, Misses, split_key-join_key,
}
use coin_data.Parameters.Nodes.{
  AnyDataNode, Memory, read_node, read_table, entry, find_parent, find_or_insert, at_key, set_key,
  get_key, table, item,
}
use coin_data.Parameters.Paths.{find_or_insert-find_parent}
use coin_data.Parameters.Access.{get_key-set_key, get_key-other_type}

abbrev a : Text
a = 97 ∷ []

abbrev b : Text
b = 98 ∷ []

abbrev root_map : List (Text × Option ℕ)
root_map = (a, some 2) ∷ []

abbrev a_map : List (Text × Option ℕ)
a_map = (b, some 3) ∷ []

abbrev root_node : AnyDataNode
root_node = record { key = []; value = table root_map }

abbrev a_node : AnyDataNode
a_node = record { key = a; value = table a_map }

abbrev b_node : AnyDataNode
b_node = record { key = b; value = item 7 40 }

abbrev memory : Memory
memory = (1, root_node) ∷ (2, a_node) ∷ (3, b_node) ∷ []

a-IsPlain : IsPlain a
unfolding IsPlain
a-IsPlain = (λ e. absurd (omega (arith, e)), tt)

b-IsPlain : IsPlain b
unfolding IsPlain
b-IsPlain = (λ e. absurd (omega (arith, e)), tt)

parts-ArePlain : ArePlain (a ∷ [])
unfolding ArePlain
parts-ArePlain = (a-IsPlain, tt)

split_key-join_key_example : split_key (97 ∷ 46 ∷ 98 ∷ []) ≡ (a ∷ [], b)
unfolding join_key
split_key-join_key_example = split_key-join_key (a ∷ []) b parts-ArePlain b-IsPlain

c-Misses : Misses (99 ∷ 46 ∷ []) ((99 ∷ []) ∷ [])
unfolding Misses
c-Misses = (λ e. absurd (ground (arith, e)), tt)

find_or_insert-find_parent_example :
    find_or_insert 1 (99 ∷ 46 ∷ []) 10 (some 1) ((99 ∷ []) ∷ []) memory
    ≡ (find_parent (some 1) ((99 ∷ []) ∷ []) memory >>= λ p. ok (p, memory))
unfolding lookup
find_or_insert-find_parent_example =
    find_or_insert-find_parent 1 (99 ∷ 46 ∷ []) 10 (some 1) ((99 ∷ []) ∷ []) memory root_node
      root_map refl refl refl c-Misses

parent_a : find_parent (some 1) (a ∷ []) memory ≡ ok (some 2)
unfolding find_parent read_table read_node entry lookup same
parent_a = refl

item_b : (t : List (Text × Option ℕ)) → read_table (entry b a_map) memory ≢ ok t
unfolding read_table read_node entry lookup same
item_b t e = absurd (ground (arith, e))

get_key-set_key_example :
    (mem' : Memory) × (set_key 7 1 (join_key (a ∷ []) b) 5 10 11 memory ≡ ok mem')
    × (at_key 1 (join_key (a ∷ []) b) mem' ≡ ok 11)
    × (lookup 12 mem' ≡ none → get_key 7 1 (join_key (a ∷ []) b) 0 12 13 mem' ≡ ok (5, mem'))
unfolding lookup
get_key-set_key_example =
    get_key-set_key 7 1 (a ∷ []) b 5 0 10 11 12 13 2 memory root_node a_node root_map a_map
      parts-ArePlain b-IsPlain refl refl parent_a refl refl refl refl item_b

get_key-other_type_example :
    (mem' : Memory) × (set_key 7 1 (join_key (a ∷ []) b) 5 10 11 memory ≡ ok mem')
    × (lookup 12 mem' ≡ none → get_key 8 1 (join_key (a ∷ []) b) 0 12 13 mem' ≡ fault Fault.aborted)
unfolding lookup
get_key-other_type_example =
    get_key-other_type 7 8 1 (a ∷ []) b 5 0 10 11 12 13 2 memory root_node a_node root_map a_map
      parts-ArePlain b-IsPlain refl refl parent_a refl refl refl refl
      (λ e. absurd (omega (arith, e))) item_b
