-- ===== src/Environment.antt =====
-- `EnvironmentVariable` of src/coin-commons/executor/executor.cpp: an array of strings `key=value` that
-- ends with a null pointer. A string is the list of its characters' codes. `room` is the number of
-- slots from the current one to the end of the array.
pub mod Values
pub mod Tests
use coin_data.Prelude.{
  ℕ, zero, suc, ◌+◌, Bool, true, false, ◌&&◌, List, [], ◌∷◌, ◌++◌, Option, none, some, Result, ok,
  fault, Fault, ◌>>=◌, ◌==◌, if◌then◌else◌,
}

abbrev pub Text : Type 0
Text = List ℕ

-- `==` of strings
unfoldable pub same : Text → Text → Bool
same [] [] = true
same [] (y ∷ ys) = false
same (x ∷ xs) [] = false
same (x ∷ xs) (y ∷ ys) = (x == y) && same xs ys

-- The parts of an item before and after its first `=`, which is 61.
unfoldable pub split_item : Text → Option (Text × Text)
split_item [] = none
split_item (x ∷ xs) =
    let rest = split_item xs in
    if x == 61 then some ([], xs) else elim rest [ none ↦ none | some (k, v) ↦ some (x ∷ k, v) ]

-- The value of an item that has this key.
unfoldable pub value_for : Text → Text → Option Text
value_for key item = elim (split_item item) [
  | none ↦ none
  | some (k, v) ↦ if same k key then some v else none
]

unfoldable pub get_env : ℕ → Text → List Text → Result Text
get_env zero key env = fault Fault.out_of_range
get_env (suc room) key [] = ok []
get_env (suc room) key (item ∷ env) =
    let rest = get_env room key env in elim (value_for key item) [ none ↦ rest | some v ↦ ok v ]

unfoldable pub add_env : ℕ → Text → Text → List Text → Result (List Text)
add_env zero key value env = fault Fault.out_of_range
add_env (suc room) key value [] = ok ((key ++ 61 ∷ value) ∷ [])
add_env (suc room) key value (item ∷ env) =
    let rest = add_env room key value env in
    elim (value_for key item) [
      | none ↦ rest >>= λ env'. ok (item ∷ env')
      | some v ↦ ok ((key ++ 61 ∷ value) ∷ env)
    ]

-- The terminator is written behind the new string. The result is false where the code returns -1.
unfoldable pub set_env : ℕ → Text → Text → List Text → Result Bool
set_env zero key value env = fault Fault.out_of_range
set_env (suc room) key value [] = ok false
set_env (suc room) key value (item ∷ env) =
    let rest = set_env room key value env in
    elim (value_for key item) [ none ↦ rest | some v ↦ fault Fault.out_of_range ]
