-- ===== src/Environment/Values.antt =====
-- What is got back from an environment.
use coin_data.Prelude.{
  ℕ, zero, suc, ◌+◌, ◌<◌, ◌≡◌, ◌≢◌, refl, true, false, List, [], ◌∷◌, ◌++◌, none, some, ok, fault,
  Fault, arith, length, Option-cases, ◌⊎◌, inl, inr,
}
use coin_data.Environment.{Text, same, split_item, value_for, get_env, add_env, set_env}

pub same_refl : (xs : Text) → same xs xs ≡ true
unfolding same
same_refl [] = refl
same_refl (x ∷ xs) = ground (arith, same_refl xs)

same_eq : (xs ys : Text) → same xs ys ≡ true → xs ≡ ys
unfolding same
same_eq [] [] h = refl
same_eq [] (y ∷ ys) h = cc
same_eq (x ∷ xs) [] h = cc
same_eq (x ∷ xs) (y ∷ ys) h = ground (arith, h, same_eq xs ys)

-- A key has no `=`.
abbrev pub IsKey : Text → Type 0
IsKey [] = Unit {0}
IsKey (x ∷ xs) = (x ≢ 61) × IsKey xs

split_item-append :
    (key value : Text) → IsKey key → split_item (key ++ 61 ∷ value) ≡ some (key, value)
unfolding split_item
split_item-append [] value k = refl
split_item-append (x ∷ xs) value (n, k) = ground (arith, n, split_item-append xs value k)

-- The item that `add_env` writes has its key, and no other.
pub value_for-append :
    (key other value : Text)
    → IsKey key
    → (value_for key (key ++ 61 ∷ value) ≡ some value)
      × (other ≢ key → value_for other (key ++ 61 ∷ value) ≡ none)
unfolding value_for
value_for-append key other value k = (
  ground (arith, split_item-append key value k, same_refl key),
  λ n. ground (arith, split_item-append key value k, n, same_eq key other),
)

value_for_unique :
    (key other item v : Text)
    → value_for key item ≡ some v
    → other ≢ key
    → value_for other item ≡ none
unfolding value_for
value_for_unique key other item v e n = elim (Option-cases (split_item item)) [
  | inl a ↦ ground (arith, a)
  | inr ((k, w), a) ↦ ground (arith, a, e, n, same_eq k key, same_eq k other)
]

-- If a key has no `=`, and the array has a free slot before its last one, `add_env` succeeds,
-- `get_env` then gives the value that was added, and no other key changes.
pub get_env-add_env :
    (room : ℕ) (key value : Text) (env : List Text)
    → IsKey key
    → length env + 1 < room
    → (env' : List Text) × (add_env room key value env ≡ ok env')
      × (get_env room key env' ≡ ok value)
      × ((other : Text) → other ≢ key → get_env room other env' ≡ get_env room other env)
unfolding add_env get_env
get_env-add_env zero key value env k h = absurd (omega arith)
get_env-add_env (suc zero) key value env k h = absurd (omega arith)
get_env-add_env (suc (suc room)) key value [] k h = (
  (key ++ 61 ∷ value) ∷ [],
  refl,
  ground (arith, (value_for-append key key value k).0),
  λ other n. ground (arith, (value_for-append key other value k).1 n),
)
get_env-add_env (suc (suc room)) key value (item ∷ env) k h =
    let (env', e, g, o) = get_env-add_env (suc room) key value env k (omega arith) in
    elim (Option-cases (value_for key item)) [
      | inl a ↦ (
        item ∷ env',
        ground (arith, a, e),
        ground (arith, a, g),
        λ other n. ground (arith, o other n),
      )
      | inr (v, a) ↦ (
        (key ++ 61 ∷ value) ∷ env,
        ground (arith, a),
        ground (arith, (value_for-append key key value k).0),
        λ other n. ground (
          arith,
          (value_for-append key other value k).1 n,
          value_for_unique key other item v a n,
        ),
      )
    ]

-- `set_env` never sets anything: it writes behind the string it made, or says that it failed, for a
-- key that `get_env` does not find either.
pub set_env-never :
    (room : ℕ) (key value : Text) (env : List Text)
    → (set_env room key value env ≡ fault Fault.out_of_range)
      ⊎ ((set_env room key value env ≡ ok false) × (get_env room key env ≡ ok []))
unfolding set_env get_env
set_env-never zero key value env = inl refl
set_env-never (suc room) key value [] = inr (refl, refl)
set_env-never (suc room) key value (item ∷ env) = elim (Option-cases (value_for key item)) [
  | inl a ↦ elim (set_env-never room key value env) [
    | inl h ↦ inl (ground (arith, a, h))
    | inr (h, g) ↦ inr (ground (arith, a, h), ground (arith, a, g))
  ]
  | inr (v, a) ↦ inl (ground (arith, a))
]
