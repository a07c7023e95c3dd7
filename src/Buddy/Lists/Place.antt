-- ===== src/Buddy/Lists/Place.antt =====
-- What `buddy_free` does to the lists of addresses, apart from the headers that hold them.
use coin_data.Prelude.{
  ℕ, zero, suc, ◌+◌, ◌≡◌, arith, Bool, List, [], ◌∷◌, Option, none, some, ltb, ◌==◌, if◌then◌else◌,
}

-- The block stands in the list now, or a block of the list left it to be joined with it.
pub data Placed : Type 0 where
  placed : List ℕ → Placed
  joined : ℕ → List ℕ → Placed

abbrev pub prepend : ℕ → Placed → Placed
prepend x (placed xs) = placed (x ∷ xs)
prepend x (joined b xs) = joined b (x ∷ xs)

-- The list that is left.
abbrev pub left : Placed → List ℕ
left (placed xs) = xs
left (joined b xs) = xs

-- One walk along a list. `pairs x` says whether the block can be joined with `x`.
abbrev pub place : (ℕ → Bool) → ℕ → List ℕ → Placed
place pairs h [] = placed (h ∷ [])
place pairs h (x ∷ xs) =
    if pairs x
    then joined x xs
    else if ltb h x
    then placed (h ∷ x ∷ xs)
    else prepend x (place pairs h xs)

abbrev pub lower : ℕ → ℕ → ℕ
lower h x = if ltb h x then h else x

-- The result of `scan`.
abbrev pub outcome : ℕ → Placed → Option ℕ
outcome h (placed xs) = none
outcome h (joined x xs) = some (lower h x)

abbrev pub put : (ℕ → List ℕ) → ℕ → List ℕ → ℕ → List ℕ
put ls l xs j = if j == l then xs else ls j

-- `pairs l h x` says whether the blocks `h` and `x` of level `l` are buddies.
unfoldable pub give_back : (ℕ → ℕ → ℕ → Bool) → ℕ → ℕ → ℕ → (ℕ → List ℕ) → ℕ → List ℕ
give_back pairs zero l h ls = ls
give_back pairs (suc rounds) l h ls = elim (place (pairs l h) h (ls l)) [
  | placed xs ↦ put ls l xs
  | joined x xs ↦ give_back pairs rounds (l + 1) (lower h x) (put ls l xs)
]

module _ (pairs : ℕ → ℕ → ℕ → Bool) (rounds l h : ℕ) (ls : ℕ → List ℕ) where
  pub give_back-placed :
      (xs : List ℕ)
      → place (pairs l h) h (ls l) ≡ placed xs
      → give_back pairs (suc rounds) l h ls ≡ put ls l xs
  unfolding give_back
  give_back-placed xs e = ground (arith, e)

  pub give_back-joined :
      (x : ℕ) (xs : List ℕ)
      → place (pairs l h) h (ls l) ≡ joined x xs
      → give_back pairs (suc rounds) l h ls
        ≡ give_back pairs rounds (l + 1) (lower h x) (put ls l xs)
  unfolding give_back
  give_back-joined x xs e = ground (arith, e)
