-- ===== src/Buddy/Reach/Bounds.antt =====
-- Bounds of the free memory: the end of a block, the length of a list, and the highest level.
use native.Mathlib.Decide.{ℕ_discrete}
use coin_data.Prelude.{
  ℕ, zero, suc, ◌+◌, ◌*◌, ◌^◌, ◌≤◌, ◌<◌, ◌≡◌, refl, true, List, [], ◌∷◌, inl, inr, arith, length,
}
use coin_data.Buddy.Lists.Linked.{has}
use coin_data.Buddy.Free.Pages.{free_pages}
use coin_data.Buddy.Reach.Extent.{extent, Clear}

-- A free block ends at `hi` or below.
pub ends_below :
    (hi : ℕ) (ls : ℕ → List ℕ) (j y : ℕ)
    → ((k : ℕ) → Clear k hi ls)
    → j < 32
    → has y (ls j) ≡ true
    → y + extent j ≤ hi
ends_below hi ls j y below few i = elim (below y j y few i) [
  | inl a ↦ absurd (omega (arith, large y))
  | inr b ↦ b
]
  where
    large : (n : ℕ) → n < extent n
    large zero = omega arith
    large (suc n) = omega (arith, large n)

-- A list has no more blocks than there are free pages.
times_pos : (a n : ℕ) → 0 < a → n ≤ a * n
times_pos zero n pos = absurd (omega arith)
times_pos (suc a) n pos = omega arith

pow_pos : (n : ℕ) → 0 < 2 ^ n
pow_pos zero = omega arith
pow_pos (suc n) = omega (arith, pow_pos n)

pub length-free_pages :
    (n j : ℕ) (ls : ℕ → List ℕ) → j < n → 2 ^ j * length (ls j) ≤ free_pages n ls
unfolding free_pages
length-free_pages zero j ls lt = absurd (omega arith)
length-free_pages (suc n) j ls lt = elim (ℕ_discrete j n) [
  | yes e ↦ rw e (omega arith)
  | no ne ↦ omega (arith, length-free_pages n j ls (omega arith))
]

pub short : (ls : ℕ → List ℕ) (j : ℕ) → j < 32 → length (ls j) ≤ free_pages 32 ls
short ls j few =
    omega (arith, times_pos (2 ^ j) (length (ls j)) (pow_pos j), length-free_pages 32 j ls few)

pub top : (ls : ℕ → List ℕ) → free_pages 32 ls < 2 ^ 31 → ls 31 ≡ []
top ls few = empty (ls 31) (omega (arith, length-free_pages 32 31 ls (omega arith)))
  where
    empty : (xs : List ℕ) → length xs < 1 → xs ≡ []
    empty [] a = refl
    empty (x ∷ xs) a = absurd (omega arith)
