-- ===== src/Buddy/Reach/Extent.antt =====
-- The memory of a block, and blocks that do not overlap.
use native.Mathlib.Decide.{ℕ_discrete}
use coin_data.Prelude.{
  ℕ, zero, suc, ◌+◌, ◌*◌, ◌^◌, ◌≤◌, ◌<◌, ◌≡◌, ◌≢◌, refl, sym, ap, ◌∙◌, true, false, Bool-cases,
  List, [], ◌∷◌, ◌⊎◌, inl, inr, arith, ◌==◌,
}
use coin_data.Buddy.Levels.{bytes}
use coin_data.Buddy.Malloc.Split.{true_below, true_below_lem}
use coin_data.Buddy.Store.{Store}
use coin_data.Buddy.Lists.Linked.{Seg, has}
use coin_data.Buddy.Lists.Place.{put}

abbrev pub extent : ℕ → ℕ
extent l = 2 ^ l * 4096

bytes_extents : true_below (λ j. bytes j == extent j) 31 ≡ true
unfolding true_below bytes
bytes_extents = refl

-- The level 31 is left out: there the shift gives another number.
pub bytes-extent : (l : ℕ) → l < 31 → bytes l ≡ extent l
bytes-extent l few =
    let same : (bytes l == extent l) ≡ true = true_below_lem _ 31 bytes_extents l few in
    ground (arith, same)

pub extent_suc : (l : ℕ) → extent (l + 1) ≡ extent l + extent l
extent_suc l =
    let shift : l + 1 ≡ suc l = omega arith in
    let double : extent (suc l) ≡ extent l + extent l = omega arith in ap extent shift ∙ double

pub extent_page : (l : ℕ) → 4096 ≤ extent l
extent_page zero = omega arith
extent_page (suc l) = omega (arith, extent_page l)

pub extent_pos : (l : ℕ) → 0 < extent l
extent_pos zero = omega arith
extent_pos (suc l) = omega (arith, extent_pos l)

pub extent_mono : (j i : ℕ) → j < i → extent j < extent i
extent_mono j zero lt = absurd (omega arith)
extent_mono j (suc i) lt = elim (ℕ_discrete j i) [
  | yes e ↦ omega (arith, ap extent e, extent_pos i)
  | no ne ↦ omega (arith, extent_mono j i (omega arith), extent_pos i)
]

-- The block `x` of level `i` and the block `y` of level `j` do not overlap.
abbrev pub Disjoint : ℕ → ℕ → ℕ → ℕ → Type 0
Disjoint i x j y = (x + extent i ≤ y) ⊎ (y + extent j ≤ x)

pub Disjoint-sym : (i x j y : ℕ) → Disjoint i x j y → Disjoint j y i x
Disjoint-sym i x j y (inl a) = inr a
Disjoint-sym i x j y (inr a) = inl a

-- The block `h` of level `l` overlaps with no block of the lists.
abbrev pub Clear : ℕ → ℕ → (ℕ → List ℕ) → Type 0
Clear l h ls = (j y : ℕ) → j < 32 → has y (ls j) ≡ true → Disjoint l h j y

-- No two blocks of the lists overlap.
abbrev pub Apart : (ℕ → List ℕ) → Type 0
Apart ls =
    (i x j y : ℕ)
    → i < 32
    → j < 32
    → has x (ls i) ≡ true
    → has y (ls j) ≡ true
    → ((i ≡ j) × (x ≡ y)) ⊎ Disjoint i x j y

-- In the order of the addresses, each but once.
abbrev pub Sorted : ℕ → List ℕ → Type 0
Sorted p [] = Unit
Sorted p (x ∷ xs) = (p < x) × Sorted x xs

pub lt_of_Sorted : (q p : ℕ) (xs : List ℕ) → Sorted p xs → has q xs ≡ true → p < q
lt_of_Sorted q p [] sorted i = ground arith
lt_of_Sorted q p (x ∷ xs) (lt, sorted) i = elim (ℕ_discrete q x) [
  | yes e ↦ omega arith
  | no ne ↦ omega (arith, lt_of_Sorted q x xs sorted (ground arith))
]

pub not-has_of_Sorted : (p : ℕ) (xs : List ℕ) → Sorted p xs → has p xs ≡ false
not-has_of_Sorted p xs sorted = elim (Bool-cases (has p xs)) [
  | inl i ↦ absurd (omega (arith, lt_of_Sorted p p xs sorted i))
  | inr out ↦ out
]

pub Sorted-below : (p q : ℕ) (xs : List ℕ) → p < q → Sorted q xs → Sorted p xs
Sorted-below p q [] lt sorted = tt
Sorted-below p q (x ∷ xs) lt (below, sorted) = (omega arith, sorted)

pub Seg-Sorted : (s : Store) (l p : ℕ) (xs : List ℕ) → Seg s l p xs → Sorted p xs
Seg-Sorted s l p [] seg = tt
Seg-Sorted s l p (x ∷ xs) (leads, node, rest) = (node.above, Seg-Sorted s l x xs rest)

-- A block of `put ls l xs` is one of `xs`, or of another list.
pub has-put :
    (ls : ℕ → List ℕ) (l : ℕ) (xs : List ℕ) (j y : ℕ)
    → has y (put ls l xs j) ≡ true
    → ((j ≡ l) × (has y xs ≡ true)) ⊎ ((j ≢ l) × (has y (ls j) ≡ true))
has-put ls l xs j y i = elim (ℕ_discrete j l) [
  | yes e ↦ inl (e, ground (arith, i))
  | no ne ↦ inr (ne, ground (arith, i))
]

-- With fewer blocks nothing overlaps either.
abbrev pub Within : (ℕ → List ℕ) → (ℕ → List ℕ) → Type 0
Within ls' ls = (j y : ℕ) → has y (ls' j) ≡ true → has y (ls j) ≡ true

pub Within-Apart : (ls' ls : ℕ → List ℕ) → Within ls' ls → Apart ls → Apart ls'
Within-Apart ls' ls sub apart i x j y a b c d = apart i x j y a b (sub i x c) (sub j y d)

pub Within-Clear : (ls' ls : ℕ → List ℕ) (l h : ℕ) → Within ls' ls → Clear l h ls → Clear l h ls'
Within-Clear ls' ls l h sub clear j y a b = clear j y a (sub j y b)

-- The list `ys` has the block `h` more than that of level `l`, at most.
module _ (ls : ℕ → List ℕ) (l h : ℕ) (ys : List ℕ)
    (more : (y : ℕ) → has y ys ≡ true → (y ≡ h) ⊎ (has y (ls l) ≡ true)) where
  put-origin :
      (j y : ℕ) → has y (put ls l ys j) ≡ true → ((j ≡ l) × (y ≡ h)) ⊎ (has y (ls j) ≡ true)
  put-origin j y i = elim (has-put ls l ys j y i) [
    | inl (e, a) ↦ elim (more y a) [ inl b ↦ inl (e, b) | inr b ↦ inr (rw e b) ]
    | inr (ne, a) ↦ inr a
  ]

  pub put-Apart : Apart ls → Clear l h ls → Apart (put ls l ys)
  put-Apart apart clear i x j y a b c d = elim (put-origin i x c) [
    | inl (ei, ex) ↦ elim (put-origin j y d) [
      | inl (ej, ey) ↦ inl (ei ∙ sym ej, ex ∙ sym ey)
      | inr old ↦ rw (ei, ex) (inr (clear j y b old))
    ]
    | inr old ↦ elim (put-origin j y d) [
      | inl (ej, ey) ↦ rw (ej, ey) (inr (Disjoint-sym l h i x (clear i x a old)))
      | inr both ↦ apart i x j y a b old both
    ]
  ]

  pub put-Clear : (k u : ℕ) → Clear k u ls → Disjoint k u l h → Clear k u (put ls l ys)
  put-Clear k u clear disjoint j y a b = elim (put-origin j y b) [
    | inl (ej, ey) ↦ rw (ej, ey) disjoint
    | inr old ↦ clear j y a old
  ]
