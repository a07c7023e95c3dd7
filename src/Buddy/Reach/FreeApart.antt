-- ===== src/Buddy/Reach/FreeApart.antt =====
-- After `buddy_free` no two free blocks overlap, and none overlaps with a block that is in use.
use native.Mathlib.Decide.{ℕ_discrete, dec_lt}
use mathlib.Core.Path.{subst}
use coin_data.Prelude.{
  ℕ, zero, suc, ◌+◌, ◌≤◌, ◌<◌, ◌≡◌, refl, sym, ap, Bool, true, false, Bool-cases, List, [], ◌∷◌,
  ◌⊎◌, inl, inr, arith,
}
use coin_data.Buddy.Lists.Linked.{has, ne_of_has}
use coin_data.Buddy.Lists.Place.{
  Placed, placed, joined, prepend, place, lower, put, give_back, give_back-placed, give_back-joined,
}
use coin_data.Buddy.Reach.Extent.{
  extent, extent_suc, extent_pos, Disjoint, Disjoint-sym, Clear, Apart, Sorted, lt_of_Sorted,
  not-has_of_Sorted, Sorted-below, has-put, Within-Apart, Within-Clear, put-Apart, put-Clear,
}

-- What the walk does to the blocks of a list: one more, or one less.
abbrev Moved : (ℕ → Bool) → ℕ → ℕ → List ℕ → Placed → Type 0
Moved f p h xs (placed ys) = (y : ℕ) → has y ys ≡ true → (y ≡ h) ⊎ (has y xs ≡ true)
Moved f p h xs (joined b ys) =
    (f b ≡ true)
    × (has b xs ≡ true)
    × (has b ys ≡ false)
    × Sorted p ys
    × ((y : ℕ) → has y ys ≡ true → has y xs ≡ true)

prepend-Moved :
    (f : ℕ → Bool) (p h x : ℕ) (xs : List ℕ) (r : Placed)
    → p < x
    → Sorted x xs
    → Moved f x h xs r
    → Moved f p h (x ∷ xs) (prepend x r)
prepend-Moved f p h x xs (placed ys) lt sorted moved = λ y i. elim (ℕ_discrete y x) [
  | yes e ↦ inr (ground arith)
  | no ne ↦ elim (moved y (ground (arith, i))) [ inl e ↦ inl e | inr j ↦ inr (ground (arith, j)) ]
]
prepend-Moved f p h x xs (joined b ys) lt sorted (pair, inside, out, rest, sub) = (
  pair,
  ground (arith, inside),
  (let above : x < b = lt_of_Sorted b x xs sorted inside in ground (arith, out)),
  (lt, rest),
  λ y i. elim (ℕ_discrete y x) [
    | yes e ↦ ground arith
    | no ne ↦ ground (arith, sub y (ground (arith, i)))
  ],
)

place-Moved : (f : ℕ → Bool) (p h : ℕ) (xs : List ℕ) → Sorted p xs → Moved f p h xs (place f h xs)
place-Moved f p h [] sorted = λ y i. inl (ground arith)
place-Moved f p h (x ∷ xs) (lt, sorted) = elim (Bool-cases (f x)) [
  | inl pair ↦ subst (Moved f p h (x ∷ xs)) {x = joined x xs} (ground (arith, pair)) (
    pair,
    ground arith,
    not-has_of_Sorted x xs sorted,
    Sorted-below p x xs lt sorted,
    λ y i. ground (arith, i),
  )
  | inr pair ↦ elim (dec_lt h x) [
    | yes before ↦
        subst (Moved f p h (x ∷ xs)) {x = placed (h ∷ x ∷ xs)} (ground (arith, pair))
          (λ y i. elim (ℕ_discrete y h) [ yes e ↦ inl e | no ne ↦ inr (ground (arith, i)) ])
    | no ge ↦
        subst (Moved f p h (x ∷ xs)) {x = prepend x (place f h xs)} (ground (arith, pair))
          (prepend-Moved f p h x xs (place f h xs) lt sorted (place-Moved f x h xs sorted))
  ]
]

-- Blocks that are joined lie side by side.
abbrev pub Adjacent : (ℕ → ℕ → ℕ → Bool) → Type 0
Adjacent pairs = (l h x : ℕ) → l < 31 → pairs l h x ≡ true → (x ≡ h + extent l) ⊎ (h ≡ x + extent l)

module _ (pairs : ℕ → ℕ → ℕ → Bool) (adjacent : Adjacent pairs) where
  -- What the loop needs of the lists and keeps.
  pub record Tiled (l h : ℕ) (ls : ℕ → List ℕ) : Type 0 where
    pub sorted : (j : ℕ) → j < 32 → Sorted 0 (ls j)
    pub apart : Apart ls
    pub clear : Clear l h ls
    pub few : l < 32
    pub top : ls 31 ≡ []

  -- The block `u` of level `k` is outside of the lists and of `h`.
  pub record Spared (k u l h : ℕ) (ls : ℕ → List ℕ) : Type 0 where
    pub clear : Clear k u ls
    pub disjoint : Disjoint k u l h

  joined-origin :
      (l h b : ℕ) (ls : ℕ → List ℕ) (ys : List ℕ) (j y : ℕ)
      → Moved (pairs l h) 0 h (ls l) (joined b ys)
      → has y (put ls l ys j) ≡ true
      → (has y (ls j) ≡ true) × ¬ ((l ≡ j) × (b ≡ y))
  joined-origin l h b ls ys j y (pair, inside, out, sorted, sub) i = elim (has-put ls l ys j y i) [
    | inl (e, a) ↦ (rw e (sub y a), λ (c, d). ne_of_has y b ys a out (sym d))
    | inr (ne, a) ↦ (a, λ (c, d). ne (sym c))
  ]

  -- Two blocks side by side, as one: what is outside of both is outside of it.
  joined-Disjoint :
      (l h b j y : ℕ)
      → l < 31
      → pairs l h b ≡ true
      → Disjoint l h j y
      → Disjoint l b j y
      → Disjoint (l + 1) (lower h b) j y
  joined-Disjoint l h b j y few pair p q =
      ground (arith, p, q, adjacent l h b few pair, extent_pos l, extent_pos j, extent_suc l)

  below_top :
      (l h b : ℕ) (ls : ℕ → List ℕ) (ys : List ℕ)
      → Tiled l h ls
      → Moved (pairs l h) 0 h (ls l) (joined b ys)
      → l < 31
  below_top l h b ls ys tiled (pair, inside, out, sorted, sub) = elim (ℕ_discrete l 31) [
    | yes e ↦ ground (arith, inside, ap (λ k. has b (ls k)) e, ap (has b) tiled.top)
    | no ne ↦ omega (arith, tiled.few)
  ]

  joined-Tiled :
      (l h b : ℕ) (ls : ℕ → List ℕ) (ys : List ℕ)
      → Tiled l h ls
      → Moved (pairs l h) 0 h (ls l) (joined b ys)
      → Tiled (l + 1) (lower h b) (put ls l ys)
  joined-Tiled l h b ls ys tiled moved =
      let low : l < 31 = below_top l h b ls ys tiled moved in
      record {
        sorted = λ j a. elim (ℕ_discrete j l) [
          | yes e ↦ rw e (let here : put ls l ys l ≡ ys = ground arith in rw here moved.3)
          | no ne ↦ let there : put ls l ys j ≡ ls j = ground arith in rw there (tiled.sorted j a)
        ];
        apart =
            Within-Apart (put ls l ys) ls (λ j y i. (joined-origin l h b ls ys j y moved i).0)
              tiled.apart;
        clear = λ j y a i.
            let (old, other) = joined-origin l h b ls ys j y moved i in
            joined-Disjoint l h b j y low moved.0 (tiled.clear j y a old)
              (elim (tiled.apart l b j y tiled.few a moved.1 old) [
                | inl same ↦ absurd (other same)
                | inr apart ↦ apart
              ]);
        few = omega arith;
        top = ground (arith, tiled.top);
      }

  joined-Spared :
      (k u l h b : ℕ) (ls : ℕ → List ℕ) (ys : List ℕ)
      → Tiled l h ls
      → Spared k u l h ls
      → Moved (pairs l h) 0 h (ls l) (joined b ys)
      → Spared k u (l + 1) (lower h b) (put ls l ys)
  joined-Spared k u l h b ls ys tiled spared moved =
      let low : l < 31 = below_top l h b ls ys tiled moved in
      record {
        clear =
            Within-Clear (put ls l ys) ls k u (λ j y i. (joined-origin l h b ls ys j y moved i).0)
              spared.clear;
        disjoint = Disjoint-sym (l + 1) (lower h b) k u (
            joined-Disjoint l h b k u low moved.0 (Disjoint-sym k u l h spared.disjoint)
              (Disjoint-sym k u l b (spared.clear l b tiled.few moved.1)));
      }

  abbrev pub Spares : ℕ → ℕ → (ℕ → List ℕ) → (ℕ → List ℕ) → Type 0
  Spares l h ls ls' = (k u : ℕ) → Spared k u l h ls → Clear k u ls'

  after-Apart :
      (rounds l h : ℕ) (ls : ℕ → List ℕ) (r : Placed)
      → Tiled l h ls
      → Moved (pairs l h) 0 h (ls l) r
      → place (pairs l h) h (ls l) ≡ r
      → ((b : ℕ) (ys : List ℕ)
          → Tiled (l + 1) (lower h b) (put ls l ys)
          → (let ls' = give_back pairs rounds (l + 1) (lower h b) (put ls l ys) in
              Apart ls' × Spares (l + 1) (lower h b) (put ls l ys) ls'))
      → Apart (give_back pairs (suc rounds) l h ls)
        × Spares l h ls (give_back pairs (suc rounds) l h ls)
  after-Apart rounds l h ls (placed ys) tiled moved e ih =
      rw (give_back-placed pairs rounds l h ls ys e) (
        put-Apart ls l h ys moved tiled.apart tiled.clear,
        λ k u spared. put-Clear ls l h ys moved k u spared.clear spared.disjoint,
      )
  after-Apart rounds l h ls (joined b ys) tiled moved e ih =
      let (apart, spares) = ih b ys (joined-Tiled l h b ls ys tiled moved) in
      rw (give_back-joined pairs rounds l h ls b ys e)
        (apart, λ k u spared. spares k u (joined-Spared k u l h b ls ys tiled spared moved))

  pub give_back-Apart :
      (rounds l h : ℕ) (ls : ℕ → List ℕ)
      → Tiled l h ls
      → 32 ≤ l + rounds
      → Apart (give_back pairs rounds l h ls) × Spares l h ls (give_back pairs rounds l h ls)
  give_back-Apart zero l h ls tiled enough = absurd (omega (arith, tiled.few))
  give_back-Apart (suc rounds) l h ls tiled enough =
      after-Apart rounds l h ls (place (pairs l h) h (ls l)) tiled
        (place-Moved (pairs l h) 0 h (ls l) (tiled.sorted l tiled.few)) refl
        (λ b ys next. give_back-Apart rounds (l + 1) (lower h b) (put ls l ys) next (omega arith))
