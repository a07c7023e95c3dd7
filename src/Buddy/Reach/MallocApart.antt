-- ===== src/Buddy/Reach/MallocApart.antt =====
-- After `buddy_malloc` no two free blocks overlap, and none overlaps with a block that is in use.
use native.Mathlib.Decide.{dec_lt}
use mathlib.Core.Path.{subst}
use coin_data.Prelude.{ℕ, zero, suc, ◌+◌, ◌≤◌, ◌<◌, ◌≡◌, sym, true, List, [], ◌∷◌, ◌⊎◌, inl, arith}
use coin_data.Buddy.Levels.{bytes}
use coin_data.Buddy.Lists.Linked.{has}
use coin_data.Buddy.Lists.Place.{put}
use coin_data.Buddy.Malloc.Halves.{halve, halve-split, halve-whole}
use coin_data.Buddy.Reach.Extent.{
  extent, bytes-extent, Disjoint, Disjoint-sym, Clear, Apart, put-Apart, put-Clear,
}

-- The upper half of the block `h` of level `suc i`.
upper :
    (i h k u : ℕ)
    → suc i < 32
    → Disjoint k u (suc i) h
    → Disjoint k u i (h + bytes i) × Disjoint k u i h
upper i h k u few d =
    let size : bytes i ≡ extent i = bytes-extent i (omega arith) in
    let twice : extent (suc i) ≡ extent i + extent i = omega arith in ground (arith, d, size, twice)

module _ (level h : ℕ) where
  -- What the split keeps: the halves are apart, and clear of the block that is left.
  pub record Halved (idx : ℕ) (ls ls' : ℕ → List ℕ) : Type 0 where
    pub apart : Apart ls'
    pub clear : Clear level h ls'
    pub spared :
        (k u : ℕ) → Clear k u ls → Disjoint k u idx h → Clear k u ls' × Disjoint k u level h

  whole-Halved :
      (idx : ℕ) (ls : ℕ → List ℕ)
      → level ≡ idx
      → Apart ls
      → Clear idx h ls
      → Halved idx ls (halve level idx h ls)
  whole-Halved idx ls e apart clear = rw (halve-whole level h idx ls e) (record {
    apart = apart;
    clear = subst (λ k. Clear k h ls) (sym e) clear;
    spared = λ k u c d. (c, subst (λ j. Disjoint k u j h) (sym e) d);
  })

  -- The upper half enters the list of its level.
  module _ (i : ℕ) (ls : ℕ → List ℕ) (few : suc i < 32) (clear : Clear (suc i) h ls) where
    abbrev half_list : ℕ → List ℕ
    half_list = put ls i ((h + bytes i) ∷ [])

    new_only :
        (y : ℕ) → has y ((h + bytes i) ∷ []) ≡ true → (y ≡ h + bytes i) ⊎ (has y (ls i) ≡ true)
    new_only y a = inl (ground (arith, a))

    parts :
        (j y : ℕ) → j < 32 → has y (ls j) ≡ true → Disjoint j y i (h + bytes i) × Disjoint j y i h
    parts j y a b = upper i h j y few (Disjoint-sym (suc i) h j y (clear j y a b))

    half-Apart : Apart ls → Apart half_list
    half-Apart apart =
        put-Apart ls i (h + bytes i) ((h + bytes i) ∷ []) new_only apart
          (λ j y a b. Disjoint-sym j y i (h + bytes i) (parts j y a b).0)

    half-Clear : Clear i h half_list
    half-Clear =
        let size : bytes i ≡ extent i = bytes-extent i (omega arith) in
        put-Clear ls i (h + bytes i) ((h + bytes i) ∷ []) new_only i h
          (λ j y a b. Disjoint-sym j y i h (parts j y a b).1) (inl (omega (arith, size)))

    half-spared :
        (k u : ℕ) → Clear k u ls → Disjoint k u (suc i) h → Clear k u half_list × Disjoint k u i h
    half-spared k u c d =
        let (du, dh) = upper i h k u few d in
        (put-Clear ls i (h + bytes i) ((h + bytes i) ∷ []) new_only k u c du, dh)

  pub halve-Halved :
      (idx : ℕ) (ls : ℕ → List ℕ)
      → level ≤ idx
      → idx < 32
      → Apart ls
      → Clear idx h ls
      → Halved idx ls (halve level idx h ls)
  halve-Halved zero ls le few apart clear = whole-Halved 0 ls (omega arith) apart clear
  halve-Halved (suc i) ls le few apart clear = elim (dec_lt level (suc i)) [
    | yes lt ↦
        let rest : Halved i (half_list i ls few clear)
            (halve level i h (half_list i ls few clear)) =
          halve-Halved i (half_list i ls few clear) (omega arith) (omega arith)
            (half-Apart i ls few clear apart) (half-Clear i ls few clear) in
        rw (halve-split level h i ls lt) (record {
          apart = rest.apart;
          clear = rest.clear;
          spared =
              λ k u c d. let (c', d') = half-spared i ls few clear k u c d in rest.spared k u c' d';
        })
    | no ge ↦ whole-Halved (suc i) ls (omega arith) apart clear
  ]
