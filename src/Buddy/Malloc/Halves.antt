-- ===== src/Buddy/Malloc/Halves.antt =====
-- What `buddy_malloc` does to the lists of addresses: one upper half for each level between.
use native.Mathlib.Decide.{ℕ_discrete, dec_lt}
use coin_data.Prelude.{
  ℕ, zero, suc, ◌+◌, ◌*◌, ◌^◌, ◌≤◌, ◌<◌, ◌≡◌, ◌≢◌, refl, ap, List, [], ◌∷◌, arith, ltb,
  if◌then◌else◌, length,
}
use coin_data.Buddy.Levels.{bytes}
use coin_data.Buddy.Lists.Place.{put}
use coin_data.Buddy.Free.Pages.{free_pages, free_pages-put}

-- A block `h` of level `idx`, in none of the lists, is split down to `level`.
unfoldable pub halve : ℕ → ℕ → ℕ → (ℕ → List ℕ) → ℕ → List ℕ
halve level zero h ls = ls
halve level (suc idx) h ls =
    let rest = halve level idx h (put ls idx ((h + bytes idx) ∷ [])) in
    if ltb level (suc idx) then rest else ls

module _ (level h : ℕ) where
  pub halve-split :
      (idx : ℕ) (ls : ℕ → List ℕ)
      → level < suc idx
      → halve level (suc idx) h ls ≡ halve level idx h (put ls idx ((h + bytes idx) ∷ []))
  unfolding halve
  halve-split idx ls lt = ground arith

  pub halve-whole : (idx : ℕ) (ls : ℕ → List ℕ) → level ≡ idx → halve level idx h ls ≡ ls
  unfolding halve
  halve-whole zero ls e = refl
  halve-whole (suc idx) ls e = ground arith

  pub halve-outside :
      (idx j : ℕ) (ls : ℕ → List ℕ) → (level ≤ j → idx ≤ j) → halve level idx h ls j ≡ ls j
  unfolding halve
  halve-outside zero j ls out = refl
  halve-outside (suc idx) j ls out = elim (dec_lt level (suc idx)) [
    | yes lt ↦
        let ne : j ≢ idx = λ e. absurd (omega (arith, out (omega arith))) in
        let rest =
          halve-outside idx j (put ls idx ((h + bytes idx) ∷ [])) (λ a. omega (arith, out a)) in
        ground (arith, rest)
    | no ge ↦ ground arith
  ]

  pub halve-inside :
      (idx j : ℕ) (ls : ℕ → List ℕ)
      → level ≤ j
      → j < idx
      → halve level idx h ls j ≡ (h + bytes j) ∷ []
  unfolding halve
  halve-inside zero j ls le lt = absurd (omega arith)
  halve-inside (suc idx) j ls le lt =
      let ls1 : ℕ → List ℕ = put ls idx ((h + bytes idx) ∷ []) in
      elim (ℕ_discrete j idx) [
        | yes e ↦
            let rest : halve level idx h ls1 j ≡ ls1 j =
              halve-outside idx j ls1 (λ a. omega arith) in
            let here : ls1 j ≡ (h + bytes j) ∷ [] = ground (arith, ap (λ k. h + bytes k) e) in
            ground (arith, rest, here)
        | no ne ↦ ground (arith, halve-inside idx j ls1 le (omega arith))
      ]

  -- The halves and the block that is left make up the block.
  pub halve-pages :
      (idx : ℕ) (ls : ℕ → List ℕ)
      → level ≤ idx
      → idx < 32
      → ((j : ℕ) → level ≤ j → j < idx → ls j ≡ [])
      → free_pages 32 (halve level idx h ls) + 2 ^ level ≡ free_pages 32 ls + 2 ^ idx
  halve-pages zero ls le few empty =
      let e : level ≡ 0 = omega arith in rw (halve-whole 0 ls e, e) refl
  halve-pages (suc idx) ls le few empty = elim (dec_lt level (suc idx)) [
    | yes lt ↦
        let ls1 : ℕ → List ℕ = put ls idx ((h + bytes idx) ∷ []) in
        let rest : free_pages 32 (halve level idx h ls1) + 2 ^ level ≡ free_pages 32 ls1 + 2 ^ idx =
          halve-pages idx ls1 (omega arith) (omega arith)
            (λ j a b. ground (arith, empty j a (omega arith))) in
        let stored = free_pages-put 32 idx ls ((h + bytes idx) ∷ []) (omega arith) in
        let none : 2 ^ idx * length (ls idx) ≡ 2 ^ idx * 0 =
          ap (λ xs. 2 ^ idx * length xs) (empty idx (omega arith) (omega arith)) in
        rw (halve-split idx ls lt) (omega (arith, rest, stored, none))
    | no ge ↦ let e : level ≡ suc idx = omega arith in rw (halve-whole (suc idx) ls e, e) refl
  ]
