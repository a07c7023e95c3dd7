-- ===== src/Buddy/Malloc/Allocate.antt =====
-- `buddy_malloc` as a whole: the block that it hands out, the lists that it leaves, and what happens
-- when no block is large enough.
use native.Mathlib.Decide.{dec_lt, ℕ_discrete}
use coin_data.Prelude.{
  ℕ, suc, ◌+◌, ◌^◌, ◌≤◌, ◌<◌, ◌≡◌, ◌≢◌, sym, ap, ◌∙◌, false, some, ok, arith, length, length-set,
  get_elem?, get_elem?-set_self, get_elem?-set_ne, lt_of_get_elem?,
}
use coin_data.Buddy.Store.{Block, Store, free_header, crc32}
use coin_data.Buddy.Levels.{bytes, calculate_which_level}
use coin_data.Buddy.Malloc.{split_down, find_level, take_first, buddy_malloc}
use coin_data.Buddy.Malloc.SplitTo.{SameRegion-trans, SplitTo, Splittable, IsHalf}
use coin_data.Buddy.Malloc.SplitDown.{split_down-SplitTo}
use coin_data.Buddy.Malloc.Split.{SameRegion, bytes_mono, bytes_pos}
use coin_data.Buddy.Malloc.Take.{
  find_level-first, taken, take_first-taken, taken-head, taken-same, taken-next, taken-IsHalf,
  taken-region, taken-is_first,
}
use coin_data.Buddy.Sizes.{Which, calculate_which_level-Which}

-- From `s` to `s'`, the first block `h` of level `idx` was split down to `level` and handed out.
pub record Allocated (size level idx h : ℕ) (s s' : Store) : Type 0 where
  -- the block: marked used, large enough, and no larger than needed
  pub used : (s'.mem h).is_free ≡ false
  pub recorded : (s'.mem h).size ≡ size
  pub at_level : level < idx → (s'.mem h).level ≡ level
  pub whole : level ≡ idx → (s'.mem h).level ≡ (s.mem h).level
  pub split_first : level < idx → (s'.mem h).is_first ≡ false
  pub region : SameRegion (s'.mem h) (s.mem h)
  pub intact : (s'.mem h).crc ≡ crc32
  pub enough : size + 60 ≤ bytes level
  pub tight : (j : ℕ) → j < level → bytes j < size + 60
  pub count : length s'.block_list ≡ length s.block_list
  -- the lists: each upper half is free in the list of its level
  pub halves : (j : ℕ) → level ≤ j → j < idx → get_elem? s'.block_list j ≡ some (h + bytes j)
  pub half : (j : ℕ) → level ≤ j → j < idx → IsHalf (s'.mem (h + bytes j)) j
  pub half_previous : (j : ℕ) → level ≤ j → j < idx → (s'.mem (h + bytes j)).previous ≡ 0
  pub half_region : (j : ℕ) → level ≤ j → j < idx → SameRegion (s'.mem (h + bytes j)) (s.mem h)
  pub rest : get_elem? s'.block_list idx ≡ some (s.mem h).next
  pub old_next :
      (n : ℕ)
      → n ≢ 0
      → (s.mem h).next ≡ n
      → (s.mem n).level ≡ idx
      → s'.mem n ≡ free_header (s.mem n) 0 (s.mem n).next idx (s.mem n).is_first
  pub below : (j : ℕ) → j < level → get_elem? s'.block_list j ≡ get_elem? s.block_list j
  pub above : (j : ℕ) → idx < j → get_elem? s'.block_list j ≡ get_elem? s.block_list j
  -- no other header changes
  pub frame :
      (p : ℕ)
      → p ≢ h
      → p ≢ (s.mem h).next
      → ((j : ℕ) → level ≤ j → j < idx → p ≢ h + bytes j)
      → s'.mem p ≡ s.mem p

module _ (size : ℕ) {level idx h : ℕ} {s s1 : Store} (pre : Splittable level idx h s)
    (which : Which (size + 60) 0 32 level) (done : SplitTo level idx h s s1) where
  s2 : Store
  s2 = taken s1 level h size

  enough : size + 60 ≤ bytes level
  enough = which.fits (omega (arith, pre.ordered, pre.few))

  below_end : h + 60 < 2 ^ 64
  below_end = elim (dec_lt level idx) [
    | yes p ↦ omega (arith, bytes_mono level idx p pre.few, enough, pre.fits)
    | no p ↦
        let e : level ≡ idx = omega (arith, pre.ordered) in
        let enough_idx : size + 60 ≤ bytes idx = rw (sym e) enough in
        omega (arith, enough_idx, pre.fits)
  ]

  s1-apart : (s1.mem h).next ≢ h
  s1-apart e = elim (dec_lt level idx) [
    | yes p ↦ omega (arith, done.head_next p, e, enough)
    | no p ↦
        pre.apart (sym (ap (λ t. (t.mem h).next) (done.still (omega (arith, pre.ordered)))) ∙ e)
  ]

  level_list : get_elem? s2.block_list level ≡ some (s1.mem h).next
  unfolding s2
  level_list =
      get_elem?-set_self s1.block_list level (s1.mem h).next
        (lt_of_get_elem? s1.block_list level done.first)

  other_list : (j : ℕ) → j ≢ level → get_elem? s2.block_list j ≡ get_elem? s1.block_list j
  unfolding s2
  other_list j a =
      get_elem?-set_ne s1.block_list {i = level} {j = j} (s1.mem h).next (λ e. a (sym e))

  s2-halves : (j : ℕ) → level ≤ j → j < idx → get_elem? s2.block_list j ≡ some (h + bytes j)
  s2-halves j a b = elim (ℕ_discrete j level) [
    | yes e ↦ rw e (level_list ∙ ap some (done.head_next (omega arith)))
    | no e ↦ other_list j e ∙ done.halves j (omega arith) b
  ]

  s2-rest : get_elem? s2.block_list idx ≡ some (s.mem h).next
  s2-rest = elim (dec_lt level idx) [
    | yes p ↦ other_list idx (omega arith) ∙ done.rest p
    | no p ↦
        let e : level ≡ idx = omega (arith, pre.ordered) in
        ap (get_elem? s2.block_list) (sym e)
        ∙ level_list
        ∙ ap (λ t. some (t.mem h).next) (done.still e)
  ]

  s2-frame :
      (p : ℕ)
      → p ≢ h
      → p ≢ (s.mem h).next
      → ((j : ℕ) → level ≤ j → j < idx → p ≢ h + bytes j)
      → s2.mem p ≡ s.mem p
  unfolding s2
  s2-frame p a b c = taken-same s1 level h size s1-apart p a other ∙ done.frame p a b c
    where
      other : p ≢ (s1.mem h).next
      other e = elim (dec_lt level idx) [
        | yes q ↦ c level (omega arith) q (e ∙ done.head_next q)
        | no q ↦ b (e ∙ ap (λ t. (t.mem h).next) (done.still (omega (arith, pre.ordered))))
      ]

  -- The first half is the next block when `h` is taken.
  s2-half_previous : (j : ℕ) → level ≤ j → j < idx → (s2.mem (h + bytes j)).previous ≡ 0
  unfolding s2
  s2-half_previous j a b = elim (ℕ_discrete j level) [
    | yes e ↦
        let low : level < idx = omega arith in
        rw e (
          ap Block.previous (
            taken-next s1 level h size s1-apart (h + bytes level) (omega (arith, pre.nonnull))
              (done.head_next low)))
    | no e ↦
        let ne : h + bytes j ≢ h = omega (arith, bytes_pos j (omega (arith, pre.few))) in
        let far : h + bytes j ≢ (s1.mem h).next = omega (
          arith,
          done.head_next (omega arith),
          bytes_mono level j (omega arith) (omega (arith, pre.few)),
        ) in
        ap Block.previous (taken-same s1 level h size s1-apart (h + bytes j) ne far)
        ∙ done.half_previous j (omega arith) b
  ]

  s2-old_next :
      (n : ℕ)
      → n ≢ 0
      → (s.mem h).next ≡ n
      → (s.mem n).level ≡ idx
      → s2.mem n ≡ free_header (s.mem n) 0 (s.mem n).next idx (s.mem n).is_first
  unfolding s2
  s2-old_next n nonnull e at = elim (dec_lt level idx) [
    | yes p ↦
        let far : n ≢ (s1.mem h).next =
          λ c. pre.disjoint level (omega arith) p (e ∙ c ∙ done.head_next p) in
        let old : s1.mem n ≡ free_header (s.mem n) 0 (s.mem n).next idx (s.mem n).is_first =
          rw e at (done.old_next p (λ c. nonnull (sym e ∙ c))) in
        taken-same s1 level h size s1-apart n (λ c. pre.apart (e ∙ c)) far ∙ old
    | no p ↦
        ap (λ t. (taken t level h size).mem n) (done.still (omega (arith, pre.ordered)))
        ∙ taken-next s level h size pre.apart n nonnull e
        ∙ ap (λ k. free_header (s.mem n) 0 (s.mem n).next k (s.mem n).is_first) at
  ]

  s2-Allocated : Allocated size level idx h s s2
  unfolding s2
  s2-Allocated =
      let (u, r, l, c) = taken-head s1 level h size s1-apart in
      record {
        used = u;
        recorded = r;
        at_level = λ p. l ∙ done.head_level p;
        whole = λ e. l ∙ ap (λ t. (t.mem h).level) (done.still e);
        split_first = λ p. taken-is_first s1 level h size s1-apart ∙ done.head_first p;
        region = SameRegion-trans (taken-region s1 level h size s1-apart h) done.head_region;
        half_region = λ j a b.
            SameRegion-trans (taken-region s1 level h size s1-apart (h + bytes j))
              (done.half_region j a b);
        intact = c;
        enough = enough;
        tight = λ j a. which.least j (omega arith) a;
        count = length-set s1.block_list level (s1.mem h).next ∙ done.count;
        halves = s2-halves;
        half = λ j a b.
            taken-IsHalf s1 level h size s1-apart (h + bytes j) j
              (omega (arith, bytes_pos j (omega (arith, pre.few)))) (omega (arith, pre.nonnull))
              (done.half j a b);
        half_previous = s2-half_previous;
        rest = s2-rest;
        old_next = s2-old_next;
        below = λ j a. other_list j (omega arith) ∙ done.below j a;
        above = λ j a. other_list j (omega (arith, pre.ordered)) ∙ done.above j a;
        frame = s2-frame;
      }

-- The three steps, one after the other.
three_steps :
    (fuel size idx ret : ℕ) (s s' s'' : Store)
    → size + 60 < 2 ^ 64
    → find_level 33 (calculate_which_level (size + 60)) s ≡ ok (idx, s)
    → split_down fuel (calculate_which_level (size + 60)) idx s ≡ ok (tt, s')
    → take_first (calculate_which_level (size + 60)) size s' ≡ ok (ret, s'')
    → buddy_malloc fuel size s ≡ ok (ret, s'')
unfolding buddy_malloc
three_steps fuel size idx ret s s' s'' fits a b c = ground (arith, a, b, c)

-- Let the size with the 60 bytes of a header be below 2 ^ 64, let `h` be the first block of level
-- `idx`, the nearest level at or above the wanted one whose list is not empty, let it fit into the
-- address space, and let the next block of its list be none of its halves. Then `buddy_malloc`
-- returns the address behind the header of `h`; `h` is marked used, has the size asked for, and is
-- of the smallest level that is large enough; each upper half is free in the list of its level; the
-- list `idx` starts with the block after `h`; no other list and no other header changes, but for
-- that next block's.
pub buddy_malloc-Allocated :
    (fuel size idx h : ℕ) (s : Store)
    → size + 60 < 2 ^ 64
    → Splittable (calculate_which_level (size + 60)) idx h s
    → (s' : Store) × (buddy_malloc (suc fuel) size s ≡ ok (h + 60, s'))
      × Allocated size (calculate_which_level (size + 60)) idx h s s'
unfolding s2
buddy_malloc-Allocated fuel size idx h s fits pre =
    let which : Which (size + 60) 0 32 (calculate_which_level (size + 60)) =
      calculate_which_level-Which (size + 60) in
    let found : find_level 33 (calculate_which_level (size + 60)) s ≡ ok (idx, s) =
      find_level-first 33 (calculate_which_level (size + 60)) idx h s pre.ordered
        (omega (arith, pre.few)) pre.few pre.empty pre.head pre.nonnull in
    let (s1, split, done) =
      split_down-SplitTo fuel (calculate_which_level (size + 60)) idx h s pre in
    let taken_eq : take_first (calculate_which_level (size + 60)) size s1
        ≡ ok (h + 60, s2 size pre which done) =
      take_first-taken (calculate_which_level (size + 60)) size h s1 done.first
        (lt_of_get_elem? s1.block_list (calculate_which_level (size + 60)) done.first) pre.nonnull
        (below_end size pre which done) in
    (
      s2 size pre which done,
      three_steps (suc fuel) size idx (h + 60) s s1 (s2 size pre which done) fits found split
          taken_eq,
      s2-Allocated size pre which done,
    )
