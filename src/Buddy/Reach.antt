-- ===== src/Buddy/Reach.antt =====
-- Every state that a client of the allocator can reach, if it frees only what is in use.
pub mod Extent
pub mod FreeApart
pub mod MallocApart
pub mod Safe
pub mod Ownership
pub mod Bounds
pub mod Client
use native.Mathlib.Decide.{ℕ_discrete, dec_lt}
use mathlib.Core.Path.{subst}
use coin_data.Prelude.{
  ℕ, zero, suc, ◌+◌, ◌-◌, ◌*◌, ◌^◌, ◌≤◌, ◌<◌, ◌≡◌, ◌≢◌, refl, sym, ap, ◌∙◌, Bool, true, false, List,
  [], ◌∷◌, ◌⊎◌, inl, inr, some, none, Result, ok, fault, Fault, arith, length, get_elem?,
  get_elem?-length,
}
use coin_data.Buddy.Store.{Block, Store}
use coin_data.Buddy.Levels.{bytes, calculate_which_level}
use coin_data.Buddy.Malloc.{buddy_malloc, find_level}
use coin_data.Buddy.Free.{buddy_free}
use coin_data.Buddy.Sizes.{Which, calculate_which_level-Which}
use coin_data.Buddy.Lists.Linked.{Lists, Seg}
use coin_data.Buddy.Malloc.Take.{Exhausted}
use coin_data.Buddy.Malloc.Allocate.{Allocated, buddy_malloc-Allocated}
use coin_data.Buddy.Malloc.Exhausted.{buddy_malloc-Exhausted}
use coin_data.Buddy.Malloc.Handed.{room-Splittable, handed}
use coin_data.Buddy.Lists.Place.{give_back}
use coin_data.Buddy.Free.FreedAll.{pairs_of}
use coin_data.Buddy.Reach.Ownership.{Blocks, Owned, remove, remove-Picked, Picked}
use coin_data.Buddy.Reach.Client.{First, near, rm, handed-Owned, freed, buddy_free-Owned}

list-cases : (xs : List ℕ) → (xs ≡ []) ⊎ ((x : ℕ) × (ys : List ℕ) × (xs ≡ x ∷ ys))
list-cases [] = inl refl
list-cases (x ∷ ys) = inr (x, ys, refl)

-- The nearest level with a block, or none.
abbrev Found : ℕ → (ℕ → List ℕ) → Type 0
Found level ls = (idx h : ℕ) × (rest : List ℕ) × First level idx h rest ls

abbrev NoneFrom : ℕ → (ℕ → List ℕ) → Type 0
NoneFrom level ls = (j : ℕ) → level ≤ j → j < 32 → ls j ≡ []

look : (n level : ℕ) (ls : ℕ → List ℕ) → level + n ≡ 32 → Found level ls ⊎ NoneFrom level ls
look zero level ls e = inr (λ j a b. absurd (omega arith))
look (suc n) level ls e = elim (list-cases (ls level)) [
  | inr (h, rest, first) ↦ inl (
    level,
    h,
    rest,
    record {
      first = first;
      empty = λ j a b. absurd (omega arith);
      ordered = omega arith;
      few = omega arith;
    },
  )
  | inl none_here ↦ elim (look n (level + 1) ls (omega arith)) [
    | inl (idx, h, rest, found) ↦ inl (
      idx,
      h,
      rest,
      record {
        first = found.first;
        empty = λ j a b. elim (ℕ_discrete j level) [
          | yes e ↦ rw e none_here
          | no ne ↦ found.empty j (omega arith) b
        ];
        ordered = omega (arith, found.ordered);
        few = found.few;
      },
    )
    | inr nothing ↦ inr (λ j a b. elim (ℕ_discrete j level) [
      | yes e ↦ rw e none_here
      | no ne ↦ nothing j (omega arith) b
    ])
  ]
]

-- A level that is not there.
too_large :
    (fuel size : ℕ) (s : Store)
    → size + 60 < 2 ^ 64
    → length s.block_list ≡ 32
    → 32 ≤ calculate_which_level (size + 60)
    → buddy_malloc fuel size s ≡ fault Fault.out_of_range
unfolding buddy_malloc find_level
too_large fuel size s fits sized large =
    let gone =
      get_elem?-length s.block_list (calculate_which_level (size + 60)) (omega (arith, sized)) in
    ground (arith, gone)

nothing_found :
    (fuel size : ℕ) (s : Store) (ls : ℕ → List ℕ)
    → size + 60 < 2 ^ 64
    → Lists s ls
    → calculate_which_level (size + 60) < 32
    → NoneFrom (calculate_which_level (size + 60)) ls
    → buddy_malloc fuel size s ≡ fault Fault.out_of_range
nothing_found fuel size s ls fits lists few empty =
    buddy_malloc-Exhausted fuel size s fits few lists.count (λ j a b.
      let nil : Seg s j 0 [] = subst (Seg s j 0) (empty j a b) (lists.seg j b) in nil.head refl)

-- The memory has `total` pages and ends at `hi`. A client asks for memory, and frees blocks that it
-- has in use.
pub data Reach (fuel hi total : ℕ) : Store → Blocks → Type 0 where
  start : {s : Store} {ls : ℕ → List ℕ} → Owned hi total s ls [] → Reach fuel hi total s []
  malloc :
      {s s' : Store} {us : Blocks} (size h : ℕ)
      → Reach fuel hi total s us
      → size + 60 < 2 ^ 64
      → buddy_malloc fuel size s ≡ ok (h + 60, s')
      → Reach fuel hi total s' ((calculate_which_level (size + 60), h) ∷ us)
  free :
      {s s' : Store} {us : Blocks} (i l h : ℕ)
      → Reach fuel hi total s us
      → get_elem? us i ≡ some (l, h)
      → buddy_free fuel (h + 60) s ≡ ok (tt, s')
      → Reach fuel hi total s' (remove us i)

-- What `buddy_malloc` does in a state in order, whatever the size.
abbrev pub AllocatedOrNone : ℕ → ℕ → ℕ → ℕ → Store → Blocks → Type 0
AllocatedOrNone fuel hi total size s us =
    ((h : ℕ) × (s' : Store) × (ls' : ℕ → List ℕ) × (buddy_malloc fuel size s ≡ ok (h + 60, s'))
      × Owned hi total s' ls' ((calculate_which_level (size + 60), h) ∷ us))
    ⊎ (buddy_malloc fuel size s ≡ fault Fault.out_of_range)

module _ {fuel hi total : ℕ} (end : hi < 2 ^ 64) (small : total < 2 ^ 31)
    (enough : total ≤ suc fuel) where
  allocated :
      (size : ℕ) {s : Store} {ls : ℕ → List ℕ} {us : Blocks}
      → size + 60 < 2 ^ 64
      → Owned hi total s ls us
      → Found (calculate_which_level (size + 60)) ls
      → AllocatedOrNone (suc fuel) hi total size s us
  allocated size {s} {ls} {us} fits owned (idx, h, rest, found) =
      let (s', run, done) =
        buddy_malloc-Allocated fuel size idx h s fits
          (room-Splittable (rm end small owned found)) in
      inl (
        h,
        s',
        handed (calculate_which_level (size + 60)) idx h rest ls,
        run,
        handed-Owned end small owned found done,
      )

  malloc-cases :
      (size : ℕ) {s : Store} {ls : ℕ → List ℕ} {us : Blocks}
      → size + 60 < 2 ^ 64
      → Owned hi total s ls us
      → AllocatedOrNone (suc fuel) hi total size s us
  malloc-cases size {s} {ls} fits owned =
      let level : ℕ = calculate_which_level (size + 60) in
      elim (dec_lt level 32) [
        | no ge ↦ inr (too_large (suc fuel) size s fits owned.lists.count (omega arith))
        | yes few ↦ elim (look (32 - level) level ls (omega arith)) [
          | inl found ↦ allocated size fits owned found
          | inr none_from ↦ inr (nothing_found (suc fuel) size s ls fits owned.lists few none_from)
        ]
      ]

  after_malloc :
      (size h : ℕ) (s s' : Store) {us : Blocks}
      → buddy_malloc (suc fuel) size s ≡ ok (h + 60, s')
      → AllocatedOrNone (suc fuel) hi total size s us
      → (ls : ℕ → List ℕ) × Owned hi total s' ls ((calculate_which_level (size + 60), h) ∷ us)
  after_malloc size h s s' {us} run (inl (h1, s1, ls1, run1, owned)) =
      let same_address : h1 + 60 ≡ h + 60 = cc in
      let same_store : s1 ≡ s' = cc in
      let same : h1 ≡ h = omega arith in
      (
        ls1,
        subst (λ t. Owned hi total t ls1 ((calculate_which_level (size + 60), h) ∷ us)) same_store
            (subst (λ a. Owned hi total s1 ls1 ((calculate_which_level (size + 60), a) ∷ us)) same
              owned),
      )
  after_malloc size h s s' run (inr stopped) = cc

  free-Owned :
      (i l h : ℕ) {s : Store} {ls : ℕ → List ℕ} {us : Blocks}
      → get_elem? us i ≡ some (l, h)
      → Owned hi total s ls us
      → (s' : Store) × (buddy_free (suc fuel) (h + 60) s ≡ ok (tt, s'))
        × Owned hi total s' (give_back (pairs_of s) 33 l h ls) (remove us i)
  free-Owned i l h {s} {ls} {us} e owned =
      let picked : Picked hi s ls us (remove us i) l h =
        remove-Picked hi s ls us i l h e owned.used in
      let (s', run, after) = freed end small owned i l h (suc fuel) picked enough in
      (s', run, buddy_free-Owned end small owned i l h (suc fuel) picked enough s' after)

  -- A client starts with well-formed lists of blocks that do not overlap, on a memory of less than
  -- 2 ^ 31 pages that ends below 2 ^ 64; it calls `buddy_malloc` as it likes and `buddy_free` on
  -- blocks that it has in use, with fuel for the number of pages. In every state that it reaches,
  -- the headers form well-formed lists, no two blocks overlap, free or in use, the headers of the
  -- blocks in use are intact, and the free blocks and those in use make up all the pages.
  pub Reach-Owned :
      {s : Store} {us : Blocks}
      → Reach (suc fuel) hi total s us
      → (ls : ℕ → List ℕ) × Owned hi total s ls us
  Reach-Owned (start {ls} owned) = (ls, owned)
  Reach-Owned {s = s'} (malloc {s} size h before fits run) =
      let (ls, owned) = Reach-Owned before in
      after_malloc size h s s' run (malloc-cases size fits owned)
  Reach-Owned {s = s'} (free {s} {us} i l h before e run) =
      let (ls, owned) = Reach-Owned before in
      let (s1, run1, owned1) = free-Owned i l h e owned in
      let same : s1 ≡ s' = cc in
      (
        give_back (pairs_of s) 33 l h ls,
        subst (λ t. Owned hi total t (give_back (pairs_of s) 33 l h ls) (remove us i)) same owned1,
      )

  -- In every state that the client of `Reach-Owned` can reach, `buddy_malloc` of any size below 2 ^
  -- 64 - 60 either hands out a block and leaves all in order, or stops at the end of `block_list`;
  -- and `buddy_free` of every block in use succeeds.
  pub Reach-serves :
      {s : Store} {us : Blocks}
      → Reach (suc fuel) hi total s us
      → ((size : ℕ) → size + 60 < 2 ^ 64 → AllocatedOrNone (suc fuel) hi total size s us)
        × ((i l h : ℕ)
            → get_elem? us i ≡ some (l, h)
            → (s' : Store) × (buddy_free (suc fuel) (h + 60) s ≡ ok (tt, s'))
              × Reach (suc fuel) hi total s' (remove us i))
  Reach-serves reach =
      let (ls, owned) = Reach-Owned reach in
      (
        λ size fits. malloc-cases size fits owned,
        λ i l h e.
            let (s1, run1, owned1) = free-Owned i l h e owned in
            (s1, run1, free i l h reach e run1),
      )
