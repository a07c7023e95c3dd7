-- ===== src/Buddy/Malloc/Take.antt =====
-- Two steps of `buddy_malloc`: the search for a list that has a block, and the block that is taken.
use native.Mathlib.Decide.{dec_lt, ℕ_discrete}
use coin_data.Prelude.{
  ℕ, zero, suc, ◌+◌, ◌^◌, ◌≤◌, ◌<◌, ◌≡◌, ◌≢◌, false, some, ok, arith, ◌==◌, if◌then◌else◌, length,
  get_elem?, set,
}
use coin_data.Buddy.Store.{
  Store, crc32, free_header, used_header, update, init_free_block, init_used_block,
}
use coin_data.Buddy.Malloc.{find_level, take_first}
use coin_data.Buddy.Malloc.Split.{SameRegion}
use coin_data.Buddy.Malloc.SplitTo.{IsHalf}

pub find_level-first :
    (rounds level idx h : ℕ) (s : Store)
    → level ≤ idx
    → idx < level + rounds
    → idx < 32
    → ((j : ℕ) → level ≤ j → j < idx → get_elem? s.block_list j ≡ some 0)
    → get_elem? s.block_list idx ≡ some h
    → h ≢ 0
    → find_level rounds level s ≡ ok (idx, s)
unfolding find_level
find_level-first zero level idx h s le lt few empty head nonnull = absurd (omega arith)
find_level-first (suc rounds) level idx h s le lt few empty head nonnull = elim (dec_lt level idx) [
  | yes p ↦ ground (
    arith,
    empty level (omega arith) p,
    find_level-first rounds (level + 1) idx h s (omega arith) (omega arith) few
        (λ j a b. empty j (omega arith) b) head nonnull,
  )
  | no p ↦ let e : level ≡ idx = omega arith in rw e (ground (arith, head, nonnull))
]

-- No list at `level` or above has a block.
abbrev pub Exhausted : ℕ → Store → Type 0
Exhausted level s = (j : ℕ) → level ≤ j → j < 32 → get_elem? s.block_list j ≡ some 0

pub find_level-Exhausted :
    (rounds level : ℕ) (s : Store)
    → level < 32
    → 32 < level + rounds
    → Exhausted level s
    → find_level rounds level s ≡ ok (32, s)
unfolding find_level
find_level-Exhausted zero level s lt enough none_free = absurd (omega arith)
find_level-Exhausted (suc rounds) level s lt enough none_free = elim (dec_lt (level + 1) 32) [
  | yes p ↦ ground (
    arith,
    none_free level (omega arith) lt,
    find_level-Exhausted rounds (level + 1) s p (omega arith)
        (λ j a b. none_free j (omega arith) b),
  )
  | no p ↦
      let e : level + 1 ≡ 32 = omega arith in ground (arith, none_free level (omega arith) lt, e)
]

-- The memory and the lists after `take_first`.
abbrev pub taken : Store → ℕ → ℕ → ℕ → Store
taken s level h size =
    let n = (s.mem h).next in
    let m1 =
      if n == 0
      then s.mem
      else update s.mem n
          (free_header (s.mem n) 0 (s.mem n).next (s.mem n).level (s.mem n).is_first) in
    let m2 = update m1 h (used_header (m1 h)) in
    record s {
      block_list = set s.block_list level n;
      mem = update m2 h (record (m2 h) { size = size });
    }

pub take_first-taken :
    (level size h : ℕ) (s : Store)
    → get_elem? s.block_list level ≡ some h
    → level < length s.block_list
    → h ≢ 0
    → h + 60 < 2 ^ 64
    → take_first level size s ≡ ok (h + 60, taken s level h size)
unfolding take_first init_free_block init_used_block
take_first-taken level size h s head short nonnull fits = ground (arith, head)

module _ (s : Store) (level h size : ℕ) (apart : (s.mem h).next ≢ h) where
  pub taken-head :
      (((taken s level h size).mem h).is_free ≡ false)
      × (((taken s level h size).mem h).size ≡ size)
      × (((taken s level h size).mem h).level ≡ (s.mem h).level)
      × (((taken s level h size).mem h).crc ≡ crc32)
  taken-head = ground arith

  pub taken-region : (p : ℕ) → SameRegion ((taken s level h size).mem p) (s.mem p)
  taken-region p = record { host_pid = ground arith; memory_idx = ground arith }

  pub taken-is_first : ((taken s level h size).mem h).is_first ≡ (s.mem h).is_first
  taken-is_first = ground arith

  pub taken-same : (p : ℕ) → p ≢ h → p ≢ (s.mem h).next → (taken s level h size).mem p ≡ s.mem p
  taken-same p a b = ground arith

  pub taken-next :
      (n : ℕ)
      → n ≢ 0
      → (s.mem h).next ≡ n
      → (taken s level h size).mem n
        ≡ free_header (s.mem n) 0 (s.mem n).next (s.mem n).level (s.mem n).is_first
  taken-next n nonnull e = ground (arith, e)

  -- Another block keeps its place in its list, its level and, if it was free, its state.
  pub taken-IsHalf :
      (p j : ℕ) → p ≢ h → p ≢ 0 → IsHalf (s.mem p) j → IsHalf ((taken s level h size).mem p) j
  taken-IsHalf p j a nonnull half = elim (ℕ_discrete p (s.mem h).next) [
    | yes e ↦ record {
      next = ground (arith, half.next);
      level = ground (arith, half.level);
      free = ground (arith, half.free);
      intact = ground (arith, half.intact);
    }
    | no e ↦ rw (taken-same p a e) half
  ]
