-- ===== src/Buddy/Malloc/SplitTo.antt =====
-- What the splitting loop needs, and what it leaves.
use coin_data.Prelude.{
  ℕ, ◌+◌, ◌^◌, ◌≤◌, ◌<◌, ◌≡◌, ◌≢◌, refl, ◌∙◌, true, false, some, arith, length, get_elem?,
}
use coin_data.Buddy.Store.{Block, Store, free_header, crc32}
use coin_data.Buddy.Levels.{bytes}
use coin_data.Buddy.Malloc.Split.{SameRegion}

-- A free block of level `j` at the end of its list.
pub record IsHalf (b : Block) (j : ℕ) : Type 0 where
  pub next : b.next ≡ 0
  pub level : b.level ≡ j
  pub free : b.is_free ≡ true
  pub intact : b.crc ≡ crc32

-- From `s` to `s'`, the first block `h` of level `idx` has been split down to `level`.
pub record SplitTo (level idx h : ℕ) (s s' : Store) : Type 0 where
  pub count : length s'.block_list ≡ length s.block_list
  -- the lists
  pub first : get_elem? s'.block_list level ≡ some h
  pub halves : (j : ℕ) → level < j → j < idx → get_elem? s'.block_list j ≡ some (h + bytes j)
  pub rest : level < idx → get_elem? s'.block_list idx ≡ some (s.mem h).next
  pub below : (j : ℕ) → j < level → get_elem? s'.block_list j ≡ get_elem? s.block_list j
  pub above : (j : ℕ) → idx < j → get_elem? s'.block_list j ≡ get_elem? s.block_list j
  -- the headers
  pub still : level ≡ idx → s' ≡ s
  pub head_next : level < idx → (s'.mem h).next ≡ h + bytes level
  pub head_level : level < idx → (s'.mem h).level ≡ level
  pub half : (j : ℕ) → level ≤ j → j < idx → IsHalf (s'.mem (h + bytes j)) j
  pub half_previous : (j : ℕ) → level < j → j < idx → (s'.mem (h + bytes j)).previous ≡ 0
  -- the memory and the mark of each part
  pub head_first : level < idx → (s'.mem h).is_first ≡ false
  pub head_region : SameRegion (s'.mem h) (s.mem h)
  pub half_region : (j : ℕ) → level ≤ j → j < idx → SameRegion (s'.mem (h + bytes j)) (s.mem h)
  pub old_next :
      level < idx
      → (s.mem h).next ≢ 0
      → s'.mem (s.mem h).next
        ≡ free_header
            (s.mem (s.mem h).next)
            0
            (s.mem (s.mem h).next).next
            idx
            (s.mem (s.mem h).next).is_first
  pub frame :
      (p : ℕ)
      → p ≢ h
      → p ≢ (s.mem h).next
      → ((j : ℕ) → level ≤ j → j < idx → p ≢ h + bytes j)
      → s'.mem p ≡ s.mem p

pub SameRegion-trans : {a b c : Block} → SameRegion a b → SameRegion b c → SameRegion a c
SameRegion-trans x y = record {
  host_pid = x.host_pid ∙ y.host_pid;
  memory_idx = x.memory_idx ∙ y.memory_idx;
}

-- What the loop needs: the block fits into the address space, the levels below are empty, and the
-- next block in its list is none of its halves.
pub record Splittable (level idx h : ℕ) (s : Store) : Type 0 where
  pub nonnull : h ≢ 0
  pub ordered : level ≤ idx
  pub few : idx < 32
  pub sized : idx < length s.block_list
  pub fits : h + bytes idx < 2 ^ 64
  pub head : get_elem? s.block_list idx ≡ some h
  pub empty : (j : ℕ) → level ≤ j → j < idx → get_elem? s.block_list j ≡ some 0
  pub apart : (s.mem h).next ≢ h
  pub disjoint : (j : ℕ) → level ≤ j → j < idx → (s.mem h).next ≢ h + bytes j

pub no_split :
    (level h : ℕ) (s : Store) → get_elem? s.block_list level ≡ some h → SplitTo level level h s s
no_split level h s e = record {
  count = refl;
  first = e;
  halves = λ j a b. absurd (omega arith);
  rest = λ a. absurd (omega arith);
  below = λ j a. refl;
  above = λ j a. refl;
  still = λ a. refl;
  head_next = λ a. absurd (omega arith);
  head_level = λ a. absurd (omega arith);
  half = λ j a b. absurd (omega arith);
  half_previous = λ j a b. absurd (omega arith);
  head_first = λ a. absurd (omega arith);
  head_region = record { host_pid = refl; memory_idx = refl };
  half_region = λ j a b. absurd (omega arith);
  old_next = λ a. absurd (omega arith);
  frame = λ p a b c. refl;
}
