-- ===== src/Buddy/Sizes.antt =====
-- The levels that the allocator computes are the right ones, and what `buddy_is_buddy` accepts.
use coin_data.Prelude.{
  ℕ, zero, suc, ◌+◌, ◌-◌, ◌≤◌, ◌<◌, ◌≡◌, refl, true, false, arith, Bool-cases, leb→le, ltb→lt, ap,
  ◌↔◌, ◌⊎◌, inl, inr, ltb, leb,
}
use native.Mathlib.Decide.{dec_lt}
use coin_data.Buddy.Store.{Block}
use coin_data.Buddy.Levels.{
  bytes, which_loop, level_loop, calculate_which_level, calculate_block_level, buddy_is_buddy,
}

pub record Which (m l stop r : ℕ) : Type 0 where
  pub above : l ≤ r
  pub below : r ≤ stop
  pub fits : r < stop → m ≤ bytes r
  pub least : (j : ℕ) → l ≤ j → j < r → bytes j < m

which_loop-Which : (m rounds l : ℕ) → Which m l (l + rounds) (which_loop m rounds l)
unfolding which_loop
which_loop-Which m zero l = record {
  above = omega arith;
  below = omega arith;
  fits = λ h. absurd (omega arith);
  least = λ j a b. absurd (omega arith);
}
which_loop-Which m (suc rounds) l = elim (Bool-cases (leb m (bytes l))) [
  | inl stop ↦ rw stop (record {
    above = omega arith;
    below = omega arith;
    fits = λ h. leb→le m (bytes l) stop;
    least = λ j a b. absurd (omega arith);
  })
  | inr go ↦
      let rest = which_loop-Which m rounds (l + 1) in
      rw go (record {
        above = omega (arith, rest.above);
        below = omega (arith, rest.below);
        fits = λ h. rest.fits (omega arith);
        least = λ j a b. elim (dec_lt l j) [
          | yes later ↦ rest.least j (omega arith) b
          | no same ↦ here j (omega arith) go
        ];
      })
]
  where
    here : (j : ℕ) → j ≡ l → leb m (bytes l) ≡ false → bytes j < m
    here j e h = ground (arith, ap bytes e)

record Level (m l stop r : ℕ) : Type 0 where
  above : l ≤ r
  below : r ≤ stop
  fits : (j : ℕ) → l ≤ j → j < r → bytes j ≤ m
  largest : r < stop → m < bytes r

level_loop-Level : (m rounds l : ℕ) → Level m l (l + rounds) (level_loop m rounds l)
unfolding level_loop
level_loop-Level m zero l = record {
  above = omega arith;
  below = omega arith;
  fits = λ j a b. absurd (omega arith);
  largest = λ h. absurd (omega arith);
}
level_loop-Level m (suc rounds) l = elim (Bool-cases (ltb m (bytes l))) [
  | inl stop ↦ rw stop (record {
    above = omega arith;
    below = omega arith;
    fits = λ j a b. absurd (omega arith);
    largest = λ h. ltb→lt m (bytes l) stop;
  })
  | inr go ↦
      let rest = level_loop-Level m rounds (l + 1) in
      rw go (record {
        above = omega (arith, rest.above);
        below = omega (arith, rest.below);
        fits = λ j a b. elim (dec_lt l j) [
          | yes later ↦ rest.fits j (omega arith) b
          | no same ↦ here j (omega arith) go
        ];
        largest = λ h. rest.largest (omega arith);
      })
]
  where
    here : (j : ℕ) → j ≡ l → ltb m (bytes l) ≡ false → bytes j ≤ m
    here j e h = ground (arith, ap bytes e)

-- Of the 32 levels, `calculate_which_level` gives the first whose block holds `memory_size` bytes;
-- it gives 32 only if no block does.
pub calculate_which_level-Which :
    (memory_size : ℕ) → Which memory_size 0 32 (calculate_which_level memory_size)
unfolding calculate_which_level
calculate_which_level-Which m = which_loop-Which m 32 0

bytes_zero : bytes 0 ≡ 4096
unfolding bytes
bytes_zero = refl

-- Memory of at least a page gets a level whose block fits into it, and the block of the next level
-- does not fit, unless there is none.
pub calculate_block_level_lem :
    (memory_size : ℕ)
    → 4096 ≤ memory_size
    → (calculate_block_level memory_size ≤ 31)
      × (bytes (calculate_block_level memory_size) ≤ memory_size)
      × (calculate_block_level memory_size < 31
          → memory_size < bytes (calculate_block_level memory_size + 1))
unfolding calculate_block_level
calculate_block_level_lem m h = rw level_eq (
  omega (arith, l.below),
  l.fits (level_loop m 32 0 - 1) (omega arith) (omega (arith, positive)),
  λ b. rw back (l.largest (omega arith)),
)
  where
    l : Level m 0 32 (level_loop m 32 0)
    l = level_loop-Level m 32 0

    positive : 0 < level_loop m 32 0
    positive = elim (dec_lt 0 (level_loop m 32 0)) [
      | yes p ↦ p
      | no p ↦
          let none_fits : level_loop m 32 0 ≡ 0 = omega arith in
          absurd (omega (arith, l.largest (omega arith), ap bytes none_fits, bytes_zero))
    ]

    level_eq : calculate_block_level m ≡ level_loop m 32 0 - 1
    level_eq = ground (arith, positive, l.below)

    back : level_loop m 32 0 - 1 + 1 ≡ level_loop m 32 0
    back = omega (arith, positive)

-- `buddy_is_buddy` holds exactly of two blocks of one level, one process and one memory that stand
-- side by side, unless the one being freed is marked first and the other is not. The alignment of
-- the pair is not looked at.
pub buddy_is_buddy_iff :
    (p : ℕ) (a : Block) (q : ℕ) (b : Block)
    → (buddy_is_buddy p a q b ≡ true) ↔ (
        (a.level ≡ b.level)
        × (a.host_pid ≡ b.host_pid)
        × (a.memory_idx ≡ b.memory_idx)
        × ((a.is_first ≡ false) ⊎ (b.is_first ≡ true))
        × (((q < p) × (p ≡ q + bytes a.level)) ⊎ ((p < q) × (q ≡ p + bytes a.level))))
unfolding buddy_is_buddy
buddy_is_buddy_iff p a q b = (ground arith, ground arith)
