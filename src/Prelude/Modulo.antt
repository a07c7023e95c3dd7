-- ===== src/Prelude/Modulo.antt =====
-- Positions of a ring: indices taken modulo its size.
use Prim.Native.Nat.{ℕ, ◌+◌, ◌-◌, ◌%◌, ◌<◌}
use native.Mathlib.Nat.{mod-add-mod, mod-eq_of_lt, mod-eq-sub-mod, mod-lt}
use native.Mathlib.Decide.{dec_lt}
use native.Mathlib.Omega.{arith}
use mathlib.Core.Path.{◌≡◌, ◌∙◌, ap}
use mathlib.Core.Logic.{◌≢◌}

-- Two indices less than `n` apart go to different slots.
add-mod-ne : (i d n : ℕ) → 0 < d → d < n → (i + d) % n ≢ i % n
add-mod-ne i d n h k = elim (dec_lt (i % n + d) n) [
  | yes p ↦ omega (arith, mod-add-mod i n d, mod-eq_of_lt p)
  | no p ↦ omega (
    arith,
    mod-add-mod i n d,
    mod-lt i {m = n} (omega arith),
    mod-eq-sub-mod {n = i % n + d} {m = n} (omega arith),
    mod-eq_of_lt {n = i % n + d - n} {m = n} (omega arith),
  )
]

pub mod-ne : (i j n : ℕ) → i < j → j < i + n → j % n ≢ i % n
mod-ne i j n h k e = add-mod-ne i (j - i) n (omega arith) (omega arith) (ap (λ k. k % n) same ∙ e)
  where
    same : i + (j - i) ≡ j
    same = omega arith

pub mod-next : (k n : ℕ) → (k % n + 1) % n ≡ (k + 1) % n
mod-next k n = mod-add-mod k n 1

-- The distance between two positions less than `n` apart.
pub mod-sub : (k d n : ℕ) → d < n → ((k + d) % n + n - k % n) % n ≡ d
mod-sub k d n h = elim (dec_lt (k % n + d) n) [
  | yes p ↦
      let at : (k + d) % n ≡ k % n + d = omega (arith, mod-add-mod k n d, mod-eq_of_lt p) in
      let dist : (k + d) % n + n - k % n ≡ d + n = omega (arith, at) in
      ap (λ x. x % n) dist
      ∙ mod-eq-sub-mod {n = d + n} {m = n} (omega arith)
      ∙ ap (λ x. x % n) back
      ∙ mod-eq_of_lt h
  | no p ↦
      let at : (k + d) % n ≡ k % n + d - n = omega (
        arith,
        mod-add-mod k n d,
        mod-eq-sub-mod {n = k % n + d} {m = n} (omega arith),
        mod-eq_of_lt {n = k % n + d - n} {m = n} (omega (arith, mod-lt k {m = n} (omega arith))),
      ) in
      let dist : (k + d) % n + n - k % n ≡ d = omega (arith, at, mod-lt k {m = n} (omega arith)) in
      ap (λ x. x % n) dist ∙ mod-eq_of_lt h
]
  where
    back : d + n - n ≡ d
    back = omega arith
