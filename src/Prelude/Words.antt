-- ===== src/Prelude/Words.antt =====
-- `size_t` and `uint64_t` arithmetic: values below 2 ^ 64, with wrap-around.
use Prim.Native.Nat.{ℕ, ◌+◌, ◌-◌, ◌*◌, ◌%◌, ◌^◌}

abbrev pub size_mod : ℕ
size_mod = 2 ^ 64

abbrev pub add_size : ℕ → ℕ → ℕ
add_size a b = (a + b) % 2 ^ 64

abbrev pub sub_size : ℕ → ℕ → ℕ
sub_size a b = (a + 2 ^ 64 - b) % 2 ^ 64

abbrev pub mul_size : ℕ → ℕ → ℕ
mul_size a b = a * b % 2 ^ 64
