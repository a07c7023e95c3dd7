-- ===== src/Buddy/Levels.antt =====
-- Block sizes and levels: `calculate_block_size`, `calculate_block_level`, `calculate_which_level`,
-- and the relation `buddy_is_buddy`.
use coin_data.Prelude.{
  ℕ, zero, suc, ◌+◌, ◌-◌, ◌*◌, ◌/◌, ◌%◌, ◌^◌, Bool, false, not, ◌&&◌, ◌||◌, Result, ok, fault,
  Fault, ltb, leb, ◌==◌, if◌then◌else◌, mul_size, sub_size,
}
use coin_data.Buddy.Store.{Block, page_size, max_block_num}

-- `0x1 << level` is an `int`: at 31 its sign bit is set, and the sign is extended to 64 bits.
abbrev pub shift_one : ℕ → ℕ
shift_one level = if ltb level 31 then 2 ^ level else 2 ^ 64 - 2 ^ 31

-- `(0x1 << level) * g_page_size` for a level below 32
unfoldable pub bytes : ℕ → ℕ
bytes level = mul_size (shift_one level) page_size

-- A shift by 32 or more is undefined.
unfoldable pub calculate_block_size : ℕ → Result ℕ
calculate_block_size level = if ltb level 32 then ok (bytes level) else fault Fault.out_of_range

unfoldable pub calculate_buddy_head_size : ℕ → ℕ
calculate_buddy_head_size struct_size =
    (struct_size / page_size + (if struct_size % page_size == 0 then 0 else 1)) * page_size

unfoldable pub level_loop : ℕ → ℕ → ℕ → ℕ
level_loop memory_size zero level = level
level_loop memory_size (suc rounds) level =
    let rest = level_loop memory_size rounds (level + 1) in
    if ltb memory_size (bytes level) then level else rest

-- The level of the largest block that fits into the memory. The first branch returns `-1`.
unfoldable pub calculate_block_level : ℕ → ℕ
calculate_block_level memory_size =
    if ltb memory_size page_size then 2 ^ 64 - 1 else sub_size (level_loop memory_size 32 0) 1

unfoldable pub which_loop : ℕ → ℕ → ℕ → ℕ
which_loop memory_size zero level = level
which_loop memory_size (suc rounds) level =
    let rest = which_loop memory_size rounds (level + 1) in
    if leb memory_size (bytes level) then level else rest

-- The level of the smallest block that holds the memory, 32 if none does.
unfoldable pub calculate_which_level : ℕ → ℕ
unfolding which_loop
calculate_which_level memory_size = which_loop memory_size max_block_num 0

-- `first` and `second` are the addresses of the headers `a` and `b`.
unfoldable pub buddy_is_buddy : ℕ → Block → ℕ → Block → Bool
buddy_is_buddy first a second b =
    if not (a.level == b.level)
    then false
    else if a.is_first && not b.is_first
    then false
    else if not (a.host_pid == b.host_pid)
    then false
    else if not (a.memory_idx == b.memory_idx)
    then false
    else (ltb second first && (first - second == bytes a.level))
      || (ltb first second && (second - first == bytes a.level))
