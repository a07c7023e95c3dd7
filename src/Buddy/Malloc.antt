-- ===== src/Buddy/Malloc.antt =====
-- `buddy_malloc`.
pub mod Split
pub mod SplitTo
pub mod SplitDown
pub mod Take
pub mod Allocate
pub mod Exhausted
pub mod Halves
pub mod Handed
use coin_data.Prelude.{ℕ, zero, suc, ◌+◌, true, false, ◌==◌, ltb, if◌then◌else◌, Fault, add_size}
use coin_data.Buddy.Store.{
  Cmd, pure, stop, ◌>>=◌, ◌>>◌, load, write, list_at, set_list, init_free_block, init_used_block,
  block_head_size, max_block_num,
}
use coin_data.Buddy.Levels.{bytes, calculate_which_level}

-- The `do` loop: it looks at `block_list[level_idx]` before it tests `level_idx`.
unfoldable pub find_level : ℕ → ℕ → Cmd ℕ
find_level zero level_idx = stop Fault.out_of_fuel
find_level (suc rounds) level_idx = do
  head ← list_at level_idx
  if head == 0
      then (if ltb (level_idx + 1) max_block_num
          then find_level rounds (level_idx + 1)
          else pure (level_idx + 1))
      else pure level_idx

-- `while(*block_tail != NULL) *block_tail = (*block_tail)->next;`
unfoldable pub drop_list : ℕ → ℕ → Cmd (Unit {0})
drop_list zero level = stop Fault.out_of_fuel
drop_list (suc fuel) level = list_at level >>= λ tail.
    if tail == 0 then pure tt else (do b ← load tail; set_list level b.next; drop_list fuel level)

-- The next block becomes the head of its list.
unfoldable pub new_head : ℕ → ℕ → Cmd (Unit {0})
new_head level head =
    if head == 0 then pure tt else do b ← load head; init_free_block head 0 b.next level b.is_first

-- The first block leaves its list.
unfoldable pub detach : ℕ → ℕ → Cmd (Unit {0})
detach level take_head = do
  t ← load take_head
  set_list level t.next
  new_head level t.next
  t ← load take_head
  write take_head (record t { next = 0; previous = 0 })

-- The header of the upper half.
unfoldable pub make_second : ℕ → ℕ → Cmd ℕ
make_second level block_first = do
  let second = add_size block_first (bytes level)
  t ← load block_first
  b ← load second
  write second (record b { host_pid = t.host_pid; memory_idx = t.memory_idx })
  init_free_block second block_first 0 level true
  pure second

-- The two halves become the list of their level; what the list held is lost.
unfoldable pub set_pair : ℕ → ℕ → ℕ → ℕ → Cmd (Unit {0})
set_pair fuel level block_first block_second = do
  drop_list fuel level
  set_list level block_first
  t ← load block_first
  init_free_block block_first t.previous block_second level false

-- One round of the splitting loop, at level `suc level` with the first block `take_head` of its list.
unfoldable pub split : ℕ → ℕ → ℕ → Cmd (Unit {0})
split fuel level take_head = do
  detach (suc level) take_head
  second ← make_second level take_head
  set_pair fuel level take_head second

unfoldable pub split_down : ℕ → ℕ → ℕ → Cmd (Unit {0})
split_down fuel level zero = list_at zero >>= λ _. pure tt
split_down fuel level (suc idx) = do
  head ← list_at (suc idx)
  if head == 0
      then pure tt
      else (if ltb level (suc idx)
          then (do split fuel idx head; split_down fuel level idx)
          else pure tt)

-- The first block of the list, marked as used; 0 if there is none.
unfoldable pub take_first : ℕ → ℕ → Cmd ℕ
take_first level size = list_at level >>= λ ret. if ret == 0 then pure 0 else do
  r ← load ret
  set_list level r.next
  λ s.
      ((if r.next == 0
            then pure tt
            else do b ← load r.next; init_free_block r.next 0 b.next b.level b.is_first)
          >> (do
            init_used_block ret level
            u ← load ret
            write ret (record u { size = size })
            pure (add_size ret block_head_size)))
        s

unfoldable pub buddy_malloc : ℕ → ℕ → Cmd ℕ
buddy_malloc fuel size = do
  let level = calculate_which_level (add_size size block_head_size)
  level_idx ← find_level 33 level
  split_down fuel level level_idx
  take_first level size
