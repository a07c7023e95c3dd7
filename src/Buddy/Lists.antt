-- ===== src/Buddy/Lists.antt =====
-- `buddy_insert_blcok`, `buddy_remove_block`, `buddy_init_system` and `buddy_attch_memory`. A walk
-- along a list takes fuel, more than the length of the list.
pub mod Linked
pub mod Place
pub mod Inserted
pub mod Attached
use coin_data.Prelude.{
  ℕ, zero, suc, Bool, true, false, Option, none, some, replicate, ◌==◌, ltb, if◌then◌else◌, Fault,
  add_size, sub_size,
}
use coin_data.Buddy.Store.{
  Block, Store, Cmd, pure, stop, ◌>>=◌, ◌>>◌, load, write, list_at, set_list, init_free_block,
  max_block_num,
}
use coin_data.Buddy.Levels.{calculate_block_level, calculate_buddy_head_size}

-- The block at which the `for` loop of `buddy_insert_blcok` stops.
unfoldable pub insert_walk : ℕ → ℕ → ℕ → Cmd ℕ
insert_walk zero insert_block block = stop Fault.out_of_fuel
insert_walk (suc fuel) insert_block block = do
  b ← load insert_block
  if b.next == 0
      then pure insert_block
      else if ltb block insert_block
      then pure insert_block
      else insert_walk fuel b.next block

-- Before `insert_block`: its predecessor is read unchecked.
unfoldable pub insert_before : ℕ → ℕ → Cmd (Unit {0})
insert_before insert_block block = do
  ib ← load insert_block
  let previous = ib.previous
  p ← load previous
  init_free_block previous p.previous block p.level p.is_first
  b ← load block
  init_free_block block previous insert_block b.level b.is_first
  ib ← load insert_block
  init_free_block insert_block block ib.next ib.level ib.is_first

unfoldable pub insert_after : ℕ → ℕ → Cmd (Unit {0})
insert_after insert_block block = do
  ib ← load insert_block
  init_free_block insert_block ib.previous block ib.level ib.is_first
  b ← load block
  init_free_block block insert_block 0 b.level b.is_first

-- `level` stands for the pointer `&buddy->block_list[level]`.
unfoldable pub buddy_insert_block : ℕ → ℕ → ℕ → Cmd (Unit {0})
unfolding insert_walk insert_before insert_after
buddy_insert_block fuel level block = do
  head ← list_at level
  if head == 0
      then set_list level block
      else insert_walk fuel head block >>= λ insert_block.
          (if ltb block insert_block
            then insert_before insert_block block
            else insert_after insert_block block)

unfoldable pub relink_previous : ℕ → ℕ → Cmd (Unit {0})
relink_previous previous next =
    if previous == 0
    then pure tt
    else do p ← load previous; init_free_block previous p.previous next p.level p.is_first

unfoldable pub relink_next : ℕ → ℕ → Cmd (Unit {0})
relink_next previous next =
    if next == 0
    then pure tt
    else do n ← load next; init_free_block next previous n.next n.level n.is_first

unfoldable pub buddy_remove_block : ℕ → ℕ → Cmd (Unit {0})
unfolding relink_previous relink_next
buddy_remove_block level block = do
  b ← load block
  let previous = b.previous
  let next = b.next
  head ← list_at level
  (if block == head then set_list level next else pure tt)
  relink_previous previous next
  relink_next previous next

-- The lock is made and unlocked. The result is none where the code returns -1.
unfoldable pub buddy_init_system : ℕ → ℕ → (ℕ → Block) → Option Store
buddy_init_system addr size mem =
    let head_size = calculate_buddy_head_size 328 in
    if addr == 0
    then none
    else some (record {
      total_size = size;
      head_size = head_size;
      memory_size = sub_size size head_size;
      memory_idx = 0;
      block_list = replicate max_block_num 0;
      mem = mem;
    })

-- `getpid()` is the argument `pid`. The result is false where the code returns -1.
unfoldable pub buddy_attach_memory : ℕ → ℕ → ℕ → ℕ → Cmd Bool
unfolding buddy_insert_block
buddy_attach_memory fuel pid addr size = if addr == 0 then pure false else do
  let level = calculate_block_level size
  b ← load addr
  λ s.
      let idx = add_size s.memory_idx 1 in
      (do
        write addr (record b { host_pid = pid; memory_idx = idx })
        init_free_block addr 0 0 level true
        buddy_insert_block fuel level addr
        pure true)
        (record s { memory_idx = idx })
