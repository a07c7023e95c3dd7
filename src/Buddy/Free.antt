-- ===== src/Buddy/Free.antt =====
-- `buddy_free`.
pub mod Release
pub mod Scan
pub mod Merged
pub mod Walk
pub mod Freed
pub mod Round
pub mod FreedAll
pub mod Pages
pub mod Restored
use coin_data.Prelude.{
  ℕ, zero, suc, ◌+◌, Option, none, some, ◌==◌, ltb, if◌then◌else◌, Fault, sub_size,
}
use coin_data.Buddy.Store.{
  Cmd, pure, stop, ◌>>=◌, ◌>>◌, load, list_at, set_list, init_free_block, block_head_size,
  crc32_check,
}
use coin_data.Buddy.Levels.{buddy_is_buddy}
use coin_data.Buddy.Lists.{buddy_remove_block}

-- The two blocks become one of the next level, at the lower address.
unfoldable pub merge : ℕ → ℕ → Cmd ℕ
merge head insert_point = do
  ip ← load insert_point
  buddy_remove_block ip.level insert_point
  let addr = if ltb head insert_point then head else insert_point
  a ← load addr
  init_free_block addr 0 0 (a.level + 1) a.is_first
  pure addr

unfoldable pub link_before : ℕ → ℕ → Cmd (Unit {0})
link_before head insert_point = do
  ip ← load insert_point
  h ← load head
  let previous = ip.previous
  init_free_block head previous insert_point h.level h.is_first
  ip ← load insert_point
  init_free_block insert_point head ip.next ip.level ip.is_first
  if previous == 0
      then set_list h.level head
      else do p ← load previous; init_free_block previous p.previous head p.level p.is_first

unfoldable pub link_last : ℕ → ℕ → Cmd (Unit {0})
link_last head insert_point = do
  ip ← load insert_point
  init_free_block insert_point ip.previous head ip.level ip.is_first
  h ← load head
  init_free_block head insert_point 0 h.level h.is_first

-- The `for` loop. The result is the merged block, or none once the block is in a list.
unfoldable pub scan : ℕ → ℕ → ℕ → Cmd (Option ℕ)
scan zero head insert_point = stop Fault.out_of_fuel
scan (suc fuel) head insert_point = do
  h ← load head
  ip ← load insert_point
  if buddy_is_buddy head h insert_point ip
      then (do m ← merge head insert_point; pure (some m))
      else if ltb head insert_point
      then (do link_before head insert_point; pure none)
      else if ip.next == 0
      then (do link_last head insert_point; pure none)
      else scan fuel head ip.next

-- The `while` loop. Each round but the last merges, so `rounds` above 32 are enough.
unfoldable pub free_loop : ℕ → ℕ → ℕ → Cmd (Unit {0})
free_loop fuel zero head = stop Fault.out_of_fuel
free_loop fuel (suc rounds) head = do
  h ← load head
  if crc32_check h
      then (list_at h.level >>= λ insert_point.
          if insert_point == 0
          then (do init_free_block head 0 0 h.level h.is_first; set_list h.level head)
          else (scan fuel head insert_point >>= λ merged. elim merged [
            | none ↦ pure tt
            | some addr ↦ free_loop fuel rounds addr
          ]))
      else stop Fault.aborted

unfoldable pub buddy_free : ℕ → ℕ → Cmd (Unit {0})
buddy_free fuel addr = do
  let head = sub_size addr block_head_size
  h ← load head
  if h.is_free
      then stop Fault.aborted
      else if crc32_check h
      then free_loop fuel 33 head
      else stop Fault.aborted
