-- ===== src/Buddy/Malloc/Exhausted.antt =====
-- `buddy_malloc` when no list from the wanted level on has a block.
use coin_data.Prelude.{ℕ, ◌+◌, ◌^◌, ◌<◌, ◌≡◌, ok, fault, Fault, arith, length, get_elem?-length}
use coin_data.Buddy.Store.{Store}
use coin_data.Buddy.Levels.{calculate_which_level}
use coin_data.Buddy.Malloc.{split_down, find_level, buddy_malloc}
use coin_data.Buddy.Malloc.Take.{Exhausted, find_level-Exhausted}

-- With 32 lists and every one empty from the wanted level on, `buddy_malloc` looks at
-- `block_list[32]`, which is not there.
pub buddy_malloc-Exhausted :
    (fuel size : ℕ) (s : Store)
    → size + 60 < 2 ^ 64
    → calculate_which_level (size + 60) < 32
    → length s.block_list ≡ 32
    → Exhausted (calculate_which_level (size + 60)) s
    → buddy_malloc fuel size s ≡ fault Fault.out_of_range
unfolding buddy_malloc split_down
buddy_malloc-Exhausted fuel size s fits few sized none_free =
    let found : find_level 33 (calculate_which_level (size + 60)) s ≡ ok (32, s) =
      find_level-Exhausted 33 (calculate_which_level (size + 60)) s few (omega arith) none_free in
    ground (arith, found, get_elem?-length s.block_list 32 (omega (arith, sized)))
