-- ===== src/Buddy/Tests.antt =====
-- Runs of the allocator.
use coin_data.Prelude.{
  ◌+◌, ℕ, zero, suc, ◌*◌, ◌≡◌, refl, Bool, true, false, List, [], ◌∷◌, some, Result, ok, fault,
  Fault, take, drop, get_elem?, get_elem?-replicate, ◌<◌, arith,
}
use coin_data.Buddy.Store.{Block, Store, Cmd, pure, ◌>>=◌, ◌>>◌, update, crc32}
use coin_data.Buddy.Levels.{bytes, calculate_which_level, which_loop, buddy_is_buddy}
use coin_data.Buddy.Lists.{buddy_attach_memory}
use coin_data.Buddy.Malloc.{
  buddy_malloc, find_level, split_down, split, detach, make_second, set_pair, drop_list, new_head,
  take_first,
}
use coin_data.Buddy.Malloc.SplitTo.{Splittable}
use coin_data.Buddy.Malloc.Allocate.{Allocated, buddy_malloc-Allocated}
use coin_data.Buddy.Malloc.Exhausted.{buddy_malloc-Exhausted}
use coin_data.Buddy.Malloc.Take.{Exhausted}
use coin_data.Buddy.Free.Release.{Pair, alone, buddy_free-twice}
use coin_data.Buddy.Free.{buddy_free, free_loop, scan, merge, link_before, link_last}

abbrev pub blank : Block
blank = record {
  previous = 0;
  next = 0;
  size = 0;
  level = 0;
  host_pid = 0;
  memory_idx = 0;
  is_free = false;
  is_first = false;
  crc = 0;
}

abbrev pub zeros : List ℕ
zeros =
    0 ∷ 0 ∷ 0 ∷ 0 ∷ 0 ∷ 0 ∷ 0 ∷ 0 ∷ 0 ∷ 0 ∷ 0 ∷ 0 ∷ 0 ∷ 0 ∷ 0 ∷ 0 ∷ 0 ∷ 0 ∷ 0 ∷ 0 ∷ 0 ∷ 0 ∷ 0 ∷ 0
    ∷ 0 ∷ 0 ∷ 0 ∷ 0 ∷ 0 ∷ 0 ∷ 0 ∷ 0 ∷ []

pub zeros_elem : (j : ℕ) → j < 32 → get_elem? zeros j ≡ some 0
zeros_elem j b = get_elem?-replicate 32 j 0 b

abbrev pub fresh : Store
fresh = record {
  total_size = 4096;
  head_size = 4096;
  memory_size = 0;
  memory_idx = 0;
  block_list = zeros;
  mem = λ _. blank;
}

session : {A : Type 0} → Cmd A → Result (A × List ℕ)
session m = elim ((do _ ← buddy_attach_memory 10 77 0x100000 (8 * 4096); m) fresh) [
  | ok (a, s) ↦ ok (a, take 5 s.block_list)
  | fault e ↦ fault e
]

malloc_free : Cmd (List ℕ)
malloc_free = do
  a ← buddy_malloc 10 100
  b ← buddy_malloc 10 100
  c ← buddy_malloc 10 100
  d ← buddy_malloc 10 100
  buddy_free 10 b
  buddy_free 10 c
  pure (a ∷ b ∷ c ∷ d ∷ [])

run1 : Result (List ℕ × List ℕ)
unfolding buddy_malloc find_level split_down split detach make_second set_pair drop_list new_head
    take_first buddy_free free_loop scan merge link_before link_last
run1 = session malloc_free

-- 8 pages at 0x100000.
abbrev attached : Store
attached = record {
  total_size = 36864;
  head_size = 4096;
  memory_size = 32768;
  memory_idx = 0;
  block_list = 0 ∷ 0 ∷ 0 ∷ 0x100000 ∷ drop 4 zeros;
  mem = λ _. blank;
}

empty_below : (j : ℕ) → j < 3 → get_elem? attached.block_list j ≡ some 0
empty_below zero b = refl
empty_below (suc zero) b = refl
empty_below (suc (suc zero)) b = refl
empty_below (suc (suc (suc j))) b = absurd (omega arith)

-- Nothing is free in a store without memory.
fresh-Exhausted : (level : ℕ) → Exhausted level fresh
fresh-Exhausted level j a b = zeros_elem j b

attached-Splittable : Splittable 0 3 0x100000 attached
unfolding bytes
attached-Splittable = record {
  nonnull = omega arith;
  ordered = omega arith;
  few = omega arith;
  sized = omega arith;
  fits = omega arith;
  head = refl;
  empty = λ j a b. empty_below j b;
  apart = omega arith;
  disjoint = λ j a b. omega arith;
}

buddy_malloc-Allocated_example :
    (s' : Store) × (buddy_malloc 2 100 attached ≡ ok (0x10003c, s'))
    × Allocated 100 (calculate_which_level 160) 3 0x100000 attached s'
unfolding calculate_which_level bytes
buddy_malloc-Allocated_example =
    buddy_malloc-Allocated 1 100 3 0x100000 attached (omega arith) attached-Splittable

level_160 : calculate_which_level 160 ≡ 0
unfolding calculate_which_level bytes which_loop
level_160 = refl

buddy_malloc-Exhausted_example : buddy_malloc 1 100 fresh ≡ fault Fault.out_of_range
buddy_malloc-Exhausted_example =
    buddy_malloc-Exhausted 1 100 fresh (omega arith) (omega (arith, level_160)) refl
      (fresh-Exhausted (calculate_which_level 160))

abbrev pub page : Bool → Bool → Block
page is_free is_first = record blank { is_free = is_free; is_first = is_first; crc = crc32 }

-- The pages at 0x101000, free, and at 0x102000, in use.
abbrev pub two_pages : Store
two_pages = record fresh {
  block_list = 0x101000 ∷ drop 1 zeros;
  mem = update (λ _. page false false) 0x101000 (page true true);
}

two_pages-Pair : Pair 0x102000 0x101000 two_pages
unfolding buddy_is_buddy bytes
two_pages-Pair = record {
  buddies = refl;
  same_level = refl;
  only = refl;
  last = refl;
  first = refl;
  next_empty = refl;
  used = refl;
  intact_h = refl;
  intact_b = refl;
  nonnull_h = omega arith;
  nonnull_b = omega arith;
  differ = omega arith;
}

buddy_free-twice_example :
    (s' : Store) × (buddy_free 1 0x10203c two_pages ≡ ok (tt, s'))
    × (buddy_free 1 0x10203c s' ≡ ok (tt, alone s' 0x102000))
    × (get_elem? (alone s' 0x102000).block_list 0 ≡ some 0x102000)
    × (((alone s' 0x102000).mem 0x102000).is_free ≡ true)
    × (get_elem? (alone s' 0x102000).block_list 1 ≡ some 0x101000)
    × (((alone s' 0x102000).mem 0x101000).is_free ≡ true)
    × (((alone s' 0x102000).mem 0x101000).level ≡ 1)
    × (0x102000 ≡ 0x101000 + bytes 0)
buddy_free-twice_example =
    buddy_free-twice 0 1 0x102000 0x101000 two_pages two_pages-Pair (omega arith) (omega arith)

abbrev one_page : Store
one_page = record fresh { mem = λ _. page false true }
