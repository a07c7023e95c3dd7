-- ===== src/Buddy/ClientTests.antt =====
-- A client of the allocator on eight pages.
use coin_data.Prelude.{
  ℕ, ◌+◌, ◌^◌, ◌<◌, ◌≡◌, refl, sym, ◌∙◌, true, List, [], ◌∷◌, inl, inr, some, ok, fault, Fault,
  arith, get_elem?,
}
use coin_data.Buddy.Store.{Store}
use coin_data.Buddy.Levels.{bytes, calculate_which_level, calculate_block_level, level_loop}
use coin_data.Buddy.Malloc.{buddy_malloc}
use coin_data.Buddy.Free.{buddy_free}
use coin_data.Buddy.Lists.{buddy_attach_memory}
use coin_data.Buddy.Lists.Linked.{Lists, has}
use coin_data.Buddy.Lists.Place.{put}
use coin_data.Buddy.Free.Pages.{free_pages}
use coin_data.Buddy.Malloc.Allocate.{Allocated, buddy_malloc-Allocated}
use coin_data.Buddy.Malloc.Handed.{room-Splittable}
use coin_data.Buddy.Reach.Ownership.{Blocks, Owned, remove}
use coin_data.Buddy.Reach.{Reach, AllocatedOrNone, Reach-Owned, Reach-serves}
use coin_data.Buddy.Lists.Attached.{
  inserted, buddy_attach_memory-inserted, buddy_attach_memory-below,
}
use coin_data.Buddy.Tests.{fresh, zeros_elem}
use coin_data.Buddy.ListTests.{one_list, eight_pages, eight_pages-Lists, eight_pages-Room}

only_one : (j y : ℕ) → has y (one_list 3 0x100000 j) ≡ true → (j ≡ 3) × (y ≡ 0x100000)
only_one j y i = ground (arith, i)

eight_pages-Owned : Owned 0x108000 8 eight_pages (one_list 3 0x100000) []
unfolding free_pages
eight_pages-Owned = record {
  lists = eight_pages-Lists;
  apart = λ i x j y a b c d.
      let (ei, ex) = only_one i x c in
      let (ej, ey) = only_one j y d in inl (ei ∙ sym ej, ex ∙ sym ey);
  below = λ k j y a i. let (ej, ey) = only_one j y i in rw (ej, ey) (inr (omega arith));
  used = tt;
  pages = refl;
}

malloc_100 :
    (s' : Store) × (buddy_malloc 8 100 eight_pages ≡ ok (0x10003c, s'))
    × Allocated 100 (calculate_which_level 160) 3 0x100000 eight_pages s'
malloc_100 =
    buddy_malloc-Allocated 7 100 3 0x100000 eight_pages (omega arith)
      (room-Splittable eight_pages-Room)

abbrev in_use : Blocks
in_use = (calculate_which_level 160, 0x100000) ∷ []

one_block : Reach 8 0x108000 8 malloc_100.0 in_use
one_block = Reach.malloc 100 0x100000 (Reach.start eight_pages-Owned) (omega arith) malloc_100.1

Reach-Owned_example : (ls : ℕ → List ℕ) × Owned 0x108000 8 malloc_100.0 ls in_use
Reach-Owned_example =
    Reach-Owned {fuel = 7} {hi = 0x108000} {total = 8} (omega arith) (omega arith) (omega arith)
      one_block

Reach-serves_example :
    ((size : ℕ) → size + 60 < 2 ^ 64 → AllocatedOrNone 8 0x108000 8 size malloc_100.0 in_use)
    × ((i l h : ℕ)
        → get_elem? in_use i ≡ some (l, h)
        → (s' : Store) × (buddy_free 8 (h + 60) malloc_100.0 ≡ ok (tt, s'))
          × Reach 8 0x108000 8 s' (remove in_use i))
Reach-serves_example =
    Reach-serves {fuel = 7} {hi = 0x108000} {total = 8} (omega arith) (omega arith) (omega arith)
      one_block

fresh-Lists : Lists fresh (λ _. [])
fresh-Lists = record {
  count = refl;
  seg = λ l few. record { head = λ z. zeros_elem l few; next = λ z. absurd (z refl) };
}

level_8 : calculate_block_level 32768 ≡ 3
unfolding calculate_block_level level_loop bytes
level_8 = refl

buddy_attach_memory-inserted_example :
    (s' : Store) × (buddy_attach_memory 0 77 0x100000 32768 fresh ≡ ok (true, s'))
    × Lists s' (put (λ _. []) (calculate_block_level 32768) (inserted 0x100000 []))
buddy_attach_memory-inserted_example =
    buddy_attach_memory-inserted 0 77 0x100000 32768 fresh (λ _. []) fresh-Lists (λ j a. refl)
      (omega arith) (omega (arith, level_8)) (λ x ys e. cc) (omega arith)

buddy_attach_memory-below_example :
    buddy_attach_memory 1 77 0x80000 32768 eight_pages ≡ fault Fault.null_pointer
buddy_attach_memory-below_example =
    buddy_attach_memory-below 0 77 0x80000 32768 0x100000 [] eight_pages (one_list 3 0x100000)
      eight_pages-Lists (λ j a. ground arith) (omega arith) (omega (arith, level_8))
      (rw level_8 refl) (omega arith)
