-- ===== src/Buddy/ListTests.antt =====
-- Stores with well-formed lists.
use native.Mathlib.Decide.{ℕ_discrete}
use mathlib.Core.Path.{subst}
use coin_data.Prelude.{
  ℕ, zero, suc, ◌+◌, ◌^◌, ◌≤◌, ◌<◌, ◌≡◌, ◌≢◌, refl, sym, false, true, List, [], ◌∷◌, some, ok,
  arith, drop, get_elem?, length,
}
use coin_data.Buddy.Store.{Store, update}
use coin_data.Buddy.Levels.{bytes, calculate_which_level, buddy_is_buddy}
use coin_data.Buddy.Malloc.{buddy_malloc}
use coin_data.Buddy.Free.{buddy_free}
use coin_data.Buddy.Lists.Linked.{IsNode, Seg, Lists, has}
use coin_data.Buddy.Lists.Place.{put, give_back}
use coin_data.Buddy.Free.FreedAll.{pairs_of, Freed, buddy_free-give_back}
use coin_data.Buddy.Malloc.Split.{bytes_pos}
use coin_data.Buddy.Free.Pages.{free_pages}
use coin_data.Buddy.Malloc.Handed.{Room, handed, buddy_malloc-handed}
use coin_data.Buddy.Free.Restored.{buddy_free-buddy_malloc}
use coin_data.Buddy.Tests.{blank, zeros, zeros_elem, fresh, page, two_pages}

-- The block `x` of level `l` is the only one.
abbrev pub one_list : ℕ → ℕ → ℕ → List ℕ
one_list l x = put (λ _. []) l (x ∷ [])

one_list-Lists :
    (s : Store) (l x : ℕ)
    → length s.block_list ≡ 32
    → get_elem? s.block_list l ≡ some x
    → ((j : ℕ) → j < 32 → j ≢ l → get_elem? s.block_list j ≡ some 0)
    → IsNode (s.mem x) l 0 x
    → (s.mem x).next ≡ 0
    → Lists s (one_list l x)
one_list-Lists s l x count head others node last = record {
  count = count;
  seg = λ j few. elim (ℕ_discrete j l) [
    | yes e ↦
        let here : one_list l x l ≡ x ∷ [] = ground arith in
        subst (λ k. Seg s k 0 (one_list l x k)) (sym e)
          (subst (Seg s l 0) (sym here) (
            record { head = λ z. head; next = λ z. absurd (z refl) },
            node,
            record { head = λ z. absurd (omega (arith, node.above)); next = λ z. last },
          ))
    | no ne ↦
        let there : one_list l x j ≡ [] = ground arith in
        subst (Seg s j 0) (sym there)
          (record { head = λ z. others j few ne; next = λ z. absurd (z refl) })
  ];
}

has-one_list : (q l x k : ℕ) → q ≢ x → has q (one_list l x k) ≡ false
has-one_list q l x k ne = ground arith

length-one_list : (l x k : ℕ) → length (one_list l x k) ≤ 1
length-one_list l x k = ground arith

-- A free page at 0x101000 and, above it, a page in use.
two_pages-Lists : Lists two_pages (one_list 0 0x101000)
two_pages-Lists =
    one_list-Lists two_pages 0 0x101000 refl refl others
      (record { free = refl; level = refl; previous_eq = refl; intact = refl; above = omega arith })
      refl
  where
    others : (j : ℕ) → j < 32 → j ≢ 0 → get_elem? two_pages.block_list j ≡ some 0
    others zero few ne = absurd (ne refl)
    others (suc j) few ne = zeros_elem (suc j) few

buddy_free-give_back_example :
    (s' : Store) × (buddy_free 1 0x10203c two_pages ≡ ok (tt, s'))
    × Freed two_pages s' 0x102000
        (give_back (pairs_of two_pages) 33 0 0x102000 (one_list 0 0x101000))
buddy_free-give_back_example =
    buddy_free-give_back 1 0x102000 0 two_pages (one_list 0 0x101000) two_pages-Lists refl refl refl
      (omega arith) (omega arith) (omega arith) refl (λ j a. length-one_list 0 0x101000 j)

-- The two pages become one block of level 1.
give_back_two : give_back (pairs_of two_pages) 33 0 0x102000 (one_list 0 0x101000) 1 ≡ 0x101000 ∷ []
unfolding give_back buddy_is_buddy bytes
give_back_two = refl

-- 8 free pages at 0x100000.
abbrev pub eight_pages : Store
eight_pages = record fresh {
  block_list = 0 ∷ 0 ∷ 0 ∷ 0x100000 ∷ drop 4 zeros;
  mem = update (λ _. blank) 0x100000 (record (page true true) { level = 3 });
}

pub eight_pages-Lists : Lists eight_pages (one_list 3 0x100000)
eight_pages-Lists =
    one_list-Lists eight_pages 3 0x100000 refl refl others
      (record { free = refl; level = refl; previous_eq = refl; intact = refl; above = omega arith })
      refl
  where
    others : (j : ℕ) → j < 32 → j ≢ 3 → get_elem? eight_pages.block_list j ≡ some 0
    others zero few ne = refl
    others (suc zero) few ne = refl
    others (suc (suc zero)) few ne = refl
    others (suc (suc (suc zero))) few ne = absurd (ne refl)
    others (suc (suc (suc (suc j)))) few ne = zeros_elem (suc (suc (suc (suc j)))) few

pub eight_pages-Room :
    Room (calculate_which_level 160) 3 0x100000 [] eight_pages (one_list 3 0x100000)
unfolding calculate_which_level bytes
eight_pages-Room = record {
  lists = eight_pages-Lists;
  first = refl;
  empty = λ j a b. ground arith;
  ordered = omega arith;
  few = omega arith;
  fits = omega arith;
  alone = λ j k a b c.
      has-one_list (0x100000 + bytes j) 3 0x100000 k (omega (arith, bytes_pos j (omega arith)));
}

buddy_malloc-handed_example :
    (s' : Store) × (buddy_malloc 1 100 eight_pages ≡ ok (0x10003c, s'))
    × Lists s' (handed (calculate_which_level 160) 3 0x100000 [] (one_list 3 0x100000))
    × (free_pages 32 (handed (calculate_which_level 160) 3 0x100000 [] (one_list 3 0x100000))
          + 2 ^ calculate_which_level 160
        ≡ free_pages 32 (one_list 3 0x100000))
    × ((q : ℕ)
        → (eight_pages.mem q).is_free ≡ false
        → q ≢ 0
        → ((j : ℕ) → j < 3 → q ≢ 0x100000 + bytes j)
        → s'.mem q ≡ eight_pages.mem q)
buddy_malloc-handed_example =
    buddy_malloc-handed 0 100 3 0x100000 [] eight_pages (one_list 3 0x100000) (omega arith)
      eight_pages-Room

buddy_free-buddy_malloc_example :
    (s' s'' : Store) × (buddy_malloc 1 100 eight_pages ≡ ok (0x10003c, s'))
    × (buddy_free 1 0x10003c s' ≡ ok (tt, s''))
    × Lists s'' (one_list 3 0x100000)
buddy_free-buddy_malloc_example =
    buddy_free-buddy_malloc 0 100 3 0x100000 [] eight_pages (one_list 3 0x100000) (omega arith)
      eight_pages-Room refl (λ j a. length-one_list 3 0x100000 j)
      (λ x i. absurd (ground (arith, i)))
