-- ===== src/Buddy/Malloc/SplitDown.antt =====
-- The whole splitting loop: the first block of a level becomes one block of the wanted level and one
-- upper half for each level between.
use native.Mathlib.Decide.{dec_lt, ℕ_discrete}
use coin_data.Prelude.{
  ℕ, zero, suc, ◌+◌, ◌≤◌, ◌<◌, ◌≡◌, ◌≢◌, sym, ap, ◌∙◌, false, some, ok, arith, length, get_elem?,
  set, length-set, get_elem?-set_self, get_elem?-set_ne,
}
use coin_data.Buddy.Store.{Block, Store, free_header}
use coin_data.Buddy.Levels.{bytes}
use coin_data.Buddy.Malloc.{split, split_down}
use coin_data.Buddy.Malloc.SplitTo.{IsHalf, SplitTo, Splittable, no_split, SameRegion-trans}
use coin_data.Buddy.Malloc.Split.{
  bytes_mono, bytes_pos, split_mem, split_lem, split_mem-head, split_mem-half, split_mem-next,
  SameRegion, split_mem-is_first, split_mem-head_region, split_mem-half_region, split_mem-same,
}

-- One round.
abbrev split_store : ℕ → ℕ → Store → Store
split_store i h s = record s {
  block_list = set (set s.block_list (suc i) (s.mem h).next) i h;
  mem = split_mem s.mem h i;
}

module _ {level i h : ℕ} {s : Store} (lt : level < suc i) (pre : Splittable level (suc i) h s) where
  s1 : Store
  s1 = split_store i h s

  pos : 0 < bytes i
  pos = bytes_pos i (omega (arith, pre.few))

  smaller : bytes i < bytes (suc i)
  smaller = bytes_mono i (suc i) (omega arith) pre.few

  list_i : get_elem? s1.block_list i ≡ some h
  unfolding s1
  list_i =
      get_elem?-set_self (set s.block_list (suc i) (s.mem h).next) i h
        (omega (arith, length-set s.block_list (suc i) (s.mem h).next, pre.sized))

  list_suc : get_elem? s1.block_list (suc i) ≡ some (s.mem h).next
  unfolding s1
  list_suc =
      get_elem?-set_ne (set s.block_list (suc i) (s.mem h).next) {i = i} {j = suc i} h (omega arith)
      ∙ get_elem?-set_self s.block_list (suc i) (s.mem h).next pre.sized

  list_other : (j : ℕ) → j ≢ i → j ≢ suc i → get_elem? s1.block_list j ≡ get_elem? s.block_list j
  unfolding s1
  list_other j a b =
      get_elem?-set_ne (set s.block_list (suc i) (s.mem h).next) {i = i} {j = j} h (omega arith)
      ∙ get_elem?-set_ne s.block_list {i = suc i} {j = j} (s.mem h).next (omega arith)

  s1-count : length s1.block_list ≡ length s.block_list
  unfolding s1
  s1-count =
      length-set (set s.block_list (suc i) (s.mem h).next) i h
      ∙ length-set s.block_list (suc i) (s.mem h).next

  away : (s.mem h).next ≢ h + bytes i
  away = pre.disjoint i (omega arith) (omega arith)

  s1-next : (s1.mem h).next ≡ h + bytes i
  unfolding s1
  s1-next = (split_mem-head i h s.mem pre.apart pos).0

  s1-Splittable : Splittable level i h s1
  s1-Splittable = record {
    nonnull = pre.nonnull;
    ordered = omega arith;
    few = omega (arith, pre.few);
    sized = omega (arith, s1-count, pre.sized);
    fits = omega (arith, pre.fits, smaller);
    head = list_i;
    empty = λ j a b. list_other j (omega arith) (omega arith) ∙ pre.empty j a (omega arith);
    apart = λ e. absurd (omega (arith, s1-next, pos));
    disjoint =
        λ j a b e. absurd (omega (arith, s1-next, bytes_mono j i b (omega (arith, pre.few))));
  }

  module _ {s' : Store} (ih : SplitTo level i h s1 s') where
    old : ℕ
    old = (s.mem h).next

    same_i : level ≡ i → s' ≡ s1
    same_i e = ih.still e

    compose_head_next : (s'.mem h).next ≡ h + bytes level
    compose_head_next = elim (dec_lt level i) [
      | yes p ↦ ih.head_next p
      | no p ↦
          let e : level ≡ i = omega arith in
          ap (λ t. (t.mem h).next) (ih.still e) ∙ s1-next ∙ ap (λ j. h + bytes j) (sym e)
    ]

    s1-head_level : (s1.mem h).level ≡ i
    unfolding s1
    s1-head_level = (split_mem-head i h s.mem pre.apart pos).2

    compose_head_level : (s'.mem h).level ≡ level
    compose_head_level = elim (dec_lt level i) [
      | yes p ↦ ih.head_level p
      | no p ↦
          let e : level ≡ i = omega arith in
          ap (λ t. (t.mem h).level) (ih.still e) ∙ s1-head_level ∙ sym e
    ]

    s1-IsHalf : IsHalf (s1.mem (h + bytes i)) i
    unfolding s1
    s1-IsHalf =
        let (a, b, c, d) = split_mem-half i h s.mem pre.apart pos away in
        record { next = a; level = b; free = c; intact = d }

    -- The half of this round: a later round makes it the head of its list.
    new-IsHalf : IsHalf (s'.mem (h + bytes i)) i
    new-IsHalf = elim (dec_lt level i) [
      | yes p ↦
          let e = rw s1-next at (ih.old_next p (omega (arith, s1-next, pos))) in
          record {
            next = ap (λ b. b.next) e ∙ s1-IsHalf.next;
            level = ap (λ b. b.level) e;
            free = ap (λ b. b.is_free) e;
            intact = ap (λ b. b.crc) e;
          }
      | no p ↦ rw (ih.still (omega arith)) s1-IsHalf
    ]

    compose-IsHalf : (j : ℕ) → level ≤ j → j < suc i → IsHalf (s'.mem (h + bytes j)) j
    compose-IsHalf j a b = elim (ℕ_discrete j i) [
      | yes e ↦ rw e new-IsHalf
      | no e ↦ ih.half j a (omega arith)
    ]

    compose_half_previous : (j : ℕ) → level < j → j < suc i → (s'.mem (h + bytes j)).previous ≡ 0
    compose_half_previous j a b = elim (ℕ_discrete j i) [
      | yes e ↦
          let low : level < i = omega arith in
          let head = rw s1-next at (ih.old_next low (omega (arith, s1-next, pos))) in
          rw e (ap (λ b. b.previous) head)
      | no e ↦ ih.half_previous j a (omega arith)
    ]

    s1-head_region : SameRegion (s1.mem h) (s.mem h)
    unfolding s1
    s1-head_region = split_mem-head_region i h s.mem pre.apart pos

    s1-half_region : SameRegion (s1.mem (h + bytes i)) (s.mem h)
    unfolding s1
    s1-half_region = split_mem-half_region i h s.mem pre.apart pos

    s1-is_first : (s1.mem h).is_first ≡ false
    unfolding s1
    s1-is_first = split_mem-is_first i h s.mem pre.apart pos

    compose_head_first : (s'.mem h).is_first ≡ false
    compose_head_first = elim (dec_lt level i) [
      | yes p ↦ ih.head_first p
      | no p ↦ ap (λ t. (t.mem h).is_first) (ih.still (omega arith)) ∙ s1-is_first
    ]

    new_half_region : SameRegion (s'.mem (h + bytes i)) (s.mem h)
    new_half_region = elim (dec_lt level i) [
      | yes p ↦
          let e = rw s1-next at (ih.old_next p (omega (arith, s1-next, pos))) in
          record {
            host_pid = ap Block.host_pid e ∙ s1-half_region.host_pid;
            memory_idx = ap Block.memory_idx e ∙ s1-half_region.memory_idx;
          }
      | no p ↦ rw (ih.still (omega arith)) s1-half_region
    ]

    compose_half_region :
        (j : ℕ) → level ≤ j → j < suc i → SameRegion (s'.mem (h + bytes j)) (s.mem h)
    compose_half_region j a b = elim (ℕ_discrete j i) [
      | yes e ↦ rw e new_half_region
      | no e ↦ SameRegion-trans (ih.half_region j a (omega arith)) s1-head_region
    ]

    compose_old_next :
        old ≢ 0
        → s'.mem old ≡ free_header (s.mem old) 0 (s.mem old).next (suc i) (s.mem old).is_first
    unfolding old s1
    compose_old_next nonnull =
        ih.frame (s.mem h).next pre.apart (λ e. away (e ∙ s1-next))
          (λ j a b. pre.disjoint j a (omega arith))
        ∙ split_mem-next i h s.mem pre.apart pos away nonnull

    compose_frame :
        (p : ℕ)
        → p ≢ h
        → p ≢ (s.mem h).next
        → ((j : ℕ) → level ≤ j → j < suc i → p ≢ h + bytes j)
        → s'.mem p ≡ s.mem p
    unfolding s1
    compose_frame p a b c =
        ih.frame p a (λ e. c i (omega arith) (omega arith) (e ∙ s1-next))
          (λ j x y. c j x (omega arith))
        ∙ split_mem-same i h s.mem pre.apart pos p a b (c i (omega arith) (omega arith))

    compose_halves :
        (j : ℕ) → level < j → j < suc i → get_elem? s'.block_list j ≡ some (h + bytes j)
    compose_halves j a b = elim (ℕ_discrete j i) [
      | yes e ↦ rw e (ih.rest (omega arith) ∙ ap some s1-next)
      | no e ↦ ih.halves j a (omega arith)
    ]

    compose : SplitTo level (suc i) h s s'
    unfolding old
    compose = record {
      count = ih.count ∙ s1-count;
      first = ih.first;
      halves = compose_halves;
      rest = λ a. ih.above (suc i) (omega arith) ∙ list_suc;
      below = λ j a. ih.below j a ∙ list_other j (omega arith) (omega arith);
      above = λ j a. ih.above j (omega arith) ∙ list_other j (omega arith) (omega arith);
      still = λ a. absurd (omega arith);
      head_next = λ a. compose_head_next;
      head_level = λ a. compose_head_level;
      half = compose-IsHalf;
      half_previous = compose_half_previous;
      head_first = λ a. compose_head_first;
      head_region = SameRegion-trans ih.head_region s1-head_region;
      half_region = compose_half_region;
      old_next = λ a. compose_old_next;
      frame = compose_frame;
    }

  split-s1 : (fuel : ℕ) → split (suc fuel) i h s ≡ ok (tt, s1)
  unfolding s1
  split-s1 fuel =
      split_lem fuel i h s pre.nonnull (omega (arith, pre.fits, smaller)) pre.sized
        (pre.empty i (omega arith) (omega arith))

-- For a block that fits into the address space, with the levels below it empty down to the wanted
-- one and a next block that is none of its halves, the splitting loop ends: the block is the first
-- of the wanted level, each level between has one upper half, and nothing else changes but the
-- header of the next block.
pub split_down-SplitTo :
    (fuel level idx h : ℕ) (s : Store)
    → Splittable level idx h s
    → (s' : Store) × (split_down (suc fuel) level idx s ≡ ok (tt, s')) × SplitTo level idx h s s'
unfolding split_down
split_down-SplitTo fuel level zero h s pre =
    let e : level ≡ 0 = omega (arith, pre.ordered) in
    (s, ground (arith, pre.head), rw e (no_split 0 h s pre.head))
split_down-SplitTo fuel level (suc i) h s pre = elim (dec_lt level (suc i)) [
  | yes lt ↦
      let (s', e, ih) = split_down-SplitTo fuel level i h (s1 lt pre) (s1-Splittable lt pre) in
      (s', ground (arith, pre.head, pre.nonnull, split-s1 lt pre fuel, e), compose lt pre ih)
  | no ge ↦
      let e : level ≡ suc i = omega (arith, pre.ordered) in
      (s, ground (arith, pre.head, pre.nonnull), rw e (no_split (suc i) h s pre.head))
]
