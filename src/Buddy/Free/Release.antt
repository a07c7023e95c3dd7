-- ===== src/Buddy/Free/Release.antt =====
-- What `buddy_free` does to a block that is alone at its level, and to one whose buddy is free.
use coin_data.Prelude.{
  ℕ, suc, ◌+◌, ◌^◌, ◌<◌, ◌≡◌, ◌≢◌, ap, ◌∙◌, true, false, some, ok, fault, Fault, arith, ltb,
  if◌then◌else◌, length, get_elem?, set, length-set, get_elem?-set_self, get_elem?-set_ne,
  lt_of_get_elem?, sub_size,
}
use coin_data.Buddy.Store.{Block, Store, free_header, update, init_free_block, crc32}
use coin_data.Buddy.Levels.{bytes, buddy_is_buddy}
use coin_data.Buddy.Lists.{buddy_remove_block, relink_previous, relink_next}
use coin_data.Buddy.Free.{merge, scan, free_loop, buddy_free}

-- The header goes to the front of a list that is empty.
abbrev pub alone : Store → ℕ → Store
alone s h = record s {
  block_list = set s.block_list (s.mem h).level h;
  mem = update s.mem h (free_header (s.mem h) 0 0 (s.mem h).level (s.mem h).is_first);
}

abbrev pub Intact : Block → Type 0
Intact b = b.crc ≡ crc32

pub free_loop-alone :
    (fuel rounds h : ℕ) (s : Store)
    → get_elem? s.block_list (s.mem h).level ≡ some 0
    → Intact (s.mem h)
    → h ≢ 0
    → free_loop fuel (suc rounds) h s ≡ ok (tt, alone s h)
unfolding free_loop init_free_block
free_loop-alone fuel rounds h s empty intact nonnull =
    ground (arith, empty, intact, lt_of_get_elem? s.block_list (s.mem h).level empty)

pub free_start :
    (fuel h : ℕ) (s : Store)
    → (s.mem h).is_free ≡ false
    → Intact (s.mem h)
    → h ≢ 0
    → h + 60 < 2 ^ 64
    → buddy_free fuel (h + 60) s ≡ free_loop fuel 33 h s
unfolding buddy_free
free_start fuel h s used intact nonnull fits =
    let e : sub_size (h + 60) 60 ≡ h = omega arith in ground (arith, used, intact, e)

-- A used block with an intact header, of a level whose list is empty, comes back as the only block
-- of that list; a second `buddy_free` of it stops the process.
pub buddy_free-alone :
    (fuel h : ℕ) (s : Store)
    → (s.mem h).is_free ≡ false
    → Intact (s.mem h)
    → get_elem? s.block_list (s.mem h).level ≡ some 0
    → h ≢ 0
    → h + 60 < 2 ^ 64
    → (buddy_free fuel (h + 60) s ≡ ok (tt, alone s h))
      × (get_elem? (alone s h).block_list ((alone s h).mem h).level ≡ some h)
      × (buddy_free fuel (h + 60) (alone s h) ≡ fault Fault.aborted)
unfolding buddy_free
buddy_free-alone fuel h s used intact empty nonnull fits = (
  free_start fuel h s used intact nonnull fits ∙ free_loop-alone fuel 32 h s empty intact nonnull,
  ground (
    arith,
    get_elem?-set_self s.block_list (s.mem h).level h
        (lt_of_get_elem? s.block_list (s.mem h).level empty),
  ),
  let e : sub_size (h + 60) 60 ≡ h = omega arith in ground (arith, e),
)

-- The block `h` and its buddy `b`, the only one in their list, at level `j`.
pub record Pair (h b : ℕ) (s : Store) : Type 0 where
  pub buddies : buddy_is_buddy h (s.mem h) b (s.mem b) ≡ true
  pub same_level : (s.mem b).level ≡ (s.mem h).level
  pub only : get_elem? s.block_list (s.mem h).level ≡ some b
  pub last : (s.mem b).next ≡ 0
  pub first : (s.mem b).previous ≡ 0
  pub next_empty : get_elem? s.block_list ((s.mem h).level + 1) ≡ some 0
  pub used : (s.mem h).is_free ≡ false
  pub intact_h : Intact (s.mem h)
  pub intact_b : Intact (s.mem b)
  pub nonnull_h : h ≢ 0
  pub nonnull_b : b ≢ 0
  pub differ : h ≢ b

abbrev lower : ℕ → ℕ → ℕ
lower h b = if ltb h b then h else b

-- The list of the level is empty and the lower block has a new header.
abbrev merged : Store → ℕ → ℕ → Store
merged s h b = record s {
  block_list = set s.block_list (s.mem h).level 0;
  mem =
      update s.mem (lower h b)
        (free_header (s.mem (lower h b)) 0 0 ((s.mem h).level + 1) (s.mem (lower h b)).is_first);
}

scan-merged :
    (fuel h b : ℕ) (s : Store)
    → Pair h b s
    → scan (suc fuel) h b s ≡ ok (some (lower h b), merged s h b)
unfolding scan merge buddy_remove_block relink_previous relink_next init_free_block
scan-merged fuel h b s pair = ground (
  arith,
  pair.buddies,
  pair.same_level,
  pair.only,
  pair.last,
  pair.first,
  pair.nonnull_h,
  pair.nonnull_b,
  lt_of_get_elem? s.block_list (s.mem h).level pair.only,
)

merged-next :
    (h b : ℕ) (s : Store)
    → Pair h b s
    → get_elem? (merged s h b).block_list ((merged s h b).mem (lower h b)).level ≡ some 0
merged-next h b s pair = ground (
  arith,
  pair.next_empty,
  get_elem?-set_ne s.block_list {i = (s.mem h).level} {j = (s.mem h).level + 1} 0 (omega arith),
)

abbrev pub joined : Store → ℕ → ℕ → Store
joined s h b = alone (merged s h b) (lower h b)

free_loop-joined :
    (fuel h b : ℕ) (s : Store) → Pair h b s → free_loop (suc fuel) 33 h s ≡ ok (tt, joined s h b)
unfolding free_loop
free_loop-joined fuel h b s pair = ground (
  arith,
  pair.only,
  pair.intact_h,
  pair.nonnull_h,
  pair.nonnull_b,
  scan-merged fuel h b s pair,
  free_loop-alone (suc fuel) 31 (lower h b) (merged s h b) (merged-next h b s pair) lower_intact
      lower_nonnull,
)
  where
    lower_intact : Intact ((merged s h b).mem (lower h b))
    lower_intact = ground arith

    lower_nonnull : lower h b ≢ 0
    lower_nonnull = ground (arith, pair.nonnull_h, pair.nonnull_b)

-- The lists after the merge.
joined-lists :
    (h b : ℕ) (s : Store)
    → Pair h b s
    → (get_elem? (joined s h b).block_list (s.mem h).level ≡ some 0)
      × (get_elem? (joined s h b).block_list ((s.mem h).level + 1) ≡ some (lower h b))
joined-lists h b s pair =
    let l : ℕ = (s.mem h).level in
    let short : l < length s.block_list = lt_of_get_elem? s.block_list l pair.only in
    let short_next : l + 1 < length s.block_list =
      lt_of_get_elem? s.block_list (l + 1) pair.next_empty in
    let level_eq : ((merged s h b).mem (lower h b)).level ≡ l + 1 = ground arith in
    rw level_eq (
      get_elem?-set_ne (set s.block_list l 0) {i = l + 1} {j = l} (lower h b) (omega arith)
          ∙ get_elem?-set_self s.block_list l 0 short,
      get_elem?-set_self (set s.block_list l 0) (l + 1) (lower h b)
          (omega (arith, length-set s.block_list l 0, short_next)),
    )

-- Let a used block with an intact header have a free buddy that is the only block of their level,
-- and let the next level be empty. Then `buddy_free` succeeds, their list is empty, the lower of
-- the two is the free block of the next level, and no other header changes.
pub buddy_free-joined :
    (fuel h b : ℕ) (s : Store)
    → Pair h b s
    → h + 60 < 2 ^ 64
    → (buddy_free (suc fuel) (h + 60) s ≡ ok (tt, joined s h b))
      × (get_elem? (joined s h b).block_list (s.mem h).level ≡ some 0)
      × (get_elem? (joined s h b).block_list ((s.mem h).level + 1) ≡ some (lower h b))
      × (((joined s h b).mem (lower h b)).is_free ≡ true)
      × (((joined s h b).mem (lower h b)).level ≡ (s.mem h).level + 1)
      × ((p : ℕ) → p ≢ lower h b → (joined s h b).mem p ≡ s.mem p)
buddy_free-joined fuel h b s pair fits =
    let (at, next) = joined-lists h b s pair in
    (
      free_start (suc fuel) h s pair.used pair.intact_h pair.nonnull_h fits
          ∙ free_loop-joined fuel h b s pair,
      at,
      next,
      ground arith,
      ground arith,
      λ p a. ground arith,
    )

-- When the upper block of a pair is freed, a used block whose buddy is free and the only block of
-- their level, both with intact headers and inside of the address space, with nothing free at the
-- next level, it is joined to the lower one; when it is freed once more, this is not noticed: both
-- calls succeed. The upper block is then the free block of its level and the lower one the free
-- block of the next level, though the upper block is the upper half of that very block.
pub buddy_free-twice :
    (fuel again h b : ℕ) (s : Store)
    → Pair h b s
    → b < h
    → h + 60 < 2 ^ 64
    → (s' : Store) × (buddy_free (suc fuel) (h + 60) s ≡ ok (tt, s'))
      × (buddy_free again (h + 60) s' ≡ ok (tt, alone s' h))
      × (get_elem? (alone s' h).block_list (s.mem h).level ≡ some h)
      × (((alone s' h).mem h).is_free ≡ true)
      × (get_elem? (alone s' h).block_list ((s.mem h).level + 1) ≡ some b)
      × (((alone s' h).mem b).is_free ≡ true)
      × (((alone s' h).mem b).level ≡ (s.mem h).level + 1)
      × (h ≡ b + bytes (s.mem h).level)
unfolding buddy_is_buddy
buddy_free-twice fuel again h b s pair lt fits =
    let s' : Store = joined s h b in
    let (first, at, next, free, level, frame) = buddy_free-joined fuel h b s pair fits in
    let same : s'.mem h ≡ s.mem h = ground arith in
    let empty : get_elem? s'.block_list (s'.mem h).level ≡ some 0 =
      ap (λ x. get_elem? s'.block_list x.level) same ∙ at in
    let low : lower h b ≡ b = ground arith in
    (
      s',
      first,
      free_start again h s' (ap Block.is_free same ∙ pair.used) (ap Block.crc same ∙ pair.intact_h)
            pair.nonnull_h fits
          ∙ free_loop-alone again 32 h s' empty (ap Block.crc same ∙ pair.intact_h) pair.nonnull_h,
      ground (
        arith,
        same,
        get_elem?-set_self s'.block_list (s.mem h).level h
            (lt_of_get_elem? s'.block_list (s.mem h).level at),
      ),
      ground arith,
      ground (
        arith,
        same,
        next,
        low,
        get_elem?-set_ne s'.block_list {i = (s.mem h).level} {j = (s.mem h).level + 1} h
            (omega arith),
      ),
      ground (arith, low, free),
      ground (arith, low, level),
      ground (arith, pair.buddies),
    )
