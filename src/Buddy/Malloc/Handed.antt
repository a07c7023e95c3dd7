-- ===== src/Buddy/Malloc/Handed.antt =====
-- `buddy_malloc` on well-formed lists: the lists that it leaves are well formed, and the memory that
-- it takes from them is the block's.
use native.Mathlib.Decide.{ℕ_discrete, dec_lt}
use mathlib.Core.Path.{subst}
use coin_data.Prelude.{
  ℕ, suc, ◌+◌, ◌*◌, ◌^◌, ◌≤◌, ◌<◌, ◌≡◌, ◌≢◌, refl, sym, ap, ◌∙◌, true, false, List, [], ◌∷◌, some,
  ok, arith, length, get_elem?,
}
use coin_data.Buddy.Store.{Block, Store, free_header}
use coin_data.Buddy.Levels.{bytes, calculate_which_level}
use coin_data.Buddy.Malloc.{buddy_malloc}
use coin_data.Buddy.Lists.Linked.{
  IsNode, Seg, Lists, has, lt_of_has, level_of_has, not-has_of_used, Seg-frame, ne_of_has,
}
use coin_data.Buddy.Lists.Place.{put}
use coin_data.Buddy.Free.Pages.{free_pages, free_pages-put}
use coin_data.Buddy.Malloc.Halves.{halve, halve-outside, halve-inside, halve-pages}
use coin_data.Buddy.Malloc.SplitTo.{Splittable, IsHalf}
use coin_data.Buddy.Malloc.Allocate.{Allocated, buddy_malloc-Allocated}

-- The block `h` is the first of level `idx`, the nearest level with a free block; it fits into the
-- address space, and no free block starts inside of it.
pub record Room (level idx h : ℕ) (rest : List ℕ) (s : Store) (ls : ℕ → List ℕ) : Type 0 where
  pub lists : Lists s ls
  pub first : ls idx ≡ h ∷ rest
  pub empty : (j : ℕ) → level ≤ j → j < idx → ls j ≡ []
  pub ordered : level ≤ idx
  pub few : idx < 32
  pub fits : h + bytes idx < 2 ^ 64
  pub alone : (j k : ℕ) → level ≤ j → j < idx → k < 32 → has (h + bytes j) (ls k) ≡ false

-- The lists afterwards.
abbrev pub handed : ℕ → ℕ → ℕ → List ℕ → (ℕ → List ℕ) → ℕ → List ℕ
handed level idx h rest ls = halve level idx h (put ls idx rest)

module _ {level idx h : ℕ} {rest : List ℕ} {s : Store} {ls : ℕ → List ℕ}
    (room : Room level idx h rest s ls) where
  pub first_seg : Seg s idx 0 (h ∷ rest)
  first_seg = subst (Seg s idx 0) room.first (room.lists.seg idx room.few)

  pub head_node : IsNode (s.mem h) idx 0 h
  head_node = first_seg.1

  next_of : (ys : List ℕ) → Seg s idx h ys → (s.mem h).next ≢ 0 → has (s.mem h).next ys ≡ true
  next_of [] leads a = absurd (a (leads.next λ e. absurd (omega (arith, head_node.above))))
  next_of (y ∷ ys) (leads, ynode, more) a =
      ground (arith, leads.next (λ e. absurd (omega (arith, head_node.above))))

  next_in : (s.mem h).next ≢ 0 → has (s.mem h).next (ls idx) ≡ true
  next_in a = rw room.first (ground (arith, next_of rest first_seg.2 a))

  next_above : (s.mem h).next ≢ 0 → h < (s.mem h).next
  next_above a = lt_of_has s idx (s.mem h).next h rest first_seg.2 (next_of rest first_seg.2 a)

  next_level : (s.mem h).next ≢ 0 → (s.mem (s.mem h).next).level ≡ idx
  next_level a =
      level_of_has s idx (s.mem h).next 0 (ls idx) (room.lists.seg idx room.few) (next_in a)

  pub room-Splittable : Splittable level idx h s
  room-Splittable = record {
    nonnull = λ e. absurd (omega (arith, head_node.above));
    ordered = room.ordered;
    few = room.few;
    sized = omega (arith, room.lists.count, room.few);
    fits = room.fits;
    head = first_seg.0.head refl;
    empty = λ j a b.
        let nil : Seg s j 0 [] =
          subst (Seg s j 0) (room.empty j a b) (room.lists.seg j (omega (arith, room.few))) in
        nil.head refl;
    apart = λ e. absurd (omega (arith, next_above (λ z. absurd (omega (arith, head_node.above)))));
    disjoint = λ j a b e.
        ne_of_has (s.mem h).next (h + bytes j) (ls idx)
          (next_in (λ z. absurd (omega (arith, head_node.above)))) (room.alone j idx a b room.few)
          e;
  }

  pub outside : (j : ℕ) → (level ≤ j → idx ≤ j) → handed level idx h rest ls j ≡ put ls idx rest j
  outside j out = halve-outside level h idx j (put ls idx rest) out

  pub off_head : (q : ℕ) → (s.mem q).is_free ≡ false → q ≢ h
  off_head q used e = ground (arith, head_node.free, ap (λ x. (s.mem x).is_free) e)

  pub off_next : (q : ℕ) → (s.mem q).is_free ≡ false → q ≢ 0 → q ≢ (s.mem h).next
  off_next q used nonnull e =
      let inside : has (s.mem h).next (ls idx) ≡ true = next_in (λ z. nonnull (e ∙ z)) in
      let out : has q (ls idx) ≡ false =
        not-has_of_used s idx q 0 (ls idx) (room.lists.seg idx room.few) used in
      ground (arith, ap (λ x. has x (ls idx)) e)

  module _ {size : ℕ} {s' : Store} (done : Allocated size level idx h s s') where
    -- A free block other than `h` and the next one keeps its header.
    same :
        (q k : ℕ) → k < 32 → has q (ls k) ≡ true → q ≢ h → q ≢ (s.mem h).next → s'.mem q ≡ s.mem q
    same q k few i a b =
        done.frame q a b (λ j c d. ne_of_has q (h + bytes j) (ls k) i (room.alone j k c d few))

    other_list :
        (j : ℕ)
        → j < 32
        → j ≢ idx
        → get_elem? s'.block_list j ≡ get_elem? s.block_list j
        → Seg s' j 0 (ls j)
    other_list j few ne heads =
        Seg-frame s j s' 0 (ls j) (room.lists.seg j few)
          (λ q i.
            let at : (s.mem q).level ≡ j = level_of_has s j q 0 (ls j) (room.lists.seg j few) i in
            let pos : 0 < q = lt_of_has s j q 0 (ls j) (room.lists.seg j few) i in
            let off_head : q ≢ h =
              λ e. ne (sym at ∙ ap (λ x. (s.mem x).level) e ∙ head_node.level) in
            let off_next : q ≢ (s.mem h).next = λ e.
              ne (sym at ∙ ap (λ x. (s.mem x).level) e ∙ next_level (λ z. absurd (omega arith))) in
            same q j few i off_head off_next)
          (λ x a. record { head = λ e. heads ∙ a.head e; next = λ e. absurd (e refl) })

    half_list : (j : ℕ) → level ≤ j → j < idx → Seg s' j 0 ((h + bytes j) ∷ [])
    half_list j a b =
        let half : IsHalf (s'.mem (h + bytes j)) j = done.half j a b in
        (
          record { head = λ e. done.halves j a b; next = λ e. absurd (e refl) },
          record {
            free = half.free;
            level = half.level;
            previous_eq = done.half_previous j a b;
            intact = half.intact;
            above = omega (arith, head_node.above);
          },
          record { head = λ e. absurd (omega (arith, head_node.above)); next = λ e. half.next },
        )

    rest_list :
        (ys : List ℕ)
        → Seg s idx h ys
        → ((q : ℕ) → has q ys ≡ true → has q (ls idx) ≡ true)
        → Seg s' idx 0 ys
    rest_list [] leads inside =
        let end : (s.mem h).next ≡ 0 = leads.next (λ z. absurd (omega (arith, head_node.above))) in
        record { head = λ e. done.rest ∙ ap some end; next = λ e. absurd (e refl) }
    rest_list (y ∷ ys) (leads, ynode, more) inside =
        let ny : (s.mem h).next ≡ y = leads.next (λ z. absurd (omega (arith, head_node.above))) in
        let header : s'.mem y ≡ free_header (s.mem y) 0 (s.mem y).next idx (s.mem y).is_first =
          done.old_next y (λ z. absurd (omega (arith, ynode.above))) ny ynode.level in
        (
          record { head = λ e. done.rest ∙ ap some ny; next = λ e. absurd (e refl) },
          record {
            free = ap Block.is_free header;
            level = ap Block.level header;
            previous_eq = ap Block.previous header;
            intact = ap Block.crc header;
            above = omega (arith, ynode.above);
          },
          Seg-frame s idx s' y ys more
              (λ q i.
                let above : y < q = lt_of_has s idx q y ys more i in
                same q idx room.few (inside q (ground (arith, i)))
                  (λ e. absurd (omega (arith, ynode.above))) (λ e. absurd (omega (arith, ny))))
              (λ x a. record {
                head = λ e. absurd (omega (arith, ynode.above));
                next = λ e. ap Block.next header ∙ a.next e;
              }),
        )

    pub handed-Lists : Lists s' (handed level idx h rest ls)
    handed-Lists = record {
      count = done.count ∙ room.lists.count;
      seg = λ j few. elim (dec_lt j level) [
        | yes low ↦
            let e : handed level idx h rest ls j ≡ ls j =
              outside j (λ a. absurd (omega arith)) ∙ ground (arith, room.ordered) in
            subst (Seg s' j 0) (sym e)
              (other_list j few (λ c. absurd (omega (arith, room.ordered))) (done.below j low))
        | no high ↦ elim (dec_lt j idx) [
          | yes mid ↦
              let le : level ≤ j = omega arith in
              subst (Seg s' j 0) (sym (halve-inside level h idx j (put ls idx rest) le mid))
                (half_list j le mid)
          | no up ↦ elim (ℕ_discrete j idx) [
            | yes e ↦
                let at : handed level idx h rest ls idx ≡ rest =
                  outside idx (λ a. omega arith) ∙ ground arith in
                subst (λ k. Seg s' k 0 (handed level idx h rest ls k)) (sym e)
                  (subst (Seg s' idx 0) (sym at)
                    (rest_list rest first_seg.2 (λ q i. rw room.first (ground (arith, i)))))
            | no ne ↦
                let e : handed level idx h rest ls j ≡ ls j =
                  outside j (λ a. omega arith) ∙ ground arith in
                subst (Seg s' j 0) (sym e) (other_list j few ne (done.above j (omega arith)))
          ]
        ]
      ];
    }

  pub handed-pages : free_pages 32 (handed level idx h rest ls) + 2 ^ level ≡ free_pages 32 ls
  handed-pages =
      let split =
        halve-pages level h idx (put ls idx rest) room.ordered room.few
          (λ j a b. ground (arith, room.empty j a b)) in
      let taken = free_pages-put 32 idx ls rest room.few in
      let grown : 2 ^ idx * length (h ∷ rest) ≡ 2 ^ idx * length rest + 2 ^ idx = omega arith in
      let one : 2 ^ idx * length (ls idx) ≡ 2 ^ idx * length rest + 2 ^ idx =
        ap (λ xs. 2 ^ idx * length xs) room.first ∙ grown in
      omega (arith, split, taken, one)

-- Let the lists be well formed, let `h` be the first block of the nearest level that has one, let
-- it fit into the address space and no free block start at one of its upper halves. Then
-- `buddy_malloc` succeeds, the lists that the headers form afterwards are those without `h` and
-- with one upper half more for each level between, they have lost as much memory as the block has,
-- and no block in use changes that does not start at a half.
pub buddy_malloc-handed :
    (fuel size idx h : ℕ) (rest : List ℕ) (s : Store) (ls : ℕ → List ℕ)
    → size + 60 < 2 ^ 64
    → Room (calculate_which_level (size + 60)) idx h rest s ls
    → (s' : Store) × (buddy_malloc (suc fuel) size s ≡ ok (h + 60, s'))
      × Lists s' (handed (calculate_which_level (size + 60)) idx h rest ls)
      × (free_pages 32 (handed (calculate_which_level (size + 60)) idx h rest ls)
            + 2 ^ calculate_which_level (size + 60)
          ≡ free_pages 32 ls)
      × ((q : ℕ)
          → (s.mem q).is_free ≡ false
          → q ≢ 0
          → ((j : ℕ) → j < idx → q ≢ h + bytes j)
          → s'.mem q ≡ s.mem q)
buddy_malloc-handed fuel size idx h rest s ls fits room =
    let (s', run, done) = buddy_malloc-Allocated fuel size idx h s fits (room-Splittable room) in
    (
      s',
      run,
      handed-Lists room done,
      handed-pages room,
      λ q used nonnull out.
          done.frame q (off_head room q used) (off_next room q used nonnull) (λ j a b. out j b),
    )
