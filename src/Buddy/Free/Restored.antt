-- ===== src/Buddy/Free/Restored.antt =====
-- `buddy_free` after `buddy_malloc`: every half is joined again, and the lists are as before.
use native.Mathlib.Decide.{ℕ_discrete, dec_lt}
use mathlib.Core.Path.{subst}
use coin_data.Prelude.{
  ℕ, zero, suc, ◌+◌, ◌-◌, ◌^◌, ◌≤◌, ◌<◌, ◌≡◌, ◌≢◌, refl, sym, ap, ◌∙◌, Bool, true, false, List, [],
  ◌∷◌, ok, arith, length,
}
use coin_data.Buddy.Store.{Store}
use coin_data.Buddy.Levels.{bytes, buddy_is_buddy, calculate_which_level}
use coin_data.Buddy.Malloc.{buddy_malloc}
use coin_data.Buddy.Free.{buddy_free}
use coin_data.Buddy.Lists.Linked.{Seg, Lists, has, lt_of_has}
use coin_data.Buddy.Lists.Place.{
  placed, joined, place, lower, put, give_back, give_back-placed, give_back-joined,
}
use coin_data.Buddy.Malloc.Split.{SameRegion, bytes_mono, bytes_pos}
use coin_data.Buddy.Malloc.Allocate.{Allocated, buddy_malloc-Allocated}
use coin_data.Buddy.Free.FreedAll.{pairs_of, buddy_free-give_back}
use coin_data.Buddy.Malloc.Halves.{halve-inside}
use coin_data.Buddy.Malloc.Handed.{
  Room, handed, first_seg, head_node, room-Splittable, outside, handed-Lists,
}

module _ (pairs : ℕ → ℕ → ℕ → Bool) (idx h : ℕ) (rest : List ℕ) (ls : ℕ → List ℕ) (few : idx < 32)
    (first : ls idx ≡ h ∷ rest) (last : place (pairs idx h) h rest ≡ placed (h ∷ rest)) where
  -- The halves are joined one after the other, up to the level from which the block came.
  climb :
      (rounds j : ℕ) (ls1 : ℕ → List ℕ)
      → j ≤ idx
      → idx < j + rounds
      → ls1 idx ≡ rest
      → ((k : ℕ) → j ≤ k → k < idx → ls1 k ≡ (h + bytes k) ∷ [])
      → ((k : ℕ) → j ≤ k → k < idx → ls k ≡ [])
      → ((k : ℕ) → j ≤ k → k < idx → pairs k h (h + bytes k) ≡ true)
      → ((k : ℕ) → k ≢ idx → (j ≤ k → idx ≤ k) → ls1 k ≡ ls k)
      → (k : ℕ) → give_back pairs rounds j h ls1 k ≡ ls k
  climb zero j ls1 le enough tail halves empty paired same k = absurd (omega arith)
  climb (suc rounds) j ls1 le enough tail halves empty paired same k = elim (dec_lt j idx) [
    | yes lt ↦
        let half : place (pairs j h) h (ls1 j) ≡ joined (h + bytes j) [] =
          rw (halves j (omega arith) lt) (ground (arith, paired j (omega arith) lt)) in
        let low : lower h (h + bytes j) ≡ h = ground (arith, bytes_pos j (omega (arith, few))) in
        let ls2 : ℕ → List ℕ = put ls1 j [] in
        let tail2 : ls2 idx ≡ rest = ground (arith, tail) in
        let rest_same : (i : ℕ) → i ≢ idx → (j + 1 ≤ i → idx ≤ i) → ls2 i ≡ ls i = λ i a b.
          elim (ℕ_discrete i j) [
            | yes e ↦ ground (arith, ap ls e, empty j (omega arith) lt)
            | no ne ↦ ground (arith, same i a (λ c. b (omega arith)))
          ] in
        ap (λ g. g k) (give_back-joined pairs rounds j h ls1 (h + bytes j) [] half)
        ∙ ap (λ b. give_back pairs rounds (j + 1) b ls2 k) low
        ∙ climb rounds (j + 1) ls2 (omega arith) (omega arith) tail2
            (λ i a b. ground (arith, halves i (omega arith) b)) (λ i a b. empty i (omega arith) b)
            (λ i a b. paired i (omega arith) b) rest_same k
    | no ge ↦
        let e : j ≡ idx = omega arith in
        let spot : place (pairs j h) h (ls1 j) ≡ placed (h ∷ rest) =
          ap (λ i. place (pairs i h) h (ls1 i)) e ∙ ap (place (pairs idx h) h) tail ∙ last in
        ap (λ g. g k) (give_back-placed pairs rounds j h ls1 (h ∷ rest) spot)
        ∙ elim (ℕ_discrete k idx) [
          | yes at ↦ ground (arith, ap ls at, first)
          | no off ↦ ground (arith, same k off (λ a. omega arith))
        ]
  ]

-- `h` is below the blocks that follow it, and none of them is the one right above it.
place-front :
    (f : ℕ → Bool) (s : Store) (l h : ℕ) (rest : List ℕ)
    → Seg s l h rest
    → ((x : ℕ) → has x rest ≡ true → f x ≡ false)
    → place f h rest ≡ placed (h ∷ rest)
place-front f s l h [] seg unpaired = refl
place-front f s l h (x ∷ xs) (leads, node, more) unpaired =
    ground (arith, node.above, unpaired x (ground arith))

module _ {level idx h : ℕ} {rest : List ℕ} {s : Store} {ls : ℕ → List ℕ}
    (room : Room level idx h rest s ls) where
  module _ {size : ℕ} {s' : Store} (done : Allocated size level idx h s s') where
    half-pairs : (k : ℕ) → level ≤ k → k < idx → pairs_of s' k h (h + bytes k) ≡ true
    unfolding buddy_is_buddy
    half-pairs k a b =
        let half : SameRegion (s'.mem (h + bytes k)) (s.mem h) = done.half_region k a b in
        ground (
          arith,
          done.split_first (omega arith),
          done.region.host_pid,
          done.region.memory_idx,
          half.host_pid,
          half.memory_idx,
          bytes_pos k (omega (arith, room.few)),
        )

    rest-unpaired : (x : ℕ) → h < x → x ≢ h + bytes idx → pairs_of s' idx h x ≡ false
    unfolding buddy_is_buddy
    rest-unpaired x above far =
        let off : x - h ≢ bytes idx = λ e. far (omega arith) in ground (arith, off)

    restored :
        ((x : ℕ) → has x rest ≡ true → x ≢ h + bytes idx)
        → (k : ℕ) → give_back (pairs_of s') 33 level h (handed level idx h rest ls) k ≡ ls k
    restored far =
        climb (pairs_of s') idx h rest ls room.few room.first
          (place-front (pairs_of s' idx h) s idx h rest (first_seg room).2
            (λ x i. rest-unpaired x (lt_of_has s idx x h rest (first_seg room).2 i) (far x i)))
          33 level (handed level idx h rest ls) room.ordered (omega (arith, room.few))
          (outside room idx (λ a. omega arith) ∙ ground arith)
          (λ k a b. halve-inside level h idx k (put ls idx rest) a b) room.empty half-pairs
          (λ k ne out. outside room k out ∙ ground arith)

    pub at_level : (s'.mem h).level ≡ level
    at_level = elim (dec_lt level idx) [
      | yes p ↦ done.at_level p
      | no p ↦
          let e : level ≡ idx = omega (arith, room.ordered) in
          done.whole e ∙ (head_node room).level ∙ sym e
    ]

    header_fits : h + 60 < 2 ^ 64
    header_fits = elim (dec_lt level idx) [
      | yes p ↦ omega (arith, bytes_mono level idx p room.few, done.enough, room.fits)
      | no p ↦
          let e : level ≡ idx = omega (arith, room.ordered) in
          omega (arith, ap bytes e, done.enough, room.fits)
    ]

    short :
        (fuel : ℕ)
        → ((j : ℕ) → j < 32 → length (ls j) ≤ fuel)
        → (j : ℕ) → j < 32
        → length (handed level idx h rest ls j) ≤ fuel
    short fuel enough j few =
        let one : length (h ∷ rest) ≤ fuel =
          subst (λ xs. length xs ≤ fuel) room.first (enough idx room.few) in
        elim (dec_lt j idx) [
          | no up ↦
              let at : handed level idx h rest ls j ≡ put ls idx rest j =
                outside room j (λ a. omega arith) in
              ground (arith, at, enough j few, one)
          | yes lt ↦ elim (dec_lt j level) [
            | yes low ↦
                let at : handed level idx h rest ls j ≡ put ls idx rest j =
                  outside room j (λ a. absurd (omega arith)) in
                ground (arith, at, enough j few, one)
            | no high ↦
                let at = halve-inside level h idx j (put ls idx rest) (omega arith) lt in
                ground (arith, at, one)
          ]
        ]

    top : ls 31 ≡ [] → handed level idx h rest ls 31 ≡ []
    top e =
        let below : idx ≢ 31 = λ c. ground (arith, room.first, e, ap ls c) in
        outside room 31 (λ a. omega (arith, room.few)) ∙ ground (arith, e, below)

-- Let the lists be well formed, with none at level 31 and with fuel for the longest, let `h` be the
-- first block of the nearest level that has one, let it fit into the address space and no free
-- block start at one of its upper halves, and let the block right above `h` not be free at the same
-- level. Then `buddy_malloc` and `buddy_free` of what it returned succeed, and every list of free
-- blocks is as it was before both.
pub buddy_free-buddy_malloc :
    (fuel size idx h : ℕ) (rest : List ℕ) (s : Store) (ls : ℕ → List ℕ)
    → size + 60 < 2 ^ 64
    → Room (calculate_which_level (size + 60)) idx h rest s ls
    → ls 31 ≡ []
    → ((j : ℕ) → j < 32 → length (ls j) ≤ suc fuel)
    → ((x : ℕ) → has x rest ≡ true → x ≢ h + bytes idx)
    → (s' s'' : Store) × (buddy_malloc (suc fuel) size s ≡ ok (h + 60, s'))
      × (buddy_free (suc fuel) (h + 60) s' ≡ ok (tt, s''))
      × Lists s'' ls
buddy_free-buddy_malloc fuel size idx h rest s ls fits room top31 enough far =
    let (s', run, done) = buddy_malloc-Allocated fuel size idx h s fits (room-Splittable room) in
    let level : ℕ = calculate_which_level (size + 60) in
    let (s'', freed, after) =
      buddy_free-give_back (suc fuel) h level s' (handed level idx h rest ls)
        (handed-Lists room done) done.used done.intact (at_level room done)
        (λ e. absurd (omega (arith, (head_node room).above))) (header_fits room done)
        (omega (arith, room.ordered, room.few)) (top room done top31)
        (short room done (suc fuel) enough) in
    (
      s',
      s'',
      run,
      freed,
      record {
        count = after.lists.count;
        seg = λ j few. subst (Seg s'' j 0) (restored room done far j) (after.lists.seg j few);
      },
    )
