-- ===== src/Buddy/Lists/Inserted.antt =====
-- `buddy_insert_blcok` on a list of free blocks: the block goes to its place by address, unless that
-- is before the first one.
use native.Mathlib.Decide.{dec_lt}
use mathlib.Core.Path.{subst, fun_ext}
use coin_data.Prelude.{
  ℕ, zero, suc, ◌≤◌, ◌<◌, ◌≡◌, ◌≢◌, refl, ap, false, List, [], ◌∷◌, Result, ok, arith, ltb,
  if◌then◌else◌, length,
}
use coin_data.Buddy.Store.{Block, Store, update, free_header, ◌>>=◌, init_free_block}
use coin_data.Buddy.Lists.{insert_walk, insert_before, insert_after}
use coin_data.Buddy.Lists.Place.{Placed, placed, prepend, place}
use coin_data.Buddy.Free.Scan.{Scanned, At, before_store, last_store, before-Scanned, last-Scanned}
use coin_data.Buddy.Free.Walk.{extend, next_At}

-- The walk and the insertion, from the block `x`.
abbrev insert_from : ℕ → ℕ → ℕ → Store → Result (Unit {0} × Store)
insert_from fuel x h =
    insert_walk fuel x h >>= λ i. if ltb h i then insert_before i h else insert_after i h

module _ (s : Store) (l h : ℕ) where
  abbrev pub Inserted : ℕ → ℕ → ℕ → List ℕ → Placed → Type 0
  Inserted fuel p x xs r =
      (s' : Store) × (insert_from fuel x h s ≡ ok (tt, s')) × Scanned s s' l p h (x ∷ xs) r

  -- The headers as the code writes them: the predecessor, the block, and the block after it.
  abbrev insert_mem : ℕ → ℕ → ℕ → Block
  insert_mem p x =
      let m1 =
        update s.mem p
          (free_header (s.mem p) (s.mem p).previous h (s.mem p).level (s.mem p).is_first) in
      let m2 = update m1 h (free_header (m1 h) p x (m1 h).level (m1 h).is_first) in
      update m2 x (free_header (m2 x) h (m2 x).next (m2 x).level (m2 x).is_first)

  insert_mem-same :
      (p x : ℕ)
      → p ≢ 0
      → p < h
      → h < x
      → (q : ℕ) → insert_mem p x q ≡ (before_store s l p h x).mem q
  insert_mem-same p x inner above lt q = ground arith

  insert_store-same :
      (p x : ℕ)
      → p ≢ 0
      → p < h
      → h < x
      → (record s { mem = insert_mem p x }) ≡ before_store s l p h x
  insert_store-same p x inner above lt =
      let heads : (before_store s l p h x).block_list ≡ s.block_list = ground arith in
      let same : insert_mem p x ≡ (before_store s l p h x).mem =
        fun_ext (insert_mem-same p x inner above lt) in
      rw heads (ap (λ m. record s { mem = m }) same)

  insert-before :
      (fuel p x : ℕ) (xs : List ℕ)
      → At s l p h x xs
      → p ≢ 0
      → h < x
      → Inserted (suc fuel) p x xs (placed (h ∷ x ∷ xs))
  unfolding insert_walk insert_before init_free_block
  insert-before fuel p x xs here inner lt =
      let run : insert_from (suc fuel) x h s ≡ ok (tt, record s { mem = insert_mem p x }) =
        ground (arith, here.seg, inner, here.above) in
      (
        before_store s l p h x,
        subst (λ t. insert_from (suc fuel) x h s ≡ ok (tt, t))
            (insert_store-same p x inner here.above lt) run,
        before-Scanned here lt,
      )

  insert-last :
      (fuel p x : ℕ) → At s l p h x [] → x < h → Inserted (suc fuel) p x [] (placed (x ∷ h ∷ []))
  unfolding insert_walk insert_after init_free_block
  insert-last fuel p x here lt =
      let e : (s.mem x).next ≡ 0 =
        here.seg.2.next (λ z. absurd (omega (arith, here.seg.1.above))) in
      (last_store s h x, ground (arith, here.seg, e), last-Scanned here refl lt)

  insert-on :
      (fuel p x y : ℕ) (ys : List ℕ) (r : Placed)
      → At s l p h x (y ∷ ys)
      → x < h
      → Inserted fuel x y ys r
      → Inserted (suc fuel) p x (y ∷ ys) (prepend x r)
  unfolding insert_walk
  insert-on fuel p x y ys r here lt (s', run, more) =
      let e : (s.mem x).next ≡ y =
        here.seg.2.0.next (λ z. absurd (omega (arith, here.seg.1.above))) in
      (
        s',
        ground (arith, here.seg, e, run),
        extend s l h s' p x (y ∷ ys) r here.seg here.above more,
      )

  -- With `x` above the block or inside of the list, the walk finds the place.
  pub insert-place :
      (fuel p x : ℕ) (xs : List ℕ)
      → At s l p h x xs
      → (p ≡ 0 → x < h)
      → length (x ∷ xs) ≤ fuel
      → Inserted fuel p x xs (place (λ _. false) h (x ∷ xs))
  insert-place zero p x xs here inner enough = absurd (omega arith)
  insert-place (suc fuel) p x [] here inner enough = elim (dec_lt h x) [
    | yes lt ↦
        subst (Inserted (suc fuel) p x []) (ground arith)
          (insert-before fuel p x [] here (λ z. absurd (omega (arith, inner z))) lt)
    | no ge ↦
        let out = here.absent in
        let lt : x < h = ground arith in
        subst (Inserted (suc fuel) p x []) (ground arith) (insert-last fuel p x here lt)
  ]
  insert-place (suc fuel) p x (y ∷ ys) here inner enough = elim (dec_lt h x) [
    | yes lt ↦
        subst (Inserted (suc fuel) p x (y ∷ ys)) (ground arith)
          (insert-before fuel p x (y ∷ ys) here (λ z. absurd (omega (arith, inner z))) lt)
    | no ge ↦
        let out = here.absent in
        let lt : x < h = ground arith in
        subst (Inserted (suc fuel) p x (y ∷ ys)) (ground arith) (
          insert-on fuel p x y ys (place (λ _. false) h (y ∷ ys)) here lt (
            insert-place fuel x y ys (next_At s l h p x y ys here lt)
              (λ z. absurd (omega (arith, here.seg.1.above))) (omega arith)))
  ]
