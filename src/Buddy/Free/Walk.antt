-- ===== src/Buddy/Free/Walk.antt =====
-- The whole walk of `scan` along a list, by induction on the list.
use native.Mathlib.Decide.{dec_lt, ℕ_discrete}
use mathlib.Core.Path.{subst}
use coin_data.Prelude.{
  ℕ, zero, suc, ◌≤◌, ◌<◌, ◌≡◌, ◌≢◌, refl, ap, ◌∙◌, Bool, true, false, Bool-cases, inl, inr, List,
  [], ◌∷◌, some, ok, arith, length, get_elem?,
}
use coin_data.Buddy.Store.{Block, Store}
use coin_data.Buddy.Levels.{buddy_is_buddy}
use coin_data.Buddy.Free.{scan}
use coin_data.Buddy.Lists.Linked.{Leads, Seg, not-has_of_le}
use coin_data.Buddy.Lists.Place.{Placed, placed, joined, prepend, left, place, outcome}
use coin_data.Buddy.Free.Scan.{
  Scanned, IsJoined, At, before_store, joined_store, last_store, link_before-store, before-Scanned,
  link_last-store, last-Scanned,
}
use coin_data.Buddy.Free.Merged.{merge-store, joined-Scanned}

-- Can `h` be joined with the block `x`, by their headers?
abbrev pub pairs_in : Store → ℕ → ℕ → Bool
pairs_in s h x = buddy_is_buddy h (s.mem h) x (s.mem x)

module _ (s : Store) (l h : ℕ) where
  extend-Leads :
      (s' : Store) (p x : ℕ) (xs : List ℕ) (r : Placed)
      → Seg s l p (x ∷ xs)
      → p < h
      → Scanned s s' l x h xs r
      → Leads s' l p x
  extend-Leads s' p x xs r (leads, node, rest) above more = record {
    head = λ z. ap (λ b. get_elem? b l) (more.inner (omega (arith, node.above))) ∙ leads.head z;
    next = λ z. ap Block.next same ∙ leads.next z;
  }
    where
      same : s'.mem p ≡ s.mem p
      same =
          more.frame p (not-has_of_le s l p x xs rest (omega (arith, node.above)))
            (omega (arith, node.above)) (omega arith)

  extend-Seg :
      (s' : Store) (p x : ℕ) (xs : List ℕ) (r : Placed)
      → Seg s l p (x ∷ xs)
      → p < h
      → Scanned s s' l x h xs r
      → Seg s' l p (left (prepend x r))
  extend-Seg s' p x xs (placed ys) seg above more = (
    extend-Leads s' p x xs (placed ys) seg above more,
    more.node p (λ e. absurd (omega (arith, seg.1.above))) seg.1,
    more.seg,
  )
  extend-Seg s' p x xs (joined b ys) seg above more = (
    extend-Leads s' p x xs (joined b ys) seg above more,
    more.node p (λ e. absurd (omega (arith, seg.1.above))) seg.1,
    more.seg,
  )

  extend-IsJoined :
      (s' : Store) (x : ℕ) (r : Placed) → IsJoined s' l h r → IsJoined s' l h (prepend x r)
  extend-IsJoined s' x (placed ys) a = a
  extend-IsJoined s' x (joined b ys) a = a

  extend-outcome : (x : ℕ) (r : Placed) → outcome h (prepend x r) ≡ outcome h r
  extend-outcome x (placed ys) = refl
  extend-outcome x (joined b ys) = refl

  pub extend :
      (s' : Store) (p x : ℕ) (xs : List ℕ) (r : Placed)
      → Seg s l p (x ∷ xs)
      → p < h
      → Scanned s s' l x h xs r
      → Scanned s s' l p h (x ∷ xs) (prepend x r)
  extend s' p x xs r seg above more = record {
    seg = extend-Seg s' p x xs r seg above more;
    joined_header = extend-IsJoined s' x r more.joined_header;
    node = λ k a b. rw same b;
    frame = λ q a b c. more.frame q (ground arith) (λ e. ground arith) c;
    kept = more.kept;
    inner = λ a. more.inner (λ e. absurd (omega (arith, seg.1.above)));
    lists = more.lists;
    count = more.count;
  }
    where
      same : s'.mem p ≡ s.mem p
      same =
          more.frame p (not-has_of_le s l p x xs seg.2 (omega (arith, seg.1.above)))
            (omega (arith, seg.1.above)) (omega arith)

  -- The walk from `x` ends, and has done what `r` says.
  abbrev pub Walked : ℕ → ℕ → ℕ → List ℕ → Placed → Type 0
  Walked fuel p x xs r =
      (s' : Store) × (scan fuel h x s ≡ ok (outcome h r, s')) × Scanned s s' l p h (x ∷ xs) r

  abbrev pub Front : ℕ → Type 0
  Front p = (f : ℕ) × (get_elem? s.block_list l ≡ some f) × (p ≢ 0 → f ≤ p)

  -- The head of the list is no later than the first block of the segment.
  next-Front : (p x : ℕ) (xs : List ℕ) → Seg s l p (x ∷ xs) → Front p → Front x
  next-Front p x xs seg (f, head, le) = (
    f,
    head,
    λ a. elim (ℕ_discrete p 0) [
      | yes z ↦ ground (arith, seg.0.head z, head)
      | no z ↦ omega (arith, le z, seg.1.above)
    ],
  )

  walk-joined :
      (fuel p x : ℕ) (xs : List ℕ)
      → At s l p h x xs
      → pairs_in s h x ≡ true
      → Walked (suc fuel) p x xs (joined x xs)
  unfolding scan
  walk-joined fuel p x xs here pair = (
    joined_store s l p h x,
    ground (arith, pair, here.seg, merge-store here),
    joined-Scanned here,
  )

  walk-before :
      (fuel p x : ℕ) (xs : List ℕ)
      → At s l p h x xs
      → pairs_in s h x ≡ false
      → h < x
      → Walked (suc fuel) p x xs (placed (h ∷ x ∷ xs))
  unfolding scan
  walk-before fuel p x xs here pair lt = (
    before_store s l p h x,
    ground (arith, pair, here.seg, link_before-store here),
    before-Scanned here lt,
  )

  walk-last :
      (fuel p x : ℕ)
      → At s l p h x []
      → pairs_in s h x ≡ false
      → x < h
      → Walked (suc fuel) p x [] (placed (x ∷ h ∷ []))
  unfolding scan
  walk-last fuel p x here pair lt =
      let e : (s.mem x).next ≡ 0 =
        here.seg.2.next (λ z. absurd (omega (arith, here.seg.1.above))) in
      (
        last_store s h x,
        ground (arith, pair, here.seg, link_last-store here e, e),
        last-Scanned here refl lt,
      )

  walk-on :
      (fuel p x y : ℕ) (ys : List ℕ) (r : Placed)
      → At s l p h x (y ∷ ys)
      → pairs_in s h x ≡ false
      → x < h
      → Walked fuel x y ys r
      → Walked (suc fuel) p x (y ∷ ys) (prepend x r)
  unfolding scan
  walk-on fuel p x y ys r here pair lt (s', run, more) =
      let e : (s.mem x).next ≡ y =
        here.seg.2.0.next (λ z. absurd (omega (arith, here.seg.1.above))) in
      (
        s',
        ground (arith, pair, here.seg, e, run, extend-outcome x r),
        extend s' p x (y ∷ ys) r here.seg here.above more,
      )

  pub next_At : (p x y : ℕ) (ys : List ℕ) → At s l p h x (y ∷ ys) → x < h → At s l x h y ys
  next_At p x y ys here lt = record {
    seg = here.seg.2;
    front = next-Front p x (y ∷ ys) here.seg here.front;
    above = lt;
    absent = let out = here.absent in ground arith;
    level = here.level;
  }

  -- The walk ends at the first block, or goes on.
  first_block :
      (fuel p x : ℕ) (xs : List ℕ)
      → At s l p h x xs
      → (pairs_in s h x ≡ false
          → x < h
          → Walked (suc fuel) p x xs (place (pairs_in s h) h (x ∷ xs)))
      → Walked (suc fuel) p x xs (place (pairs_in s h) h (x ∷ xs))
  first_block fuel p x xs here on = elim (Bool-cases (pairs_in s h x)) [
    | inl pair ↦
        subst (Walked (suc fuel) p x xs) (ground (arith, pair)) (walk-joined fuel p x xs here pair)
    | inr pair ↦ elim (dec_lt h x) [
      | yes lt ↦
          subst (Walked (suc fuel) p x xs) (ground (arith, pair))
            (walk-before fuel p x xs here pair lt)
      | no ge ↦ let out = here.absent in on pair (ground arith)
    ]
  ]

  pub scan-place :
      (fuel p x : ℕ) (xs : List ℕ)
      → At s l p h x xs
      → length (x ∷ xs) ≤ fuel
      → Walked fuel p x xs (place (pairs_in s h) h (x ∷ xs))
  scan-place zero p x xs here enough = absurd (omega arith)
  scan-place (suc fuel) p x [] here enough = first_block fuel p x [] here (λ pair lt.
      subst (Walked (suc fuel) p x []) (ground (arith, pair)) (walk-last fuel p x here pair lt))
  scan-place (suc fuel) p x (y ∷ ys) here enough = first_block fuel p x (y ∷ ys) here (λ pair lt.
      subst (Walked (suc fuel) p x (y ∷ ys)) (ground (arith, pair)) (
        walk-on fuel p x y ys (place (pairs_in s h) h (y ∷ ys)) here pair lt
          (scan-place fuel x y ys (next_At p x y ys here lt) (omega arith))))
