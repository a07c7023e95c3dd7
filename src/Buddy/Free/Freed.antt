-- ===== src/Buddy/Free/Freed.antt =====
-- One round of the loop of `buddy_free`, for every list at once.
use native.Mathlib.Decide.{dec_lt, ℕ_discrete}
use mathlib.Core.Path.{subst}
use coin_data.Prelude.{
  ℕ, ◌+◌, ◌<◌, ◌≡◌, ◌≢◌, refl, sym, ◌∙◌, Bool, true, false, Bool-cases, inl, inr, List, [], ◌∷◌,
  arith, length, get_elem?-set_self, get_elem?-set_ne, length-set,
}
use coin_data.Buddy.Store.{Store}
use coin_data.Buddy.Lists.Linked.{
  Seg, Lists, has, not-has_of_level, not-has_of_used, lt_of_has, level_of_has, Seg-frame, ne_of_has,
}
use coin_data.Buddy.Lists.Place.{Placed, placed, joined, prepend, left, place, put}
use coin_data.Buddy.Free.Scan.{Scanned}
use coin_data.Buddy.Free.Release.{alone}

-- Two relations that agree on the list lead to the same place.
pub place-ext :
    (f g : ℕ → Bool) (h : ℕ) (xs : List ℕ)
    → ((x : ℕ) → has x xs ≡ true → f x ≡ g x)
    → place f h xs ≡ place g h xs
place-ext f g h [] same = refl
place-ext f g h (x ∷ xs) same =
    let rest : place f h xs ≡ place g h xs = place-ext f g h xs (λ y a. same y (ground arith)) in
    let here : f x ≡ g x = same x (ground arith) in rw (here, rest) refl

-- The list grows by the block, or loses the one with which the block is joined.
abbrev pub Changed : List ℕ → Placed → Type 0
Changed xs (placed ys) = length ys ≡ length xs + 1
Changed xs (joined b ys) = (has b xs ≡ true) × (length xs ≡ length ys + 1)

prepend-Changed : (x : ℕ) (xs : List ℕ) (r : Placed) → Changed xs r → Changed (x ∷ xs) (prepend x r)
prepend-Changed x xs (placed ys) c = omega arith
prepend-Changed x xs (joined b ys) (i, e) = (ground (arith, i), omega arith)

pub place-Changed : (f : ℕ → Bool) (h : ℕ) (xs : List ℕ) → Changed xs (place f h xs)
place-Changed f h [] = refl
place-Changed f h (x ∷ xs) = elim (Bool-cases (f x)) [
  | inl pair ↦
      subst (Changed (x ∷ xs)) {x = joined x xs} (ground (arith, pair)) (ground arith, omega arith)
  | inr pair ↦ elim (dec_lt h x) [
    | yes lt ↦
        subst (Changed (x ∷ xs)) {x = placed (h ∷ x ∷ xs)} (ground (arith, pair)) (omega arith)
    | no ge ↦
        subst (Changed (x ∷ xs)) {x = prepend x (place f h xs)} (ground (arith, pair))
          (prepend-Changed x xs (place f h xs) (place-Changed f h xs))
  ]
]

module _ {s s' : Store} {l h : ℕ} {ls : ℕ → List ℕ} {r : Placed} (lists : Lists s ls) (few : l < 32)
    (absent : (j : ℕ) → j < 32 → has h (ls j) ≡ false) (done : Scanned s s' l 0 h (ls l) r) where
  other_list : (j : ℕ) → j < 32 → j ≢ l → Seg s' j 0 (ls j)
  other_list j b ne =
      Seg-frame s j s' 0 (ls j) (lists.seg j b) same
        (λ x a. record { head = λ e. done.lists j ne ∙ a.head e; next = λ e. absurd (e refl) })
    where
      same : (q : ℕ) → has q (ls j) ≡ true → s'.mem q ≡ s.mem q
      same q i =
          let at : (s.mem q).level ≡ j = level_of_has s j q 0 (ls j) (lists.seg j b) i in
          let pos : 0 < q = lt_of_has s j q 0 (ls j) (lists.seg j b) i in
          done.frame q (not-has_of_level s l q 0 (ls l) (lists.seg l few) (λ e. ne (sym at ∙ e)))
            (λ e. absurd (omega arith)) (ne_of_has q h (ls j) i (absent j b))

  here : put ls l (left r) l ≡ left r
  here = ground arith

  there : (j : ℕ) → j ≢ l → put ls l (left r) j ≡ ls j
  there j ne = ground arith

  pub Scanned-Lists : Lists s' (put ls l (left r))
  Scanned-Lists = record {
    count = done.count ∙ lists.count;
    seg = λ j b. elim (ℕ_discrete j l) [
      | yes e ↦ subst (λ k. Seg s' k 0 (put ls l (left r) k)) (sym e) (rw here done.seg)
      | no ne ↦ rw (there j ne) (other_list j b ne)
    ];
  }

  pub Scanned-used : (q : ℕ) → (s.mem q).is_free ≡ false → q ≢ 0 → q ≢ h → s'.mem q ≡ s.mem q
  Scanned-used q used nonnull ne =
      done.frame q (not-has_of_used s l q 0 (ls l) (lists.seg l few) used) nonnull ne

-- With an empty list the block becomes its only one.
pub alone-Scanned :
    (s : Store) (l h : ℕ)
    → (s.mem h).level ≡ l
    → l < length s.block_list
    → 0 < h
    → Scanned s (alone s h) l 0 h [] (placed (h ∷ []))
alone-Scanned s l h level short pos = record {
  seg = (
    record {
      head = λ e. ground (arith, level, get_elem?-set_self s.block_list l h short);
      next = λ e. absurd (e refl);
    },
    record {
      free = ground arith;
      level = ground arith;
      previous_eq = ground arith;
      intact = ground arith;
      above = pos;
    },
    record { head = λ e. absurd (omega arith); next = λ e. ground arith },
  );
  joined_header = tt;
  node = λ k nn a. absurd (nn refl);
  frame = λ q a b c. ground arith;
  kept =
      λ q. record { is_first = ground arith; host_pid = ground arith; memory_idx = ground arith };
  inner = λ a. absurd (a refl);
  lists = λ j a.
      ground (arith, level, get_elem?-set_ne s.block_list {i = l} {j = j} h (λ c. a (sym c)));
  count = ground (arith, level, length-set s.block_list l h);
}
