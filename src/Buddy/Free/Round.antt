-- ===== src/Buddy/Free/Round.antt =====
-- One round of the loop of `buddy_free`: what it does, and that the next one can start.
use native.Mathlib.Decide.{ℕ_discrete}
use coin_data.Prelude.{
  ℕ, suc, ◌+◌, ◌≤◌, ◌<◌, ◌≡◌, ◌≢◌, refl, sym, ap, ◌∙◌, false, List, [], ◌∷◌, some, Result, ok,
  arith, length, get_elem?, lt_of_get_elem?,
}
use coin_data.Buddy.Store.{Store}
use coin_data.Buddy.Free.{scan, free_loop}
use coin_data.Buddy.Lists.Linked.{Seg, Lists, has, not-has_of_level, level_of_has, lt_of_has}
use coin_data.Buddy.Lists.Place.{Placed, placed, joined, place, lower, outcome, put}
use coin_data.Buddy.Free.Scan.{Scanned, At}
use coin_data.Buddy.Free.Walk.{pairs_in, scan-place}
use coin_data.Buddy.Free.Freed.{Changed, Scanned-Lists, alone-Scanned}
use coin_data.Buddy.Free.Release.{alone, Intact, free_loop-alone}

-- The block `h` of level `l` is in none of the lists, and the loop can start.
pub record Ready (fuel l h : ℕ) (s : Store) (ls : ℕ → List ℕ) : Type 0 where
  pub lists : Lists s ls
  pub absent : (j : ℕ) → j < 32 → has h (ls j) ≡ false
  pub level : (s.mem h).level ≡ l
  pub intact : Intact (s.mem h)
  pub nonnull : h ≢ 0
  pub few : l < 32
  pub top : ls 31 ≡ []
  pub short : (j : ℕ) → j < 32 → length (ls j) ≤ fuel

-- What a round returns or goes on with.
abbrev pub next : ℕ → ℕ → ℕ → Placed → Store → Result (Unit {0} × Store)
next fuel rounds h (placed ys) s' = ok (tt, s')
next fuel rounds h (joined b ys) s' = free_loop fuel rounds (lower h b) s'

module _ {fuel l h : ℕ} {s : Store} {ls : ℕ → List ℕ} (ready : Ready fuel l h s ls) where
  abbrev pub Round : ℕ → List ℕ → Type 0
  Round rounds xs =
      (s' : Store) × (free_loop fuel (suc rounds) h s
        ≡ next fuel rounds h (place (pairs_in s h) h xs) s')
      × Scanned s s' l 0 h xs (place (pairs_in s h) h xs)

  at_level :
      (x : ℕ) → get_elem? s.block_list l ≡ some x → get_elem? s.block_list (s.mem h).level ≡ some x
  at_level x e = ap (get_elem? s.block_list) ready.level ∙ e

  next-scan :
      (rounds x : ℕ) (r : Placed) (s' : Store)
      → get_elem? s.block_list l ≡ some x
      → x ≢ 0
      → scan fuel h x s ≡ ok (outcome h r, s')
      → free_loop fuel (suc rounds) h s ≡ next fuel rounds h r s'
  unfolding free_loop
  next-scan rounds x (placed ys) s' head ne run =
      ground (arith, at_level x head, ready.intact, ready.nonnull, run)
  next-scan rounds x (joined b ys) s' head ne run =
      ground (arith, at_level x head, ready.intact, ready.nonnull, run)

  pos : 0 < h
  pos = ground (arith, ready.nonnull)

  pub round :
      (rounds : ℕ) (xs : List ℕ)
      → Seg s l 0 xs
      → has h xs ≡ false
      → length xs ≤ fuel
      → Round rounds xs
  round rounds [] seg out short = (
    alone s h,
    free_loop-alone fuel rounds h s (at_level 0 (seg.head refl)) ready.intact ready.nonnull,
    alone-Scanned s l h ready.level (lt_of_get_elem? s.block_list l (seg.head refl)) pos,
  )
  round rounds (x ∷ xs) seg out short =
      let here : At s l 0 h x xs = record {
        seg = seg;
        front = (x, seg.0.head refl, λ a. absurd (a refl));
        above = pos;
        absent = out;
        level = ready.level;
      } in
      let (s', run, done) = scan-place s l h fuel 0 x xs here short in
      (
        s',
        next-scan rounds x (place (pairs_in s h) h (x ∷ xs)) s' (seg.0.head refl)
            (λ e. absurd (omega (arith, seg.1.above))) run,
        done,
      )

  -- After a block was joined, the next round can start with it.
  pub next-Ready :
      (b : ℕ) (ys : List ℕ) (s' : Store)
      → Scanned s s' l 0 h (ls l) (joined b ys)
      → Changed (ls l) (joined b ys)
      → Ready fuel (l + 1) (lower h b) s' (put ls l ys)
  next-Ready b ys s' done (inside, shrunk) = record {
    lists = lists';
    absent = λ j a. elim (ℕ_discrete j (l + 1)) [
      | yes e ↦ rw (ap (put ls l ys) e, up) out
      | no e ↦
          not-has_of_level s' j (lower h b) 0 (put ls l ys j) (lists'.seg j a)
            (λ c. e (sym c ∙ done.joined_header.0))
    ];
    level = done.joined_header.0;
    intact = done.joined_header.1;
    nonnull = ground (arith, ready.nonnull, inner_pos);
    few = omega (arith, ready.few, below_top);
    top = ground (arith, ready.top, below_top);
    short = λ j a. ground (arith, ready.short j a, ready.short l ready.few, shrunk);
  }
    where
      lists' : Lists s' (put ls l ys)
      lists' = Scanned-Lists ready.lists ready.few ready.absent done

      inner_pos : 0 < b
      inner_pos = lt_of_has s l b 0 (ls l) (ready.lists.seg l ready.few) inside

      below_top : l ≢ 31
      below_top e = ground (arith, inside, ap (λ k. has b (ls k)) e, ap (has b) ready.top)

      up : put ls l ys (l + 1) ≡ ls (l + 1)
      up = ground arith

      out : has (lower h b) (ls (l + 1)) ≡ false
      out =
          let few : l + 1 < 32 = omega (arith, ready.few, below_top) in
          let at : (s.mem b).level ≡ l =
            level_of_has s l b 0 (ls l) (ready.lists.seg l ready.few) inside in
          ground (
            arith,
            ready.absent (l + 1) few,
            not-has_of_level s (l + 1) b 0 (ls (l + 1)) (ready.lists.seg (l + 1) few)
                (λ e. absurd (omega arith)),
          )
