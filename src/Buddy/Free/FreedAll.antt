-- ===== src/Buddy/Free/FreedAll.antt =====
-- The whole of `buddy_free`, for lists of any length: it does what `give_back` does to the addresses,
-- and no memory is lost.
use mathlib.Core.Path.{subst}
use coin_data.Prelude.{
  ℕ, zero, suc, ◌+◌, ◌^◌, ◌≤◌, ◌<◌, ◌≡◌, ◌≢◌, refl, sym, ap, ◌∙◌, Bool, false, List, [], ok, arith,
  length,
}
use coin_data.Buddy.Store.{Block, Store}
use coin_data.Buddy.Levels.{buddy_is_buddy}
use coin_data.Buddy.Free.{free_loop, buddy_free}
use coin_data.Buddy.Lists.Linked.{Lists, has, not-has_of_used, level_of_has, Kept}
use coin_data.Buddy.Lists.Place.{
  Placed, placed, joined, place, lower, put, give_back, give_back-placed, give_back-joined,
}
use coin_data.Buddy.Free.Scan.{Scanned}
use coin_data.Buddy.Free.Walk.{pairs_in}
use coin_data.Buddy.Free.Freed.{place-ext, Changed, place-Changed, Scanned-Lists, Scanned-used}
use coin_data.Buddy.Free.Release.{Intact, free_start}
use coin_data.Buddy.Free.Round.{Ready, next, round, next-Ready}

-- Are the blocks `a` and `b` buddies, should both be of level `k`?
abbrev pub pairs_of : Store → ℕ → ℕ → ℕ → Bool
pairs_of s k a b =
    buddy_is_buddy a (record (s.mem a) { level = k }) b (record (s.mem b) { level = k })

abbrev KeptAll : Store → Store → Type 0
KeptAll s s' = (q : ℕ) → Kept (s.mem q) (s'.mem q)

pairs-agree :
    (s0 s : Store) (k a b : ℕ)
    → KeptAll s0 s
    → (s.mem a).level ≡ k
    → (s.mem b).level ≡ k
    → pairs_in s a b ≡ pairs_of s0 k a b
unfolding buddy_is_buddy
pairs-agree s0 s k a b kept at_a at_b =
    let ka : Kept (s0.mem a) (s.mem a) = kept a in
    let kb : Kept (s0.mem b) (s.mem b) = kept b in
    rw
      (ka.is_first, ka.host_pid, ka.memory_idx, kb.is_first, kb.host_pid, kb.memory_idx, at_a, at_b)
      refl

Kept-trans : {a b c : Block} → Kept a b → Kept b c → Kept a c
Kept-trans x y = record {
  is_first = y.is_first ∙ x.is_first;
  host_pid = y.host_pid ∙ x.host_pid;
  memory_idx = y.memory_idx ∙ x.memory_idx;
}

place-agree :
    (s0 : Store) {fuel l h : ℕ} {s : Store} {ls : ℕ → List ℕ}
    → Ready fuel l h s ls
    → KeptAll s0 s
    → place (pairs_in s h) h (ls l) ≡ place (pairs_of s0 l h) h (ls l)
place-agree s0 {fuel} {l} {h} {s} {ls} ready kept =
    place-ext (pairs_in s h) (pairs_of s0 l h) h (ls l) (λ x i.
      pairs-agree s0 s l h x kept ready.level
        (level_of_has s l x 0 (ls l) (ready.lists.seg l ready.few) i))

-- From `s` to `s'`, the lists became `ls`, and no block in use but `h` was touched.
pub record Freed (s s' : Store) (h : ℕ) (ls : ℕ → List ℕ) : Type 0 where
  pub lists : Lists s' ls
  pub used : (q : ℕ) → (s.mem q).is_free ≡ false → q ≢ 0 → q ≢ h → s'.mem q ≡ s.mem q

abbrev Ends : Store → ℕ → ℕ → ℕ → ℕ → Store → (ℕ → List ℕ) → Type 0
Ends s0 fuel rounds l h s ls =
    (s' : Store) × (free_loop fuel rounds h s ≡ ok (tt, s'))
    × Freed s s' h (give_back (pairs_of s0) rounds l h ls)

module _ (s0 : Store) (fuel : ℕ) where
  goes_on :
      (rounds l h : ℕ) (s : Store) (ls : ℕ → List ℕ) (r : Placed) (s1 : Store)
      → Ready fuel l h s ls
      → place (pairs_of s0 l h) h (ls l) ≡ r
      → free_loop fuel (suc rounds) h s ≡ next fuel rounds h r s1
      → Scanned s s1 l 0 h (ls l) r
      → Changed (ls l) r
      → ((b : ℕ) (ys : List ℕ)
          → Ready fuel (l + 1) (lower h b) s1 (put ls l ys)
          → Ends s0 fuel rounds (l + 1) (lower h b) s1 (put ls l ys))
      → Ends s0 fuel (suc rounds) l h s ls
  goes_on rounds l h s ls (placed ys) s1 ready e run done changed ih =
      let spec : give_back (pairs_of s0) (suc rounds) l h ls ≡ put ls l ys =
        give_back-placed (pairs_of s0) rounds l h ls ys e in
      (
        s1,
        run,
        record {
          lists =
              subst (Lists s1) (sym spec) (Scanned-Lists ready.lists ready.few ready.absent done);
          used = Scanned-used ready.lists ready.few ready.absent done;
        },
      )
  goes_on rounds l h s ls (joined b ys) s1 ready e run done changed ih =
      let spec : give_back (pairs_of s0) (suc rounds) l h ls
          ≡ give_back (pairs_of s0) rounds (l + 1) (lower h b) (put ls l ys) =
        give_back-joined (pairs_of s0) rounds l h ls b ys e in
      let (s', more, freed) = ih b ys (next-Ready ready b ys s1 done changed) in
      (
        s',
        run ∙ more,
        record {
          lists = subst (Lists s') (sym spec) freed.lists;
          used = λ q a c d.
              let same : s1.mem q ≡ s.mem q =
                Scanned-used ready.lists ready.few ready.absent done q a c d in
              let free : has q (ls l) ≡ false =
                not-has_of_used s l q 0 (ls l) (ready.lists.seg l ready.few) a in
              let other : q ≢ b = λ e. ground (arith, ap (λ x. has x (ls l)) e, free, changed) in
              freed.used q (ap Block.is_free same ∙ a) c (ground (arith, other)) ∙ same;
        },
      )

  free_loop-give_back :
      (rounds l h : ℕ) (s : Store) (ls : ℕ → List ℕ)
      → Ready fuel l h s ls
      → 32 ≤ l + rounds
      → KeptAll s0 s
      → Ends s0 fuel rounds l h s ls
  free_loop-give_back zero l h s ls ready enough kept = absurd (omega (arith, ready.few))
  free_loop-give_back (suc rounds) l h s ls ready enough kept =
      let (s1, run, done) =
        round ready rounds (ls l) (ready.lists.seg l ready.few) (ready.absent l ready.few)
          (ready.short l ready.few) in
      let agree : place (pairs_in s h) h (ls l) ≡ place (pairs_of s0 l h) h (ls l) =
        place-agree s0 ready kept in
      goes_on rounds l h s ls (place (pairs_in s h) h (ls l)) s1 ready (sym agree) run done
        (place-Changed (pairs_in s h) h (ls l))
        (λ b ys ready'.
          free_loop-give_back rounds (l + 1) (lower h b) s1 (put ls l ys) ready' (omega arith)
            (λ q. Kept-trans (kept q) (done.kept q)))

-- Let the headers and the heads form the lists `ls`, with none at level 31, and let a block be in
-- use, with an intact header. With fuel for the longest list, `buddy_free` of the block succeeds;
-- the headers then form the lists that `give_back` says, and no other block in use has changed.
pub buddy_free-give_back :
    (fuel h l : ℕ) (s : Store) (ls : ℕ → List ℕ)
    → Lists s ls
    → (s.mem h).is_free ≡ false
    → Intact (s.mem h)
    → (s.mem h).level ≡ l
    → h ≢ 0
    → h + 60 < 2 ^ 64
    → l < 32
    → ls 31 ≡ []
    → ((j : ℕ) → j < 32 → length (ls j) ≤ fuel)
    → (s' : Store) × (buddy_free fuel (h + 60) s ≡ ok (tt, s'))
      × Freed s s' h (give_back (pairs_of s) 33 l h ls)
buddy_free-give_back fuel h l s ls lists used intact level nonnull fits few top short =
    let ready : Ready fuel l h s ls = record {
      lists = lists;
      absent = λ j a. not-has_of_used s j h 0 (ls j) (lists.seg j a) used;
      level = level;
      intact = intact;
      nonnull = nonnull;
      few = few;
      top = top;
      short = short;
    } in
    let kept : KeptAll s s = λ q. record { is_first = refl; host_pid = refl; memory_idx = refl } in
    let (s', run, freed) = free_loop-give_back s fuel 33 l h s ls ready (omega arith) kept in
    (s', free_start fuel h s used intact nonnull fits ∙ run, freed)
