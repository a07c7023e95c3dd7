-- ===== src/Buddy/Free/Pages.antt =====
-- The free memory of a store, and that `buddy_free` gives back the memory of the block.
use native.Mathlib.Decide.{ℕ_discrete}
use coin_data.Prelude.{
  ℕ, zero, suc, ◌+◌, ◌*◌, ◌^◌, ◌≤◌, ◌<◌, ◌≡◌, ◌≢◌, refl, ap, ◌∙◌, Bool, false, List, [], ok, arith,
  length,
}
use coin_data.Buddy.Store.{Store}
use coin_data.Buddy.Free.{buddy_free}
use coin_data.Buddy.Lists.Linked.{Lists, has}
use coin_data.Buddy.Lists.Place.{
  Placed, placed, joined, place, lower, put, give_back, give_back-placed, give_back-joined,
}
use coin_data.Buddy.Free.Freed.{Changed, place-Changed}
use coin_data.Buddy.Free.FreedAll.{pairs_of, buddy_free-give_back}
use coin_data.Buddy.Free.Release.{Intact}

-- The free memory of the lists below level `n`, in pages.
unfoldable pub free_pages : ℕ → (ℕ → List ℕ) → ℕ
free_pages zero ls = 0
free_pages (suc n) ls = free_pages n ls + 2 ^ n * length (ls n)

free_pages-above :
    (n l : ℕ) (ls : ℕ → List ℕ) (xs : List ℕ) → n ≤ l → free_pages n (put ls l xs) ≡ free_pages n ls
unfolding free_pages
free_pages-above zero l ls xs le = refl
free_pages-above (suc n) l ls xs le =
    let there : put ls l xs n ≡ ls n = ground arith in
    rw (there, free_pages-above n l ls xs (omega arith)) refl

pub free_pages-put :
    (n l : ℕ) (ls : ℕ → List ℕ) (xs : List ℕ)
    → l < n
    → free_pages n (put ls l xs) + 2 ^ l * length (ls l) ≡ free_pages n ls + 2 ^ l * length xs
unfolding free_pages
free_pages-put zero l ls xs lt = absurd (omega arith)
free_pages-put (suc n) l ls xs lt = elim (ℕ_discrete l n) [
  | yes e ↦
      let here : put ls l xs n ≡ xs = ground arith in
      let at : 2 ^ l * length (ls l) ≡ 2 ^ n * length (ls n) = ap (λ k. 2 ^ k * length (ls k)) e in
      let scaled : 2 ^ l * length xs ≡ 2 ^ n * length xs = ap (λ k. 2 ^ k * length xs) e in
      rw here (omega (arith, free_pages-above n l ls xs (omega arith), at, scaled))
  | no ne ↦
      let there : put ls l xs n ≡ ls n = ground arith in
      rw there (omega (arith, free_pages-put n l ls xs (omega arith)))
]

pub times_suc : (a k : ℕ) → a * (k + 1) ≡ a * k + a
times_suc a k = omega arith

pub twice : (l : ℕ) → 2 ^ (l + 1) ≡ 2 ^ l + 2 ^ l
twice l =
    let shift : l + 1 ≡ suc l = omega arith in
    let double : 2 ^ suc l ≡ 2 ^ l + 2 ^ l = omega arith in ap (2 ^◌) shift ∙ double

module _ (pairs : ℕ → ℕ → ℕ → Bool) where
  after :
      (rounds l h : ℕ) (ls : ℕ → List ℕ) (r : Placed)
      → l < 32
      → ls 31 ≡ []
      → place (pairs l h) h (ls l) ≡ r
      → Changed (ls l) r
      → ((b : ℕ) (ys : List ℕ)
          → l + 1 < 32
          → put ls l ys 31 ≡ []
          → free_pages 32 (give_back pairs rounds (l + 1) (lower h b) (put ls l ys))
            ≡ free_pages 32 (put ls l ys) + 2 ^ (l + 1))
      → free_pages 32 (give_back pairs (suc rounds) l h ls) ≡ free_pages 32 ls + 2 ^ l
  after rounds l h ls (placed ys) few top e changed ih =
      let spec : give_back pairs (suc rounds) l h ls ≡ put ls l ys =
        give_back-placed pairs rounds l h ls ys e in
      let scaled : 2 ^ l * length ys ≡ 2 ^ l * length (ls l) + 2 ^ l =
        ap (2 ^ l *◌) changed ∙ times_suc (2 ^ l) (length (ls l)) in
      rw spec (omega (arith, free_pages-put 32 l ls ys few, scaled))
  after rounds l h ls (joined b ys) few top e (inside, shrunk) ih =
      let spec : give_back pairs (suc rounds) l h ls
          ≡ give_back pairs rounds (l + 1) (lower h b) (put ls l ys) =
        give_back-joined pairs rounds l h ls b ys e in
      let scaled : 2 ^ l * length (ls l) ≡ 2 ^ l * length ys + 2 ^ l =
        ap (2 ^ l *◌) shrunk ∙ times_suc (2 ^ l) (length ys) in
      let below : l ≢ 31 = λ c. ground (arith, inside, ap (λ k. has b (ls k)) c, ap (has b) top) in
      let top' : put ls l ys 31 ≡ [] = ground (arith, top, below) in
      rw spec (
        omega (
          arith,
          ih b ys (omega (arith, below)) top',
          free_pages-put 32 l ls ys few,
          scaled,
          twice l,
        ))

  pub give_back-pages :
      (rounds l h : ℕ) (ls : ℕ → List ℕ)
      → 32 ≤ l + rounds
      → l < 32
      → ls 31 ≡ []
      → free_pages 32 (give_back pairs rounds l h ls) ≡ free_pages 32 ls + 2 ^ l
  give_back-pages zero l h ls enough few top = absurd (omega arith)
  give_back-pages (suc rounds) l h ls enough few top =
      after rounds l h ls (place (pairs l h) h (ls l)) few top refl
        (place-Changed (pairs l h) h (ls l))
        (λ b ys few' top'.
          give_back-pages rounds (l + 1) (lower h b) (put ls l ys) (omega arith) few' top')

-- Under the conditions of `buddy_free-give_back`, `buddy_free` succeeds and the lists that the headers
-- form afterwards hold as much memory more as the block has: no page is lost, and none counts twice.
pub buddy_free-pages :
    (fuel h l : ℕ) (s : Store) (ls : ℕ → List ℕ)
    → Lists s ls
    → (s.mem h).is_free ≡ false
    → Intact (s.mem h)
    → (s.mem h).level ≡ l
    → h ≢ 0
    → h + 60 < 2 ^ 64
    → l < 32
    → ls 31 ≡ []
    → ((j : ℕ) → j < 32 → length (ls j) ≤ fuel)
    → (s' : Store) × (ls' : ℕ → List ℕ) × (buddy_free fuel (h + 60) s ≡ ok (tt, s'))
      × Lists s' ls'
      × (free_pages 32 ls' ≡ free_pages 32 ls + 2 ^ l)
buddy_free-pages fuel h l s ls lists used intact level nonnull fits few top short =
    let (s', run, freed) =
      buddy_free-give_back fuel h l s ls lists used intact level nonnull fits few top short in
    (
      s',
      give_back (pairs_of s) 33 l h ls,
      run,
      freed.lists,
      give_back-pages (pairs_of s) 33 l h ls (omega arith) few top,
    )
