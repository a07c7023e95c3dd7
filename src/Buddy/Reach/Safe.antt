-- ===== src/Buddy/Reach/Safe.antt =====
-- No two blocks overlap, free or in use: `buddy_malloc` and `buddy_free` keep it so.
use mathlib.Core.Path.{subst}
use coin_data.Prelude.{
  ℕ, suc, ◌+◌, ◌^◌, ◌≤◌, ◌<◌, ◌≡◌, ◌≢◌, sym, true, false, Bool-cases, List, [], ◌∷◌, inl, inr, ok,
  arith, length,
}
use coin_data.Buddy.Store.{Store}
use coin_data.Buddy.Levels.{bytes, calculate_which_level, buddy_is_buddy}
use coin_data.Buddy.Malloc.{buddy_malloc}
use coin_data.Buddy.Free.{buddy_free}
use coin_data.Buddy.Lists.Linked.{Seg, Lists, has, lt_of_has}
use coin_data.Buddy.Lists.Place.{put, give_back}
use coin_data.Buddy.Malloc.Handed.{Room, handed, buddy_malloc-handed}
use coin_data.Buddy.Free.FreedAll.{pairs_of, buddy_free-give_back}
use coin_data.Buddy.Free.Release.{Intact}
use coin_data.Buddy.Reach.Extent.{
  extent, bytes-extent, extent_mono, extent_pos, Disjoint, Clear, Apart, Seg-Sorted, has-put,
  Within, Within-Apart, Within-Clear,
}
use coin_data.Buddy.Reach.FreeApart.{Adjacent, Tiled, give_back-Apart}
use coin_data.Buddy.Reach.MallocApart.{Halved, halve-Halved}

-- What `buddy_is_buddy` accepts lies side by side.
pub pairs_of-Adjacent : (s : Store) → Adjacent (pairs_of s)
unfolding buddy_is_buddy
pairs_of-Adjacent s l h x few pair =
    let size : bytes l ≡ extent l = bytes-extent l few in ground (arith, pair, size)

-- The block `h` is the first of level `idx`, the nearest level with a free block.
pub record Nearest (level idx h : ℕ) (rest : List ℕ) (ls : ℕ → List ℕ) : Type 0 where
  pub first : ls idx ≡ h ∷ rest
  pub empty : (j : ℕ) → level ≤ j → j < idx → ls j ≡ []
  pub ordered : level ≤ idx
  pub few : idx < 32
  pub fits : h + bytes idx < 2 ^ 64

module _ {level idx h : ℕ} {rest : List ℕ} {s : Store} {ls : ℕ → List ℕ} (lists : Lists s ls)
    (apart : Apart ls) (near : Nearest level idx h rest ls) where
  pub h_in : has h (ls idx) ≡ true
  h_in = rw near.first (ground arith)

  alone : (j k : ℕ) → level ≤ j → j < idx → k < 32 → has (h + bytes j) (ls k) ≡ false
  alone j k a b c = elim (Bool-cases (has (h + bytes j) (ls k))) [
    | inr out ↦ out
    | inl inside ↦
        let size : bytes j ≡ extent j = bytes-extent j (omega (arith, near.few)) in
        let cases = apart idx h k (h + bytes j) near.few c h_in inside in
        absurd (ground (arith, cases, size, extent_mono j idx b, extent_pos j, extent_pos k))
  ]

  pub room : Room level idx h rest s ls
  room = record {
    lists = lists;
    first = near.first;
    empty = near.empty;
    ordered = near.ordered;
    few = near.few;
    fits = near.fits;
    alone = alone;
  }

  above : (y : ℕ) → has y rest ≡ true → h < y
  above y i =
      let seg : Seg s idx 0 (h ∷ rest) = subst (Seg s idx 0) near.first (lists.seg idx near.few) in
      lt_of_has s idx y h rest seg.2 i

  -- Without its first block, the list is a part of what it was, and clear of the block.
  pub tail-Within : Within (put ls idx rest) ls
  tail-Within j y i = elim (has-put ls idx rest j y i) [
    | inl (e, a) ↦ rw (e, near.first) (ground (arith, a))
    | inr (ne, a) ↦ a
  ]

  tail-Clear : Clear idx h (put ls idx rest)
  tail-Clear j y a i = elim (apart idx h j y near.few a h_in (tail-Within j y i)) [
    | inr d ↦ d
    | inl (e, same) ↦ elim (has-put ls idx rest j y i) [
      | inl (f, b) ↦ absurd (omega (arith, above y b))
      | inr (ne, b) ↦ absurd (ne (sym e))
    ]
  ]

  pub halved : Halved level h idx (put ls idx rest) (handed level idx h rest ls)
  halved =
      halve-Halved level h idx (put ls idx rest) near.ordered near.few
        (Within-Apart (put ls idx rest) ls tail-Within apart) tail-Clear

-- Let the lists be well formed and no two free blocks overlap, and let the nearest level with a free
-- block have `h` as its first. Then `buddy_malloc` hands out `h`; afterwards no two free blocks
-- overlap, none overlaps with `h`, and a block that was outside of the free memory before overlaps
-- neither with `h` nor with a free block.
pub buddy_malloc-Apart :
    (fuel size idx h : ℕ) (rest : List ℕ) (s : Store) (ls : ℕ → List ℕ)
    → size + 60 < 2 ^ 64
    → Lists s ls
    → Apart ls
    → Nearest (calculate_which_level (size + 60)) idx h rest ls
    → (s' : Store) × (ls' : ℕ → List ℕ) × (buddy_malloc (suc fuel) size s ≡ ok (h + 60, s'))
      × Lists s' ls'
      × Apart ls'
      × Clear (calculate_which_level (size + 60)) h ls'
      × ((k u : ℕ)
          → Clear k u ls
          → Clear k u ls' × Disjoint k u (calculate_which_level (size + 60)) h)
buddy_malloc-Apart fuel size idx h rest s ls fits lists apart near =
    let (s', run, lists', pages, used) =
      buddy_malloc-handed fuel size idx h rest s ls fits (room lists apart near) in
    let done = halved lists apart near in
    (
      s',
      handed (calculate_which_level (size + 60)) idx h rest ls,
      run,
      lists',
      done.apart,
      done.clear,
      λ k u c.
          done.spared k u (Within-Clear (put ls idx rest) ls k u (tail-Within lists apart near) c)
            (c idx h near.few (h_in lists apart near)),
    )

-- Under the conditions of `buddy_free-give_back`, let no two free blocks overlap, nor one with the
-- block that is freed. Then afterwards no two free blocks overlap, and a block that overlapped
-- neither with a free block nor with the freed one still overlaps with no free block.
pub buddy_free-Apart :
    (fuel h l : ℕ) (s : Store) (ls : ℕ → List ℕ)
    → Lists s ls
    → Apart ls
    → Clear l h ls
    → (s.mem h).is_free ≡ false
    → Intact (s.mem h)
    → (s.mem h).level ≡ l
    → h ≢ 0
    → h + 60 < 2 ^ 64
    → l < 32
    → ls 31 ≡ []
    → ((j : ℕ) → j < 32 → length (ls j) ≤ fuel)
    → (s' : Store) × (ls' : ℕ → List ℕ) × (buddy_free fuel (h + 60) s ≡ ok (tt, s'))
      × Lists s' ls'
      × Apart ls'
      × ((k u : ℕ) → Clear k u ls → Disjoint k u l h → Clear k u ls')
buddy_free-Apart fuel h l s ls lists apart clear used intact level nonnull fits few top short =
    let (s', run, freed) =
      buddy_free-give_back fuel h l s ls lists used intact level nonnull fits few top short in
    let tiled : Tiled (pairs_of s) (pairs_of-Adjacent s) l h ls = record {
      sorted = λ j a. Seg-Sorted s j 0 (ls j) (lists.seg j a);
      apart = apart;
      clear = clear;
      few = few;
      top = top;
    } in
    let (apart', spares) =
      give_back-Apart (pairs_of s) (pairs_of-Adjacent s) 33 l h ls tiled (omega arith) in
    (
      s',
      give_back (pairs_of s) 33 l h ls,
      run,
      freed.lists,
      apart',
      λ k u c d. spares k u (record { clear = c; disjoint = d }),
    )
