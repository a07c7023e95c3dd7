-- ===== src/Buddy/Reach/Client.antt =====
-- `buddy_malloc` and `buddy_free` keep the allocator and the blocks in use in order.
use native.Mathlib.Decide.{ℕ_discrete, dec_lt}
use coin_data.Prelude.{ℕ, ◌+◌, ◌^◌, ◌≤◌, ◌<◌, ◌≡◌, ap, true, List, [], ◌∷◌, inr, ok, arith}
use coin_data.Buddy.Store.{Store}
use coin_data.Buddy.Levels.{bytes}
use coin_data.Buddy.Free.{buddy_free}
use coin_data.Buddy.Lists.Linked.{has}
use coin_data.Buddy.Lists.Place.{put, give_back}
use coin_data.Buddy.Malloc.Allocate.{Allocated}
use coin_data.Buddy.Malloc.Handed.{
  Room, handed, room-Splittable, handed-Lists, handed-pages, off_head, off_next,
}
use coin_data.Buddy.Free.Restored.{at_level}
use coin_data.Buddy.Free.Pages.{give_back-pages}
use coin_data.Buddy.Free.FreedAll.{pairs_of, Freed, buddy_free-give_back}
use coin_data.Buddy.Reach.Extent.{
  extent, bytes-extent, extent_pos, extent_page, extent_mono, Disjoint, Disjoint-sym, Clear,
  Seg-Sorted, Within-Clear,
}
use coin_data.Buddy.Reach.FreeApart.{Tiled, give_back-Apart}
use coin_data.Buddy.Reach.MallocApart.{Halved}
use coin_data.Buddy.Reach.Safe.{Nearest, room, tail-Within, halved, pairs_of-Adjacent}
use coin_data.Buddy.Reach.Ownership.{
  Blocks, InUse, Owned, remove, AllUsed-map, AllUsed-frame, Picked,
}
use coin_data.Buddy.Reach.Bounds.{ends_below, short, top}

-- The nearest block, by its lists alone.
pub record First (level idx h : ℕ) (rest : List ℕ) (ls : ℕ → List ℕ) : Type 0 where
  pub first : ls idx ≡ h ∷ rest
  pub empty : (j : ℕ) → level ≤ j → j < idx → ls j ≡ []
  pub ordered : level ≤ idx
  pub few : idx < 32

module _ {hi total : ℕ} (end : hi < 2 ^ 64) (small : total < 2 ^ 31) where
  module _ {s : Store} {ls : ℕ → List ℕ} {us : Blocks} (owned : Owned hi total s ls us) where
    top_empty : ls 31 ≡ []
    top_empty = top ls (omega (arith, owned.pages, small))

    module _ {level idx h : ℕ} {rest : List ℕ} (found : First level idx h rest ls) where
      below_top : idx < 31
      below_top = elim (ℕ_discrete idx 31) [
        | yes e ↦ ground (arith, found.first, top_empty, ap ls e)
        | no ne ↦ omega (arith, found.few)
      ]

      head_in : has h (ls idx) ≡ true
      head_in = rw found.first (ground arith)

      head_below : h + extent idx ≤ hi
      head_below = ends_below hi ls idx h owned.below found.few head_in

      pub near : Nearest level idx h rest ls
      near = record {
        first = found.first;
        empty = found.empty;
        ordered = found.ordered;
        few = found.few;
        fits =
            let size : bytes idx ≡ extent idx = bytes-extent idx below_top in
            omega (arith, size, head_below, end);
      }

      pub rm : Room level idx h rest s ls
      rm = room owned.lists owned.apart near

      split : Halved level h idx (put ls idx rest) (handed level idx h rest ls)
      split = halved owned.lists owned.apart near

      -- A block outside of the free memory.
      spared :
          (k u : ℕ) → Clear k u ls → Clear k u (handed level idx h rest ls) × Disjoint k u level h
      spared k u c =
          split.spared k u
            (Within-Clear (put ls idx rest) ls k u (tail-Within owned.lists owned.apart near) c)
            (c idx h found.few head_in)

      module _ {size : ℕ} {s' : Store} (done : Allocated size level idx h s s') where
        keep :
            (k u : ℕ)
            → InUse hi s k u
            → Clear k u ls
            → Unit {0}
            → (s'.mem u ≡ s.mem u) × Clear k u (handed level idx h rest ls)
        keep k u use_ clear t = (
          done.frame u (off_head rm u use_.used) (off_next rm u use_.used use_.nonnull) (λ j a b e.
              let size : bytes j ≡ extent j = bytes-extent j (omega (arith, below_top)) in
              absurd (
                ground (
                  arith,
                  clear idx h found.few head_in,
                  size,
                  extent_mono j idx b,
                  extent_pos k,
                  extent_pos j,
                ))),
          (spared k u clear).0,
        )

        handed-InUse : InUse hi s' level h
        handed-InUse = record {
          used = done.used;
          intact = done.intact;
          level = at_level rm done;
          nonnull = (room-Splittable rm).nonnull;
          few = omega (arith, found.ordered, found.few);
          below = elim (dec_lt level idx) [
            | yes lt ↦ omega (arith, extent_mono level idx lt, head_below)
            | no ge ↦
                let e : level ≡ idx = omega (arith, found.ordered) in
                omega (arith, ap extent e, head_below)
          ];
        }

        pub handed-Owned : Owned hi total s' (handed level idx h rest ls) ((level, h) ∷ us)
        handed-Owned = record {
          lists = handed-Lists rm done;
          apart = split.apart;
          below = λ k. (spared k hi (owned.below k)).0;
          used = (
            handed-InUse,
            split.clear,
            AllUsed-map hi s ls (Disjoint level h)
                (λ k u use_ clear. Disjoint-sym k u level h (spared k u clear).1) us owned.used,
            AllUsed-frame hi s s' ls (handed level idx h rest ls) (λ k u. Unit {0}) keep us
                owned.used (AllUsed-map hi s ls (λ k u. Unit {0}) (λ k u a c. tt) us owned.used),
          );
          pages = omega (arith, handed-pages rm, owned.pages);
        }

    -- A block that is in use.
    module _ (i l h fuel : ℕ) (picked : Picked hi s ls us (remove us i) l h)
        (enough : total ≤ fuel) where
      mine : InUse hi s l h
      mine = picked.used

      pub freed :
          (s' : Store) × (buddy_free fuel (h + 60) s ≡ ok (tt, s'))
          × Freed s s' h (give_back (pairs_of s) 33 l h ls)
      freed =
          buddy_free-give_back fuel h l s ls owned.lists mine.used mine.intact mine.level
            mine.nonnull (omega (arith, extent_page l, mine.below, end)) mine.few top_empty
            (λ j a. omega (arith, short ls j a, owned.pages))

      tiled : Tiled (pairs_of s) (pairs_of-Adjacent s) l h ls
      tiled = record {
        sorted = λ j a. Seg-Sorted s j 0 (ls j) (owned.lists.seg j a);
        apart = owned.apart;
        clear = picked.outside;
        few = mine.few;
        top = top_empty;
      }

      pub buddy_free-Owned :
          (s' : Store)
          → Freed s s' h (give_back (pairs_of s) 33 l h ls)
          → Owned hi total s' (give_back (pairs_of s) 33 l h ls) (remove us i)
      buddy_free-Owned s' after =
          let (apart, spares) =
            give_back-Apart (pairs_of s) (pairs_of-Adjacent s) 33 l h ls tiled (omega arith) in
          record {
            lists = after.lists;
            apart = apart;
            below = λ k. spares k hi (record { clear = owned.below k; disjoint = inr mine.below });
            used =
                AllUsed-frame hi s s' ls (give_back (pairs_of s) 33 l h ls) (Disjoint l h)
                  (λ k u use_ clear apart_u. (
                    after.used u use_.used use_.nonnull
                        (λ e. absurd (ground (arith, apart_u, extent_pos l, extent_pos k))),
                    spares k u (record { clear = clear; disjoint = Disjoint-sym l h k u apart_u }),
                  ))
                  (remove us i) picked.others picked.apart;
            pages = omega (
              arith,
              give_back-pages (pairs_of s) 33 l h ls (omega arith) mine.few top_empty,
              owned.pages,
              picked.pages,
            );
          }
