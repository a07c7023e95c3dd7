-- ===== src/Buddy/Free/Merged.antt =====
-- The first block of a segment leaves it, to be joined with its buddy.
use native.Mathlib.Decide.{ℕ_discrete}
use coin_data.Prelude.{ℕ, ◌<◌, ◌≡◌, ◌≢◌, ap, ◌∙◌, true, false, List, [], ◌∷◌, some, ok, arith}
use coin_data.Buddy.Store.{Store, init_free_block}
use coin_data.Buddy.Lists.{buddy_remove_block, relink_previous, relink_next}
use coin_data.Buddy.Free.{merge}
use coin_data.Buddy.Lists.Linked.{Leads, Seg, has, lt_of_has, Seg-frame, ne_of_has}
use coin_data.Buddy.Lists.Place.{joined, lower}
use coin_data.Buddy.Free.Scan.{
  Scanned, At, led, led_back, headed, joined_store, node, rest, short, headed_self, headed-other,
  length-headed, behind,
}

module _ {s : Store} {l p h x : ℕ} {xs : List ℕ} (here : At s l p h x xs) where
  remove-store :
      buddy_remove_block l x s
      ≡ ok (
        tt,
        record s {
          block_list = headed s.block_list p l (s.mem x).next;
          mem = led_back (led s.mem p (s.mem x).next) (s.mem x).next p;
        },
      )
  unfolding buddy_remove_block relink_previous relink_next init_free_block
  remove-store = elim (ℕ_discrete p 0) [
    | yes e ↦ ground (arith, here.front.1, here.seg.0.head e, (node here).previous_eq, short here)
    | no e ↦
        ground (arith, here.front.1, here.front.2 e, (node here).previous_eq, (node here).above)
  ]

  pub merge-store : merge h x s ≡ ok (lower h x, joined_store s l p h x)
  unfolding merge init_free_block
  merge-store = ground (arith, (node here).level, remove-store, (node here).above)

  nonnull : x ≢ 0
  nonnull e = omega (arith, (node here).above)

  next_of : (ys : List ℕ) → Seg s l x ys → (s.mem x).next ≢ 0 → has (s.mem x).next ys ≡ true
  next_of [] leads a = absurd (a (leads.next nonnull))
  next_of (y ∷ ys) (leads, ynode, more) a = ground (arith, leads.next nonnull)

  next_behind : (s.mem x).next ≢ 0 → (x < (s.mem x).next) × ((s.mem x).next ≢ h)
  next_behind a = behind here (s.mem x).next (next_of xs (rest here) a)

  joined-Leads : (y : ℕ) → (s.mem x).next ≡ y → Leads (joined_store s l p h x) l p y
  joined-Leads y e = record {
    head = λ z. headed_self here (s.mem x).next z ∙ ap some e;
    next = λ z. ground (arith, (node here).above, here.above, next_behind, e);
  }

  joined-seg : (ys : List ℕ) → Seg s l x ys → has h ys ≡ false → Seg (joined_store s l p h x) l p ys
  joined-seg [] end out = joined-Leads 0 (end.next nonnull)
  joined-seg (y ∷ ys) (leads, ynode, more) out =
      let ny : (s.mem x).next ≡ y = leads.next nonnull in
      let hy : h ≢ y = λ e. ground arith in
      let xy : lower h x ≢ y = ground (arith, ynode.above) in
      (
        joined-Leads y ny,
        record {
          free = ground (arith, ny, ynode.above, (node here).above, hy);
          level = ground (arith, ny, ynode.above, (node here).above, hy, ynode.level);
          previous_eq = ground (arith, ny, ynode.above, (node here).above, hy);
          intact = ground (arith, ny, ynode.above, (node here).above, hy);
          above = omega (arith, (node here).above, ynode.above);
        },
        Seg-frame s l (joined_store s l p h x) y ys more
            (λ q a.
              let b : y < q = lt_of_has s l q y ys more a in
              let c : q ≢ h = ne_of_has q h ys a (ground arith) in
              ground (arith, b, c, ny, (node here).above, ynode.above))
            (λ k a. record {
              head = λ e. absurd (omega (arith, ynode.above));
              next = λ e. ground (arith, a.next e, ny, ynode.above, (node here).above, hy);
            }),
      )

  pub joined-Scanned : Scanned s (joined_store s l p h x) l p h (x ∷ xs) (joined x xs)
  joined-Scanned = record {
    seg = joined-seg xs (rest here) (ground arith);
    joined_header = (ground (arith, next_behind, here.level, (node here).level), ground arith);
    node = λ k nn a. record {
      free = ground (arith, a.free);
      level = ground (arith, a.level, (node here).above, here.above, next_behind);
      previous_eq = ground (arith, a.previous_eq, (node here).above, here.above, next_behind);
      intact = ground (arith, a.intact);
      above = a.above;
    };
    frame = λ q a b c. ground (arith, next_of xs (rest here));
    kept =
        λ q. record { is_first = ground arith; host_pid = ground arith; memory_idx = ground arith };
    inner = λ a. ground arith;
    lists = λ j a. headed-other here (s.mem x).next j a;
    count = length-headed here (s.mem x).next;
  }
