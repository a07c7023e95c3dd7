-- ===== src/Buddy/Free/Scan.antt =====
-- `scan` on a list of free blocks: it does to the headers what `place` does to the addresses.
use native.Mathlib.Decide.{ℕ_discrete}
use coin_data.Prelude.{
  ℕ, ◌+◌, ◌≤◌, ◌<◌, ◌≡◌, ◌≢◌, refl, sym, true, false, List, [], ◌∷◌, some, ok, arith, ◌==◌,
  if◌then◌else◌, length, get_elem?, set, length-set, get_elem?-set_self, get_elem?-set_ne,
  lt_of_get_elem?,
}
use coin_data.Buddy.Store.{Block, Store, free_header, update, init_free_block, crc32}
use coin_data.Buddy.Free.{link_before, link_last}
use coin_data.Buddy.Lists.Linked.{IsNode, Seg, has, lt_of_has, Seg-frame, ne_of_has, Kept}
use coin_data.Buddy.Lists.Place.{Placed, placed, joined, left, lower}

-- The header of the joined block.
abbrev pub IsJoined : Store → ℕ → ℕ → Placed → Type 0
IsJoined s l h (placed xs) = Unit
IsJoined s l h (joined x xs) =
    ((s.mem (lower h x)).level ≡ l + 1) × ((s.mem (lower h x)).crc ≡ crc32)

-- From `s` to `s'`, the segment `xs` after `p` became what `r` says, for the block `h`.
pub record Scanned (s s' : Store) (l p h : ℕ) (xs : List ℕ) (r : Placed) : Type 0 where
  pub seg : Seg s' l p (left r)
  pub joined_header : IsJoined s' l h r
  pub node : (k : ℕ) → p ≢ 0 → IsNode (s.mem p) l k p → IsNode (s'.mem p) l k p
  pub frame : (q : ℕ) → has q xs ≡ false → q ≢ p → q ≢ h → s'.mem q ≡ s.mem q
  pub kept : (q : ℕ) → Kept (s.mem q) (s'.mem q)
  pub inner : p ≢ 0 → s'.block_list ≡ s.block_list
  pub lists : (j : ℕ) → j ≢ l → get_elem? s'.block_list j ≡ get_elem? s.block_list j
  pub count : length s'.block_list ≡ length s.block_list

-- `p` or, for 0, the head of the list leads to `x` now; `x` leads back to `p`.
abbrev pub led : (ℕ → Block) → ℕ → ℕ → ℕ → Block
led m p x =
    if p == 0 then m else update m p (free_header (m p) (m p).previous x (m p).level (m p).is_first)

abbrev pub led_back : (ℕ → Block) → ℕ → ℕ → ℕ → Block
led_back m x p =
    if x == 0 then m else update m x (free_header (m x) p (m x).next (m x).level (m x).is_first)

abbrev pub headed : List ℕ → ℕ → ℕ → ℕ → List ℕ
headed heads p l x = if p == 0 then set heads l x else heads

-- Before the first block of the segment.
abbrev pub before_store : Store → ℕ → ℕ → ℕ → ℕ → Store
before_store s l p h x =
    let m1 = update s.mem h (free_header (s.mem h) p x (s.mem h).level (s.mem h).is_first) in
    record s { block_list = headed s.block_list p l h; mem = led (led_back m1 x h) p h }

-- The first block of the segment leaves it, and is joined with `h`.
abbrev pub joined_store : Store → ℕ → ℕ → ℕ → ℕ → Store
joined_store s l p h x =
    let n = (s.mem x).next in
    let m1 = led_back (led s.mem p n) n p in
    let a = lower h x in
    record s {
      block_list = headed s.block_list p l n;
      mem = update m1 a (free_header (m1 a) 0 0 ((m1 a).level + 1) (m1 a).is_first);
    }

-- After the last block.
abbrev pub last_store : Store → ℕ → ℕ → Store
last_store s h x =
    let m1 = led s.mem x h in
    record s { mem = update m1 h (free_header (m1 h) x 0 (m1 h).level (m1 h).is_first) }

-- The walk stands at the block `x`, after `p`, and the block `h` is not in the list.
pub record At (s : Store) (l p h x : ℕ) (xs : List ℕ) : Type 0 where
  pub seg : Seg s l p (x ∷ xs)
  pub front : (f : ℕ) × (get_elem? s.block_list l ≡ some f) × (p ≢ 0 → f ≤ p)
  pub above : p < h
  pub absent : has h (x ∷ xs) ≡ false
  pub level : (s.mem h).level ≡ l

module _ {s : Store} {l p h x : ℕ} {xs : List ℕ} (here : At s l p h x xs) where
  pub node : IsNode (s.mem x) l p x
  node = here.seg.1

  pub rest : Seg s l x xs
  rest = here.seg.2

  pub ne : h ≢ x
  ne e = ground arith

  pub short : l < length s.block_list
  short = lt_of_get_elem? s.block_list l here.front.1

  pub link_before-store : link_before h x s ≡ ok (tt, before_store s l p h x)
  unfolding link_before init_free_block
  link_before-store = ground (arith, node.previous_eq, node.above, ne, here.level, short)

  pub headed_self : (y : ℕ) → p ≡ 0 → get_elem? (headed s.block_list p l y) l ≡ some y
  headed_self y e = ground (arith, get_elem?-set_self s.block_list l y short)

  pub headed-other :
      (y j : ℕ) → j ≢ l → get_elem? (headed s.block_list p l y) j ≡ get_elem? s.block_list j
  headed-other y j a = elim (ℕ_discrete p 0) [
    | yes e ↦ ground (arith, get_elem?-set_ne s.block_list {i = l} {j = j} y (λ c. a (sym c)))
    | no e ↦ ground arith
  ]

  pub length-headed : (y : ℕ) → length (headed s.block_list p l y) ≡ length s.block_list
  length-headed y = elim (ℕ_discrete p 0) [
    | yes e ↦ ground (arith, length-set s.block_list l y)
    | no e ↦ ground arith
  ]

  -- The blocks behind `x` are here.above it, and are not `h`.
  pub behind : (q : ℕ) → has q xs ≡ true → (x < q) × (q ≢ h)
  behind q a = (lt_of_has s l q x xs rest a, ne_of_has q h xs a (ground arith))

  before-rest : Seg (before_store s l p h x) l x xs
  before-rest =
      Seg-frame s l (before_store s l p h x) x xs rest
        (λ q a. let (b, c) = behind q a in ground (arith, b, c, node.above))
        (λ y a. record {
          head = λ e. absurd (omega (arith, node.above));
          next = λ e. ground (arith, a.next e, node.above, ne);
        })

  pub before-Scanned :
      h < x → Scanned s (before_store s l p h x) l p h (x ∷ xs) (placed (h ∷ x ∷ xs))
  before-Scanned lt = record {
    seg = (
      record { head = λ e. headed_self h e; next = λ e. ground (arith, ne) },
      record {
        free = ground (arith, ne);
        level = ground (arith, ne, here.level);
        previous_eq = ground (arith, ne);
        intact = ground (arith, ne);
        above = here.above;
      },
      (
        record { head = λ e. absurd (omega (arith, here.above)); next = λ e. ground (arith, ne) },
        record {
          free = ground (arith, node.above);
          level = ground (arith, node.above, node.level, ne);
          previous_eq = ground (arith, node.above);
          intact = ground (arith, node.above);
          above = lt;
        },
        before-rest,
      ),
    );
    joined_header = tt;
    node = λ k nn a. record {
      free = ground arith;
      level = ground (arith, a.level, node.above);
      previous_eq = ground (arith, a.previous_eq, node.above);
      intact = ground arith;
      above = a.above;
    };
    frame = λ q a b c. ground arith;
    kept =
        λ q. record { is_first = ground arith; host_pid = ground arith; memory_idx = ground arith };
    inner = λ a. ground arith;
    lists = λ j a. headed-other h j a;
    count = length-headed h;
  }

  pub link_last-store : (s.mem x).next ≡ 0 → link_last h x s ≡ ok (tt, last_store s h x)
  unfolding link_last init_free_block
  link_last-store e = ground (arith, node.above, ne)

  pub last-Scanned :
      xs ≡ [] → x < h → Scanned s (last_store s h x) l p h (x ∷ xs) (placed (x ∷ h ∷ []))
  last-Scanned e lt = record {
    seg = (
      record { head = here.seg.0.head; next = λ z. ground (arith, node.above, here.seg.0.next z) },
      record {
        free = ground (arith, node.above);
        level = ground (arith, node.above, node.level, ne);
        previous_eq = ground (arith, node.above, node.previous_eq);
        intact = ground (arith, node.above);
        above = node.above;
      },
      (
        record { head = λ z. absurd (omega (arith, node.above)); next = λ z. ground (arith, ne) },
        record {
          free = ground arith;
          level = ground (arith, here.level, ne);
          previous_eq = ground arith;
          intact = ground arith;
          above = lt;
        },
        record { head = λ z. absurd (omega (arith, here.above)); next = λ z. ground arith },
      ),
    );
    joined_header = tt;
    node = λ k nn a. rw same a;
    frame = λ q a b c. ground arith;
    kept =
        λ q. record { is_first = ground arith; host_pid = ground arith; memory_idx = ground arith };
    inner = λ a. refl;
    lists = λ j a. refl;
    count = refl;
  }
    where
      same : (last_store s h x).mem p ≡ s.mem p
      same = ground (arith, node.above, here.above)
