-- ===== src/Buddy/Lists/Attached.antt =====
-- `buddy_attch_memory` on well-formed lists, and on the empty ones of `buddy_init_system`.
use mathlib.Core.Path.{subst}
use coin_data.Prelude.{
  ℕ, suc, ◌≤◌, ◌<◌, ◌≡◌, ◌≢◌, refl, sym, ap, ◌∙◌, true, false, List, [], ◌∷◌, some, replicate, ok,
  fault, Fault, arith, length, get_elem?, get_elem?-replicate, length-replicate, set, length-set,
  get_elem?-set_self, get_elem?-set_ne, add_size,
}
use coin_data.Buddy.Store.{Block, Store, update, free_header, init_free_block}
use coin_data.Buddy.Levels.{calculate_block_level}
use coin_data.Buddy.Lists.{
  buddy_insert_block, buddy_attach_memory, buddy_init_system, insert_walk, insert_before,
}
use coin_data.Buddy.Lists.Linked.{Seg, Lists, has, Seg-frame, ne_of_has}
use coin_data.Buddy.Lists.Place.{placed, left, place, put}
use coin_data.Buddy.Free.Scan.{Scanned, At}
use coin_data.Buddy.Free.Freed.{Scanned-Lists}
use coin_data.Buddy.Lists.Inserted.{insert-place}

-- The header of the new block, before it enters a list.
abbrev fresh_store : Store → ℕ → ℕ → ℕ → Store
fresh_store s pid addr level =
    let idx = add_size s.memory_idx 1 in
    let m1 = update s.mem addr (record (s.mem addr) { host_pid = pid; memory_idx = idx }) in
    record s { memory_idx = idx; mem = update m1 addr (free_header (m1 addr) 0 0 level true) }

-- The block is in none of the lists.
abbrev pub Outside : ℕ → (ℕ → List ℕ) → Type 0
Outside addr ls = (j : ℕ) → j < 32 → has addr (ls j) ≡ false

-- The place of the block in its list.
abbrev pub inserted : ℕ → List ℕ → List ℕ
inserted addr xs = left (place (λ _. false) addr xs)

module _ (s : Store) (ls : ℕ → List ℕ) (pid addr l : ℕ) (lists : Lists s ls) (out : Outside addr ls)
    (pos : 0 < addr) (few : l < 32) where
  s1 : Store
  s1 = fresh_store s pid addr l

  s1-Lists : Lists s1 ls
  unfolding s1
  s1-Lists = record {
    count = lists.count;
    seg = λ j b.
        Seg-frame s j (fresh_store s pid addr l) 0 (ls j) (lists.seg j b)
          (λ q i. let ne : q ≢ addr = ne_of_has q addr (ls j) i (out j b) in ground arith)
          (λ x a. record { head = a.head; next = λ e. absurd (e refl) });
  }

  -- Into an empty list.
  first_store : Store
  unfolding s1
  first_store = record s1 { block_list = set s.block_list l addr }

  first-Scanned : Scanned s1 first_store l 0 addr [] (placed (addr ∷ []))
  unfolding first_store
  first-Scanned =
      let short : l < length s.block_list = omega (arith, lists.count) in
      record {
        seg = (
          record {
            head = λ e. get_elem?-set_self s.block_list l addr short;
            next = λ e. absurd (e refl);
          },
          record {
            free = ground arith;
            level = ground arith;
            previous_eq = ground arith;
            intact = ground arith;
            above = pos;
          },
          record { head = λ e. absurd (omega arith); next = λ e. ground arith },
        );
        joined_header = tt;
        node = λ k nn a. absurd (nn refl);
        frame = λ q a b c. refl;
        kept = λ q. record { is_first = refl; host_pid = refl; memory_idx = refl };
        inner = λ a. absurd (a refl);
        lists = λ j a. get_elem?-set_ne s.block_list {i = l} {j = j} addr (λ c. a (sym c));
        count = length-set s.block_list l addr;
      }

  abbrev Into : ℕ → List ℕ → Type 0
  Into fuel xs =
      (s' : Store) × (buddy_insert_block fuel l addr s1 ≡ ok (tt, s'))
      × Scanned s1 s' l 0 addr xs (place (λ _. false) addr xs)

  s1-level : (s1.mem addr).level ≡ l
  unfolding s1
  s1-level = ground arith

  insert-first :
      (fuel : ℕ)
      → get_elem? s1.block_list l ≡ some 0
      → buddy_insert_block fuel l addr s1 ≡ ok (tt, first_store)
  unfolding buddy_insert_block first_store
  insert-first fuel head =
      let short : l < length s.block_list = omega (arith, lists.count, few) in
      ground (arith, head, short)

  insert-list :
      (fuel : ℕ) (xs : List ℕ)
      → Seg s1 l 0 xs
      → has addr xs ≡ false
      → ((x : ℕ) (ys : List ℕ) → xs ≡ x ∷ ys → x < addr)
      → length xs ≤ fuel
      → Into fuel xs
  unfolding buddy_insert_block
  insert-list fuel [] seg absent after enough =
      (first_store, insert-first fuel (seg.head refl), first-Scanned)
  insert-list fuel (x ∷ xs) seg absent after enough =
      let here : At s1 l 0 addr x xs = record {
        seg = seg;
        front = (x, seg.0.head refl, λ a. absurd (a refl));
        above = pos;
        absent = absent;
        level = s1-level;
      } in
      let (s', run, done) = insert-place s1 l addr fuel 0 x xs here (λ z. after x xs refl) enough in
      (s', ground (arith, seg, run), done)

  -- The whole call.
  attach-run :
      (fuel size : ℕ) (s' : Store)
      → calculate_block_level size ≡ l
      → buddy_insert_block fuel l addr s1 ≡ ok (tt, s')
      → buddy_attach_memory fuel pid addr size s ≡ ok (true, s')
  unfolding buddy_attach_memory s1 init_free_block
  attach-run fuel size s' level run = ground (arith, level, run, pos)

-- Let the lists be well formed, and let a block of memory lie outside of them, behind the first
-- block of the list of its level, with a level below 32 and fuel for that list. Then
-- `buddy_attch_memory` succeeds, and the block stands in the list of its level, in the order of the
-- addresses; the other lists are as before.
pub buddy_attach_memory-inserted :
    (fuel pid addr size : ℕ) (s : Store) (ls : ℕ → List ℕ)
    → Lists s ls
    → Outside addr ls
    → 0 < addr
    → calculate_block_level size < 32
    → ((x : ℕ) (ys : List ℕ) → ls (calculate_block_level size) ≡ x ∷ ys → x < addr)
    → length (ls (calculate_block_level size)) ≤ fuel
    → (s' : Store) × (buddy_attach_memory fuel pid addr size s ≡ ok (true, s'))
      × Lists s'
          (put ls (calculate_block_level size) (inserted addr (ls (calculate_block_level size))))
buddy_attach_memory-inserted fuel pid addr size s ls lists out pos few after enough =
    let l : ℕ = calculate_block_level size in
    let before : Lists (s1 s ls pid addr l lists out pos few) ls =
      s1-Lists s ls pid addr l lists out pos few in
    let (s', run, done) =
      insert-list s ls pid addr l lists out pos few fuel (ls l) (before.seg l few) (out l few) after
        enough in
    (
      s',
      attach-run s ls pid addr l lists out pos few fuel size s' refl run,
      Scanned-Lists before few out done,
    )

-- With well-formed lists, `buddy_attch_memory` of a block outside of them that lies below the first
-- one of the list of its level reads the header of a null block.
pub buddy_attach_memory-below :
    (fuel pid addr size x : ℕ) (ys : List ℕ) (s : Store) (ls : ℕ → List ℕ)
    → Lists s ls
    → Outside addr ls
    → 0 < addr
    → calculate_block_level size < 32
    → ls (calculate_block_level size) ≡ x ∷ ys
    → addr < x
    → buddy_attach_memory (suc fuel) pid addr size s ≡ fault Fault.null_pointer
unfolding buddy_attach_memory buddy_insert_block insert_walk insert_before init_free_block
buddy_attach_memory-below fuel pid addr size x ys s ls lists out pos few first below =
    let seg : Seg s (calculate_block_level size) 0 (x ∷ ys) =
      subst (Seg s (calculate_block_level size) 0) first
        (lists.seg (calculate_block_level size) few) in
    let head : get_elem? s.block_list (calculate_block_level size) ≡ some x = seg.0.head refl in
    let previous : (s.mem x).previous ≡ 0 = seg.1.previous_eq in
    ground (arith, pos, head, previous, seg.1.above)

empty_heads :
    (addr size : ℕ) (mem : ℕ → Block) (s : Store)
    → buddy_init_system addr size mem ≡ some s
    → s.block_list ≡ replicate 32 0
unfolding buddy_init_system
empty_heads addr size mem s e = ground arith

-- `buddy_init_system` leaves every list empty.
pub buddy_init_system-Lists :
    (addr size : ℕ) (mem : ℕ → Block) (s : Store)
    → buddy_init_system addr size mem ≡ some s
    → Lists s (λ _. [])
buddy_init_system-Lists addr size mem s e = record {
  count = ap length (empty_heads addr size mem s e) ∙ length-replicate {A = ℕ} 32 0;
  seg = λ l few. record {
    head = λ z.
        ap (λ b. get_elem? b l) (empty_heads addr size mem s e) ∙ get_elem?-replicate 32 l 0 few;
    next = λ z. absurd (z refl);
  };
}
