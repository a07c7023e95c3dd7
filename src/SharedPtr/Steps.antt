-- ===== src/SharedPtr/Steps.antt =====
-- What each operation on shared pointers does to the pointers, and that the counters stay right.
use native.Mathlib.Decide.{ℕ_discrete}
use coin_data.Prelude.{
  ℕ, ◌<◌, ◌≡◌, ◌≢◌, refl, sym, ◌∙◌, ap, List, none, some, Result, ok, arith, length, get_elem?, set,
  set_same, set-set, get_elem?-set_self, get_elem?-set_ne, lt_of_get_elem?, ◌==◌, if◌then◌else◌,
  get_elem?-some,
}
use coin_data.SharedPtr.{
  Ptr, Heap, null, increace, release, holding, unlocking, World, make, copy, move, reset,
  used_count,
}
use coin_data.SharedPtr.Counts.{
  handle, sharers, sharers-set, Counted, release-Counted, increace-Counted, decreace-Counted,
  construct-Counted,
}

pub data Op : Type 0 where
  makes : ℕ → ℕ → Op
  copies : ℕ → ℕ → Op
  moves : ℕ → ℕ → Op
  resets : ℕ → Op

abbrev pub perform : Op → World → Result World
perform (Op.makes i a) = make i a
perform (Op.copies i j) = copy i j
perform (Op.moves i j) = move i j
perform (Op.resets i) = reset i

-- The pointers after an operation, in terms of what they point to.
abbrev pub target : List Ptr → ℕ → ℕ
target ps i = elim (get_elem? ps i) [ none ↦ 0 | some p ↦ p.raw_ptr ]

abbrev pub after : Op → List Ptr → List Ptr
after (Op.makes i a) ps = set ps i (handle a)
after (Op.copies i j) ps = if target ps j == 0 then ps else set ps i (handle (target ps j))
after (Op.moves i j) ps =
    if target ps j == 0
    then ps
    else if i == j
    then ps
    else set (set ps i (handle (target ps j))) j null
after (Op.resets i) ps = set ps i null

-- What the caller keeps to: the pointers exist, one that is made is empty and its allocation new.
abbrev pub Allowed : Op → List Ptr → Type 0
Allowed (Op.makes i a) ps = (get_elem? ps i ≡ some null) × (a ≢ 0) × (sharers a ps ≡ 0)
Allowed (Op.copies i j) ps = (i < length ps) × (j < length ps)
Allowed (Op.moves i j) ps = (i < length ps) × (j < length ps)
Allowed (Op.resets i) ps = i < length ps

module _ (w : World) (c : Counted w.handles w.heap) where
  found : (i : ℕ) → i < length w.handles → (a : ℕ) × (get_elem? w.handles i ≡ some (handle a))
  found i lt =
      let (p, e) = get_elem?-some w.handles i lt in (p.used_counter, e ∙ ap some (c.whole i p e))

  abbrev Becomes : Result World → List Ptr → Type 0
  Becomes r ps = (w' : World) × (r ≡ ok w') × (w'.handles ≡ ps) × Counted w'.handles w'.heap

  -- Another pointer takes over what `j` shares.
  take_over :
      (i j a b : ℕ)
      → get_elem? w.handles i ≡ some (handle a)
      → get_elem? w.handles j ≡ some (handle b)
      → b ≢ 0
      → i ≢ j
      → (p : Ptr) × (h1 : Heap) × (h2 : Heap) × (release (handle a) w.heap ≡ ok (p, h1))
        × (holding (handle b) h1 ≡ ok tt)
        × (increace b h1 ≡ ok h2)
        × (holding (handle b) h2 ≡ ok tt)
        × Counted (set w.handles i (handle b)) h2
  take_over i j a b ei ej nonnull differ =
      let (p, h1, released, c1) = release-Counted i a w.handles w.heap c ei in
      let still : get_elem? (set w.handles i null) j ≡ some (handle b) =
        get_elem?-set_ne w.handles {i = i} {j = j} null differ ∙ ej in
      let here : 0 < sharers b (set w.handles i null) =
        ground (arith, sharers-set b j (set w.handles i null) null still) in
      let (h2, counted, held, c2) =
        increace-Counted i b (set w.handles i null) h1 c1
          (get_elem?-set_self w.handles i null (lt_of_get_elem? w.handles i ei)) nonnull here in
      (
        p,
        h1,
        h2,
        released,
        ground (arith, nonnull, c1.mutexes b nonnull, here),
        counted,
        held,
        rw (set-set w.handles i null (handle b)) at c2,
      )

  copy-Counted :
      (i j : ℕ)
      → i < length w.handles
      → j < length w.handles
      → Becomes (copy i j w) (after (Op.copies i j) w.handles)
  unfolding copy
  copy-Counted i j li lj =
      let (a, ei) = found i li in
      let (b, ej) = found j lj in
      elim (ℕ_discrete b 0) [
        | yes z ↦ (w, ground (arith, ei, ej, z), ground (arith, ej, z), c)
        | no n ↦ elim (ℕ_discrete i j) [
          | yes s ↦ (w, ground (arith, ei, ej, n, s), kept a b ei ej n s, c)
          | no d ↦
              let (p, h1, h2, e1, e2, e3, e4, c2) = take_over i j a b ei ej n d in
              (
                record { handles = set w.handles i (handle b); heap = h2 },
                ground (arith, ei, ej, n, d, e1, e2, e3, e4),
                ground (arith, ej, n),
                c2,
              )
        ]
      ]
    where
      kept :
          (a b : ℕ)
          → get_elem? w.handles i ≡ some (handle a)
          → get_elem? w.handles j ≡ some (handle b)
          → b ≢ 0
          → i ≡ j
          → w.handles ≡ after (Op.copies i j) w.handles
      kept a b ei ej n s =
          let same : set w.handles i (handle b) ≡ w.handles =
            set_same w.handles i (ap (get_elem? w.handles) s ∙ ej) in
          ground (arith, ej, n, same)

  move-Counted :
      (i j : ℕ)
      → i < length w.handles
      → j < length w.handles
      → Becomes (move i j w) (after (Op.moves i j) w.handles)
  unfolding move
  move-Counted i j li lj =
      let (a, ei) = found i li in
      let (b, ej) = found j lj in
      elim (ℕ_discrete b 0) [
        | yes z ↦ (w, ground (arith, ei, ej, z), ground (arith, ej, z), c)
        | no n ↦ elim (ℕ_discrete i j) [
          | yes s ↦ (w, ground (arith, ei, ej, n, s), ground (arith, ej, n, s), c)
          | no d ↦
              let (p, h1, h2, e1, e2, e3, e4, c2) = take_over i j a b ei ej n d in
              let ej2 : get_elem? (set w.handles i (handle b)) j ≡ some (handle b) =
                get_elem?-set_ne w.handles {i = i} {j = j} (handle b) d ∙ ej in
              let (q, h3, e5, e6, c3) =
                decreace-Counted j b (set w.handles i (handle b)) h2 c2 ej2 n in
              let ei3 : get_elem? (set (set w.handles i (handle b)) j null) i ≡ some (handle b) =
                get_elem?-set_ne (set w.handles i (handle b)) {i = j} {j = i} null (λ e. d (sym e))
                ∙ get_elem?-set_self w.handles i (handle b) li in
              let here : 0 < sharers b (set (set w.handles i (handle b)) j null) =
                ground
                  (arith, n, sharers-set b i (set (set w.handles i (handle b)) j null) null ei3) in
              let alive : unlocking (handle b) h3 ≡ ok tt =
                ground (arith, n, here, c3.mutexes b n) in
              (
                record { handles = set (set w.handles i (handle b)) j null; heap = h3 },
                ground (arith, ei, ej, n, d, e1, e2, e3, e5, alive),
                ground (arith, ej, n, d),
                c3,
              )
        ]
      ]

  reset-Counted :
      (i : ℕ) → i < length w.handles → Becomes (reset i w) (after (Op.resets i) w.handles)
  unfolding reset
  reset-Counted i li =
      let (a, ei) = found i li in
      let (p, h1, e1, c1) = release-Counted i a w.handles w.heap c ei in
      elim (ℕ_discrete a 0) [
        | yes z ↦ (
          w,
          ground (arith, ei, z),
          sym (set_same w.handles i (ei ∙ ap (λ x. some (handle x)) z)),
          c,
        )
        | no n ↦ (
          record { handles = set w.handles i null; heap = h1 },
          ground (arith, ei, n, e1),
          refl,
          c1,
        )
      ]

  make-Counted :
      (i a : ℕ)
      → get_elem? w.handles i ≡ some null
      → a ≢ 0
      → sharers a w.handles ≡ 0
      → Becomes (make i a w) (after (Op.makes i a) w.handles)
  unfolding make
  make-Counted i a e n u =
      let (h, e1, c1) = construct-Counted i a w.handles w.heap c e n u in
      (record { handles = set w.handles i (handle a); heap = h }, ground (arith, e, e1), refl, c1)

-- Where each counter has the number of pointers that share it, and the pointers named exist (and
-- one that is made is empty, and its allocation new), construction, copy, move and reset succeed,
-- do to the pointers what `after` says, and leave each counter with that number: an object is there
-- exactly as long as a pointer shares it.
pub perform-Counted :
    (op : Op) (w : World)
    → Counted w.handles w.heap
    → Allowed op w.handles
    → (w' : World) × (perform op w ≡ ok w')
      × (w'.handles ≡ after op w.handles)
      × Counted w'.handles w'.heap
perform-Counted (Op.makes i a) w c (e, n, u) = make-Counted w c i a e n u
perform-Counted (Op.copies i j) w c (li, lj) = copy-Counted w c i j li lj
perform-Counted (Op.moves i j) w c (li, lj) = move-Counted w c i j li lj
perform-Counted (Op.resets i) w c li = reset-Counted w c i li

-- Where each counter has the number of pointers that share it, `used_count` of one of them is that
-- number, and 0 for an empty one.
pub used_count-Counted :
    (i : ℕ) (p : Ptr) (w : World)
    → Counted w.handles w.heap
    → get_elem? w.handles i ≡ some p
    → used_count p w.heap ≡ ok (if p.raw_ptr == 0 then 0 else sharers p.used_counter w.handles)
unfolding used_count
used_count-Counted i p w c e = elim (ℕ_discrete p.used_counter 0) [
  | yes z ↦ ground (arith, z, ap Ptr.raw_ptr (c.whole i p e))
  | no n ↦ ground (
    arith,
    n,
    ap Ptr.raw_ptr (c.whole i p e),
    c.counters p.used_counter n,
    sharers-set p.used_counter i w.handles null e,
  )
]
