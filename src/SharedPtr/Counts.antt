-- ===== src/SharedPtr/Counts.antt =====
-- A counter holds the number of pointers that share it; it, its object and its mutex are there as long
-- as there is one.
use native.Mathlib.Decide.{dec_lt, ℕ_discrete}
use coin_data.Prelude.{
  ℕ, zero, suc, ◌+◌, ◌-◌, ◌^◌, ◌≤◌, ◌<◌, ◌≡◌, ◌≢◌, refl, ◌∙◌, ap, true, false, not, List, [], ◌∷◌,
  none, some, ok, arith, length, get_elem?, set, set_same, length-set, ◌==◌, if◌then◌else◌,
}
use coin_data.SharedPtr.{Ptr, Heap, null, assign, decreace, increace, release, construct, holding}

abbrev pub handle : ℕ → Ptr
handle a = record { raw_ptr = a; used_counter = a; mutex = a }

abbrev one_if : ℕ → ℕ → ℕ
one_if a b = if a == b then 1 else 0

-- The number of pointers to `a`.
unfoldable pub sharers : ℕ → List Ptr → ℕ
sharers a [] = 0
sharers a (p ∷ ps) = one_if p.used_counter a + sharers a ps

pub sharers-set :
    (a i : ℕ) (ps : List Ptr) {p : Ptr} (q : Ptr)
    → get_elem? ps i ≡ some p
    → sharers a (set ps i q) + one_if p.used_counter a ≡ sharers a ps + one_if q.used_counter a
unfolding sharers
sharers-set a i [] q e = cc
sharers-set a zero (x ∷ ps) {p} q e = ground (arith, e)
sharers-set a (suc i) (x ∷ ps) {p} q e = omega (arith, sharers-set a i ps q e)

pub sharers-length : (a : ℕ) (ps : List Ptr) → sharers a ps ≤ length ps
unfolding sharers
sharers-length a [] = omega arith
sharers-length a (x ∷ ps) = ground (arith, sharers-length a ps)

-- The pointers `ps` are all the pointers there are.
pub record Counted (ps : List Ptr) (h : Heap) : Type 0 where
  pub few : length ps < 2 ^ 31
  pub whole : (i : ℕ) (p : Ptr) → get_elem? ps i ≡ some p → p ≡ handle p.used_counter
  pub counters :
      (a : ℕ) → a ≢ 0 → h.counters a ≡ (if sharers a ps == 0 then none else some (sharers a ps))
  pub objects : (a : ℕ) → a ≢ 0 → h.objects a ≡ not (sharers a ps == 0)
  pub mutexes : (a : ℕ) → a ≢ 0 → h.mutexes a ≡ not (sharers a ps == 0)

whole-set :
    (i : ℕ) (ps : List Ptr) (a : ℕ)
    → ((j : ℕ) (p : Ptr) → get_elem? ps j ≡ some p → p ≡ handle p.used_counter)
    → (j : ℕ) (p : Ptr) → get_elem? (set ps i (handle a)) j ≡ some p
    → p ≡ handle p.used_counter
whole-set i [] a w j p e = w j p e
whole-set zero (x ∷ ps) a w zero p e = cc
whole-set zero (x ∷ ps) a w (suc j) p e = w (suc j) p e
whole-set (suc i) (x ∷ ps) a w zero p e = w zero p e
whole-set (suc i) (x ∷ ps) a w (suc j) p e = whole-set i ps a (λ k q. w (suc k) q) j p e

-- `decreace_` on the pointer `i`, to `a`, leaves what an empty pointer in its place counts.
pub decreace-Counted :
    (i a : ℕ) (ps : List Ptr) (h : Heap)
    → Counted ps h
    → get_elem? ps i ≡ some (handle a)
    → a ≢ 0
    → (p : Ptr) × (h' : Heap) × (decreace (handle a) h ≡ ok (p, h'))
      × (holding p h' ≡ ok tt)
      × Counted (set ps i null) h'
unfolding decreace
decreace-Counted i a ps h c e nonnull = elim (dec_lt 1 (sharers a ps)) [
  | yes many ↦ (
    record { raw_ptr = 0; used_counter = 0; mutex = a },
    record h { counters = assign h.counters a (some (sharers a ps - 1)) },
    ground (arith, nonnull, c.counters a nonnull, many, bound, c.few),
    ground (arith, nonnull, c.mutexes a nonnull, many),
    record {
      few = omega (arith, c.few, length-set ps i null);
      whole = whole-set i ps 0 c.whole;
      counters = λ b n. ground (arith, c.counters b n, sharers-set b i ps null e, many);
      objects = λ b n. ground (arith, c.objects b n, sharers-set b i ps null e, many);
      mutexes = λ b n. ground (arith, c.mutexes b n, sharers-set b i ps null e, many);
    },
  )
  | no last ↦ (
    null,
    record {
      objects = assign h.objects a false;
      counters = assign h.counters a none;
      mutexes = assign h.mutexes a false;
    },
    ground (arith, nonnull, c.counters a nonnull, c.mutexes a nonnull, here, last),
    refl,
    record {
      few = omega (arith, c.few, length-set ps i null);
      whole = whole-set i ps 0 c.whole;
      counters = λ b n. ground (arith, c.counters b n, sharers-set b i ps null e, last, here);
      objects = λ b n. ground (arith, c.objects b n, sharers-set b i ps null e, last, here);
      mutexes = λ b n. ground (arith, c.mutexes b n, sharers-set b i ps null e, last, here);
    },
  )
]
  where
    here : 0 < sharers a ps
    here = ground (arith, sharers-set a i ps null e)

    bound : sharers a ps < 2 ^ 31
    bound = omega (arith, sharers-length a ps, c.few)

-- `increace_` for an empty pointer `i` that comes to share `a` counts it.
pub increace-Counted :
    (i a : ℕ) (ps : List Ptr) (h : Heap)
    → Counted ps h
    → get_elem? ps i ≡ some null
    → a ≢ 0
    → 0 < sharers a ps
    → (h' : Heap) × (increace a h ≡ ok h')
      × (holding (handle a) h' ≡ ok tt)
      × Counted (set ps i (handle a)) h'
unfolding increace
increace-Counted i a ps h c e nonnull shared = (
  record h { counters = assign h.counters a (some (sharers a ps + 1)) },
  ground (arith, nonnull, c.counters a nonnull, shared, bound),
  ground (arith, nonnull, c.mutexes a nonnull, shared),
  record {
    few = omega (arith, c.few, length-set ps i (handle a));
    whole = whole-set i ps a c.whole;
    counters = λ b n. ground (arith, c.counters b n, sharers-set b i ps (handle a) e, shared, n);
    objects = λ b n. ground (arith, c.objects b n, sharers-set b i ps (handle a) e, shared, n);
    mutexes = λ b n. ground (arith, c.mutexes b n, sharers-set b i ps (handle a) e, shared, n);
  },
)
  where
    bound : sharers a ps < 2 ^ 31
    bound = omega (arith, sharers-length a ps, c.few)

-- The constructor, with an allocation that no pointer shares.
pub construct-Counted :
    (i a : ℕ) (ps : List Ptr) (h : Heap)
    → Counted ps h
    → get_elem? ps i ≡ some null
    → a ≢ 0
    → sharers a ps ≡ 0
    → (h' : Heap) × (construct a h ≡ ok (handle a, h')) × Counted (set ps i (handle a)) h'
unfolding construct increace
construct-Counted i a ps h c e nonnull unshared = (
  record {
    objects = assign h.objects a true;
    counters = assign (assign h.counters a (some 0)) a (some 1);
    mutexes = assign h.mutexes a true;
  },
  ground (arith, nonnull),
  record {
    few = omega (arith, c.few, length-set ps i (handle a));
    whole = whole-set i ps a c.whole;
    counters = λ b n. ground (arith, c.counters b n, sharers-set b i ps (handle a) e, unshared, n);
    objects = λ b n. ground (arith, c.objects b n, sharers-set b i ps (handle a) e, unshared, n);
    mutexes = λ b n. ground (arith, c.mutexes b n, sharers-set b i ps (handle a) e, unshared, n);
  },
)

-- Releasing the pointer `i`, whether it is empty or not.
pub release-Counted :
    (i a : ℕ) (ps : List Ptr) (h : Heap)
    → Counted ps h
    → get_elem? ps i ≡ some (handle a)
    → (p : Ptr) × (h' : Heap) × (release (handle a) h ≡ ok (p, h')) × Counted (set ps i null) h'
unfolding release
release-Counted i a ps h c e = elim (ℕ_discrete a 0) [
  | yes z ↦ (handle a, h, ground (arith, z), rw (set_same ps i (e ∙ ap (λ x. some (handle x)) z)) c)
  | no n ↦
      let (p, h', d, held, c') = decreace-Counted i a ps h c e n in
      (p, h', ground (arith, n, d, held, c.mutexes a n, sharers-set a i ps null e), c')
]
