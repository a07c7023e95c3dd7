-- ===== src/CircularBuffer/History.antt =====
-- What a circular buffer holds of all that was pushed into it.
use native.Mathlib.Nat.{mod-lt}
use native.Mathlib.Decide.{dec_lt}
use coin_data.Prelude.{
  ℕ, ◌+◌, ◌-◌, ◌%◌, ◌^◌, ◌≤◌, ◌<◌, max, min, ◌≡◌, refl, sym, ◌∙◌, ap, List, [], ◌∷◌, ◌++◌, some, ok,
  arith, length, get_elem?, set, length-set, length-append, length-replicate, get_elem?-append_lt,
  get_elem?-append_last, get_elem?-some, get_elem?-set_self, get_elem?-set_ne,
}
use coin_data.Prelude.Modulo.{mod-ne}
use coin_data.CircularBuffer.{CircularBuffer, create, push_back, nearest, copy}

-- The buffer holds the last `total_size - 1` elements of `xs`, all that was ever pushed, and each
-- stands in the slot of its position.
pub record Holds {A : Type 0} (b : CircularBuffer A) (xs : List A) : Type 0 where
  pub room : 0 < b.total_size
  pub sized : length b.buffer ≡ b.total_size
  pub small : length xs < 2 ^ 64
  pub pushed : b.tail ≡ length xs
  pub oldest : b.head ≡ length xs - (b.total_size - 1)
  pub elements :
      (i : ℕ) → b.head ≤ i → i < b.tail → get_elem? b.buffer (i % b.total_size) ≡ get_elem? xs i

module _ {A : Type 0} where
  pub create-Holds : (n : ℕ) (default : A) → 0 < n → Holds (create n default) []
  unfolding create
  create-Holds n default h = record {
    room = h;
    sized = length-replicate n default;
    small = omega arith;
    pushed = refl;
    oldest = omega arith;
    elements = λ i p q. absurd (omega arith);
  }

  module _ {b : CircularBuffer A} {xs : List A} (v : A) (h : Holds b xs) where
    idx : ℕ
    idx = b.tail % b.total_size

    idx-lt : idx < length b.buffer
    unfolding idx
    idx-lt = omega (arith, mod-lt b.tail h.room, h.sized)

    written : CircularBuffer A
    unfolding idx
    written = record {
      head = length xs + 1 - (b.total_size - 1);
      tail = length xs + 1;
      total_size = b.total_size;
      buffer = set b.buffer idx v;
    }

    elements_written :
        (i : ℕ)
        → length xs + 1 - (b.total_size - 1) ≤ i
        → i < length xs + 1
        → get_elem? (set b.buffer idx v) (i % b.total_size) ≡ get_elem? (xs ++ v ∷ []) i
    unfolding idx
    elements_written i p q = elim (dec_lt i (length xs)) [
      | yes old ↦
          get_elem?-set_ne b.buffer v (
            mod-ne i b.tail b.total_size (omega (arith, h.pushed))
              (omega (arith, h.pushed, h.room)))
          ∙ h.elements i (omega (arith, h.oldest)) (omega (arith, h.pushed))
          ∙ sym (get_elem?-append_lt xs (v ∷ []) i old)
      | no new ↦
          ap (λ k. get_elem? (set b.buffer (b.tail % b.total_size) v) (k % b.total_size))
            (at_tail new)
          ∙ get_elem?-set_self b.buffer (b.tail % b.total_size) v idx-lt
          ∙ sym (get_elem?-append_last xs v)
          ∙ ap (get_elem? (xs ++ v ∷ [])) (omega (arith, at_tail new, h.pushed))
    ]
      where
        at_tail : ¬ (i < length xs) → i ≡ b.tail
        at_tail new = omega (arith, h.pushed)

    push_back-written : length xs + 1 < 2 ^ 64 → push_back b v ≡ ok written
    unfolding push_back written
    push_back-written small = ground (arith, h.room, h.oldest, h.pushed, idx-lt)

    -- If the buffer holds the last `total_size - 1` elements of a history of fewer than 2 ^ 64 - 1,
    -- then `push_back` succeeds, and the buffer then holds those of the history with the new
    -- element, in the same room.
    pub push_back-Holds :
        length xs + 1 < 2 ^ 64
        → (b' : CircularBuffer A) × (push_back b v ≡ ok b')
          × Holds b' (xs ++ v ∷ [])
          × (b'.total_size ≡ b.total_size)
    unfolding written
    push_back-Holds small = (
      written,
      push_back-written small,
      record {
        room = h.room;
        sized = length-set b.buffer idx v ∙ h.sized;
        small = omega (arith, length-append xs (v ∷ []));
        pushed = omega (arith, length-append xs (v ∷ []));
        oldest = omega (arith, length-append xs (v ∷ []));
        elements = elements_written;
      },
      refl,
    )

  -- The position that `copy` and `operator[]` read, for any index asked for.
  abbrev pub clamped : CircularBuffer A → List A → ℕ → ℕ
  clamped b xs idx = max (length xs - (b.total_size - 1)) (min idx (length xs - 1))

  nearest-clamped :
      {b : CircularBuffer A} {xs : List A} (idx : ℕ)
      → Holds b xs
      → 0 < length xs
      → 2 ≤ b.total_size
      → nearest b idx ≡ clamped b xs idx
  unfolding nearest
  nearest-clamped idx h some_pushed big =
      ground (arith, h.small, h.oldest, h.pushed, some_pushed, big)

  -- In a buffer with room for two or more that holds the end of a history that is not empty, `copy`
  -- gives, for any index, the element that was pushed at the nearest position still held.
  pub copy-Holds :
      {b : CircularBuffer A} {xs : List A} (idx : ℕ)
      → Holds b xs
      → 0 < length xs
      → 2 ≤ b.total_size
      → (x : A) × (copy b idx ≡ ok x) × (get_elem? xs (clamped b xs idx) ≡ some x)
  unfolding copy
  copy-Holds {b} {xs} idx h some_pushed big =
      let (x, e) = get_elem?-some xs (clamped b xs idx) (omega arith) in (x, read x e, e)
    where
      read : (x : A) → get_elem? xs (clamped b xs idx) ≡ some x → copy b idx ≡ ok x
      read x e = ground (
        arith,
        nearest-clamped idx h some_pushed big,
        h.elements (clamped b xs idx) (omega (arith, h.oldest)) (omega (arith, h.pushed)),
      )

  -- Reading a position that is held gives the element pushed there.
  pub copy_held :
      {b : CircularBuffer A} {xs : List A} (idx : ℕ)
      → Holds b xs
      → b.head ≤ idx
      → idx < length xs
      → 2 ≤ b.total_size
      → (x : A) × (copy b idx ≡ ok x) × (get_elem? xs idx ≡ some x)
  copy_held {b} {xs} idx h from below big =
      let (x, c, e) = copy-Holds idx h (omega arith) big in
      let same : clamped b xs idx ≡ idx = omega (arith, h.oldest) in (x, c, rw same at e)

  -- A buffer made for one element holds none.
  pub Holds-one :
      {b : CircularBuffer A} {xs : List A} → Holds b xs → b.total_size ≡ 1 → b.head ≡ b.tail
  Holds-one h one = omega (arith, h.oldest, h.pushed)
