-- ===== src/ThreadPool/Queue/Fifo.antt =====
-- The queue as a bounded first-in first-out buffer.
use native.Mathlib.Nat.{add-mod_right, mod-eq_of_lt, mod-lt}
use native.Mathlib.Decide.{dec_lt}
use coin_data.Prelude.Modulo.{mod-ne, mod-next, mod-sub}
use coin_data.Prelude.{
  ℕ, ◌+◌, ◌-◌, ◌%◌, ◌≤◌, ◌<◌, ◌≡◌, ◌≢◌, refl, sym, ◌∙◌, ap, true, false, List, [], ◌∷◌, ◌++◌, none,
  some, ok, arith, length, get_elem?, set, length-set, length-append, length-replicate,
  get_elem?-append_lt, get_elem?-append_last, get_elem?-some, get_elem?-set_self, get_elem?-set_ne,
}
use coin_data.ThreadPool.Queue.{LockFreeQueue, create, push_back, pop_front, size}

-- Of the elements `xs` that were pushed, the first `popped` were popped; the others are in the buffer.
pub record IsFifo {A : Type 0} (q : LockFreeQueue A) (xs : List A) (popped : ℕ) : Type 0 where
  pub room : 0 < q.capacity
  pub sized : length q.buffer ≡ q.capacity
  pub ordered : popped ≤ length xs
  pub bounded : length xs < popped + q.capacity
  pub first : q.head ≡ popped % q.capacity
  pub last : q.tail ≡ length xs % q.capacity
  pub elements :
      (i : ℕ) → popped ≤ i → i < length xs → get_elem? q.buffer (i % q.capacity) ≡ get_elem? xs i

module _ {A : Type 0} where
  pub create-IsFifo : (n : ℕ) (default : A) → 0 < n → IsFifo (create n default) [] 0
  unfolding create
  create-IsFifo n default h = record {
    room = h;
    sized = length-replicate n default;
    ordered = omega arith;
    bounded = omega arith;
    first = sym (mod-eq_of_lt h);
    last = sym (mod-eq_of_lt h);
    elements = λ i a b. absurd (omega arith);
  }

  -- The element that is written to the slot of the tail, and then published.
  pub store-IsFifo :
      {q : LockFreeQueue A} {xs : List A} {popped : ℕ} (v : A)
      → IsFifo q xs popped
      → IsFifo (record q { buffer = set q.buffer (length xs % q.capacity) v }) xs popped
  store-IsFifo {q} {xs} {popped} v h = record {
    room = h.room;
    sized = length-set q.buffer (length xs % q.capacity) v ∙ h.sized;
    ordered = h.ordered;
    bounded = h.bounded;
    first = h.first;
    last = h.last;
    elements = λ i a b.
        get_elem?-set_ne q.buffer v (mod-ne i (length xs) q.capacity b (omega (arith, h.bounded)))
        ∙ h.elements i a b;
  }

  pub publish-IsFifo :
      {q : LockFreeQueue A} {xs : List A} {popped : ℕ} (v : A)
      → IsFifo q xs popped
      → length xs + 1 < popped + q.capacity
      → get_elem? q.buffer (length xs % q.capacity) ≡ some v
      → IsFifo (record q { tail = (length xs + 1) % q.capacity }) (xs ++ v ∷ []) popped
  publish-IsFifo {q} {xs} {popped} v h few written = record {
    room = h.room;
    sized = h.sized;
    ordered = omega (arith, count, h.ordered);
    bounded = omega (arith, count);
    first = h.first;
    last = ap (λ k. k % q.capacity) (sym count);
    elements = λ i a b. elim (dec_lt i (length xs)) [
      | yes p ↦ h.elements i a p ∙ sym (get_elem?-append_lt xs (v ∷ []) i p)
      | no p ↦
          let e : i ≡ length xs = omega (arith, count) in
          rw e (written ∙ sym (get_elem?-append_last xs v))
    ];
  }
    where
      count : length (xs ++ v ∷ []) ≡ length xs + 1
      count = omega (arith, length-append xs (v ∷ []))

  pub pop-IsFifo :
      {q : LockFreeQueue A} {xs : List A} {popped : ℕ}
      → IsFifo q xs popped
      → popped < length xs
      → IsFifo (record q { head = (popped + 1) % q.capacity }) xs (popped + 1)
  pop-IsFifo {q} {xs} {popped} h some_left = record {
    room = h.room;
    sized = h.sized;
    ordered = omega arith;
    bounded = omega (arith, h.bounded);
    first = refl;
    last = h.last;
    elements = λ i a b. h.elements i (omega arith) b;
  }

  -- Full and empty as the code tests them.
  pub full_test :
      {q : LockFreeQueue A} {xs : List A} {popped : ℕ}
      → IsFifo q xs popped
      → length xs + 1 < popped + q.capacity
      → (length xs + 1) % q.capacity ≢ popped % q.capacity
  full_test {q} {xs} {popped} h few =
      mod-ne popped (length xs + 1) q.capacity (omega (arith, h.ordered)) few

  pub empty_test :
      {q : LockFreeQueue A} {xs : List A} {popped : ℕ}
      → IsFifo q xs popped
      → popped < length xs
      → length xs % q.capacity ≢ popped % q.capacity
  empty_test {q} {xs} {popped} h some_left =
      mod-ne popped (length xs) q.capacity some_left (omega (arith, h.bounded))

module _ {A : Type 0} {q : LockFreeQueue A} {xs : List A} {popped : ℕ}
    (h : IsFifo q xs popped) where
  tail-lt : length xs % q.capacity < length q.buffer
  tail-lt = omega (arith, mod-lt (length xs) h.room, h.sized)

  pub next_tail : (q.tail + 1) % q.capacity ≡ (length xs + 1) % q.capacity
  next_tail = ap (λ t. (t + 1) % q.capacity) h.last ∙ mod-next (length xs) q.capacity

  pub next_head : (q.head + 1) % q.capacity ≡ (popped + 1) % q.capacity
  next_head = ap (λ t. (t + 1) % q.capacity) h.first ∙ mod-next popped q.capacity

  pub full_head : length xs + 1 ≡ popped + q.capacity → (q.tail + 1) % q.capacity ≡ q.head
  full_head full =
      next_tail ∙ ap (λ k. k % q.capacity) full ∙ add-mod_right popped q.capacity ∙ sym h.first

  abbrev pushed : A → LockFreeQueue A
  pushed v = record q {
    buffer = set q.buffer (length xs % q.capacity) v;
    tail = (length xs + 1) % q.capacity;
  }

  -- With fewer than `capacity - 1` elements in the queue, `push_back` adds its element at the end
  -- and says true; with `capacity - 1` elements it changes nothing and says false.
  pub push_back-IsFifo :
      (v : A)
      → (length xs + 1 < popped + q.capacity
          → (q' : LockFreeQueue A) × (push_back q v ≡ ok (true, q'))
            × IsFifo q' (xs ++ v ∷ []) popped)
        × (length xs + 1 ≡ popped + q.capacity → push_back q v ≡ ok (false, q))
  unfolding push_back
  push_back-IsFifo v = (
    λ few. (
      pushed v,
      ground (arith, h.room, next_tail, h.last, h.first, tail-lt, full_test h few),
      publish-IsFifo v (store-IsFifo v h) few
          (get_elem?-set_self q.buffer (length xs % q.capacity) v tail-lt),
    ),
    λ full. ground (arith, h.room, full_head full),
  )

  -- `pop_front` gives the oldest element that is left and takes it from the queue; of an empty
  -- queue it gives none and changes nothing.
  pub pop_front-IsFifo :
      (popped < length xs
        → (x : A) × (q' : LockFreeQueue A) × (pop_front q ≡ ok (some x, q'))
          × (get_elem? xs popped ≡ some x)
          × IsFifo q' xs (popped + 1))
      × (popped ≡ length xs → pop_front q ≡ ok (none, q))
  unfolding pop_front
  pop_front-IsFifo = (
    λ left.
        let (x, e) = get_elem?-some xs popped left in
        (
          x,
          record q { head = (popped + 1) % q.capacity },
          ground (
            arith,
            h.room,
            next_head,
            h.last,
            h.first,
            h.elements popped (omega arith) left,
            e,
            empty_test h left,
          ),
          e,
          pop-IsFifo h left,
        ),
    λ empty. ground (arith, h.first, h.last, empty),
  )

  -- `size` is the number of elements that were pushed and not yet popped.
  pub size-IsFifo : size q ≡ ok (length xs - popped)
  unfolding size
  size-IsFifo = ground (arith, h.room, dist)
    where
      split : length xs ≡ popped + (length xs - popped)
      split = omega (arith, h.ordered)

      dist : (q.tail + q.capacity - q.head) % q.capacity ≡ length xs - popped
      dist =
          ap (λ t. (t + q.capacity - q.head) % q.capacity) h.last
          ∙ ap (λ t. (length xs % q.capacity + q.capacity - t) % q.capacity) h.first
          ∙ ap (λ t. (t % q.capacity + q.capacity - popped % q.capacity) % q.capacity) split
          ∙ mod-sub popped (length xs - popped) q.capacity (omega (arith, h.bounded, h.ordered))
