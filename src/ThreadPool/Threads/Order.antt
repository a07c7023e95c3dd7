-- ===== src/ThreadPool/Threads/Order.antt =====
-- Whatever the schedule, values leave the queue in the order in which they entered it.
use native.Mathlib.Nat.{mod-lt}
use native.Mathlib.Decide.{dec_lt, ℕ_discrete}
use coin_data.Prelude.Modulo.{mod-next}
use coin_data.Prelude.{
  ℕ, ◌+◌, ◌%◌, ◌<◌, ◌≡◌, refl, sym, ◌∙◌, ap, false, List, [], ◌∷◌, ◌++◌, some, Result, ok, arith,
  length, get_elem?, set, length-append, get_elem?-append_lt, get_elem?-some, get_elem?-set_self,
  take, take-append_last, take-append_le, ◌==◌, Bool-cases, inl, inr,
}
use coin_data.ThreadPool.Queue.{LockFreeQueue}
use coin_data.ThreadPool.Queue.Fifo.{
  IsFifo, next_tail, full_head, create-IsFifo, store-IsFifo, publish-IsFifo, pop-IsFifo,
}
use coin_data.ThreadPool.Threads.{
  Producer, Consumer, System, Turn, produce, consume, step, run, start,
}

module _ {A : Type 0} where
  -- What a call in progress knows.
  unfoldable pub ProducerKnows : LockFreeQueue A → List A → ℕ → Producer A → Type 0
  ProducerKnows q xs popped Producer.outside = Unit {0}
  ProducerKnows q xs popped (Producer.checked v current next) =
      (current ≡ length xs % q.capacity)
      × (next ≡ (length xs + 1) % q.capacity)
      × (length xs + 1 < popped + q.capacity)
  ProducerKnows q xs popped (Producer.written v next) =
      (next ≡ (length xs + 1) % q.capacity)
      × (length xs + 1 < popped + q.capacity)
      × (get_elem? q.buffer (length xs % q.capacity) ≡ some v)

  unfoldable pub ConsumerKnows : ℕ → List A → ℕ → Consumer A → Type 0
  ConsumerKnows n xs popped Consumer.outside = Unit {0}
  ConsumerKnows n xs popped (Consumer.checked current) =
      (current ≡ popped % n) × (popped < length xs)
  ConsumerKnows n xs popped (Consumer.fetched v current) =
      (current ≡ popped % n) × (popped < length xs) × (get_elem? xs popped ≡ some v)

  -- The popped values are the first of those that were pushed, fewer than `capacity` behind them.
  pub record InOrder (s : System A) : Type 0 where
    pub holds : IsFifo s.queue s.pushed (length s.popped)
    pub prefix : s.popped ≡ take (length s.popped) s.pushed
    pub producer_knows : ProducerKnows s.queue s.pushed (length s.popped) s.producer
    pub consumer_knows : ConsumerKnows s.queue.capacity s.pushed (length s.popped) s.consumer

  abbrev Goes : Result (System A) → ℕ → Type 0
  Goes r n = (s' : System A) × (r ≡ ok s') × InOrder s' × (s'.queue.capacity ≡ n)

  -- A call in progress is not disturbed by what the other thread does.
  consumer_after_push :
      (c : Consumer A) (n : ℕ) (xs : List A) (popped : ℕ) (v : A)
      → ConsumerKnows n xs popped c
      → ConsumerKnows n (xs ++ v ∷ []) popped c
  unfolding ConsumerKnows
  consumer_after_push Consumer.outside n xs popped v k = tt
  consumer_after_push (Consumer.checked current) n xs popped v (a, b) =
      (a, omega (arith, length-append xs (v ∷ []), b))
  consumer_after_push (Consumer.fetched w current) n xs popped v (a, b, e) =
      (a, omega (arith, length-append xs (v ∷ []), b), get_elem?-append_lt xs (v ∷ []) popped b ∙ e)

  producer_after_pop :
      (p : Producer A) (q : LockFreeQueue A) (xs : List A) (popped : ℕ) (head : ℕ)
      → ProducerKnows q xs popped p
      → ProducerKnows (record q { head = head }) xs (popped + 1) p
  unfolding ProducerKnows
  producer_after_pop Producer.outside q xs popped head k = tt
  producer_after_pop (Producer.checked v current next) q xs popped head (a, b, c) =
      (a, b, omega (arith, c))
  producer_after_pop (Producer.written v next) q xs popped head (a, b, c) = (a, omega (arith, b), c)

  produce-InOrder :
      (p : Producer A) (v : A) (s : System A)
      → s.producer ≡ p
      → InOrder s
      → Goes (produce p v s) s.queue.capacity
  unfolding produce ProducerKnows ConsumerKnows
  produce-InOrder Producer.outside v s e h =
      elim (Bool-cases ((s.queue.tail + 1) % s.queue.capacity == s.queue.head)) [
        | inl full ↦ (s, ground (arith, h.holds.room, full), h, refl)
        | inr free ↦ (
          record s {
            producer = Producer.checked v s.queue.tail ((s.queue.tail + 1) % s.queue.capacity);
          },
          ground (arith, h.holds.room, free),
          record {
            holds = h.holds;
            prefix = h.prefix;
            producer_knows = (h.holds.last, next_tail h.holds, few free);
            consumer_knows = h.consumer_knows;
          },
          refl,
        )
      ]
    where
      few :
          ((s.queue.tail + 1) % s.queue.capacity == s.queue.head) ≡ false
          → length s.pushed + 1 < length s.popped + s.queue.capacity
      few free = elim (dec_lt (length s.pushed + 1) (length s.popped + s.queue.capacity)) [
        | yes p ↦ p
        | no p ↦ absurd (ground (arith, free, full_head h.holds (omega (arith, h.holds.bounded))))
      ]
  produce-InOrder (Producer.checked w current next) v s e h =
      let (at, nx, few) : ProducerKnows s.queue s.pushed (length s.popped)
          (Producer.checked w current next) =
        rw e at h.producer_knows in
      let q : LockFreeQueue A = record s.queue {
        buffer = set s.queue.buffer (length s.pushed % s.queue.capacity) w;
      } in
      let short : length s.pushed % s.queue.capacity < length s.queue.buffer =
        omega (arith, mod-lt (length s.pushed) h.holds.room, h.holds.sized) in
      (
        record s { queue = q; producer = Producer.written w next },
        ground (arith, at, short),
        record {
          holds = store-IsFifo w h.holds;
          prefix = h.prefix;
          producer_knows = (
            nx,
            few,
            get_elem?-set_self s.queue.buffer (length s.pushed % s.queue.capacity) w short,
          );
          consumer_knows = h.consumer_knows;
        },
        refl,
      )
  produce-InOrder (Producer.written w next) v s e h =
      let (nx, few, at) : ProducerKnows s.queue s.pushed (length s.popped)
          (Producer.written w next) =
        rw e at h.producer_knows in
      (
        record s {
          queue = record s.queue { tail = next };
          producer = Producer.outside;
          pushed = s.pushed ++ w ∷ [];
        },
        refl,
        record {
          holds = rw nx (publish-IsFifo w h.holds few at);
          prefix =
              h.prefix ∙ sym (take-append_le s.pushed (w ∷ []) (length s.popped) h.holds.ordered);
          producer_knows = tt;
          consumer_knows =
              consumer_after_push s.consumer s.queue.capacity s.pushed (length s.popped) w
                h.consumer_knows;
        },
        refl,
      )

  consume-InOrder :
      (c : Consumer A) (s : System A)
      → s.consumer ≡ c
      → InOrder s
      → Goes (consume c s) s.queue.capacity
  unfolding consume ProducerKnows ConsumerKnows
  consume-InOrder Consumer.outside s e h = elim (Bool-cases (s.queue.head == s.queue.tail)) [
    | inl empty ↦ (s, ground (arith, empty), h, refl)
    | inr left ↦ (
      record s { consumer = Consumer.checked s.queue.head },
      ground (arith, left),
      record {
        holds = h.holds;
        prefix = h.prefix;
        producer_knows = h.producer_knows;
        consumer_knows = (h.holds.first, more left);
      },
      refl,
    )
  ]
    where
      more : (s.queue.head == s.queue.tail) ≡ false → length s.popped < length s.pushed
      more left = elim (ℕ_discrete (length s.popped) (length s.pushed)) [
        | yes p ↦ absurd (
            ground
              (arith, left, h.holds.first ∙ ap (λ k. k % s.queue.capacity) p ∙ sym h.holds.last))
        | no p ↦ omega (arith, h.holds.ordered)
      ]
  consume-InOrder (Consumer.checked current) s e h =
      let (at, more) : ConsumerKnows s.queue.capacity s.pushed (length s.popped)
          (Consumer.checked current) =
        rw e at h.consumer_knows in
      let (x, there) = get_elem?-some s.pushed (length s.popped) more in
      (
        record s { consumer = Consumer.fetched x current },
        ground (arith, at, there, h.holds.elements (length s.popped) (omega arith) more),
        record {
          holds = h.holds;
          prefix = h.prefix;
          producer_knows = h.producer_knows;
          consumer_knows = (at, more, there);
        },
        refl,
      )
  consume-InOrder (Consumer.fetched v current) s e h =
      let (at, more, there) : ConsumerKnows s.queue.capacity s.pushed (length s.popped)
          (Consumer.fetched v current) =
        rw e at h.consumer_knows in
      let head_eq : (current + 1) % s.queue.capacity ≡ (length s.popped + 1) % s.queue.capacity =
        ap (λ t. (t + 1) % s.queue.capacity) at ∙ mod-next (length s.popped) s.queue.capacity in
      let count : length (s.popped ++ v ∷ []) ≡ length s.popped + 1 =
        omega (arith, length-append s.popped (v ∷ [])) in
      (
        record s {
          queue = record s.queue { head = (length s.popped + 1) % s.queue.capacity };
          consumer = Consumer.outside;
          popped = s.popped ++ v ∷ [];
        },
        ground (arith, h.holds.room, head_eq),
        record {
          holds = rw count (pop-IsFifo h.holds more);
          prefix = rw count (
              ap (λ l. l ++ v ∷ []) h.prefix
              ∙ sym (take-append_last s.pushed (length s.popped) there));
          producer_knows = rw count (
              producer_after_pop s.producer s.queue s.pushed (length s.popped)
                ((length s.popped + 1) % s.queue.capacity) h.producer_knows);
          consumer_knows = tt;
        },
        refl,
      )

  step-InOrder : (t : Turn A) (s : System A) → InOrder s → Goes (step t s) s.queue.capacity
  unfolding step
  step-InOrder (Turn.produces v) s h = produce-InOrder s.producer v s refl h
  step-InOrder Turn.consumes s h = consume-InOrder s.consumer s refl h

  run_from : (ts : List (Turn A)) (s : System A) → InOrder s → Goes (run ts s) s.queue.capacity
  unfolding run
  run_from [] s h = (s, refl, h, refl)
  run_from (t ∷ ts) s h =
      let (s1, e1, h1, c1) = step-InOrder t s h in
      let (s2, e2, h2, c2) = run_from ts s1 h1 in (s2, cc, h2, c2 ∙ c1)

  start-InOrder : (n : ℕ) (default : A) → 0 < n → InOrder (start n default)
  unfolding start ProducerKnows ConsumerKnows
  start-InOrder n default h = record {
    holds = create-IsFifo n default h;
    prefix = refl;
    producer_knows = tt;
    consumer_knows = tt;
  }

  start-capacity : (n : ℕ) (default : A) → (start n default).queue.capacity ≡ n
  unfolding start
  start-capacity n default = refl

  -- For a capacity above 0 and every schedule of one thread that pushes and one that pops, no
  -- access is out of range, the popped values are the first of the pushed ones in their order, and
  -- fewer than `capacity` are in between.
  pub run-InOrder :
      (n : ℕ) (default : A) (ts : List (Turn A))
      → 0 < n
      → (s : System A) × (run ts (start n default) ≡ ok s)
        × (s.popped ≡ take (length s.popped) s.pushed)
        × (length s.pushed < length s.popped + n)
  run-InOrder n default ts h =
      let (s, e, inv, c) = run_from ts (start n default) (start-InOrder n default h) in
      (s, e, inv.prefix, omega (arith, inv.holds.bounded, c, start-capacity n default))
