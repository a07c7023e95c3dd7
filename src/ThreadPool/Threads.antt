-- ===== src/ThreadPool/Threads.antt =====
-- One thread pushes and one pops: each atomic access of `push_back` and `pop_front` to what the two
-- threads share is a step, in the order of the code, and a schedule says whose step is next. A store
-- with release order is seen by a load with acquire order together with what went before it.
pub mod Order
use coin_data.Prelude.{
  ℕ, zero, suc, ◌+◌, ◌-◌, ◌%◌, Bool, true, false, List, [], ◌∷◌, ◌++◌, Option, none, some, Result,
  ok, fault, Fault, ◌>>=◌, ltb, ◌==◌, if◌then◌else◌, get_elem?, set, replicate, length,
}
use coin_data.ThreadPool.Queue.{LockFreeQueue, create, wrap, store, fetch}

-- Where `push_back` stands. It alone writes `tail`, so it may load it together with `head`.
pub data Producer (A : Type 0) : Type 0 where
  outside : Producer A
  -- the value, `currentTail` and `nextTail`, found different from `head`
  checked : A → ℕ → ℕ → Producer A
  -- the value is in the buffer
  written : A → ℕ → Producer A

-- Where `pop_front` stands. It alone writes `head`.
pub data Consumer (A : Type 0) : Type 0 where
  outside : Consumer A
  -- `currentHead`, found different from `tail`
  checked : ℕ → Consumer A
  -- the value was read
  fetched : A → ℕ → Consumer A

-- `pushed` and `popped` record the values in the order in which the calls took effect.
pub record System (A : Type 0) : Type 0 where
  pub queue : LockFreeQueue A
  pub producer : Producer A
  pub consumer : Consumer A
  pub pushed : List A
  pub popped : List A

pub data Turn (A : Type 0) : Type 0 where
  -- the producer's; outside of a call it begins one with this value
  produces : A → Turn A
  consumes : Turn A

module _ {A : Type 0} where
  unfoldable pub produce : Producer A → A → System A → Result (System A)
  produce Producer.outside v s = do
    next_tail ← wrap s.queue (s.queue.tail + 1)
    ok (
        if next_tail == s.queue.head
        then s
        else record s { producer = Producer.checked v s.queue.tail next_tail })
  produce (Producer.checked v current_tail next_tail) w s = do
    q ← store s.queue current_tail v
    ok (record s { queue = q; producer = Producer.written v next_tail })
  produce (Producer.written v next_tail) w s = ok (record s {
    queue = record s.queue { tail = next_tail };
    producer = Producer.outside;
    pushed = s.pushed ++ v ∷ [];
  })

  unfoldable pub consume : Consumer A → System A → Result (System A)
  consume Consumer.outside s = ok (
      if s.queue.head == s.queue.tail
      then s
      else record s { consumer = Consumer.checked s.queue.head })
  consume (Consumer.checked current_head) s = do
    v ← fetch s.queue current_head
    ok (record s { consumer = Consumer.fetched v current_head })
  consume (Consumer.fetched v current_head) s = do
    next_head ← wrap s.queue (current_head + 1)
    ok (record s {
      queue = record s.queue { head = next_head };
      consumer = Consumer.outside;
      popped = s.popped ++ v ∷ [];
    })

  unfoldable pub step : Turn A → System A → Result (System A)
  step (Turn.produces v) s = produce s.producer v s
  step Turn.consumes s = consume s.consumer s

  unfoldable pub run : List (Turn A) → System A → Result (System A)
  unfolding step
  run [] s = ok s
  run (t ∷ ts) s = do s' ← step t s; run ts s'

  unfoldable pub start : ℕ → A → System A
  unfolding create
  start capacity default = record {
    queue = create capacity default;
    producer = Producer.outside;
    consumer = Consumer.outside;
    pushed = [];
    popped = [];
  }
