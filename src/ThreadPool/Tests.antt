-- ===== src/ThreadPool/Tests.antt =====
-- Runs of the queue and of the pool.
use coin_data.Prelude.{
  ℕ, zero, suc, ◌+◌, ◌<◌, ◌≡◌, refl, true, false, List, [], ◌∷◌, none, some, ok, arith, length,
  get_elem?, take,
}
use coin_data.ThreadPool.Queue.{LockFreeQueue, create, push_back, pop_front}
use coin_data.ThreadPool.Queue.Fifo.{IsFifo, create-IsFifo, push_back-IsFifo, pop_front-IsFifo}
use coin_data.ThreadPool.Threads.{System, Turn, run, start}
use coin_data.ThreadPool.Threads.Order.{run-InOrder}
use coin_data.ThreadPool.Pool.{Pool, add_task_to}
use coin_data.ThreadPool.Pool.Dispatch.{Staffed, Dispatched, add_task_to-Dispatched}

abbrev queue : LockFreeQueue ℕ
queue = record { buffer = 0 ∷ 0 ∷ 0 ∷ []; capacity = 3; head = 0; tail = 0 }

queue-IsFifo : IsFifo queue [] 0
unfolding create
queue-IsFifo = create-IsFifo 3 0 (omega arith)

push_back-IsFifo_example :
    (1 < 3 → (q' : LockFreeQueue ℕ) × (push_back queue 7 ≡ ok (true, q')) × IsFifo q' (7 ∷ []) 0)
    × (suc zero ≡ 3 → push_back queue 7 ≡ ok (false, queue))
push_back-IsFifo_example = push_back-IsFifo queue-IsFifo 7

abbrev one : LockFreeQueue ℕ
one = record queue { buffer = 7 ∷ 0 ∷ 0 ∷ []; tail = 1 }

one-IsFifo : IsFifo one (7 ∷ []) 0
one-IsFifo = record {
  room = omega arith;
  sized = refl;
  ordered = omega arith;
  bounded = omega arith;
  first = refl;
  last = refl;
  elements = λ i a b. let e : i ≡ 0 = omega arith in rw e refl;
}

pop_front-IsFifo_example :
    (0 < 1
      → (x : ℕ) × (q' : LockFreeQueue ℕ) × (pop_front one ≡ ok (some x, q'))
        × (get_elem? (7 ∷ []) 0 ≡ some x)
        × IsFifo q' (7 ∷ []) 1)
    × (zero ≡ 1 → pop_front one ≡ ok (none, one))
pop_front-IsFifo_example = pop_front-IsFifo one-IsFifo

abbrev schedule : List (Turn ℕ)
schedule =
    Turn.produces 7
    ∷ Turn.consumes
    ∷ Turn.produces 0
    ∷ Turn.produces 0
    ∷ Turn.consumes
    ∷ Turn.produces 8
    ∷ Turn.consumes
    ∷ Turn.produces 0
    ∷ Turn.consumes
    ∷ Turn.produces 0
    ∷ []

run-InOrder_example :
    (s : System ℕ) × (run schedule (start 3 0) ≡ ok s)
    × (s.popped ≡ take (length s.popped) s.pushed)
    × (length s.pushed < length s.popped + 3)
run-InOrder_example = run-InOrder 3 0 schedule (omega arith)

abbrev pool : Pool
pool = record { reserve = 2; size = 0; workers = [] }

pool-Staffed : (n : ℕ) → Staffed n pool
pool-Staffed n = record { few = omega arith; queues = λ i w e. cc }

add_task_to-Dispatched_example :
    (pool' : Pool) × (add_task_to pool 5 42 ≡ ok pool') × Dispatched 42 5 1 2 pool pool'
add_task_to-Dispatched_example = add_task_to-Dispatched pool 5 42 (omega arith) (pool-Staffed 2)
