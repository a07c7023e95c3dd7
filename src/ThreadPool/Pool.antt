-- ===== src/ThreadPool/Pool.antt =====
-- `ThreadBindPool::add_task_to` of src/coin-commons/utils/threadpool.hpp and threadpool.cpp. The
-- call runs under `worker_lock_`; what it logs is left out.
pub mod Dispatch
use coin_data.Prelude.{
  ℕ, zero, suc, ◌+◌, ◌%◌, Bool, true, false, List, [], ◌∷◌, Option, none, some, Result, ok, fault,
  Fault, ◌>>=◌, ltb, ◌==◌, if◌then◌else◌, get_elem?, set, length,
}
use coin_data.ThreadPool.Queue.{LockFreeQueue, create, push_back}

-- A task is a number, 0 for an empty `shared_ptr`.
pub record Worker : Type 0 where
  pub tasks : LockFreeQueue ℕ
  pub is_running : Bool
  -- it has a thread
  pub thread : Bool
  pub idx : ℕ

pub record Pool : Type 0 where
  pub reserve : ℕ
  pub size : ℕ
  pub workers : List Worker

-- `Worker()`; its `idx` of -1 is not read before it is written.
unfoldable pub new_worker : Worker
unfolding create
new_worker = record { tasks = create 10 0; is_running = true; thread = false; idx = 0 }

-- `while(workers_.size() <= index) workers_.emplace_back(...)`
unfoldable pub grow : ℕ → List Worker → List Worker
grow zero [] = new_worker ∷ []
grow (suc index) [] = new_worker ∷ grow index []
grow zero (w ∷ ws) = w ∷ ws
grow (suc index) (w ∷ ws) = w ∷ grow index ws

-- A thread is started if there is none or if it has stopped.
unfoldable pub wake : Worker → Worker
wake w =
    if w.thread
    then (if w.is_running then w else record w { is_running = true })
    else record w { is_running = true; thread = true }

-- What both forms of `add_task_to` do with the worker `at`; the result of `push_back` is not looked at.
unfoldable pub enqueue : Pool → ℕ → ℕ → ℕ → Result Pool
unfolding wake
enqueue pool at index task =
    let workers = grow at pool.workers in
    elim (get_elem? workers at) [
      | none ↦ fault Fault.out_of_range
      | some w ↦ push_back w.tasks task >>= λ (pushed, tasks). ok (record pool {
        size = length workers;
        workers = set workers at (wake (record w { tasks = tasks; idx = index }));
      })
    ]

-- The template in the header.
unfoldable pub add_task_to : Pool → ℕ → ℕ → Result Pool
add_task_to pool index task =
    if pool.reserve == 0
    then fault Fault.divide_by_zero
    else enqueue pool (index % pool.reserve) index task

-- The function in the source file; a larger index is reported and dropped.
unfoldable pub add_task_ptr_to : Pool → ℕ → ℕ → Result Pool
add_task_ptr_to pool task index =
    if ltb pool.reserve index then ok pool else enqueue pool index index task

-- `spin_once` notifies the workers that wait and have tasks: it changes no state.
