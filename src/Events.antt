-- ===== src/Events.antt =====
-- `EventPool` of src/coin-commons/utils/event.hpp and event.cpp: conditions, each with a task, and the
-- tasks whose condition held, which go to worker 0 of a pool. Events and tasks are numbers.
pub mod Repeated
use coin_data.Prelude.{
  ℕ, Bool, true, false, List, [], ◌∷◌, ◌++◌, Result, ok, fault, Fault, ◌>>=◌, if◌then◌else◌,
}
use coin_data.ThreadPool.Pool.{Pool, add_task_to}

pub record EventPool : Type 0 where
  -- an event and its task
  pub event_deque : List (ℕ × ℕ)
  pub ready_task_deque : List ℕ

unfoldable pub push_event : ℕ → ℕ → EventPool → EventPool
push_event event task e = record e { event_deque = e.event_deque ++ (event, task) ∷ [] }

-- The tasks of the events that say yes now
unfoldable pub due_tasks : (ℕ → Bool) → List (ℕ × ℕ) → List ℕ
due_tasks says [] = []
due_tasks says ((event, task) ∷ events) =
    let rest = due_tasks says events in if says event then task ∷ rest else rest

-- The events stay where they are.
unfoldable pub spin_once : (ℕ → Bool) → EventPool → EventPool
unfolding due_tasks
spin_once says e = record e {
  ready_task_deque = e.ready_task_deque ++ due_tasks says e.event_deque;
}

unfoldable pub run_ready : List ℕ → Pool → Result Pool
unfolding add_task_to
run_ready [] pool = ok pool
run_ready (task ∷ tasks) pool = add_task_to pool 0 task >>= λ pool'. run_ready tasks pool'

unfoldable pub run_and_clear_all_ready_task : EventPool → Pool → Result (EventPool × Pool)
unfolding run_ready
run_and_clear_all_ready_task e pool =
    run_ready e.ready_task_deque pool >>= λ pool'. ok (record e { ready_task_deque = [] }, pool')

unfoldable pub clear_all_ready_task : EventPool → EventPool
clear_all_ready_task e = record e { ready_task_deque = [] }
