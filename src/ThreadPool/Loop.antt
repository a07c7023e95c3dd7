-- ===== src/ThreadPool/Loop.antt =====
-- `ThreadBindPool::run_` of src/coin-commons/utils/threadpool.cpp: the thread of a worker, step by
-- step, beside those that push a task and then notify it, and the end of the pool. The queue is the
-- list of its tasks, 0 for one without a function.
pub mod Wakeup
pub mod Work
pub mod Tests
use coin_data.Prelude.{
  ℕ, zero, suc, ◌+◌, Bool, true, false, List, [], ◌∷◌, ◌++◌, ◌≡◌, ◌==◌, if◌then◌else◌, leb, length,
}

-- Where the thread is
pub data Phase : Type 0 where
  -- the test of the outer loop
  top : Phase
  -- the inner loop
  draining : Phase
  running : ℕ → Phase
  -- behind the inner loop
  checking : Phase
  -- with the lock, the condition of the wait is next
  deciding : Phase
  sleeping : Phase
  ended : Phase

pub record Loop : Type 0 where
  pub phase : Phase
  pub tasks : List ℕ
  pub is_working : Bool
  -- tasks that were run
  pub done : List ℕ
  -- tasks that the queue took
  pub pushed : List ℕ
  -- notifications that are still to come, each from one who pushed, or from the destructor
  pub pending : ℕ

unfoldable pub is_task : ℕ → List ℕ
is_task t = if t == 0 then [] else t ∷ []

-- One step of the thread
unfoldable pub run_step : Loop → Loop
unfolding is_task
run_step s = elim (s.phase) [
  | top ↦ if s.is_working then record s { phase = draining } else record s { phase = ended }
  | draining ↦
      if s.is_working
      then elim (s.tasks) [
        | [] ↦ record s { phase = checking }
        | (t ∷ ts) ↦ record s { phase = running t; tasks = ts }
      ]
      else record s { phase = checking }
  | running t ↦ record s { phase = draining; done = s.done ++ is_task t }
  | checking ↦ elim (s.tasks) [
    | [] ↦ if s.is_working then record s { phase = deciding } else record s { phase = ended }
    | (t ∷ ts) ↦ record s { phase = top }
  ]
  | deciding ↦ elim (s.tasks) [
    | [] ↦ if s.is_working then record s { phase = sleeping } else record s { phase = top }
    | (t ∷ ts) ↦ record s { phase = top }
  ]
  | sleeping ↦ s
  | ended ↦ s
]

-- `add_task_to` pushes, and notifies later, with the lock. The queue has a capacity of ten and is
-- full with nine tasks; the result of `push_back` is not looked at.
unfoldable pub push_task : ℕ → Loop → Loop
push_task t s = if leb 9 (length s.tasks) then record s { pending = suc s.pending } else record s {
  tasks = s.tasks ++ t ∷ [];
  pushed = s.pushed ++ t ∷ [];
  pending = suc s.pending;
}

-- A thread that sleeps is woken up, and decides again.
unfoldable pub wake_up : Loop → Loop
wake_up s = elim (s.phase) [
  | top ↦ s
  | draining ↦ s
  | running t ↦ s
  | checking ↦ s
  | deciding ↦ s
  | sleeping ↦ record s { phase = deciding }
  | ended ↦ s
]

unfoldable pub notify : Loop → Loop
unfolding wake_up
notify s = elim (s.pending) [ zero ↦ s | suc n ↦ wake_up (record s { pending = n }) ]

-- The destructor of the pool, which notifies later as well
unfoldable pub stop : Loop → Loop
stop s = record s { is_working = false; pending = suc s.pending }

-- `spin_once` of the pool for a worker that waits
unfoldable pub spin_worker : Loop → Loop
unfolding wake_up
spin_worker s = elim (s.tasks) [ [] ↦ s | (t ∷ ts) ↦ wake_up s ]

-- What can happen next
pub data Step : Loop → Loop → Type 0 where
  run : {s : Loop} → Step s (run_step s)
  push : (t : ℕ) {s : Loop} → Step s (push_task t s)
  notified : {s : Loop} → Step s (notify s)
  -- a wait may end without a notification
  spurious : {s : Loop} → Step s (wake_up s)
  spun : {s : Loop} → Step s (spin_worker s)
  stopped : {s : Loop} → Step s (stop s)

pub data Reach : Loop → Loop → Type 0 where
  here : {s : Loop} → Reach s s
  then_step : {s t u : Loop} → Reach s t → Step t u → Reach s u

-- A worker whose thread starts
abbrev pub start : Loop
start = record { phase = top; tasks = []; is_working = true; done = []; pushed = []; pending = 0 }
