-- ===== src/ThreadPool/Pool/Dispatch.antt =====
-- Which worker gets a task, and what becomes of the task.
use native.Mathlib.Nat.{mod-lt}
use mathlib.Core.Option.{some-injective}
use coin_data.Prelude.{
  ℕ, zero, suc, ◌+◌, ◌%◌, ◌≤◌, ◌<◌, max, ◌≡◌, ◌≢◌, refl, sym, ◌∙◌, ap, Bool, true, false, List, [],
  ◌∷◌, ◌++◌, some, ok, arith, length, get_elem?, set, length-set, get_elem?-some, lt_of_get_elem?,
  get_elem?-set_self, get_elem?-set_ne,
}
use native.Mathlib.Decide.{dec_lt, ℕ_discrete}
use coin_data.ThreadPool.Queue.{LockFreeQueue, push_back}
use coin_data.ThreadPool.Queue.Fifo.{IsFifo, push_back-IsFifo, create-IsFifo}
use coin_data.ThreadPool.Pool.{
  Worker, Pool, new_worker, grow, wake, enqueue, add_task_to, add_task_ptr_to,
}

length-grow : (at : ℕ) (ws : List Worker) → length (grow at ws) ≡ max (at + 1) (length ws)
unfolding grow
length-grow zero [] = omega arith
length-grow (suc at) [] = omega (arith, length-grow at [])
length-grow zero (w ∷ ws) = omega arith
length-grow (suc at) (w ∷ ws) = omega (arith, length-grow at ws)

-- The workers that were there stay, the others are new.
grow_old : (at i : ℕ) (ws : List Worker) → i < length ws → get_elem? (grow at ws) i ≡ get_elem? ws i
unfolding grow
grow_old at i [] h = absurd (omega arith)
grow_old zero i (w ∷ ws) h = refl
grow_old (suc at) zero (w ∷ ws) h = refl
grow_old (suc at) (suc i) (w ∷ ws) h = grow_old at i ws (omega arith)

grow_new :
    (at i : ℕ) (ws : List Worker)
    → length ws ≤ i
    → i ≤ at
    → get_elem? (grow at ws) i ≡ some new_worker
unfolding grow
grow_new zero zero [] h k = refl
grow_new zero (suc i) [] h k = absurd (omega arith)
grow_new (suc at) zero [] h k = refl
grow_new (suc at) (suc i) [] h k = grow_new at i [] (omega arith) (omega arith)
grow_new zero i (w ∷ ws) h k = absurd (omega arith)
grow_new (suc at) zero (w ∷ ws) h k = absurd (omega arith)
grow_new (suc at) (suc i) (w ∷ ws) h k = grow_new at i ws (omega arith) (omega arith)

-- Every worker's queue is well-formed, and at most `n` workers exist.
pub record Staffed (n : ℕ) (pool : Pool) : Type 0 where
  pub few : length pool.workers ≤ n
  pub queues :
      (i : ℕ) (w : Worker)
      → get_elem? pool.workers i ≡ some w
      → (xs : List ℕ) × (popped : ℕ) × IsFifo w.tasks xs popped

-- What `enqueue` makes of the worker `w`: its task comes last, or is dropped if the queue is full.
pub record Given (task index : ℕ) (w w' : Worker) : Type 0 where
  pub runs : (w'.is_running ≡ true) × (w'.thread ≡ true)
  pub named : w'.idx ≡ index
  pub queued :
      (xs : List ℕ) (popped : ℕ)
      → IsFifo w.tasks xs popped
      → (length xs + 1 < popped + w.tasks.capacity → IsFifo w'.tasks (xs ++ task ∷ []) popped)
        × (length xs + 1 ≡ popped + w.tasks.capacity → w'.tasks ≡ w.tasks)

-- `add_task_to` gave the task to the worker `at`, which is a new one if it was not there. The others
-- that were there are as they were, and those that were made below it are new.
pub record Dispatched (task index at n : ℕ) (pool pool' : Pool) : Type 0 where
  pub before : Worker
  pub after : Worker
  pub was_old : at < length pool.workers → get_elem? pool.workers at ≡ some before
  pub was_new : length pool.workers ≤ at → before ≡ new_worker
  pub is : get_elem? pool'.workers at ≡ some after
  pub given : Given task index before after
  pub others_old :
      (i : ℕ)
      → i ≢ at
      → i < length pool.workers
      → get_elem? pool'.workers i ≡ get_elem? pool.workers i
  pub others_new :
      (i : ℕ) → length pool.workers ≤ i → i < at → get_elem? pool'.workers i ≡ some new_worker
  pub count : length pool'.workers ≡ max (at + 1) (length pool.workers)
  pub same_reserve : pool'.reserve ≡ pool.reserve
  pub staffed : Staffed n pool'

-- What a push does, read off its result.
push-Given :
    (index : ℕ) (w : Worker) (task : ℕ) (b : Bool) (q' : LockFreeQueue ℕ)
    → push_back w.tasks task ≡ ok (b, q')
    → Given task index w (wake (record w { tasks = q'; idx = index }))
unfolding wake
push-Given index w task b q' e = record {
  runs = (ground arith, ground arith);
  named = ground arith;
  queued = λ xs popped h. (
    λ few.
        let (q'', e', h') = (push_back-IsFifo h task).0 few in
        let same : q'' ≡ (wake (record w { tasks = q'; idx = index })).tasks =
          ground (arith, e, e') in
        rw same at h',
    λ full. let e' = (push_back-IsFifo h task).1 full in ground (arith, e, e'),
  );
}

-- A push succeeds or the queue is full, and is well-formed after it.
pushes :
    (q : LockFreeQueue ℕ) (task : ℕ) {xs : List ℕ} {popped : ℕ}
    → IsFifo q xs popped
    → (b : Bool) × (q' : LockFreeQueue ℕ) × (ys : List ℕ) × (k : ℕ) × (push_back q task
        ≡ ok (b, q'))
      × IsFifo q' ys k
pushes q task {xs} {popped} h = elim (dec_lt (length xs + 1) (popped + q.capacity)) [
  | yes p ↦
      let (q', e, h') = (push_back-IsFifo h task).0 p in (true, q', xs ++ task ∷ [], popped, e, h')
  | no p ↦ (false, q, xs, popped, (push_back-IsFifo h task).1 (omega (arith, h.bounded)), h)
]

grown-queues :
    (at : ℕ) {n : ℕ} (pool : Pool)
    → Staffed n pool
    → (i : ℕ) (w : Worker) → get_elem? (grow at pool.workers) i ≡ some w
    → (xs : List ℕ) × (popped : ℕ) × IsFifo w.tasks xs popped
unfolding new_worker
grown-queues at pool s i w e = elim (dec_lt i (length pool.workers)) [
  | yes p ↦ s.queues i w (sym (grow_old at i pool.workers p) ∙ e)
  | no p ↦
      let same : new_worker ≡ w = some-injective new_worker w (
        sym (
          grow_new at i pool.workers (omega arith) (
            omega (arith, lt_of_get_elem? (grow at pool.workers) i e, length-grow at pool.workers)))
        ∙ e) in
      ([], 0, rw (sym same) (create-IsFifo 10 0 (omega arith)))
]

same_IsFifo :
    {q q' : LockFreeQueue ℕ} {xs : List ℕ} {popped : ℕ}
    → q ≡ q'
    → IsFifo q xs popped
    → IsFifo q' xs popped
same_IsFifo e h = rw e at h

wake-tasks :
    (w : Worker) (q : LockFreeQueue ℕ) (index : ℕ)
    → (wake (record w { tasks = q; idx = index })).tasks ≡ q
unfolding wake
wake-tasks w q index = ground arith

enqueue-Dispatched :
    (pool : Pool) (at index task n : ℕ)
    → Staffed n pool
    → at < n
    → (pool' : Pool) × (enqueue pool at index task ≡ ok pool')
      × Dispatched task index at n pool pool'
unfolding enqueue wake
enqueue-Dispatched pool at index task n s lt =
    let workers : List Worker = grow at pool.workers in
    let sized : length workers ≡ max (at + 1) (length pool.workers) = length-grow at pool.workers in
    let (w, there) = get_elem?-some workers at (omega (arith, sized)) in
    let (xs, popped, h) = grown-queues at pool s at w there in
    let (b, q', ys, k, pushed, h') = pushes w.tasks task h in
    let w' : Worker = wake (record w { tasks = q'; idx = index }) in
    (
      record pool { size = length workers; workers = set workers at w' },
      ground (arith, there, pushed),
      record {
        before = w;
        after = w';
        was_old = λ lt. sym (grow_old at at pool.workers lt) ∙ there;
        was_new = λ le. sym (
            some-injective new_worker w
              (sym (grow_new at at pool.workers le (omega arith)) ∙ there));
        is = get_elem?-set_self workers at w' (omega (arith, sized));
        given = push-Given index w task b q' pushed;
        others_old = λ i a lt.
            get_elem?-set_ne workers {i = at} {j = i} w' (λ e. a (sym e))
            ∙ grow_old at i pool.workers lt;
        others_new = λ i le lt.
            get_elem?-set_ne workers {i = at} {j = i} w' (λ e. omega (arith, e))
            ∙ grow_new at i pool.workers le (omega arith);
        count = length-set workers at w' ∙ sized;
        same_reserve = refl;
        staffed = record {
          few = omega (arith, length-set workers at w', sized, s.few);
          queues = λ i w'' e. elim (ℕ_discrete at i) [
            | yes p ↦
                let same : w' ≡ w'' = some-injective w' w'' (
                  sym (get_elem?-set_self workers at w' (omega (arith, sized)))
                  ∙ ap (get_elem? (set workers at w')) p
                  ∙ e) in
                (ys, k, same_IsFifo (sym (wake-tasks w q' index) ∙ ap Worker.tasks same) h')
            | no p ↦
                grown-queues at pool s i w''
                  (sym (get_elem?-set_ne workers {i = at} {j = i} w' p) ∙ e)
          ];
        };
      },
    )

-- With workers reserved, no more than that at work and their queues well-formed, the template
-- `add_task_to` gives the task to the worker `index % reserve`, which is made if need be and runs
-- then: the task comes last in its queue, or is dropped if the queue is full. Every other worker
-- that was there stays as it was, those that are made below it are new, and there are no more
-- workers than were reserved.
pub add_task_to-Dispatched :
    (pool : Pool) (index task : ℕ)
    → 0 < pool.reserve
    → Staffed pool.reserve pool
    → (pool' : Pool) × (add_task_to pool index task ≡ ok pool')
      × Dispatched task index (index % pool.reserve) pool.reserve pool pool'
unfolding add_task_to
add_task_to-Dispatched pool index task h s =
    let (pool', e, d) =
      enqueue-Dispatched pool (index % pool.reserve) index task pool.reserve s (mod-lt index h) in
    (pool', ground (arith, h, e), d)

-- The other form of `add_task_to` takes the index as it is, up to `reserve` itself, and so makes
-- one worker more than were reserved; with a larger index it changes nothing.
pub add_task_ptr_to-Dispatched :
    (pool : Pool) (index task : ℕ)
    → Staffed (pool.reserve + 1) pool
    → (index ≤ pool.reserve
        → (pool' : Pool) × (add_task_ptr_to pool task index ≡ ok pool')
          × Dispatched task index index (pool.reserve + 1) pool pool')
      × (pool.reserve < index → add_task_ptr_to pool task index ≡ ok pool)
unfolding add_task_ptr_to
add_task_ptr_to-Dispatched pool index task s = (
  λ le.
      let (pool', e, d) =
        enqueue-Dispatched pool index index task (pool.reserve + 1) s (omega arith) in
      (pool', ground (arith, le, e), d),
  λ big. ground arith,
)
