-- ===== src/ThreadPool/Loop/Wakeup.antt =====
-- No task is lost, and no wake-up is.
use coin_data.Prelude.{
  append_assoc, append_nil, Bool-cases, ℕ, zero, suc, true, false, List, [], ◌∷◌, ◌++◌, ◌≡◌, ◌≢◌,
  ◌⊎◌, inl, inr, refl, sym, ap, ◌∙◌, arith, leb, length,
}
use coin_data.ThreadPool.Loop.{
  Phase, Loop, is_task, run_step, push_task, wake_up, notify, stop, spin_worker, Step, Reach, start,
  top, draining, running, checking, deciding, sleeping, ended, run, push, notified, spurious, spun,
  stopped, here, then_step,
}

-- The tasks of a list that have a function
unfoldable pub runnable : List ℕ → List ℕ
unfolding is_task
runnable [] = []
runnable (t ∷ ts) = is_task t ++ runnable ts

-- The task that the thread has taken
unfoldable pub held : Phase → List ℕ
held top = []
held draining = []
held (running t) = t ∷ []
held checking = []
held deciding = []
held sleeping = []
held ended = []

pub record IsAwake (s : Loop) : Type 0 where
  -- in order and once
  pub kept : s.done ++ runnable (held s.phase ++ s.tasks) ≡ runnable s.pushed
  -- who sleeps with something to do is going to be notified
  pub woken : s.phase ≡ sleeping → (s.tasks ≢ []) ⊎ (s.is_working ≡ false) → s.pending ≢ 0

runnable-append : (a b : List ℕ) → runnable (a ++ b) ≡ runnable a ++ runnable b
unfolding runnable
runnable-append [] b = refl
runnable-append (x ∷ a) b =
    ap (◌++◌ (is_task x)) (runnable-append a b)
    ∙ sym (append_assoc (is_task x) (runnable a) (runnable b))

run_step-at : (f : Phase) (s : Loop) → s.phase ≡ f → IsAwake s → IsAwake (run_step s)
unfolding run_step held runnable
run_step-at top s e h = record {
  kept = ground (arith, e, h.kept);
  woken = λ a b. absurd (ground (arith, e, a));
}
run_step-at draining s e h = record {
  kept = ground (arith, e, h.kept);
  woken = λ a b. absurd (ground (arith, e, a));
}
run_step-at (running t) s e h = record {
  kept = ground (arith, e, h.kept, append_assoc s.done (is_task t) (runnable s.tasks));
  woken = λ a b. absurd (ground (arith, e, a));
}
run_step-at checking s e h = record {
  kept = ground (arith, e, h.kept);
  woken = λ a b. absurd (ground (arith, e, a));
}
run_step-at deciding s e h = record {
  kept = ground (arith, e, h.kept);
  woken = λ a b. absurd (ground (arith, e, a, b));
}
run_step-at sleeping s e h = let same : run_step s ≡ s = ground (arith, e) in rw same h
run_step-at ended s e h = record {
  kept = ground (arith, e, h.kept);
  woken = λ a b. absurd (ground (arith, e, a));
}

-- After a waking nobody sleeps.
wake_up-at :
    (f : Phase) (s : Loop)
    → s.phase ≡ f
    → s.done ++ runnable (held s.phase ++ s.tasks) ≡ runnable s.pushed
    → IsAwake (wake_up s)
unfolding wake_up held runnable
wake_up-at top s e k = record {
  kept = ground (arith, e, k);
  woken = λ a b. absurd (ground (arith, e, a));
}
wake_up-at draining s e k = record {
  kept = ground (arith, e, k);
  woken = λ a b. absurd (ground (arith, e, a));
}
wake_up-at (running t) s e k = record {
  kept = ground (arith, e, k);
  woken = λ a b. absurd (ground (arith, e, a));
}
wake_up-at checking s e k = record {
  kept = ground (arith, e, k);
  woken = λ a b. absurd (ground (arith, e, a));
}
wake_up-at deciding s e k = record {
  kept = ground (arith, e, k);
  woken = λ a b. absurd (ground (arith, e, a));
}
wake_up-at sleeping s e k = record {
  kept = ground (arith, e, k);
  woken = λ a b. absurd (ground (arith, e, a));
}
wake_up-at ended s e k = record {
  kept = ground (arith, e, k);
  woken = λ a b. absurd (ground (arith, e, a));
}

notify-IsAwake : (n : ℕ) (s : Loop) → s.pending ≡ n → IsAwake s → IsAwake (notify s)
unfolding notify
notify-IsAwake zero s e h = let same : notify s ≡ s = ground (arith, e) in rw same h
notify-IsAwake (suc n) s e h =
    let same : notify s ≡ wake_up (record s { pending = n }) = ground (arith, e) in
    rw same (wake_up-at s.phase (record s { pending = n }) refl h.kept)

spin_worker-IsAwake : (ts : List ℕ) (s : Loop) → s.tasks ≡ ts → IsAwake s → IsAwake (spin_worker s)
unfolding spin_worker
spin_worker-IsAwake [] s e h = let same : spin_worker s ≡ s = ground (arith, e) in rw same h
spin_worker-IsAwake (t ∷ ts) s e h =
    let same : spin_worker s ≡ wake_up s = ground (arith, e) in
    rw same (wake_up-at s.phase s refl h.kept)

-- A push that the queue takes
taken-IsAwake :
    (t : ℕ) (s : Loop)
    → IsAwake s
    → IsAwake (record s {
      tasks = s.tasks ++ t ∷ [];
      pushed = s.pushed ++ t ∷ [];
      pending = suc s.pending;
    })
taken-IsAwake t s h = record {
  kept =
      ap (◌++◌ s.done) (
        ap runnable (sym (append_assoc (held s.phase) s.tasks (t ∷ [])))
        ∙ runnable-append (held s.phase ++ s.tasks) (t ∷ []))
      ∙ sym (append_assoc s.done (runnable (held s.phase ++ s.tasks)) (runnable (t ∷ [])))
      ∙ ap (λ z. z ++ runnable (t ∷ [])) h.kept
      ∙ sym (runnable-append s.pushed (t ∷ []));
  woken = λ a b c. ground (arith, c);
}

push_task-IsAwake : (t : ℕ) (s : Loop) → IsAwake s → IsAwake (push_task t s)
unfolding push_task
push_task-IsAwake t s h = elim (Bool-cases (leb 9 (length s.tasks))) [
  | inl full ↦
      let same : push_task t s ≡ record s { pending = suc s.pending } = ground (arith, full) in
      rw same (record { kept = h.kept; woken = λ a b c. ground (arith, c) })
  | inr free ↦
      let same : push_task t s ≡ record s {
        tasks = s.tasks ++ t ∷ [];
        pushed = s.pushed ++ t ∷ [];
        pending = suc s.pending;
      } =
        ground (arith, free) in
      rw same (taken-IsAwake t s h)
]

stop-IsAwake : (s : Loop) → IsAwake s → IsAwake (stop s)
unfolding stop
stop-IsAwake s h = record { kept = h.kept; woken = λ a b c. ground (arith, c) }

Step-IsAwake : {s u : Loop} → Step s u → IsAwake s → IsAwake u
Step-IsAwake {s = s} run h = run_step-at s.phase s refl h
Step-IsAwake {s = s} (push t) h = push_task-IsAwake t s h
Step-IsAwake {s = s} notified h = notify-IsAwake s.pending s refl h
Step-IsAwake {s = s} spurious h = wake_up-at s.phase s refl h.kept
Step-IsAwake {s = s} spun h = spin_worker-IsAwake s.tasks s refl h
Step-IsAwake {s = s} stopped h = stop-IsAwake s h

List-cases : (ts : List ℕ) → (ts ≡ []) ⊎ ((t : ℕ) × (us : List ℕ) × (ts ≡ t ∷ us))
List-cases [] = inl refl
List-cases (t ∷ ts) = inr (t, ts, refl)

start-IsAwake : IsAwake start
unfolding held runnable
start-IsAwake = record { kept = refl; woken = λ a b c. ground (arith, a) }

pub Reach-IsAwake : {s u : Loop} → Reach s u → IsAwake s → IsAwake u
Reach-IsAwake here h = h
Reach-IsAwake (then_step before step) h = Step-IsAwake step (Reach-IsAwake before h)

-- From the start of the thread of a worker with an empty queue, in every interleaving of it with
-- pushes, notifications, wake-ups without one, `spin_once` and the end of the pool: when the thread
-- sleeps and no notification is still to come, the queue is empty, the pool works, and every task
-- that the queue took and that has a function was run, once and in the order of the pushes. A push
-- to a full queue is ignored.
pub Reach-done :
    {u : Loop}
    → Reach start u
    → u.phase ≡ sleeping
    → u.pending ≡ 0
    → (u.tasks ≡ []) × (u.is_working ≡ true) × (u.done ≡ runnable u.pushed)
unfolding held runnable
Reach-done {u = u} r a b =
    let h = Reach-IsAwake r start-IsAwake in
    let idle : u.tasks ≡ [] = elim (List-cases u.tasks) [
      | inl e ↦ e
      | inr (t, ts, e) ↦ absurd (h.woken a (inl (λ f. ground (arith, e, f))) b)
    ] in
    let works : u.is_working ≡ true = elim (Bool-cases u.is_working) [
      | inl e ↦ e
      | inr e ↦ absurd (h.woken a (inr e) b)
    ] in
    (
      idle,
      works,
      sym (append_nil u.done)
          ∙ ap (λ z. u.done ++ runnable z) (sym idle)
          ∙ ap (λ z. u.done ++ runnable (held z ++ u.tasks)) (sym a)
          ∙ h.kept,
    )
