-- ===== src/ThreadPool/Loop/Tests.antt =====
-- A worker that gets one task, runs it, goes to sleep, and is notified late.
use coin_data.Prelude.{◌≡◌, refl, true, [], ◌∷◌}
use coin_data.ThreadPool.Loop.{
  Loop, is_task, run_step, push_task, wake_up, notify, Reach, start, draining, sleeping, run, push,
  notified, here, then_step,
}
use coin_data.ThreadPool.Loop.Wakeup.{runnable, Reach-done}
use coin_data.ThreadPool.Loop.Work.{run_steps, twice, run_steps-draining}

abbrev slept : Loop
slept = record start { phase = sleeping; done = 5 ∷ []; pushed = 5 ∷ [] }

slept_late : Reach start slept
unfolding run_step push_task notify wake_up is_task
slept_late =
    then_step
      (then_step
        (then_step
          (then_step
            (then_step (then_step (then_step (then_step (then_step here run) (push 5)) run) run)
              run)
            run)
          run)
        notified)
      run

Reach-done_example :
    (slept.tasks ≡ []) × (slept.is_working ≡ true) × (slept.done ≡ runnable (5 ∷ []))
Reach-done_example = Reach-done slept_late refl refl

abbrev two_tasks : Loop
two_tasks = record start { phase = draining; tasks = 5 ∷ 6 ∷ []; pushed = 5 ∷ 6 ∷ [] }

run_steps-draining_example :
    run_steps 7 two_tasks
    ≡ record start { phase = sleeping; tasks = []; done = 5 ∷ 6 ∷ []; pushed = 5 ∷ 6 ∷ [] }
unfolding twice runnable is_task
run_steps-draining_example = run_steps-draining (5 ∷ 6 ∷ []) two_tasks refl refl refl
