-- ===== src/ThreadPool/Loop/Work.antt =====
-- A worker alone runs what is in its queue.
use coin_data.Prelude.{
  append_nil, append_assoc, ℕ, zero, suc, true, List, [], ◌∷◌, ◌++◌, ◌≡◌, refl, ap, ◌∙◌, arith,
}
use coin_data.ThreadPool.Loop.{Loop, is_task, run_step, draining, sleeping}
use coin_data.ThreadPool.Loop.Wakeup.{runnable}

-- A number of steps of the thread
unfoldable pub run_steps : ℕ → Loop → Loop
unfolding run_step
run_steps zero s = s
run_steps (suc n) s = run_steps n (run_step s)

-- Two steps for each task
unfoldable pub twice : List ℕ → ℕ
twice [] = 0
twice (t ∷ ts) = suc (suc (twice ts))

-- The thread of a working pool that is about to take tasks runs all of its queue in order, in two
-- steps for each task, and is asleep three steps later.
pub run_steps-draining :
    (ts : List ℕ) (s : Loop)
    → s.phase ≡ draining
    → s.is_working ≡ true
    → s.tasks ≡ ts
    → run_steps (suc (suc (suc (twice ts)))) s
      ≡ record s { phase = sleeping; tasks = []; done = s.done ++ runnable ts }
unfolding run_steps run_step twice runnable
run_steps-draining [] s d w e = ground (arith, d, w, e, append_nil s.done)
run_steps-draining (t ∷ ts) s d w e =
    let u : Loop = record s { phase = draining; tasks = ts; done = s.done ++ is_task t } in
    let two : run_step (run_step s) ≡ u = ground (arith, d, w, e) in
    ap (run_steps (suc (suc (suc (twice ts))))) two
    ∙ run_steps-draining ts u refl w refl
    ∙ ap (λ z. record s { phase = sleeping; tasks = []; done = z })
        (append_assoc s.done (is_task t) (runnable ts))
