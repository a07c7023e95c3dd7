-- ===== src/Executor/Tests.antt =====
-- The executor on small inputs: child 55 on the terminal 4.
use coin_data.Prelude.{◌≡◌, refl, true, false, [], ◌∷◌, some, ok, get_elem?}
use coin_data.Executor.{
  Executor, worker_thread, shutdown, execute, no_child, child, interrupted, killed, started,
  not_ready, chunk, failed, join_worker, signal_child,
}
use coin_data.Executor.Arguments.{launch_proc, launch_proc-bounds}
use coin_data.Executor.Output.{chunks, read_all, read_all-worker_thread, shutdown-stops}

abbrev running : Executor
running = record {
  master_fd = 4;
  child_pid = child 55;
  isrunning = true;
  exit_code = 0;
  has_worker = false;
  buffer = [];
  callback = false;
  notification = true;
  exit_notification = true;
}

-- A second command kills the first child, and its terminal stays open.
execute_example :
    execute (some 5) (child 56) running
    ≡ ok (
      record running { master_fd = 5; child_pid = child 56; has_worker = true },
      killed 55 ∷ started 56 ∷ [],
    )
unfolding execute join_worker signal_child
execute_example = refl

read_all-worker_thread_example :
    read_all 2 (worker_thread (chunk 7 ∷ not_ready ∷ chunk 8 ∷ failed ∷ chunk 9 ∷ []) running).0
    ≡ 7 ∷ 8 ∷ []
unfolding chunks
read_all-worker_thread_example =
    read_all-worker_thread (chunk 7 ∷ not_ready ∷ chunk 8 ∷ failed ∷ chunk 9 ∷ []) running refl refl
      refl refl

shutdown-stops_example :
    ((shutdown true 3 (chunk 7) running).0.isrunning ≡ false)
    × ((shutdown true 3 (chunk 7) running).0.child_pid ≡ no_child)
    × ((shutdown true 3 (chunk 7) running).0.has_worker ≡ false)
    × ((shutdown true 3 (chunk 7) running).0.master_fd ≡ 0)
    × ((shutdown true 3 (chunk 7) running).0.exit_code ≡ 3)
    × (get_elem? (shutdown true 3 (chunk 7) running).1 0 ≡ some (interrupted 55))
shutdown-stops_example = shutdown-stops true 3 (chunk 7) running 55 refl

launch_proc-bounds_example :
    launch_proc (97 ∷ []) ((98 ∷ []) ∷ []) ≡ ok ((97 ∷ []) ∷ (98 ∷ []) ∷ [])
launch_proc-bounds_example = launch_proc-bounds (97 ∷ []) ((98 ∷ []) ∷ [])
