-- ===== src/Executor/Output.antt =====
-- The output of a child, and the end of a child.
use coin_data.Prelude.{
  append_nil, append_assoc, ℕ, zero, suc, ◌≡◌, refl, sym, ap, ◌∙◌, Bool, true, false, List, [], ◌∷◌,
  ◌++◌, none, some, arith, length, get_elem?,
}
use coin_data.Executor.{
  Executor, Poll, when, read_master, worker_thread, read_front, wait, signal_child, join_worker,
  close_master, shutdown, no_child, child, interrupted, closed_fd, exit_notified, not_ready, chunk,
  end_of_file, failed,
}

-- The pieces that the terminal gave before a failure
unfoldable pub chunks : List Poll → List ℕ
chunks [] = []
chunks (not_ready ∷ polls) = chunks polls
chunks (chunk x ∷ polls) = x ∷ chunks polls
chunks (end_of_file ∷ polls) = chunks polls
chunks (failed ∷ polls) = []

-- All of the buffer, one `read_front` after the other
unfoldable pub read_all : ℕ → Executor → List ℕ
unfolding read_front
read_all zero e = []
read_all (suc n) e =
    let (x, e1) = read_front e in
    let rest = read_all n e1 in elim x [ none ↦ [] | some y ↦ y ∷ rest ]

worker_thread-stopped :
    (polls : List Poll) (e : Executor) → e.isrunning ≡ false → worker_thread polls e ≡ (e, [])
unfolding worker_thread
worker_thread-stopped [] e h = refl
worker_thread-stopped (poll ∷ polls) e h = ground (arith, h)

worker_thread-buffer :
    (polls : List Poll) (e : Executor)
    → e.isrunning ≡ true
    → e.callback ≡ false
    → e.notification ≡ true
    → (worker_thread polls e).0.buffer ≡ e.buffer ++ chunks polls
unfolding worker_thread read_master chunks
worker_thread-buffer [] e r c n = sym (append_nil e.buffer)
worker_thread-buffer (not_ready ∷ polls) e r c n =
    ground (arith, r, worker_thread-buffer polls e r c n)
worker_thread-buffer (chunk x ∷ polls) e r c n =
    let e1 : Executor = record e { buffer = e.buffer ++ x ∷ [] } in
    ground (
      arith,
      r,
      c,
      n,
      worker_thread-buffer polls e1 r c n,
      append_assoc e.buffer (x ∷ []) (chunks polls),
    )
worker_thread-buffer (end_of_file ∷ polls) e r c n =
    ground (arith, r, worker_thread-buffer polls e r c n)
worker_thread-buffer (failed ∷ polls) e r c n =
    let e1 : Executor = record e { isrunning = false; master_fd = 0 } in
    ground (arith, r, worker_thread-stopped polls e1 refl, append_nil e.buffer)

read_all-buffer : (xs : List ℕ) (e : Executor) → e.buffer ≡ xs → read_all (length xs) e ≡ xs
unfolding read_all read_front
read_all-buffer [] e h = refl
read_all-buffer (x ∷ xs) e h = ground (arith, h, read_all-buffer xs (record e { buffer = xs }) refl)

-- With a notification and no callback, what the terminal gave until the first failure is read from
-- the front of the buffer, in order and without loss.
pub read_all-worker_thread :
    (polls : List Poll) (e : Executor)
    → e.isrunning ≡ true
    → e.callback ≡ false
    → e.notification ≡ true
    → e.buffer ≡ []
    → read_all (length (chunks polls)) (worker_thread polls e).0 ≡ chunks polls
read_all-worker_thread polls e r c n b =
    read_all-buffer (chunks polls) (worker_thread polls e).0
      (worker_thread-buffer polls e r c n ∙ ap (λ z. z ++ chunks polls) b)

-- x
pub shutdown-stops :
    (expired : Bool) (status : ℕ) (poll : Poll) (e : Executor) (pid : ℕ)
    → e.child_pid ≡ child pid
    → ((shutdown expired status poll e).0.isrunning ≡ false)
      × ((shutdown expired status poll e).0.child_pid ≡ no_child)
      × ((shutdown expired status poll e).0.has_worker ≡ false)
      × ((shutdown expired status poll e).0.master_fd ≡ 0)
      × ((shutdown expired status poll e).0.exit_code ≡ status)
      × (get_elem? (shutdown expired status poll e).1 0 ≡ some (interrupted pid))
unfolding shutdown wait signal_child join_worker close_master read_master
shutdown-stops expired status not_ready e pid h = (
  ground (arith, h),
  ground (arith, h),
  ground (arith, h),
  ground (arith, h),
  ground (arith, h),
  ground (arith, h),
)
shutdown-stops expired status (chunk x) e pid h = (
  ground (arith, h),
  ground (arith, h),
  ground (arith, h),
  ground (arith, h),
  ground (arith, h),
  ground (arith, h),
)
shutdown-stops expired status end_of_file e pid h = (
  ground (arith, h),
  ground (arith, h),
  ground (arith, h),
  ground (arith, h),
  ground (arith, h),
  ground (arith, h),
)
shutdown-stops expired status failed e pid h = (
  ground (arith, h),
  ground (arith, h),
  ground (arith, h),
  ground (arith, h),
  ground (arith, h),
  ground (arith, h),
)

-- If the last read of the terminal fails, `shutdown` of an executor whose worker has gone notifies
-- of the exit twice, and closes the terminal and then the descriptor 0.
pub shutdown-failed :
    (fd pid : ℕ) (status : ℕ) (e : Executor)
    → e.child_pid ≡ child pid
    → e.has_worker ≡ false
    → e.exit_notification ≡ true
    → e.master_fd ≡ suc fd
    → (shutdown false status failed e).1
      ≡ interrupted pid
        ∷ exit_notified status
        ∷ exit_notified status
        ∷ closed_fd (suc fd)
        ∷ closed_fd 0
        ∷ []
unfolding shutdown wait signal_child join_worker close_master read_master when
shutdown-failed fd pid status e h w n m = ground (arith, h, w, n, m)
