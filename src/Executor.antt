-- ===== src/Executor.antt =====
-- `Executor` of src/coin-commons/executor/executor.cpp: a child process behind a pseudo terminal. A
-- piece of output is a number; a callback is only there or not. What a system call gives is an argument,
-- and what the code does outside its object is put on record.
pub mod Arguments
pub mod Output
pub mod Tests
use coin_data.Prelude.{
  ℕ, zero, suc, Bool, true, false, List, [], ◌∷◌, ◌++◌, Option, none, some, Result, ok, fault,
  Fault, ◌==◌, if◌then◌else◌,
}

-- `child_pid_`: 0, the process that was started, or -1 after a failure of `fork`
pub data Child : Type 0 where
  no_child : Child
  child : ℕ → Child
  fork_failed : Child

pub record Executor : Type 0 where
  pub master_fd : ℕ
  pub child_pid : Child
  pub isrunning : Bool
  pub exit_code : ℕ
  pub has_worker : Bool
  pub buffer : List ℕ
  pub callback : Bool
  pub notification : Bool
  pub exit_notification : Bool

pub data Effect : Type 0 where
  interrupted : ℕ → Effect
  killed : ℕ → Effect
  started : ℕ → Effect
  joined : Effect
  closed_fd : ℕ → Effect
  called : ℕ → Effect
  notified : Effect
  printed : ℕ → Effect
  exit_notified : ℕ → Effect

-- What `select` and `read` say about the terminal
pub data Poll : Type 0 where
  not_ready : Poll
  chunk : ℕ → Poll
  end_of_file : Poll
  failed : Poll

unfoldable pub when : Bool → Effect → List Effect
when b e = if b then e ∷ [] else []

-- `read_master_`
unfoldable pub read_master : Poll → Executor → Executor × List Effect
unfolding when
read_master not_ready e = (e, [])
read_master (chunk x) e =
    if e.callback
    then (e, called x ∷ [])
    else (if e.notification
        then (record e { buffer = e.buffer ++ x ∷ [] }, notified ∷ [])
        else (e, printed x ∷ []))
read_master end_of_file e = (e, [])
read_master failed e = (
  record e { isrunning = false; master_fd = 0 },
  when e.exit_notification (exit_notified e.exit_code)
      ++ (if e.master_fd == 0 then [] else closed_fd e.master_fd ∷ []),
)

-- `worker_thread_`, as long as the terminal says something
unfoldable pub worker_thread : List Poll → Executor → Executor × List Effect
unfolding read_master
worker_thread [] e = (e, [])
worker_thread (poll ∷ polls) e =
    let (e1, did) = read_master poll e in
    let (e2, more) = worker_thread polls e1 in if e.isrunning then (e2, did ++ more) else (e, [])

-- `read_front`; the code gives an empty string for none.
unfoldable pub read_front : Executor → Option ℕ × Executor
read_front e = elim (e.buffer) [ [] ↦ (none, e) | (x ∷ xs) ↦ (some x, record e { buffer = xs }) ]

-- `wait`, with what `waitpid` says
unfoldable pub wait : ℕ → Executor → ℕ × Executor
wait status e = elim (e.child_pid) [
  | no_child ↦ (e.exit_code, e)
  | child pid ↦ (status, record e { exit_code = status })
  | fork_failed ↦ (status, record e { exit_code = status })
]

-- `send_signal(SIGKILL)`, and the other signal
unfoldable pub signal_child : (ℕ → Effect) → Executor → List Effect
signal_child sent e = elim (e.child_pid) [
  | no_child ↦ []
  | child pid ↦ sent pid ∷ []
  | fork_failed ↦ []
]

unfoldable pub join_worker : Executor → Executor × List Effect
join_worker e = if e.has_worker then (record e { has_worker = false }, joined ∷ []) else (e, [])

-- The end of `shutdown`: what is left in the terminal is read, and the terminal is closed.
unfoldable pub close_master : Poll → Executor → Executor × List Effect
unfolding read_master
close_master poll e =
    let (e1, did) = read_master poll e in
    if e.master_fd == 0
    then (e, [])
    else (record e1 { master_fd = 0 }, did ++ closed_fd e1.master_fd ∷ [])

-- `shutdown`; `expired` says that there was a timeout and that it passed before the child ended.
unfoldable pub shutdown : Bool → ℕ → Poll → Executor → Executor × List Effect
unfolding wait signal_child join_worker close_master when
shutdown expired status poll e =
    let (code, e1) = wait status e in
    let e2 = record e1 { isrunning = false; child_pid = no_child } in
    let (e3, did3) = join_worker e2 in
    let (e4, did4) = close_master poll e3 in
    (
      e4,
      signal_child interrupted e
          ++ (if expired then (if e.isrunning then signal_child killed e else []) else [])
          ++ when e.exit_notification (exit_notified code)
          ++ did3
          ++ did4,
    )

-- `execute` of a command that is not empty, with the terminal and the process that it gets. The
-- terminal of the command before is not closed.
unfoldable pub execute : Option ℕ → Child → Executor → Result (Executor × List Effect)
unfolding join_worker signal_child
execute terminal forked e =
    let (e1, did) = join_worker e in
    elim terminal [
      | none ↦ fault Fault.aborted
      | some fd ↦ ok (
        record e1 { master_fd = fd; child_pid = forked; isrunning = true; has_worker = true },
        did
            ++ signal_child killed e
            ++ elim forked [ no_child ↦ [] | child pid ↦ started pid ∷ [] | fork_failed ↦ [] ],
      )
    ]
