-- ===== src/Channel.antt =====
-- `LocalChannal` of src/coin-data/local/local_channal.cpp: the lists of communicators, one round of
-- `spin_once`, and the timer whose task checks the connections. A communicator is a number.
pub mod Connections
pub mod Rounds
pub mod Registry
pub mod Registered
pub mod Tests
use coin_data.Prelude.{
  ℕ, zero, suc, ◌+◌, Bool, true, false, List, [], ◌∷◌, ◌++◌, Option, none, some, Result, ok, fault,
  Fault, ◌>>=◌, ltb, ◌==◌, if◌then◌else◌, sub_size,
}

-- What the other processes and the owners of the communicators decide, while one method runs.
pub record Peers : Type 0 where
  -- the weak pointer can be locked
  pub alive : ℕ → Bool
  -- `is_online`
  pub online : ℕ → Bool
  -- `hasSharedObject` for its name
  pub published : ℕ → Bool

-- `joined` says of which communicators `connecte_to_` was called last, rather than `disconnect_`.
pub record Channel : Type 0 where
  pub last_update_time : ℕ
  pub wait_connect_list : List ℕ
  pub connected_list : List ℕ
  pub joined : ℕ → Bool

abbrev pub mark : (ℕ → Bool) → ℕ → Bool → ℕ → Bool
mark f n b m = if n == m then b else f m

-- The loop over a list: what stays in it, what moves to the end of the other list, and the marks.
pub record Sorted : Type 0 where
  pub stays : List ℕ
  pub moves : List ℕ
  pub joined : ℕ → Bool

unfoldable pub connect_waiting : Peers → List ℕ → (ℕ → Bool) → Sorted
connect_waiting p [] joined = record { stays = []; moves = []; joined = joined }
connect_waiting p (n ∷ ns) joined =
    if p.alive n
    then (if p.published n
        then (let r = connect_waiting p ns (mark joined n true) in record r { moves = n ∷ r.moves })
        else (let r = connect_waiting p ns joined in record r { stays = n ∷ r.stays }))
    else connect_waiting p ns joined

-- `update_time` is what the object manager says.
unfoldable pub check_connect_immediately : Peers → ℕ → Channel → Channel
check_connect_immediately p update_time c =
    let r = connect_waiting p c.wait_connect_list c.joined in
    record {
      last_update_time = update_time;
      wait_connect_list = r.stays;
      connected_list = c.connected_list ++ r.moves;
      joined = r.joined;
    }

unfoldable pub disconnect_offline : Peers → List ℕ → (ℕ → Bool) → Sorted
disconnect_offline p [] joined = record { stays = []; moves = []; joined = joined }
disconnect_offline p (n ∷ ns) joined =
    if p.alive n
    then (if p.online n
        then (let r = disconnect_offline p ns joined in record r { stays = n ∷ r.stays })
        else (let r = disconnect_offline p ns (mark joined n false) in
            record r { moves = n ∷ r.moves }))
    else disconnect_offline p ns joined

abbrev pub refresh : Peers → ℕ → Channel → Channel
refresh p update_time c =
    if c.last_update_time == update_time
    then c
    else record (check_connect_immediately p update_time c) { last_update_time = update_time }

unfoldable pub check_connect_status : Peers → ℕ → Channel → Channel
check_connect_status p update_time c =
    let c' = refresh p update_time c in
    let r = disconnect_offline p c'.connected_list c'.joined in
    record c' {
      wait_connect_list = c'.wait_connect_list ++ r.moves;
      connected_list = r.stays;
      joined = r.joined;
    }

-- The loop over `work_list_`: what is left of the list, and whose `spin_` was called. The iterator
-- stays where it is at a communicator that lives and is not online.
unfoldable pub work : ℕ → Peers → List ℕ → Result (List ℕ × List ℕ)
work fuel p [] = ok ([], [])
work zero p (n ∷ ns) = fault Fault.out_of_fuel
work (suc fuel) p (n ∷ ns) =
    if p.alive n
    then (if p.online n
        then (work fuel p ns >>= λ (list, spun). ok (n ∷ list, n ∷ spun))
        else work fuel p (n ∷ ns))
    else work fuel p ns

-- `LoopTimer`: a task is named by a number.
pub record TaskItem : Type 0 where
  pub cycle : ℕ
  pub last_invoke_time : ℕ
  pub task : ℕ

unfoldable pub install_task : ℕ → ℕ → List TaskItem → List TaskItem
install_task cycle task tasks =
    tasks ++ record { cycle = cycle; last_invoke_time = 0; task = task } ∷ []

abbrev pub due : ℕ → TaskItem → Bool
due time t = ltb t.cycle (sub_size time t.last_invoke_time)

-- The tasks after `exec`, and those that it ran.
unfoldable pub exec : ℕ → List TaskItem → List TaskItem × List ℕ
exec time [] = ([], [])
exec time (t ∷ ts) =
    let (rest, ran) = exec time ts in
    if due time t
    then (record t { last_invoke_time = time } ∷ rest, t.task ∷ ran)
    else (t ∷ rest, ran)
