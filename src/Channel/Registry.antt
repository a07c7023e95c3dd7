-- ===== src/Channel/Registry.antt =====
-- How communicators come into the lists: the functions of `LocalChannal` that make them, of
-- src/coin-data/local/local_channal.hpp, the loop of `spin_once` over the connected ones, and the name
-- that a node takes when its channel is made.
use coin_data.Prelude.{
  ℕ, Bool, true, false, List, [], ◌∷◌, ◌++◌, none, some, Result, ok, fault, Fault, lookup,
  insert_or_assign, emplace, erase, nat_key, if◌then◌else◌,
}
use coin_data.Channel.{Peers, Channel, check_connect_immediately}

-- `writer` and `publisher`
unfoldable pub register_sender : Peers → ℕ → Channel → Channel
unfolding check_connect_immediately
register_sender p update_time c = check_connect_immediately p update_time c

-- `reader`, `subscriber` and `client`
unfoldable pub register_receiver : Peers → ℕ → ℕ → Channel → Channel
unfolding check_connect_immediately
register_receiver p update_time n c =
    check_connect_immediately p update_time
      (record c { wait_connect_list = c.wait_connect_list ++ n ∷ [] })

-- `service`; the second part is `work_list_`.
unfoldable pub register_service : Peers → ℕ → ℕ → Channel → List ℕ → Channel × List ℕ
unfolding check_connect_immediately
register_service p update_time n c work_list =
    (check_connect_immediately p update_time c, work_list ++ n ∷ [])

-- What the loop of `spin_once` does to a connected communicator
pub data Turn : Type 0 where
  invoked : ℕ → Turn
  spun : ℕ → Turn

-- The loop of `spin_once` over `connected_list_`: what is left of the list, and the calls.
unfoldable pub spin_connected : (ℕ → Bool) → (ℕ → Bool) → List ℕ → List ℕ × List Turn
spin_connected alive is_ready [] = ([], [])
spin_connected alive is_ready (n ∷ ns) =
    let (left, turns) = spin_connected alive is_ready ns in
    if alive n
    then (n ∷ left, (if is_ready n then invoked n ∷ spun n ∷ turns else spun n ∷ turns))
    else (left, turns)

-- The constructor of `LocalChannal` takes a name in the map of nodes; it leaves the process if the name
-- is that of a living one.
unfoldable pub claim_name : (ℕ → Bool) → ℕ → ℕ → List (ℕ × ℕ) → Result (List (ℕ × ℕ))
claim_name lives name pid nodes = elim (lookup name nodes) [
  | none ↦ ok (emplace name pid nodes)
  | some old ↦ elim (lives old) [
    | true ↦ fault Fault.aborted
    | false ↦ ok (insert_or_assign name pid nodes)
  ]
]

-- The destructor of `LocalChannal` gives the name back.
unfoldable pub leave_name : ℕ → List (ℕ × ℕ) → List (ℕ × ℕ)
leave_name name nodes = erase name nodes
