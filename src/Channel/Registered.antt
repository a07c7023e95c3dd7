-- ===== src/Channel/Registered.antt =====
-- A communicator that was just made, and the name of a node.
use coin_data.Prelude.{
  ℕ, ◌+◌, ◌≤◌, ◌<◌, ◌≡◌, ◌≢◌, Bool, true, false, List, [], ◌∷◌, ◌++◌, none, some, ok, fault, Fault,
  arith, lookup, nat_key, lookup-emplace, lookup-erase, lookup-insert_or_assign, Option-cases, inl,
  inr,
}
use coin_data.Channel.{Peers, Channel, connect_waiting, check_connect_immediately}
use coin_data.Channel.Connections.{count, count-append, connect_waiting-count, Tidy}
use coin_data.Channel.Registry.{register_receiver, claim_name, leave_name}

module _ (p : Peers) (update_time n : ℕ) (c : Channel) (t : Tidy c)
    (new : count n c.wait_connect_list + count n c.connected_list ≡ 0)
    (apart : c.joined n ≡ false) where
  -- Where a communicator stands after `n` was registered
  register_receiver-counts :
      (k : ℕ)
      → (count k (register_receiver p update_time n c).wait_connect_list
            + count k (register_receiver p update_time n c).connected_list
          ≤ 1)
        × (0 < count k (register_receiver p update_time n c).connected_list
            → (register_receiver p update_time n c).joined k ≡ true)
        × (0 < count k (register_receiver p update_time n c).wait_connect_list
            → (register_receiver p update_time n c).joined k ≡ false)
  unfolding register_receiver check_connect_immediately count
  register_receiver-counts k =
      let ns = c.wait_connect_list ++ n ∷ [] in
      ground (
        arith,
        new,
        apart,
        connect_waiting-count p k ns c.joined,
        count-append k c.connected_list (connect_waiting p ns c.joined).moves,
        count-append k c.wait_connect_list (n ∷ []),
        t.once k,
        t.connected k,
        t.waiting k,
      )

  -- When a communicator that is in no list and not joined is made by `reader`, `subscriber` or
  -- `client`, still no communicator is in the lists twice and exactly the connected ones were
  -- joined last; if it lives it is connected if its name has an object, and waits if not.
  pub register_receiver-Tidy :
      Tidy (register_receiver p update_time n c)
      × (p.alive n ≡ true
          → p.published n ≡ true
          → count n (register_receiver p update_time n c).connected_list ≡ 1)
      × (p.alive n ≡ true
          → p.published n ≡ false
          → count n (register_receiver p update_time n c).wait_connect_list ≡ 1)
  unfolding register_receiver check_connect_immediately count
  register_receiver-Tidy =
      let ns = c.wait_connect_list ++ n ∷ [] in
      (
        record {
          once = λ k. (register_receiver-counts k).0;
          connected = λ k. (register_receiver-counts k).1;
          waiting = λ k. (register_receiver-counts k).2;
        },
        λ a b. ground (
          arith,
          new,
          a,
          b,
          connect_waiting-count p n ns c.joined,
          count-append n c.connected_list (connect_waiting p ns c.joined).moves,
          count-append n c.wait_connect_list (n ∷ []),
        ),
        λ a b. ground (
          arith,
          new,
          a,
          b,
          connect_waiting-count p n ns c.joined,
          count-append n c.wait_connect_list (n ∷ []),
        ),
      )

-- A name is taken by one living process: it is had afterwards, or a living one has it; and when it is
-- given back nobody has it.
pub claim_name-taken :
    (lives : ℕ → Bool) (name pid : ℕ) (nodes : List (ℕ × ℕ))
    → ((old : ℕ)
        → lookup name nodes ≡ some old
        → lives old ≡ true
        → claim_name lives name pid nodes ≡ fault Fault.aborted)
      × ((nodes' : List (ℕ × ℕ))
          → claim_name lives name pid nodes ≡ ok nodes'
          → (lookup name nodes' ≡ some pid)
            × (lookup name (leave_name name nodes') ≡ none)
            × ((other : ℕ) → other ≢ name → lookup other nodes' ≡ lookup other nodes))
unfolding claim_name leave_name
claim_name-taken lives name pid nodes = (
  λ old e l. ground (arith, e, l),
  λ nodes' e. elim (Option-cases (lookup name nodes)) [
    | inl f ↦ (
      ground (arith, e, f, lookup-emplace name name pid nodes f),
      ground (arith, lookup-erase name name nodes'),
      λ other ne. ground (arith, e, f, lookup-emplace name other pid nodes f),
    )
    | inr (old, f) ↦ (
      ground (arith, e, f, lookup-insert_or_assign name name pid nodes),
      ground (arith, lookup-erase name name nodes'),
      λ other ne. ground (arith, e, f, lookup-insert_or_assign name other pid nodes),
    )
  ],
)
