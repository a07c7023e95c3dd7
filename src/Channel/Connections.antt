-- ===== src/Channel/Connections.antt =====
-- Where a communicator is after the connections were checked.
use coin_data.Prelude.{
  ℕ, ◌+◌, ◌≤◌, ◌<◌, ◌≡◌, ◌≢◌, Bool, true, false, not, ◌&&◌, List, [], ◌∷◌, ◌++◌, arith, ltb, ◌==◌,
  if◌then◌else◌,
}
use coin_data.Channel.{
  Peers, Channel, Sorted, mark, connect_waiting, check_connect_immediately, disconnect_offline,
  refresh, check_connect_status,
}

-- How often a communicator stands in a list.
unfoldable pub count : ℕ → List ℕ → ℕ
count n [] = 0
count n (m ∷ ms) = (if m == n then 1 else 0) + count n ms

pub count-append : (n : ℕ) (ms ns : List ℕ) → count n (ms ++ ns) ≡ count n ms + count n ns
unfolding count
count-append n [] ns = omega arith
count-append n (m ∷ ms) ns = omega (arith, count-append n ms ns)

module _ (p : Peers) (n : ℕ) where
  pub connect_waiting-count :
      (ns : List ℕ) (joined : ℕ → Bool)
      → (count n (connect_waiting p ns joined).stays
          ≡ (if p.alive n && not (p.published n) then count n ns else 0))
        × (count n (connect_waiting p ns joined).moves
            ≡ (if p.alive n && p.published n then count n ns else 0))
        × ((connect_waiting p ns joined).joined n
            ≡ (if p.alive n && p.published n && ltb 0 (count n ns) then true else joined n))
  unfolding connect_waiting count
  connect_waiting-count [] joined = ground arith
  connect_waiting-count (m ∷ ms) joined =
      ground (arith, connect_waiting-count ms joined, connect_waiting-count ms (mark joined m true))

  disconnect_offline-count :
      (ns : List ℕ) (joined : ℕ → Bool)
      → (count n (disconnect_offline p ns joined).stays
          ≡ (if p.alive n && p.online n then count n ns else 0))
        × (count n (disconnect_offline p ns joined).moves
            ≡ (if p.alive n && not (p.online n) then count n ns else 0))
        × ((disconnect_offline p ns joined).joined n
            ≡ (if p.alive n && not (p.online n) && ltb 0 (count n ns) then false else joined n))
  unfolding disconnect_offline count
  disconnect_offline-count [] joined = ground arith
  disconnect_offline-count (m ∷ ms) joined =
      ground (
        arith,
        disconnect_offline-count ms joined,
        disconnect_offline-count ms (mark joined m false),
      )

-- No communicator stands in the lists twice, and `connecte_to_` was called last of those that stand in
-- `connected_list_`, or `disconnect_`, or neither, of those that wait.
pub record Tidy (c : Channel) : Type 0 where
  pub once : (n : ℕ) → count n c.wait_connect_list + count n c.connected_list ≤ 1
  pub connected : (n : ℕ) → 0 < count n c.connected_list → c.joined n ≡ true
  pub waiting : (n : ℕ) → 0 < count n c.wait_connect_list → c.joined n ≡ false

module _ (p : Peers) (update_time : ℕ) (c : Channel) where
  refresh-count :
      (n : ℕ)
      → Tidy c
      → (count n (refresh p update_time c).wait_connect_list
            + count n (refresh p update_time c).connected_list
          ≤ count n c.wait_connect_list + count n c.connected_list)
        × (p.alive n ≡ true
            → count n (refresh p update_time c).wait_connect_list
                + count n (refresh p update_time c).connected_list
              ≡ count n c.wait_connect_list + count n c.connected_list)
        × (0 < count n (refresh p update_time c).connected_list
            → (refresh p update_time c).joined n ≡ true)
        × (0 < count n (refresh p update_time c).wait_connect_list
            → (refresh p update_time c).joined n ≡ false)
        × (c.last_update_time ≢ update_time
            → p.alive n ≡ true
            → p.published n ≡ true
            → count n (refresh p update_time c).wait_connect_list ≡ 0)
  unfolding check_connect_immediately
  refresh-count n t = ground (
    arith,
    connect_waiting-count p n c.wait_connect_list c.joined,
    count-append n c.connected_list (connect_waiting p c.wait_connect_list c.joined).moves,
    t.once n,
    t.connected n,
    t.waiting n,
  )

-- If no communicator stands in the lists twice and `connecte_to_` was called last of exactly the
-- connected ones, this stays so after `check_connect_status_`. No living communicator is lost;
-- those left as connected live and are online; one that lives, is online and has an object does not
-- wait any more if the object map has changed.
pub check_connect_status-Tidy :
    (p : Peers) (update_time : ℕ) (c : Channel)
    → Tidy c
    → Tidy (check_connect_status p update_time c)
      × ((n : ℕ)
          → p.alive n ≡ true
          → count n (check_connect_status p update_time c).wait_connect_list
              + count n (check_connect_status p update_time c).connected_list
            ≡ count n c.wait_connect_list + count n c.connected_list)
      × ((n : ℕ)
          → 0 < count n (check_connect_status p update_time c).connected_list
          → (p.alive n ≡ true) × (p.online n ≡ true))
      × ((n : ℕ)
          → c.last_update_time ≢ update_time
          → p.alive n ≡ true
          → p.online n ≡ true
          → p.published n ≡ true
          → count n (check_connect_status p update_time c).wait_connect_list ≡ 0)
unfolding check_connect_status
check_connect_status-Tidy p update_time c t =
    let c1 : Channel = refresh p update_time c in
    let r : Sorted = disconnect_offline p c1.connected_list c1.joined in
    let sorted = λ (n : ℕ). disconnect_offline-count p n c1.connected_list c1.joined in
    let joined_lists = λ (n : ℕ). count-append n c1.wait_connect_list r.moves in
    (
      record {
        once = λ n.
            ground (arith, sorted n, joined_lists n, refresh-count p update_time c n t, t.once n);
        connected = λ n h.
            ground (arith, sorted n, joined_lists n, refresh-count p update_time c n t, t.once n);
        waiting = λ n h.
            ground (arith, sorted n, joined_lists n, refresh-count p update_time c n t, t.once n);
      },
      λ n a. ground (arith, sorted n, joined_lists n, refresh-count p update_time c n t),
      λ n h. ground (arith, sorted n),
      λ n u a o b. ground (arith, sorted n, joined_lists n, refresh-count p update_time c n t),
    )
