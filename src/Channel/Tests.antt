-- ===== src/Channel/Tests.antt =====
-- A channel with a few communicators.
use coin_data.Prelude.{
  ℕ, ◌+◌, ◌<◌, ◌≡◌, ◌≢◌, refl, true, false, [], ◌∷◌, fault, Fault, arith, ltb, ◌==◌, if◌then◌else◌,
}
use coin_data.Channel.{
  Peers, Channel, check_connect_status, disconnect_offline, check_connect_immediately,
  connect_waiting, work,
}
use coin_data.Channel.Connections.{count, Tidy, check_connect_status-Tidy}
use coin_data.Channel.Registry.{register_receiver}
use coin_data.Channel.Registered.{register_receiver-Tidy}
use coin_data.Channel.Rounds.{work-stuck}

-- 4 is gone, 3 is offline, the others have objects and are online.
abbrev peers : Peers
peers = record {
  alive = λ n. if n == 4 then false else true;
  online = λ n. if n == 3 then false else true;
  published = λ n. ltb n 5;
}

abbrev channel : Channel
channel = record {
  last_update_time = 0;
  wait_connect_list = 1 ∷ 4 ∷ 7 ∷ [];
  connected_list = 2 ∷ 3 ∷ [];
  joined = λ n. if n == 2 then true else n == 3;
}

checked : (check_connect_status peers 9 channel).connected_list ≡ 2 ∷ 1 ∷ []
unfolding check_connect_status disconnect_offline check_connect_immediately connect_waiting
checked = refl

channel-Tidy : Tidy channel
unfolding count
channel-Tidy = record {
  once = λ n. ground arith;
  connected = λ n h. ground arith;
  waiting = λ n h. ground arith;
}

check_connect_status-Tidy_example :
    Tidy (check_connect_status peers 9 channel)
    × ((n : ℕ)
        → peers.alive n ≡ true
        → count n (check_connect_status peers 9 channel).wait_connect_list
            + count n (check_connect_status peers 9 channel).connected_list
          ≡ count n channel.wait_connect_list + count n channel.connected_list)
    × ((n : ℕ)
        → 0 < count n (check_connect_status peers 9 channel).connected_list
        → (peers.alive n ≡ true) × (peers.online n ≡ true))
    × ((n : ℕ)
        → channel.last_update_time ≢ 9
        → peers.alive n ≡ true
        → peers.online n ≡ true
        → peers.published n ≡ true
        → count n (check_connect_status peers 9 channel).wait_connect_list ≡ 0)
check_connect_status-Tidy_example = check_connect_status-Tidy peers 9 channel channel-Tidy

register_receiver-Tidy_example :
    Tidy (register_receiver peers 9 5 channel)
    × (peers.alive 5 ≡ true
        → peers.published 5 ≡ true
        → count 5 (register_receiver peers 9 5 channel).connected_list ≡ 1)
    × (peers.alive 5 ≡ true
        → peers.published 5 ≡ false
        → count 5 (register_receiver peers 9 5 channel).wait_connect_list ≡ 1)
unfolding count
register_receiver-Tidy_example = register_receiver-Tidy peers 9 5 channel channel-Tidy refl refl

counted : 0 < count 3 (1 ∷ 3 ∷ [])
unfolding count
counted = omega arith

work-stuck_example : work 100 peers (1 ∷ 3 ∷ []) ≡ fault Fault.out_of_fuel
work-stuck_example = work-stuck 100 peers (1 ∷ 3 ∷ []) 3 counted refl refl
