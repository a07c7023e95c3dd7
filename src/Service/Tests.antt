-- ===== src/Service/Tests.antt =====
-- A service that answers a request with its successor.
use coin_data.Prelude.{ℕ, ◌+◌, ◌≡◌, refl, true, false, List, [], ◌∷◌, ok, some, arith}
use coin_data.CircularBuffer.{CircularBuffer, create}
use coin_data.CircularBuffer.History.{Holds, create-Holds}
use coin_data.Service.{World, Service, service_spin, send, Seen, await}
use coin_data.Service.Answers.{send-service_spin}

abbrev ring : CircularBuffer ℕ
ring = record { head = 0; tail = 0; total_size = 3; buffer = 0 ∷ 0 ∷ 0 ∷ [] }

ring-Holds : Holds ring []
unfolding create
ring-Holds = create-Holds 3 0 (omega arith)

abbrev world : World
world = record {
  is_online = true;
  buffer = ring;
  exchanges = λ p. record { pid = 0; request = 0; is_ready = false; answer = 0 };
}

abbrev service : Service
service = record { idx = 0 }

abbrev next : ℕ → ℕ
next n = n + 1

-- One request waits in the ring.
abbrev loaded : CircularBuffer ℕ
loaded = record { head = 0; tail = 1; total_size = 3; buffer = 5 ∷ 0 ∷ 0 ∷ [] }

abbrev request : List ℕ
request = 5 ∷ []

loaded-Holds : Holds loaded request
loaded-Holds = record {
  room = omega arith;
  sized = refl;
  small = omega arith;
  pushed = refl;
  oldest = omega arith;
  elements = λ i a b. let e : i ≡ 0 = omega arith in rw e refl;
}

abbrev busy : World
busy = record world { buffer = loaded }

send-service_spin_example :
    (w1 : World) × (w2 : World) × (s2 : Service) × (send true 77 5 41 world ≡ ok (true, w1))
    × (service_spin next w1 service ≡ ok (w2, s2))
    × (s2.idx ≡ 1)
    × ((w2.exchanges 5).answer ≡ 42)
    × ((es : List Seen)
        → (e : Seen) → e.ready ≡ (w2.exchanges 5).is_ready
        → e.ready_after ≡ (w2.exchanges 5).is_ready
        → await (e ∷ es) ≡ some true)
send-service_spin_example =
    send-service_spin next 77 5 41 world ring-Holds (omega arith) (omega arith) refl (omega arith)
