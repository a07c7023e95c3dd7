-- ===== src/Service.antt =====
-- `LocalService` and `LocalClient` of src/coin-data/local/local_channal.hpp: requests that clients push
-- into the ring of a service, and that the service answers in its turns. What a pointer in the ring
-- points to stands in a store; 0 is the null pointer. The callback, which belongs to the user of a
-- service, is a function from the request to the answer.
pub mod Answers
pub mod Tests
use coin_data.Prelude.{
  ℕ, ◌+◌, Bool, true, false, not, List, [], ◌∷◌, Option, none, some, Result, ok, fault, Fault,
  ◌>>=◌, ◌==◌, ltb, if◌then◌else◌, add_size,
}
use coin_data.CircularBuffer.{CircularBuffer, push_back, copy}

-- `RequestData__` and `AckData__`
pub record Exchange : Type 0 where
  pub pid : ℕ
  pub request : ℕ
  pub is_ready : Bool
  pub answer : ℕ

pub record World : Type 0 where
  pub is_online : Bool
  pub buffer : CircularBuffer ℕ
  pub exchanges : ℕ → Exchange

pub record Service : Type 0 where
  pub idx : ℕ

abbrev pub put : (ℕ → Exchange) → ℕ → Exchange → ℕ → Exchange
put f p x q = if p == q then x else f q

-- The constructor.
unfoldable pub open_service : World → World × Service
open_service w = (record w { is_online = true }, record { idx = w.buffer.tail })

unfoldable pub service_ready : World → Service → Service × Bool
service_ready w s =
    let s' : Service = if ltb s.idx w.buffer.head then record { idx = w.buffer.head } else s in
    (s', ltb s'.idx w.buffer.tail)

-- `spin_`; `buffer[idx_]` reads the slot that `copy` reads.
unfoldable pub service_spin : (ℕ → ℕ) → World → Service → Result (World × Service)
unfolding service_ready
service_spin cb w s =
    let (s', ready) = service_ready w s in
    if ready
    then (do
      it ← copy w.buffer s'.idx
      if it == 0
          then fault Fault.null_pointer
          else (let x : Exchange = w.exchanges it in
              ok (
                record w {
                  exchanges =
                      put w.exchanges it (record x { answer = cb x.request; is_ready = true });
                },
                record { idx = add_size s'.idx 1 },
              )))
    else ok (w, s')

-- `call` up to its loop, with the new exchange at `ptr`; false without a connection.
unfoldable pub send : Bool → ℕ → ℕ → ℕ → World → Result (Bool × World)
send connected pid ptr request w =
    if connected
    then (do
      buffer ← push_back w.buffer ptr
      ok (
        true,
        record w {
          buffer = buffer;
          exchanges = put w.exchanges ptr (record {
            pid = pid;
            request = request;
            is_ready = false;
            answer = (w.exchanges ptr).answer;
          });
        },
      ))
    else ok (false, w)

-- The loop of `call`, on what it sees in its rounds: whether the answer is ready, whether `coin::ok()`,
-- whether the service is online after the sleep, and whether the answer is ready if it looks once more
-- after the loop. None if it still waits.
pub record Seen : Type 0 where
  pub ready : Bool
  pub ok_here : Bool
  pub online : Bool
  pub ready_after : Bool

unfoldable pub await : List Seen → Option Bool
await [] = none
await (e ∷ es) =
    let rest = await es in
    if e.ready
    then some e.ready_after
    else if not e.ok_here
    then some e.ready_after
    else if not e.online
    then some false
    else rest
