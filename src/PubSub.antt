-- ===== src/PubSub.antt =====
-- `LocalPublisher` and `LocalSubscriber` of src/coin-data/local/local_channal.hpp over one shared
-- item, and the part of `LocalChannal::spin_once` that serves a connected subscriber. A data pointer
-- is a number, 0 for null. Each call of the shared buffer is one step, as under the mutex of the
-- buffer, and a subscriber's turn is several: a publication can come between any two of them.
pub mod Links
pub mod Turns
pub mod Delivery
pub mod Drain
pub mod Tests
use coin_data.Prelude.{
  ℕ, zero, suc, ◌+◌, ◌-◌, Bool, true, false, List, [], ◌∷◌, ◌++◌, Option, none, some, Result, ok,
  fault, Fault, ◌>>=◌, add_size, ltb, ◌==◌, if◌then◌else◌, length, set,
}
use coin_data.CircularBuffer
use coin_data.CircularBuffer.{CircularBuffer, push_back, copy, slot}

-- `Communicator::CommunicatorItem` with a circular buffer.
pub record Item : Type 0 where
  pub is_online : Bool
  pub index : ℕ
  pub buffer : CircularBuffer ℕ

-- A fresh item, as `ShmObjManager::create` makes it.
unfoldable pub create_item : ℕ → Item
create_item bs = record { is_online = false; index = 0; buffer = CircularBuffer.create bs 0 }

-- The constructor of the publisher.
pub publisher_online : Item → Item
publisher_online item = record item { is_online = true }

-- The index, which is counted up last, is read by `is_update` only.
unfoldable pub publish : Item → ℕ → Result Item
publish item value = do
  buffer ← push_back item.buffer value
  ok (record item { buffer = buffer; index = add_size item.index 1 })

-- `buffer[idx].reset()` for `idx` from `head()` up to `tail()`.
reset_from : ℕ → ℕ → CircularBuffer ℕ → Result (CircularBuffer ℕ)
reset_from zero idx b = ok b
reset_from (suc rounds) idx b =
    slot b idx >>= λ i. reset_from rounds (add_size idx 1) (record b { buffer = set b.buffer i 0 })

-- The destructor of the publisher.
unfoldable pub publisher_offline : Item → Result Item
unfolding reset_from
publisher_offline item = do
  buffer ← reset_from (item.buffer.tail - item.buffer.head) item.buffer.head item.buffer
  ok (record item { is_online = false; buffer = buffer })

pub record Subscriber : Type 0 where
  pub buffer_size : ℕ
  pub idx : ℕ
  pub buffer : List ℕ

-- `connecte_to_`: what was published before is not delivered.
unfoldable pub connecte_to : Item → Subscriber → Subscriber
connecte_to item s = record s { idx = item.buffer.tail }

pub is_update : Item → Subscriber → Bool
is_update item s = if s.idx == item.index then false else true

abbrev pop_front : List ℕ → List ℕ
pop_front [] = []
pop_front (x ∷ xs) = xs

pub invoke : Item → Subscriber → Result Subscriber
invoke item s = do
  it ← copy item.buffer s.idx
  let queue = s.buffer ++ it ∷ []
  if it == 0
      then fault Fault.aborted
      else ok (record s {
        buffer = if ltb s.buffer_size (length queue) then pop_front queue else queue;
        idx = add_size s.idx 1;
      })

-- The value, if any, is what the callback is called with.
pub spin : Subscriber → Subscriber × Option ℕ
spin s = elim s.buffer [ [] ↦ (s, none) | x ∷ xs ↦ (record s { buffer = xs }, some x) ]

-- Where a connected subscriber's turn in `LocalChannal::spin_once` is
pub data Phase : Type 0 where
  -- the test of the index against the head
  testing : Phase
  -- the index is set to the head, which is read again
  moving : Phase
  -- the comparison with the tail
  comparing : Phase
  -- `invoke_`
  invoking : Phase
  -- `spin_`
  calling : Phase

-- What `is_ready_` does in one phase of its own: elements that were overwritten are skipped.
unfoldable pub is_ready : Phase → Item → Subscriber → Phase × Subscriber
is_ready testing item s = (if ltb s.idx item.buffer.head then moving else comparing, s)
is_ready moving item s = (comparing, record s { idx = item.buffer.head })
is_ready comparing item s = (if ltb s.idx item.buffer.tail then invoking else calling, s)
is_ready invoking item s = (invoking, s)
is_ready calling item s = (calling, s)

-- One step of the turn, with the value of the callback. After `spin_` the next turn begins.
unfoldable pub serve : Phase → Item → Subscriber → Result (Phase × Subscriber × Option ℕ)
unfolding is_ready invoke spin
serve testing item s = let (f, t) = is_ready testing item s in ok (f, t, none)
serve moving item s = let (f, t) = is_ready moving item s in ok (f, t, none)
serve comparing item s = let (f, t) = is_ready comparing item s in ok (f, t, none)
serve invoking item s = invoke item s >>= λ t. ok (calling, t, none)
serve calling item s = let (t, v) = spin s in ok (testing, t, v)
