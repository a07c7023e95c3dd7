-- ===== src/CircularBuffer.antt =====
-- `SharedCircularBuffer` of src/coin-data/local/impl/shmobj_manager.hpp: the shared ring that carries
-- published data. Every method runs under the process mutex of the buffer, so each is one step here.
pub mod History
use coin_data.Prelude.{
  ℕ, ◌%◌, ◌≡◌, Bool, List, [], Option, none, some, Result, ok, fault, Fault, ◌>>=◌, add_size,
  sub_size, ltb, leb, ◌==◌, if◌then◌else◌, get_elem?, set, replicate, length,
}

pub record CircularBuffer {ℓ} (A : Type ℓ) : Type ℓ where
  pub head : ℕ
  pub tail : ℕ
  pub total_size : ℕ
  pub buffer : List A

module _ {ℓ} {A : Type ℓ} where
  -- The constructor: `size` default elements.
  unfoldable pub create : ℕ → A → CircularBuffer A
  create size default = record {
    head = 0;
    tail = 0;
    total_size = size;
    buffer = replicate size default;
  }

  -- `%` by `total_size_`: the processor faults on zero.
  abbrev pub slot : CircularBuffer A → ℕ → Result ℕ
  slot b i = if b.total_size == 0 then fault Fault.divide_by_zero else ok (i % b.total_size)

  -- What the destructor of `InOut` runs when `push_back` returns.
  pub advance : CircularBuffer A → CircularBuffer A
  advance b =
      let tail' = add_size b.tail 1 in
      if leb b.total_size (sub_size tail' b.head)
      then record b { tail = tail'; head = add_size b.head 1 }
      else record b { tail = tail' }

  unfoldable pub push_back : CircularBuffer A → A → Result (CircularBuffer A)
  unfolding advance
  push_back b val = do
    idx ← slot b b.tail
    if ltb idx (length b.buffer)
        then ok (advance (record b { buffer = set b.buffer idx val }))
        else fault Fault.out_of_range

  -- The index that `copy` and `operator[]` read: the nearest one that is held.
  pub nearest : CircularBuffer A → ℕ → ℕ
  nearest b idx =
      if ltb idx b.head then b.head else if leb b.tail idx then sub_size b.tail 1 else idx

  abbrev pub or_fault : Option A → Result A
  or_fault none = fault Fault.out_of_range
  or_fault (some a) = ok a

  unfoldable pub copy : CircularBuffer A → ℕ → Result A
  unfolding nearest
  copy b idx = do i ← slot b (nearest b idx); or_fault (get_elem? b.buffer i)

  -- The elements go, the indices stay; nobody calls it.
  pub clear : CircularBuffer A → CircularBuffer A
  clear b = record b { buffer = [] }

  -- `size`
  pub size : CircularBuffer A → ℕ
  size b = length b.buffer
