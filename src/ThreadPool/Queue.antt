-- ===== src/ThreadPool/Queue.antt =====
-- `LockFreeQueue` of src/coin-commons/utils/threadpool.hpp. The indices are `int` and stay below the
-- capacity, so that no sum of them overflows for a capacity below 2 ^ 30.
pub mod Fifo
use coin_data.Prelude.{
  ℕ, zero, suc, ◌+◌, ◌-◌, ◌%◌, Bool, true, false, List, [], ◌∷◌, Option, none, some, Result, ok,
  fault, Fault, ◌>>=◌, ltb, ◌==◌, if◌then◌else◌, get_elem?, set, replicate, length,
}

pub record LockFreeQueue (A : Type 0) : Type 0 where
  pub buffer : List A
  pub capacity : ℕ
  pub head : ℕ
  pub tail : ℕ

module _ {A : Type 0} where
  -- The constructor: `capacity` default elements.
  unfoldable pub create : ℕ → A → LockFreeQueue A
  create capacity default = record {
    buffer = replicate capacity default;
    capacity = capacity;
    head = 0;
    tail = 0;
  }

  -- `%` by the capacity
  abbrev pub wrap : LockFreeQueue A → ℕ → Result ℕ
  wrap q i = if q.capacity == 0 then fault Fault.divide_by_zero else ok (i % q.capacity)

  -- `buffer[i] = value`
  abbrev pub store : LockFreeQueue A → ℕ → A → Result (LockFreeQueue A)
  store q i value =
      if ltb i (length q.buffer)
      then ok (record q { buffer = set q.buffer i value })
      else fault Fault.out_of_range

  -- `buffer[i]`
  abbrev pub fetch : LockFreeQueue A → ℕ → Result A
  fetch q i = elim (get_elem? q.buffer i) [ none ↦ fault Fault.out_of_range | some a ↦ ok a ]

  unfoldable pub push_back : LockFreeQueue A → A → Result (Bool × LockFreeQueue A)
  push_back q value = do
    next_tail ← wrap q (q.tail + 1)
    if next_tail == q.head
        then ok (false, q)
        else (do q' ← store q q.tail value; ok (true, record q' { tail = next_tail }))

  -- The element, or none where the code returns false.
  unfoldable pub pop_front : LockFreeQueue A → Result (Option A × LockFreeQueue A)
  pop_front q = if q.head == q.tail then ok (none, q) else (do
    value ← fetch q q.head
    next_head ← wrap q (q.head + 1)
    ok (some value, record q { head = next_head }))

  unfoldable pub size : LockFreeQueue A → Result ℕ
  size q = wrap q (q.tail + q.capacity - q.head)
