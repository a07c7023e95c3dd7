-- ===== src/SharedPtr.antt =====
-- `ShmSharedPtr` of src/coin-data/local/impl/shm_shared_ptr.hpp: shared pointers whose count and mutex
-- stand in shared memory. An operation holds the mutex of the pointer while it changes the count, so
-- each is one step. An allocation of an object, its count and its mutex is named by one number, 0 for
-- `nullptr`.
pub mod Counts
pub mod Steps
pub mod Tests
use coin_data.Prelude.{
  ℕ, zero, suc, ◌+◌, Bool, true, false, List, [], ◌∷◌, Option, none, some, Result, ok, fault, Fault,
  ◌>>=◌, ◌==◌, if◌then◌else◌, get_elem?, set, length, ◌-◌, ◌%◌, ◌^◌,
}

pub record Ptr : Type 0 where
  pub raw_ptr : ℕ
  pub used_counter : ℕ
  pub mutex : ℕ

-- What is allocated, and the value of each counter.
pub record Heap : Type 0 where
  pub objects : ℕ → Bool
  pub counters : ℕ → Option ℕ
  pub mutexes : ℕ → Bool

-- `std::atomic<int>`
abbrev pub add_int : ℕ → ℕ → ℕ
add_int a b = (a + b) % 2 ^ 32

abbrev pub sub_int : ℕ → ℕ → ℕ
sub_int a b = (a + 2 ^ 32 - b) % 2 ^ 32

abbrev pub null : Ptr
null = record { raw_ptr = 0; used_counter = 0; mutex = 0 }

abbrev pub assign {ℓ} : {A : Type ℓ} → (ℕ → A) → ℕ → A → ℕ → A
assign f k a j = if k == j then a else f j

-- `lock_` and `unlock`: the mutex is there. `lock_` returns once it has the mutex.
abbrev pub holding : Ptr → Heap → Result (Unit {0})
holding p h =
    if p.mutex == 0 then ok tt else if h.mutexes p.mutex then ok tt else fault Fault.use_after_free

-- `mutex_->unlock()` without a test
abbrev pub unlocking : Ptr → Heap → Result (Unit {0})
unlocking p h = if p.mutex == 0 then fault Fault.null_pointer else holding p h

-- `decreace_`: the last one destroys the object, the count and the mutex.
unfoldable pub decreace : Ptr → Heap → Result (Ptr × Heap)
decreace p h = if p.used_counter == 0 then ok (p, h) else elim (h.counters p.used_counter) [
  | none ↦ fault Fault.use_after_free
  | some n ↦
      if sub_int n 1 == 0
      then (do
        _ ← unlocking p h
        ok (
          null,
          record {
            objects = assign h.objects p.raw_ptr false;
            counters = assign h.counters p.used_counter none;
            mutexes = assign h.mutexes p.mutex false;
          },
        ))
      else ok (
        record { raw_ptr = 0; used_counter = 0; mutex = p.mutex },
        record h { counters = assign h.counters p.used_counter (some (sub_int n 1)) },
      )
]

-- `increace_`
unfoldable pub increace : ℕ → Heap → Result Heap
increace used_cnt h = if used_cnt == 0 then ok h else elim (h.counters used_cnt) [
  | none ↦ fault Fault.use_after_free
  | some n ↦ ok (record h { counters = assign h.counters used_cnt (some (add_int n 1)) })
]

-- The pointer gives up what it holds, under its mutex.
unfoldable pub release : Ptr → Heap → Result (Ptr × Heap)
release p h =
    if p.raw_ptr == 0
    then ok (p, h)
    else (do _ ← holding p h; decreace p h >>= λ (p', h'). holding p' h' >>= λ _. ok (p', h'))

-- The constructor from a raw pointer, with the allocation `a`.
unfoldable pub construct : ℕ → Heap → Result (Ptr × Heap)
construct a h = do
  let h1 : Heap = record {
    objects = assign h.objects a true;
    counters = assign h.counters a (some 0);
    mutexes = assign h.mutexes a true;
  }
  h2 ← increace a h1
  ok (record { raw_ptr = a; used_counter = a; mutex = a }, h2)

abbrev pub handle_at : List Ptr → ℕ → Result Ptr
handle_at ps i = elim (get_elem? ps i) [ none ↦ fault Fault.out_of_range | some p ↦ ok p ]

-- The pointers of all processes, and the shared memory.
pub record World : Type 0 where
  pub handles : List Ptr
  pub heap : Heap

-- The constructor from a raw pointer, in an empty pointer `i`.
unfoldable pub make : ℕ → ℕ → World → Result World
unfolding construct
make i a w = do
  _ ← handle_at w.handles i
  construct a w.heap >>= λ (p, h). ok (record { handles = set w.handles i p; heap = h })

-- `*i = *j`, and the copy constructor if `i` is empty.
unfoldable pub copy : ℕ → ℕ → World → Result World
copy i j w = do
  this ← handle_at w.handles i
  rhs ← handle_at w.handles j
  if rhs.raw_ptr == 0
      then ok w
      else if i == j
      then ok w
      else release this w.heap >>= λ (_, h1). (do
        _ ← holding rhs h1
        h2 ← increace rhs.used_counter h1
        _ ← unlocking rhs h2
        ok (record { handles = set w.handles i rhs; heap = h2 }))

-- `*i = std::move(*j)`, and the move constructor if `i` is empty.
unfoldable pub move : ℕ → ℕ → World → Result World
move i j w = do
  this ← handle_at w.handles i
  rhs ← handle_at w.handles j
  if rhs.raw_ptr == 0
      then ok w
      else if i == j
      then ok w
      else release this w.heap >>= λ (_, h1). (do
        _ ← holding rhs h1
        h2 ← increace rhs.used_counter h1
        decreace rhs h2 >>= λ (_, h3). (do
          _ ← unlocking rhs h3
          ok (record { handles = set (set w.handles i rhs) j null; heap = h3 })))

-- `reset`; the destructor, after which the pointer is gone, does the same to the heap.
unfoldable pub reset : ℕ → World → Result World
reset i w = do
  this ← handle_at w.handles i
  if this.raw_ptr == 0
      then ok w
      else if this.mutex == 0
      then ok (record w { handles = set w.handles i (record this { mutex = 0 }) })
      else (release this w.heap >>= λ (_, h).
          ok (record { handles = set w.handles i null; heap = h }))

-- `used_count`
unfoldable pub used_count : Ptr → Heap → Result ℕ
used_count p h =
    if p.raw_ptr == 0
    then ok 0
    else if p.used_counter == 0
    then ok 0
    else elim (h.counters p.used_counter) [ none ↦ fault Fault.use_after_free | some n ↦ ok n ]
