-- ===== src/SharedPtr/Tests.antt =====
-- Three pointers, two of which share an object.
use coin_data.Prelude.{
  ℕ, zero, suc, ◌≡◌, [], ◌∷◌, none, some, ok, arith, get_elem?, ◌==◌, if◌then◌else◌,
}
use coin_data.SharedPtr.{Ptr, World, null}
use coin_data.SharedPtr.Counts.{handle, sharers, Counted}
use coin_data.SharedPtr.Steps.{Op, perform, after, perform-Counted}

abbrev world : World
world = record {
  handles = handle 5 ∷ null ∷ handle 5 ∷ [];
  heap = record {
    objects = λ a. a == 5;
    counters = λ a. if a == 5 then some 2 else none;
    mutexes = λ a. a == 5;
  };
}

world-whole : (i : ℕ) (p : Ptr) → get_elem? world.handles i ≡ some p → p ≡ handle p.used_counter
world-whole zero p e = cc
world-whole (suc zero) p e = cc
world-whole (suc (suc zero)) p e = cc
world-whole (suc (suc (suc i))) p e = cc

world-Counted : Counted world.handles world.heap
unfolding sharers
world-Counted = record {
  few = omega arith;
  whole = world-whole;
  counters = λ a n. ground (arith, n);
  objects = λ a n. ground (arith, n);
  mutexes = λ a n. ground (arith, n);
}

perform-Counted_example :
    (w' : World) × (perform (Op.moves 1 0) world ≡ ok w')
    × (w'.handles ≡ after (Op.moves 1 0) world.handles)
    × Counted w'.handles w'.heap
perform-Counted_example =
    perform-Counted (Op.moves 1 0) world world-Counted (omega arith, omega arith)
