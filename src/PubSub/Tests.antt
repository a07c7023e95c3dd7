-- ===== src/PubSub/Tests.antt =====
-- Runs of a link, and the theorems at links of a few elements.
use coin_data.Prelude.{
  ℕ, zero, suc, ◌%◌, ◌≤◌, ◌<◌, ◌≡◌, ◌≢◌, refl, true, List, [], ◌∷◌, some, ok, arith, get_elem?,
  ◌>>=◌,
}
use coin_data.CircularBuffer.{CircularBuffer, create, push_back, copy}
use coin_data.CircularBuffer.History.{Holds, create-Holds, push_back-Holds, copy-Holds}
use coin_data.PubSub.{
  Item, Subscriber, connecte_to, testing, serve, is_ready, invoke, spin, publish,
}
use coin_data.PubSub.Links.{Linked, Link, Delivers, Event, publishes, acts, step, run}
use coin_data.PubSub.Delivery.{run-Delivers}
use native.Mathlib.Decide.{dec_lt}
use coin_data.PubSub.Drain.{turns, connecte_to-Delivers, run_drains}

-- Room for three, so that two are held.
abbrev ring : CircularBuffer ℕ
ring = record { head = 0; tail = 0; total_size = 3; buffer = 0 ∷ 0 ∷ 0 ∷ [] }

abbrev item : Item
item = record { is_online = true; index = 0; buffer = ring }

abbrev subscriber : Subscriber
subscriber = record { buffer_size = 10; idx = 0; buffer = [] }

abbrev link : Link
link = record { item = item; subscriber = subscriber; phase = testing; calls = [] }

abbrev script : List Event
script =
    publishes 7
    ∷ publishes 8
    ∷ publishes 9
    ∷ acts
    ∷ acts
    ∷ acts
    ∷ acts
    ∷ acts
    ∷ acts
    ∷ acts
    ∷ acts
    ∷ acts
    ∷ publishes 5
    ∷ acts
    ∷ acts
    ∷ acts
    ∷ acts
    ∷ []

-- The first of three is overwritten before the subscriber's turn.
calls_of_script : (run link script >>= λ k. ok k.calls) ≡ ok (8 ∷ 9 ∷ 5 ∷ [])
unfolding run step publish serve is_ready invoke spin push_back copy
calls_of_script = refl

-- The element that the subscriber is about to read is overwritten, and it gets the one behind it
-- twice.
abbrev race : List Event
race =
    publishes 7
    ∷ acts
    ∷ acts
    ∷ publishes 8
    ∷ publishes 9
    ∷ acts
    ∷ acts
    ∷ acts
    ∷ acts
    ∷ acts
    ∷ acts
    ∷ []

calls_of_race : (run link race >>= λ k. ok k.calls) ≡ ok (8 ∷ 8 ∷ [])
unfolding run step publish serve is_ready invoke spin push_back copy
calls_of_race = refl

ring-Holds : Holds ring []
unfolding create
ring-Holds = create-Holds 3 0 (omega arith)

ring_created : Holds {A = ℕ} (create 3 0) []
ring_created = create-Holds {A = ℕ} 3 0 (omega arith)

push_back-Holds_example :
    (b : CircularBuffer ℕ) × (push_back ring 7 ≡ ok b) × Holds b (7 ∷ []) × (b.total_size ≡ 3)
push_back-Holds_example = push_back-Holds 7 ring-Holds (omega arith)

-- Three elements were pushed, and two are left.
abbrev used : CircularBuffer ℕ
used = record { head = 1; tail = 3; total_size = 3; buffer = 7 ∷ 8 ∷ 9 ∷ [] }

abbrev pushed : List ℕ
pushed = 7 ∷ 8 ∷ 9 ∷ []

used_elements : (i : ℕ) → 1 ≤ i → i < 3 → get_elem? used.buffer (i % 3) ≡ get_elem? pushed i
used_elements i p q = elim (dec_lt i 2) [ yes h ↦ rw (one i p h) refl | no h ↦ rw (two i q h) refl ]
  where
    one : (i : ℕ) → 1 ≤ i → i < 2 → i ≡ 1
    one i p h = omega arith

    two : (i : ℕ) → i < 3 → ¬ (i < 2) → i ≡ 2
    two i q h = omega arith

used-Holds : Holds used pushed
used-Holds = record {
  room = omega arith;
  sized = refl;
  small = omega arith;
  pushed = refl;
  oldest = refl;
  elements = used_elements;
}

copy-Holds_example : (x : ℕ) × (copy used 0 ≡ ok x) × (get_elem? pushed 1 ≡ some x)
copy-Holds_example = copy-Holds 0 used-Holds (omega arith) (omega arith)

link-Delivers : Delivers 0 0 [] link
unfolding connecte_to
link-Delivers =
    connecte_to-Delivers subscriber ring-Holds (omega arith) (λ i v e. cc) (omega arith) refl

run-Delivers_example : (k : Link) × (run link race ≡ ok k) × Delivers 0 3 (7 ∷ 8 ∷ 9 ∷ []) k
run-Delivers_example = run-Delivers 0 0 race link link-Delivers (omega arith) (omega arith)

-- A subscriber that has had the first of three values.
abbrev behind : Link
behind = record {
  item = record { is_online = true; index = 3; buffer = used };
  subscriber = record { buffer_size = 10; idx = 1; buffer = [] };
  phase = testing;
  calls = 7 ∷ [];
}

pushed_non_null : (i v : ℕ) → get_elem? pushed i ≡ some v → v ≢ 0
pushed_non_null zero v e = ground arith
pushed_non_null (suc zero) v e = ground arith
pushed_non_null (suc (suc zero)) v e = ground arith
pushed_non_null (suc (suc (suc i))) v e = cc

behind-Linked : Linked behind.item behind.subscriber testing pushed
behind-Linked = record {
  held = used-Holds;
  roomy = omega arith;
  non_null = pushed_non_null;
  queue = omega arith;
  queued = refl;
  ready = λ e. absurd (ground (arith, e));
}

run_drains_example :
    run behind (turns 2)
    ≡ ok (record behind {
      subscriber = record { buffer_size = 10; idx = 3; buffer = [] };
      calls = 7 ∷ 8 ∷ 9 ∷ [];
    })
run_drains_example = run_drains 2 behind refl behind-Linked (omega arith) refl
