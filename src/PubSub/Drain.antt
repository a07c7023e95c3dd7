-- ===== src/PubSub/Drain.antt =====
-- When nothing is lost, and a size at which everything is.
use mathlib.Core.List.{append-nil, append_assoc}
use coin_data.Prelude.{
  ℕ, zero, suc, ◌+◌, ◌≤◌, max, ◌≡◌, refl, sym, ap, ◌∙◌, List, [], ◌∷◌, ◌++◌, none, some, ok, arith,
  length, get_elem?, drop, drop-get_elem?, drop-length,
}
use coin_data.CircularBuffer.History.{Holds}
use coin_data.PubSub.{
  Item, Subscriber, connecte_to, testing, comparing, invoking, calling, is_ready, serve, spin,
}
use coin_data.PubSub.Links.{Link, Event, acts, step, run, begin, NonNull, Linked, Delivers}
use coin_data.PubSub.Turns.{moved-Linked, invoke_reads}

-- Right after `connecte_to_`, at a buffer with room for two or more that holds the end of a history
-- without null, nothing is delivered, and the values pushed from now on are to come.
pub connecte_to-Delivers :
    {item : Item} (s : Subscriber) {xs : List ℕ}
    → Holds item.buffer xs
    → 2 ≤ item.buffer.total_size
    → NonNull xs
    → 1 ≤ s.buffer_size
    → s.buffer ≡ []
    → Delivers
        (length xs)
        0
        xs
        (record { item = item; subscriber = connecte_to item s; phase = testing; calls = [] })
unfolding connecte_to
connecte_to-Delivers {item} s {xs} held roomy n queue empty = record {
  linked = record {
    held = held;
    roomy = roomy;
    non_null = n;
    queue = queue;
    queued = empty;
    ready = λ e. absurd (ground (arith, e));
  };
  overruns = 0;
  stop = length xs;
  picks = rw empty begin;
  behind = omega (arith, held.pushed);
  lost = λ e. absurd (ground (arith, e));
  rare = omega arith;
}

-- Turns of a subscriber that is ready, with nothing in between: the test, the comparison, the
-- reading and the callback
unfoldable pub turns : ℕ → List Event
turns zero = []
turns (suc n) = acts ∷ acts ∷ acts ∷ acts ∷ turns n

-- The link after a subscriber has read all of its history.
abbrev pub caught_up : Link → List ℕ → Link
caught_up k xs = record k {
  subscriber = record k.subscriber { idx = length xs };
  calls = k.calls ++ drop k.subscriber.idx xs;
}

-- One turn calls the callback with the next element.
turn-run :
    (item : Item) (s : Subscriber) (calls : List ℕ) {xs : List ℕ} (es : List Event)
    → Linked item s testing xs
    → item.buffer.head ≤ s.idx
    → s.idx + 1 ≤ length xs
    → (v : ℕ) × (get_elem? xs s.idx ≡ some v)
      × (run
            (record { item = item; subscriber = s; phase = testing; calls = calls })
            (acts ∷ acts ∷ acts ∷ acts ∷ es)
          ≡ run
              (record {
                item = item;
                subscriber = record s { idx = s.idx + 1 };
                phase = testing;
                calls = calls ++ v ∷ [];
              })
              es)
unfolding run step serve is_ready spin
turn-run item s calls {xs} es l h below =
    let (v, e, r) =
      invoke_reads (moved-Linked invoking s l refl l.queued (λ i. omega (arith, below))) in
    let same : max s.idx item.buffer.head ≡ s.idx = omega arith in
    (v, rw same at e, ground (arith, h, below, l.held.pushed, l.queued, r))

-- Let the shared buffer have room for two or more and hold the end of a history without null, let a
-- subscriber whose own queue has room for one lag by no more than the buffer holds, at the start of
-- a turn, and let nothing be published in between. Then it is called with every value it has not
-- had, in order, one in each turn of four steps.
pub run_drains :
    (rounds : ℕ) {xs : List ℕ} (k : Link)
    → k.phase ≡ testing
    → Linked k.item k.subscriber k.phase xs
    → k.item.buffer.head ≤ k.subscriber.idx
    → k.subscriber.idx + rounds ≡ length xs
    → run k (turns rounds) ≡ ok (caught_up k xs)
unfolding run turns
run_drains zero {xs} k f l h e = ground (arith, drop-length xs k.subscriber.idx, append-nil k.calls)
run_drains (suc rounds) {xs} k f l h e =
    let i : ℕ = k.subscriber.idx in
    let l0 : Linked k.item k.subscriber testing xs = rw f at l in
    let (v, read, stepped) =
      turn-run k.item k.subscriber k.calls (turns rounds) l0 h (omega arith) in
    let next : Subscriber = record k.subscriber { idx = i + 1 } in
    let k1 : Link = record k { subscriber = next; phase = testing; calls = k.calls ++ v ∷ [] } in
    let rest : run k1 (turns rounds) ≡ ok (caught_up k1 xs) =
      run_drains rounds k1 refl
        (moved-Linked testing next l0 refl l0.queued (λ g. absurd (ground (arith, g))))
        (omega arith) (omega arith) in
    let calls : (k.calls ++ v ∷ []) ++ drop (i + 1) xs ≡ k.calls ++ drop i xs =
      append_assoc k.calls (v ∷ []) (drop (i + 1) xs)
      ∙ ap (λ ys. k.calls ++ ys) (sym (drop-get_elem? xs i read)) in
    ap (λ g. run (record k { phase = g }) (turns (suc rounds))) f
    ∙ stepped
    ∙ rest
    ∙ ap
        (λ cs. ok (record k {
          subscriber = record k.subscriber { idx = length xs };
          phase = testing;
          calls = cs;
        }))
        calls
    ∙ ap
        (λ g. ok (record k {
          subscriber = record k.subscriber { idx = length xs };
          phase = g;
          calls = k.calls ++ drop i xs;
        }))
        (sym f)

-- A subscriber of a shared buffer that was made for one element, with the index at the head or
-- behind it, finds nothing to read, whatever was pushed.
pub one-never_ready :
    (item : Item) (s : Subscriber) {xs : List ℕ}
    → Holds item.buffer xs
    → item.buffer.total_size ≡ 1
    → item.buffer.head ≤ s.idx
    → serve comparing item s ≡ ok (calling, s, none)
unfolding is_ready serve
one-never_ready item s held one h = ground (arith, held.oldest, held.pushed)
