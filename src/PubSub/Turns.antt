-- ===== src/PubSub/Turns.antt =====
-- The steps of a subscriber's turn.
use coin_data.Prelude.{
  ℕ, suc, ◌+◌, ◌≤◌, ◌<◌, max, ◌≡◌, refl, List, [], ◌∷◌, ◌++◌, some, ok, arith, length, get_elem?,
}
use native.Mathlib.Decide.{dec_lt}
use mathlib.Core.List.{append-nil}
use coin_data.CircularBuffer.History.{clamped, copy-Holds}
use coin_data.PubSub.{
  Item, Subscriber, Phase, testing, moving, comparing, invoking, calling, serve, is_ready, invoke,
  spin,
}
use coin_data.PubSub.Links.{
  Link, acts, note, step, Picks, skip, take, overrun, Queued, Linked, Delivers,
}

abbrev pub at_phase : Item → Subscriber → Phase → List ℕ → Link
at_phase item s f calls = record { item = item; subscriber = s; phase = f; calls = calls }

-- What a step of the subscriber keeps of a link
pub moved-Linked :
    {item : Item} {s : Subscriber} {f : Phase} {xs : List ℕ} (g : Phase) (t : Subscriber)
    → Linked item s f xs
    → t.buffer_size ≡ s.buffer_size
    → Queued g t.buffer
    → (g ≡ invoking → t.idx < length xs)
    → Linked item t g xs
moved-Linked g t l same queued ready = record {
  held = l.held;
  roomy = l.roomy;
  non_null = l.non_null;
  queue = omega (arith, l.queue, same);
  queued = queued;
  ready = ready;
}

-- `invoke_` reads the next element, which is at the head if the head has passed the index.
pub invoke_reads :
    {item : Item} {s : Subscriber} {xs : List ℕ}
    → Linked item s invoking xs
    → (v : ℕ) × (get_elem? xs (max s.idx item.buffer.head) ≡ some v)
      × (invoke item s ≡ ok (record s { idx = s.idx + 1; buffer = v ∷ [] }))
unfolding invoke
invoke_reads {item} {s} {xs} l =
    let below = l.ready refl in
    let (v, c, e) = copy-Holds s.idx l.held (omega arith) l.roomy in
    let same : clamped item.buffer xs s.idx ≡ max s.idx item.buffer.head =
      omega (arith, l.held.oldest) in
    let read : get_elem? xs (max s.idx item.buffer.head) ≡ some v = rw same at e in
    (v, read, ground (arith, c, l.non_null _ v read, below, l.held.small, l.queued, l.queue))

-- `spin_` calls the callback with all that the subscriber holds.
spin_calls :
    (s : Subscriber) (calls : List ℕ)
    → length s.buffer ≤ 1
    → ((spin s).0 ≡ record s { buffer = [] }) × (note (spin s).1 calls ≡ calls ++ s.buffer)
unfolding spin
spin_calls s calls h = go s.buffer refl
  where
    go :
        (queue : List ℕ)
        → s.buffer ≡ queue
        → ((spin s).0 ≡ record s { buffer = [] }) × (note (spin s).1 calls ≡ calls ++ s.buffer)
    go [] e = (ground (arith, e), ground (arith, e, append-nil calls))
    go (x ∷ []) e = (ground (arith, e), ground (arith, e))
    go (x ∷ y ∷ queue) e = absurd (ground (arith, e, h))

pub acts-Delivers :
    (start n : ℕ) {xs : List ℕ} (item : Item) (s : Subscriber) (f : Phase) (calls : List ℕ)
    → Delivers start n xs (at_phase item s f calls)
    → (k' : Link) × (step (at_phase item s f calls) acts ≡ ok k') × Delivers start n xs k'
unfolding step serve is_ready
acts-Delivers start n {xs} item s testing calls d = elim (dec_lt s.idx item.buffer.head) [
  | yes lost ↦ (
    at_phase item s moving calls,
    ground (arith, lost),
    record {
      linked =
          moved-Linked moving s d.linked refl d.linked.queued (λ e. absurd (ground (arith, e)));
      overruns = d.overruns;
      stop = d.stop;
      picks = d.picks;
      behind = d.behind;
      lost = λ e. lost;
      rare = d.rare;
    },
  )
  | no kept ↦ (
    at_phase item s comparing calls,
    ground (arith, kept),
    record {
      linked =
          moved-Linked comparing s d.linked refl d.linked.queued (λ e. absurd (ground (arith, e)));
      overruns = d.overruns;
      stop = d.stop;
      picks = d.picks;
      behind = d.behind;
      lost = λ e. absurd (ground (arith, e));
      rare = ground (arith, d.rare, kept);
    },
  )
]
acts-Delivers start n {xs} item s moving calls d =
    let t : Subscriber = record s { idx = item.buffer.head } in
    (
      at_phase item t comparing calls,
      refl,
      record {
        linked =
            moved-Linked comparing t d.linked refl d.linked.queued
              (λ e. absurd (ground (arith, e)));
        overruns = d.overruns;
        stop = d.stop;
        picks = d.picks;
        behind = omega (arith, d.behind, d.lost refl);
        lost = λ e. absurd (ground (arith, e));
        rare = ground (arith, d.rare);
      },
    )
acts-Delivers start n {xs} item s comparing calls d = elim (dec_lt s.idx item.buffer.tail) [
  | yes more ↦ (
    at_phase item s invoking calls,
    ground (arith, more),
    record {
      linked =
          moved-Linked invoking s d.linked refl d.linked.queued
            (λ e. omega (arith, more, d.linked.held.pushed));
      overruns = d.overruns;
      stop = d.stop;
      picks = d.picks;
      behind = d.behind;
      lost = λ e. absurd (ground (arith, e));
      rare = d.rare;
    },
  )
  | no all ↦ (
    at_phase item s calling calls,
    ground (arith, all),
    record {
      linked =
          moved-Linked calling s d.linked refl (ground (arith, d.linked.queued))
            (λ e. absurd (ground (arith, e)));
      overruns = d.overruns;
      stop = d.stop;
      picks = d.picks;
      behind = d.behind;
      lost = λ e. absurd (ground (arith, e));
      rare = ground (arith, d.rare);
    },
  )
]
acts-Delivers start n {xs} item s invoking calls d =
    let (v, e, r) = invoke_reads d.linked in
    let t : Subscriber = record s { idx = s.idx + 1; buffer = v ∷ [] } in
    let all : calls ++ s.buffer ≡ calls = ground (arith, d.linked.queued, append-nil calls) in
    let before : Picks xs start d.overruns (max s.idx item.buffer.head) calls =
      skip (rw all at d.picks) d.behind in
    let linked : Linked item t calling xs =
      moved-Linked calling t d.linked refl (omega arith) (λ e. absurd (ground (arith, e))) in
    (
      at_phase item t calling calls,
      rw r refl,
      elim (dec_lt s.idx item.buffer.head) [
        | yes lost ↦ record {
          linked = linked;
          overruns = suc d.overruns;
          stop = max s.idx item.buffer.head;
          picks = overrun before e;
          behind = omega arith;
          lost = λ e. absurd (ground (arith, e));
          rare = ground (arith, d.rare, lost);
        }
        | no kept ↦ record {
          linked = linked;
          overruns = d.overruns;
          stop = s.idx + 1;
          picks = take before e (omega arith);
          behind = omega arith;
          lost = λ e. absurd (ground (arith, e));
          rare = ground (arith, d.rare, kept);
        }
      ],
    )
acts-Delivers start n {xs} item s calling calls d =
    let (same, called) = spin_calls s calls d.linked.queued in
    let t : Subscriber = record s { buffer = [] } in
    (
      at_phase item t testing (calls ++ s.buffer),
      rw (same, called) refl,
      record {
        linked = moved-Linked testing t d.linked refl refl (λ e. absurd (ground (arith, e)));
        overruns = d.overruns;
        stop = d.stop;
        picks = rw (append-nil (calls ++ s.buffer)) d.picks;
        behind = d.behind;
        lost = λ e. absurd (ground (arith, e));
        rare = d.rare;
      },
    )
