-- ===== src/PubSub/Delivery.antt =====
-- What a subscriber is called with, against all that is published, whatever comes between the steps
-- of its turns.
use coin_data.Prelude.{
  ℕ, suc, ◌+◌, ◌^◌, ◌≤◌, ◌<◌, ◌≡◌, ◌≢◌, refl, List, [], ◌∷◌, ◌++◌, ok, arith, length, get_elem?,
  get_elem?-append_lt, lt_of_get_elem?, length-append, sym, ◌∙◌, ap, get_elem?-append_last,
  add_size,
}
use native.Mathlib.Decide.{dec_lt}
use mathlib.Core.List.{append-nil, append_assoc}
use coin_data.CircularBuffer.History.{push_back-Holds}
use coin_data.PubSub.{
  Item, Subscriber, Phase, testing, moving, comparing, invoking, calling, publish,
}
use coin_data.PubSub.Links.{
  NonNull, Link, Event, publishes, acts, step, run, published, Picks, begin, skip, take, overrun,
  overtaken, Delivers,
}
use coin_data.PubSub.Turns.{acts-Delivers}

Picks-append :
    {xs : List ℕ} {start r i : ℕ} {calls : List ℕ} (ys : List ℕ)
    → Picks xs start r i calls
    → Picks (xs ++ ys) start r i calls
Picks-append ys begin = begin
Picks-append ys (skip p h) = skip (Picks-append ys p) h
Picks-append {xs} ys (take {i} p e h) =
    take (Picks-append ys p) (get_elem?-append_lt xs ys i (lt_of_get_elem? xs i e) ∙ e) h
Picks-append {xs} ys (overrun {i} p e) =
    overrun (Picks-append ys p) (get_elem?-append_lt xs ys i (lt_of_get_elem? xs i e) ∙ e)

NonNull-append : (xs : List ℕ) (v : ℕ) → NonNull xs → v ≢ 0 → NonNull (xs ++ v ∷ [])
NonNull-append xs v n h i w e = elim (dec_lt i (length xs)) [
  | yes old ↦ n i w (sym (get_elem?-append_lt xs (v ∷ []) i old) ∙ e)
  | no new ↦ last (omega (arith, lt_of_get_elem? _ i e, length-append xs (v ∷ [])))
]
  where
    last : i ≡ length xs → w ≢ 0
    last same = ground (arith, ap (get_elem? (xs ++ v ∷ [])) same, get_elem?-append_last xs v)

overtaken_rise :
    (f : Phase) (item item' : Item) (s : Subscriber) → overtaken f item' s ≤ overtaken f item s + 1
overtaken_rise testing item item' s = omega arith
overtaken_rise moving item item' s = omega arith
overtaken_rise comparing item item' s = ground arith
overtaken_rise invoking item item' s = ground arith
overtaken_rise calling item item' s = omega arith

publish-Delivers :
    (start n v : ℕ) {xs : List ℕ} (k : Link)
    → Delivers start n xs k
    → v ≢ 0
    → length xs + 1 < 2 ^ 64
    → (k' : Link) × (step k (publishes v) ≡ ok k') × Delivers start (n + 1) (xs ++ v ∷ []) k'
unfolding step publish
publish-Delivers start n v {xs} k d h small =
    let (b, e, held, size) = push_back-Holds v d.linked.held small in
    let item : Item = record k.item { buffer = b; index = add_size k.item.index 1 } in
    (
      record k { item = item },
      rw e,
      record {
        linked = record {
          held = held;
          roomy = omega (arith, d.linked.roomy);
          non_null = NonNull-append xs v d.linked.non_null h;
          queue = d.linked.queue;
          queued = d.linked.queued;
          ready = λ i. omega (arith, d.linked.ready i, length-append xs (v ∷ []));
        };
        overruns = d.overruns;
        stop = d.stop;
        picks = Picks-append (v ∷ []) d.picks;
        behind =
            omega
              (arith, d.behind, held.oldest, d.linked.held.oldest, length-append xs (v ∷ []), size);
        lost = λ m.
            omega
              (arith, d.lost m, held.oldest, d.linked.held.oldest, length-append xs (v ∷ []), size);
        rare = omega (arith, d.rare, overtaken_rise k.phase k.item item k.subscriber);
      },
    )

-- Nothing published is null.
abbrev pub AllNonNull : List ℕ → Type 0
AllNonNull [] = Unit {0}
AllNonNull (v ∷ vs) = (v ≢ 0) × AllNonNull vs

-- Let the shared buffer have room for two or more and hold the end of a history without null, and
-- the subscriber's own queue have room for one. Then over any sequence of publications and single
-- steps of the subscriber's turns, none of the published values null and fewer than 2 ^ 64 in all,
-- nothing fails and the callback is called with published values only, at positions that never go
-- down, from the position at which the subscriber stood. A position is passed with the call of its
-- value, but for overruns, whose value may be delivered again, and there are no more overruns than
-- publications.
pub run-Delivers :
    (start n : ℕ) (es : List Event) {xs : List ℕ} (k : Link)
    → Delivers start n xs k
    → AllNonNull (published es)
    → length xs + length (published es) < 2 ^ 64
    → (k' : Link) × (run k es ≡ ok k')
      × Delivers start (n + length (published es)) (xs ++ published es) k'
unfolding run
run-Delivers start n [] {xs} k d a small =
    let nothing : n + 0 ≡ n = omega arith in (k, refl, rw (append-nil xs, nothing) d)
run-Delivers start n (publishes v ∷ es) {xs} k d a small =
    let (k1, e1, d1) = publish-Delivers start n v k d a.0 (omega arith) in
    let (k2, e2, d2) =
      run-Delivers start (n + 1) es k1 d1 a.1 (omega (arith, length-append xs (v ∷ []))) in
    let count : n + 1 + length (published es) ≡ n + suc (length (published es)) = omega arith in
    (k2, rw e1 e2, rw (append_assoc xs (v ∷ []) (published es), count) at d2)
run-Delivers start n (acts ∷ es) {xs} k d a small =
    let (k1, e1, d1) = acts-Delivers start n k.item k.subscriber k.phase k.calls d in
    let (k2, e2, d2) = run-Delivers start n es k1 d1 a small in (k2, rw e1 e2, d2)
