-- ===== src/Service/Answers.antt =====
-- Which request a turn of the service answers.
use mathlib.Core.Option.{some-injective}
use coin_data.Prelude.{
  ℕ, ◌+◌, ◌^◌, ◌≤◌, ◌<◌, max, ◌≡◌, ◌≢◌, sym, ◌∙◌, ap, true, false, List, [], ◌∷◌, ◌++◌, some, ok,
  arith, length, length-append, get_elem?, get_elem?-append_last,
}
use coin_data.CircularBuffer.History.{Holds, push_back-Holds, copy_held}
use coin_data.Service.{
  Exchange, World, Service, put, service_ready, service_spin, send, Seen, await,
}

-- The exchange after the service has answered it.
abbrev pub answered : (ℕ → ℕ) → Exchange → Exchange
answered cb x = record x { answer = cb x.request; is_ready = true }

module _ {w : World} {xs : List ℕ} (held : Holds w.buffer xs)
    (roomy : 2 ≤ w.buffer.total_size) where
  -- At a ring with room for two or more, a turn of the service answers exactly the next request
  -- that is still held, if its pointer is not null, and stands behind it; with no request left
  -- nothing changes but the index.
  pub service_spin-answers :
      (cb : ℕ → ℕ) (s : Service)
      → (max s.idx w.buffer.head < length xs
          → (p : ℕ) × (get_elem? xs (max s.idx w.buffer.head) ≡ some p)
            × (p ≢ 0
                → service_spin cb w s
                  ≡ ok (
                    record w { exchanges = put w.exchanges p (answered cb (w.exchanges p)) },
                    record { idx = max s.idx w.buffer.head + 1 },
                  )))
        × (length xs ≤ max s.idx w.buffer.head
            → service_spin cb w s ≡ ok (w, record { idx = max s.idx w.buffer.head }))
  unfolding service_spin service_ready
  service_spin-answers cb s = (
    λ new.
        let (p, c, e) = copy_held (max s.idx w.buffer.head) held (omega arith) new roomy in
        (p, e, λ n. ground (arith, c, held.pushed, held.small, new, n)),
    λ none_new. ground (arith, held.pushed, none_new),
  )

-- A client that is connected to a service with nothing left to serve, whose ring has room for two
-- or more, gets its request answered in the next turn of the service, and its loop ends with true
-- once it sees that answer.
pub send-service_spin :
    (cb : ℕ → ℕ) (pid ptr request : ℕ) (w : World) {s : Service} {xs : List ℕ}
    → Holds w.buffer xs
    → 2 ≤ w.buffer.total_size
    → length xs + 1 < 2 ^ 64
    → s.idx ≡ length xs
    → ptr ≢ 0
    → (w1 : World) × (w2 : World) × (s2 : Service) × (send true pid ptr request w ≡ ok (true, w1))
      × (service_spin cb w1 s ≡ ok (w2, s2))
      × (s2.idx ≡ length xs + 1)
      × ((w2.exchanges ptr).answer ≡ cb request)
      × ((es : List Seen)
          → (e : Seen) → e.ready ≡ (w2.exchanges ptr).is_ready
          → e.ready_after ≡ (w2.exchanges ptr).is_ready
          → await (e ∷ es) ≡ some true)
unfolding send await
send-service_spin cb pid ptr request w {s} {xs} held roomy small at nonnull =
    let (b, pushed, held1, size) = push_back-Holds ptr held small in
    let x : Exchange = record {
      pid = pid;
      request = request;
      is_ready = false;
      answer = (w.exchanges ptr).answer;
    } in
    let w1 : World = record w { buffer = b; exchanges = put w.exchanges ptr x } in
    let count : length (xs ++ ptr ∷ []) ≡ length xs + 1 =
      omega (arith, length-append xs (ptr ∷ [])) in
    let here : max s.idx b.head ≡ length xs = omega (arith, at, held1.oldest, count, size, roomy) in
    let (p, e, spun) =
      (service_spin-answers {w = w1} held1 (omega (arith, size, roomy)) cb s).0
        (omega (arith, here, count)) in
    let same : p ≡ ptr =
      some-injective p ptr
        (sym e ∙ ap (get_elem? (xs ++ ptr ∷ [])) here ∙ get_elem?-append_last xs ptr) in
    (
      w1,
      record w1 { exchanges = put w1.exchanges p (answered cb (w1.exchanges p)) },
      record { idx = max s.idx b.head + 1 },
      ground (arith, pushed),
      spun (λ z. nonnull (sym same ∙ z)),
      omega (arith, here),
      ground (arith, same),
      λ es q r t. ground (arith, same, r, t),
    )
