-- ===== src/DateTime/Laws.antt =====
-- Units, signed sums, and the rate of a loop.
use native.Mathlib.Nat.{div-div-eq-div-mul}
use coin_data.Prelude.{
  ℕ, ◌+◌, ◌-◌, ◌*◌, ◌/◌, ◌^◌, ◌≤◌, ◌<◌, ◌≡◌, ◌≢◌, refl, sym, ap, ◌∙◌, ok, arith, ◌==◌,
  if◌then◌else◌, none, some,
}
use coin_data.DateTime.{
  DateTime, Symbol, Rate, set_date_time, set_date_time_sec, set_date_time_msec, set_date_time_usec,
  to_secs_since_epoch, to_msecs_since_epoch, to_usecs_since_epoch, sec, msec, usec, nsec_of, sub,
  add, set_rate, wait,
}

-- The fields `sec`, `msec`, `usec` and `nsec` of a time add up to it.
pub fields-sum :
    (t : DateTime) → ((sec t * 1000 + msec t) * 1000 + usec t) * 1000 + nsec_of t ≡ t.nsec
unfolding sec msec usec nsec_of
fields-sum t = omega arith

-- What was set in seconds, milliseconds or microseconds is read back in that unit, if the
-- nanoseconds fit.
pub set-to :
    (n : ℕ)
    → (n * 1000000000 < 2 ^ 64 → to_secs_since_epoch (set_date_time_sec n) ≡ n)
      × (n * 1000000 < 2 ^ 64 → to_msecs_since_epoch (set_date_time_msec n) ≡ n)
      × (n * 1000 < 2 ^ 64 → to_usecs_since_epoch (set_date_time_usec n) ≡ n)
unfolding to_secs_since_epoch to_msecs_since_epoch to_usecs_since_epoch set_date_time_sec
    set_date_time_msec set_date_time_usec
set-to n = (λ h. omega arith, λ h. omega arith, λ h. omega arith)

-- Adding the difference of two times to the second gives the first, if both fit.
pub add-sub :
    (a b : ℕ)
    → a < 2 ^ 64
    → b < 2 ^ 64
    → add (sub (set_date_time a) (set_date_time b)) (set_date_time b) ≡ set_date_time a
unfolding sub add
add-sub a b ha hb = ground arith

-- The parts of a signed number: what is above and what is below zero.
unfoldable pub above : DateTime → ℕ
above t = elim t.symbol [ Symbol.plus ↦ t.nsec | Symbol.minus ↦ 0 ]

unfoldable pub below : DateTime → ℕ
below t = elim t.symbol [ Symbol.plus ↦ 0 | Symbol.minus ↦ t.nsec ]

-- `operator +` adds signed numbers, if the sum of the nanoseconds fits.
pub add-signed :
    (s t : DateTime)
    → s.nsec + t.nsec < 2 ^ 64
    → above (add s t) + below s + below t ≡ below (add s t) + above s + above t
unfolding add above below
add-signed s t h = ground arith

-- `operator -` is the signed difference, for times that fit and are not below zero.
pub sub-signed :
    (s t : DateTime)
    → s.symbol ≡ Symbol.plus
    → t.symbol ≡ Symbol.plus
    → s.nsec < 2 ^ 64
    → t.nsec < 2 ^ 64
    → above (sub s t) + above t ≡ below (sub s t) + above s
unfolding sub above below
sub-signed s t a b c d = ground (arith, a, b)

-- With an interval of a microsecond or more and a last turn on record, `wait` sleeps so that the
-- time since the last turn is at least the interval, and exactly the interval if there was a sleep;
-- it records the time after it. A clock that was set back counts as if it were set forward.
pub wait-interval :
    (now later : ℕ) (r : Rate)
    → to_usecs_since_epoch r.inter_time ≢ 0
    → r.last_time.nsec ≢ 0
    → now < 2 ^ 64
    → r.last_time.nsec < 2 ^ 64
    → (slept : ℕ) × (wait now later r
        ≡ (record r { last_time = set_date_time later }, if slept == 0 then none else some slept))
      × (to_usecs_since_epoch r.inter_time
          ≤ (now - r.last_time.nsec) / 1000 + (r.last_time.nsec - now) / 1000 + slept)
      × (slept ≢ 0
          → to_usecs_since_epoch r.inter_time
            ≡ (now - r.last_time.nsec) / 1000 + (r.last_time.nsec - now) / 1000 + slept)
unfolding wait to_usecs_since_epoch sub
wait-interval now later r inter last fits fits_last =
    let dt : ℕ = (now - r.last_time.nsec) / 1000 + (r.last_time.nsec - now) / 1000 in
    let slept : ℕ = r.inter_time.nsec / 1000 - dt in
    (slept, ground (arith, inter, last), omega arith, λ s. omega arith)

-- For a rate above 0, `set_rate` makes the interval one second divided by the rate, in microseconds
-- rounded down, and forgets the last turn.
pub set_rate-interval :
    (rate : ℕ)
    → 0 < rate
    → (r : Rate) × (set_rate rate ≡ ok r)
      × (to_usecs_since_epoch r.inter_time ≡ 1000000 / rate)
      × (r.last_time ≡ set_date_time 0)
unfolding set_rate to_usecs_since_epoch
set_rate-interval rate pos = (
  record { last_time = set_date_time 0; inter_time = set_date_time (1000000000 / rate) },
  ground (arith, pos),
  div-div-eq-div-mul 1000000000 rate 1000
      ∙ ap (λ k. 1000000000 / k) swap
      ∙ sym (div-div-eq-div-mul 1000000000 1000 rate),
  refl,
)
  where
    swap : rate * 1000 ≡ 1000 * rate
    swap = omega arith
