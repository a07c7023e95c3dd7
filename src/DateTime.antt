-- ===== src/DateTime.antt =====
-- `DateTime` and `Rate` of src/coin-commons/utils/datetime.hpp and datetime.cpp. Calendar output
-- (`to_tm`, `to_string`) is left to the C library.
pub mod Laws
pub mod Tests
use coin_data.Prelude.{
  ℕ, ◌+◌, ◌-◌, ◌*◌, ◌/◌, ◌%◌, Bool, true, false, Result, ok, fault, Fault, ltb, ◌==◌, if◌then◌else◌,
  add_size, sub_size, mul_size, Option, none, some,
}

-- `symbol_`, which is 1 or -1
pub data Symbol : Type 0 where
  plus : Symbol
  minus : Symbol

pub record DateTime : Type 0 where
  pub nsec : ℕ
  pub symbol : Symbol

abbrev pub same_symbol : Symbol → Symbol → Bool
same_symbol Symbol.plus Symbol.plus = true
same_symbol Symbol.minus Symbol.minus = true
same_symbol Symbol.plus Symbol.minus = false
same_symbol Symbol.minus Symbol.plus = false

-- The setters; a result is a `uint64_t`.
abbrev pub set_date_time : ℕ → DateTime
set_date_time timestamp = record { nsec = timestamp; symbol = Symbol.plus }

unfoldable pub set_date_time_sec : ℕ → DateTime
set_date_time_sec timestamp =
    set_date_time (mul_size (mul_size (mul_size timestamp 1000) 1000) 1000)

unfoldable pub set_date_time_msec : ℕ → DateTime
set_date_time_msec timestamp = set_date_time (mul_size (mul_size timestamp 1000) 1000)

unfoldable pub set_date_time_usec : ℕ → DateTime
set_date_time_usec timestamp = set_date_time (mul_size timestamp 1000)

unfoldable pub to_secs_since_epoch : DateTime → ℕ
to_secs_since_epoch t = t.nsec / 1000 / 1000 / 1000

unfoldable pub to_msecs_since_epoch : DateTime → ℕ
to_msecs_since_epoch t = t.nsec / 1000 / 1000

unfoldable pub to_usecs_since_epoch : DateTime → ℕ
to_usecs_since_epoch t = t.nsec / 1000

-- The fields.
unfoldable pub sec : DateTime → ℕ
sec t = t.nsec / 1000000000

unfoldable pub msec : DateTime → ℕ
msec t = t.nsec / 1000000 % 1000

unfoldable pub usec : DateTime → ℕ
usec t = t.nsec / 1000 % 1000

unfoldable pub nsec_of : DateTime → ℕ
nsec_of t = t.nsec % 1000

-- `operator -`: the signs of the operands are not read.
unfoldable pub sub : DateTime → DateTime → DateTime
sub t rhs =
    if ltb rhs.nsec t.nsec
    then record { nsec = sub_size t.nsec rhs.nsec; symbol = Symbol.plus }
    else record { nsec = sub_size rhs.nsec t.nsec; symbol = Symbol.minus }

-- `operator +`
unfoldable pub add : DateTime → DateTime → DateTime
add t rhs =
    if same_symbol t.symbol rhs.symbol
    then record { nsec = add_size t.nsec rhs.nsec; symbol = t.symbol }
    else if ltb rhs.nsec t.nsec
    then record { nsec = sub_size t.nsec rhs.nsec; symbol = t.symbol }
    else record { nsec = sub_size rhs.nsec t.nsec; symbol = rhs.symbol }

pub record Rate : Type 0 where
  pub last_time : DateTime
  pub inter_time : DateTime

-- `(uint64_t)(1000000000.0 / (double)rate)` is the quotient rounded down; infinity has no such value.
unfoldable pub set_rate : ℕ → Result Rate
set_rate rate =
    if rate == 0
    then fault Fault.divide_by_zero
    else ok (record { last_time = set_date_time 0; inter_time = set_date_time (1000000000 / rate) })

-- `now` and `later` are what the clock says at the first and the last call of `current_date_time`.
-- The result has the microseconds of `usleep`, none if it is not called.
unfoldable pub wait : ℕ → ℕ → Rate → Rate × Option ℕ
unfolding to_usecs_since_epoch sub
wait now later r =
    if to_usecs_since_epoch r.inter_time == 0
    then (r, none)
    else if r.last_time.nsec == 0
    then (record r { last_time = set_date_time now }, none)
    else let dt = to_usecs_since_epoch (sub (set_date_time now) r.last_time) in
      (
        record r { last_time = set_date_time later },
        if ltb dt (to_usecs_since_epoch r.inter_time)
            then some (to_usecs_since_epoch r.inter_time - dt)
            else none,
      )
