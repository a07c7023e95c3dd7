-- ===== src/DateTime/Tests.antt =====
-- Times and rates at concrete values.
use coin_data.DateTime.{DateTime, Symbol, Rate, set_date_time}

abbrev time : DateTime
time = set_date_time 1234567890123

abbrev before : DateTime
before = record { nsec = 4000; symbol = Symbol.minus }

abbrev rate : Rate
rate = record { last_time = set_date_time 5000000; inter_time = set_date_time 10000000 }
