-- ===== src/Cell/Tests.antt =====
-- Three writes, one of them of null.
use coin_data.Prelude.{ℕ, List, true, [], ◌∷◌}
use coin_data.Cell.{Item, Reader}

abbrev item : Item
item = record { is_online = true; index = 4; buffer = 9 }

abbrev values : List ℕ
values = 7 ∷ 8 ∷ 0 ∷ []

abbrev reader : Reader
reader = record { connected = true; idx = 2 }
