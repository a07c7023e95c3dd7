-- ===== src/Environment/Tests.antt =====
-- The environment `A=1`, with room for four slots.
use coin_data.Prelude.{List, [], ◌∷◌}
use coin_data.Environment.{Text}

abbrev env : List Text
env = (65 ∷ 61 ∷ 49 ∷ []) ∷ []

abbrev key : Text
key = 66 ∷ []

abbrev value : Text
value = 50 ∷ 61 ∷ []
