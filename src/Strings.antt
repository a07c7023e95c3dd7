-- ===== src/Strings.antt =====
-- `split` and `remove_leading_chars` of src/coin-commons/utils/strings.cpp. A string is the list of its
-- characters' codes. The loop of `split` runs on fuel, the length of the string and one.
pub mod Pieces
pub mod Tests
use coin_data.Prelude.{
  ℕ, zero, suc, ◌+◌, Bool, true, false, ◌&&◌, List, [], ◌∷◌, Option, none, some, Result, ok, fault,
  Fault, ◌>>=◌, ◌==◌, length, if◌then◌else◌,
}

abbrev pub Text : Type 0
Text = List ℕ

unfoldable pub is_member : ℕ → Text → Bool
is_member c [] = false
is_member c (d ∷ ds) = if c == d then true else is_member c ds

-- What is left from the first character outside a set: `find_first_not_of`
unfoldable pub skip : Text → Text → Text
unfolding is_member
skip chars [] = []
skip chars (c ∷ s) =
    let rest = skip chars s in elim (is_member c chars) [ true ↦ rest | false ↦ c ∷ s ]

unfoldable pub starts_with : Text → Text → Bool
starts_with [] s = true
starts_with (d ∷ ds) [] = false
starts_with (d ∷ ds) (c ∷ s) = (c == d) && starts_with ds s

-- What is before the first place of a string, and what is from there on: `find`
unfoldable pub cut : Text → Text → Option (Text × Text)
unfolding starts_with
cut delimiter [] = elim (starts_with delimiter []) [ true ↦ some ([], []) | false ↦ none ]
cut delimiter (c ∷ s) =
    let rest = cut delimiter s in
    elim (starts_with delimiter (c ∷ s)) [
      | true ↦ some ([], c ∷ s)
      | false ↦ elim rest [ none ↦ none | some (piece, from) ↦ some (c ∷ piece, from) ]
    ]

-- The loop of `split`, from a position that is not in the set of the delimiter's characters
unfoldable pub split_from : ℕ → Text → Text → Result (List Text)
unfolding cut skip
split_from zero delimiter s = fault Fault.out_of_fuel
split_from (suc fuel) delimiter [] = ok []
split_from (suc fuel) delimiter (c ∷ s) = elim (cut delimiter (c ∷ s)) [
  | none ↦ ok ((c ∷ s) ∷ [])
  | some (piece, from) ↦
      split_from fuel delimiter (skip delimiter from) >>= λ pieces. ok (piece ∷ pieces)
]

unfoldable pub split : Text → Text → Result (List Text)
unfolding skip split_from
split s delimiter = split_from (suc (length s)) delimiter (skip delimiter s)

-- A string of such characters only stays as it is.
unfoldable pub remove_leading_chars : Text → Text → Text
unfolding skip
remove_leading_chars s chars = elim (skip chars s) [ [] ↦ s | (c ∷ t) ↦ c ∷ t ]
