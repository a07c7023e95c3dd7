-- ===== src/FileWatch/Tests.antt =====
-- Two files under watch.
use coin_data.Prelude.{ℕ, ◌≡◌, refl, [], ◌∷◌, some, none, arith, lookup, nat_key}
use coin_data.FileWatch.{Watches, find_wd, find_file}
use coin_data.FileWatch.Pairing.{IsPaired}

abbrev two_files : Watches
two_files = record { by_file = (10, 1) ∷ (20, 2) ∷ []; by_wd = (1, 10) ∷ (2, 20) ∷ [] }

two_files-IsPaired : IsPaired two_files
unfolding find_wd find_file lookup
two_files-IsPaired = record {
  forth = λ f k e. ground (arith, e);
  back = λ f k e. ground (arith, e);
}

third_is_fresh : (d : ℕ) → some 3 ≡ some d → find_wd d two_files ≡ none
unfolding find_wd lookup
third_is_fresh d e = ground (arith, e)

found : find_file 20 two_files ≡ some 2
unfolding find_file lookup
found = refl
