-- ===== src/FileWatch/Pairing.antt =====
-- The two maps stay inverse to each other.
use coin_data.Prelude.{
  ℕ, ◌≡◌, ◌≢◌, refl, false, Option, none, some, arith, lookup, nat_key, lookup-emplace,
  lookup-erase, Option-cases, inl, inr,
}
use coin_data.FileWatch.{Watches, add_watch, remove_file, remove_wd, find_wd, find_file}

pub record IsPaired (w : Watches) : Type 0 where
  pub forth : (file wd : ℕ) → find_file file w ≡ some wd → find_wd wd w ≡ some file
  pub back : (file wd : ℕ) → find_wd wd w ≡ some file → find_file file w ≡ some wd

-- If the two maps are inverse, and a new watch has a descriptor that no file has yet, they stay
-- inverse after `add`, and a file that was not watched is found with its descriptor; a failing
-- `add` changes nothing.
pub add_watch-IsPaired :
    (wd : Option ℕ) (file : ℕ) (w : Watches)
    → IsPaired w
    → ((d : ℕ) → wd ≡ some d → find_wd d w ≡ none)
    → IsPaired (add_watch wd file w).1
      × ((d : ℕ)
          → wd ≡ some d
          → find_file file w ≡ none
          → find_file file (add_watch wd file w).1 ≡ some d)
      × ((add_watch wd file w).0 ≡ false → (add_watch wd file w).1 ≡ w)
unfolding add_watch find_wd find_file
add_watch-IsPaired none file w p fresh = (ground (arith, p.forth, p.back), λ d e. cc, ground arith)
add_watch-IsPaired (some d) file w p fresh = elim (Option-cases (lookup file w.by_file)) [
  | inl new ↦ (
    record {
      forth = λ f k e. ground (
        arith,
        new,
        e,
        fresh d refl,
        lookup-emplace file f d w.by_file new,
        lookup-emplace d k file w.by_wd (fresh d refl),
        p.forth f k,
      );
      back = λ f k e. ground (
        arith,
        new,
        e,
        fresh d refl,
        lookup-emplace file f d w.by_file new,
        lookup-emplace d k file w.by_wd (fresh d refl),
        p.back f k,
      );
    },
    λ k e n. ground (arith, new, e, lookup-emplace file file d w.by_file new),
    λ e. ground (arith, new, e),
  )
  | inr (k, old) ↦ (ground (arith, old, p.forth, p.back), λ k e n. cc, ground (arith, old))
]

-- If the two maps are inverse, a removal of a watched file by its name or by its descriptor is the
-- same, takes away that pair only, and leaves them inverse.
pub remove-IsPaired :
    (file wd : ℕ) (w : Watches)
    → IsPaired w
    → find_file file w ≡ some wd
    → (remove_file file w ≡ remove_wd wd w)
      × IsPaired (remove_file file w).1
      × (find_file file (remove_file file w).1 ≡ none)
      × (find_wd wd (remove_file file w).1 ≡ none)
      × ((f : ℕ) → f ≢ file → find_file f (remove_file file w).1 ≡ find_file f w)
unfolding remove_file remove_wd find_wd find_file
remove-IsPaired file wd w p e = (
  ground (arith, e, p.forth file wd e),
  record {
    forth = λ f k g. ground (
      arith,
      g,
      e,
      p.forth file wd e,
      p.forth f k,
      p.back f k,
      p.back f wd,
      p.forth file k,
      lookup-erase file f w.by_file,
      lookup-erase wd k w.by_wd,
    );
    back = λ f k g. ground (
      arith,
      g,
      e,
      p.forth file wd e,
      p.forth f k,
      p.back f k,
      p.back f wd,
      p.forth file k,
      lookup-erase file f w.by_file,
      lookup-erase wd k w.by_wd,
    );
  },
  ground (arith, e, lookup-erase file file w.by_file),
  ground (arith, e, lookup-erase wd wd w.by_wd),
  λ f ne. ground (arith, e, lookup-erase file f w.by_file),
)
