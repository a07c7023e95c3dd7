-- ===== src/Strings/Pieces.antt =====
-- What `split` gives for a delimiter of one character, and that an empty one keeps the loop running.
use coin_data.Prelude.{
  append_nil, ℕ, zero, suc, ◌+◌, ◌≤◌, ◌≡◌, ◌≢◌, refl, sym, ap, ◌∙◌, false, List, [], ◌∷◌, ◌++◌,
  none, some, ok, fault, Fault, arith, ◌==◌, length, if◌then◌else◌, Option-cases, inl, inr,
}
use coin_data.Strings.{Text, is_member, skip, starts_with, cut, split_from, split}

-- The characters of a string that are not the delimiter
unfoldable pub without : ℕ → Text → Text
without d [] = []
without d (c ∷ s) = let rest = without d s in if c == d then rest else c ∷ rest

unfoldable pub concat : List Text → Text
concat [] = []
concat (p ∷ ps) = p ++ concat ps

-- A piece that is not empty and has no delimiter
pub record IsPiece (d : ℕ) (p : Text) : Type 0 where
  pub filled : p ≢ []
  pub plain : without d p ≡ p

unfoldable pub ArePieces : ℕ → List Text → Type 0
ArePieces d [] = Unit
ArePieces d (p ∷ ps) = IsPiece d p × ArePieces d ps

without-append : (d : ℕ) (p s : Text) → without d (p ++ s) ≡ without d p ++ without d s
unfolding without
without-append d [] s = refl
without-append d (c ∷ p) s = ground (arith, without-append d p s)

without-skip : (d : ℕ) (s : Text) → without d (skip (d ∷ []) s) ≡ without d s
unfolding without skip is_member
without-skip d [] = refl
without-skip d (c ∷ s) = ground (arith, without-skip d s)

length-skip : (chars s : Text) → length (skip chars s) ≤ length s
unfolding skip
length-skip chars [] = omega arith
length-skip chars (c ∷ s) = ground (arith, length-skip chars s)

-- The first character after `skip` is outside the set.
skip-head : (chars s : Text) (c : ℕ) (t : Text) → skip chars s ≡ c ∷ t → is_member c chars ≡ false
unfolding skip
skip-head chars [] c t e = cc
skip-head chars (b ∷ s) c t e = ground (arith, e, skip-head chars s c t)

-- What `cut` gives for a delimiter of one character
cut-none : (d : ℕ) (s : Text) → cut (d ∷ []) s ≡ none → without d s ≡ s
unfolding cut starts_with without
cut-none d [] e = refl
cut-none d (c ∷ s) e = ground (arith, e, cut-none d s)

cut-some :
    (d : ℕ) (s piece from : Text)
    → cut (d ∷ []) s ≡ some (piece, from)
    → (without d piece ≡ piece) × (s ≡ piece ++ from) × (length from ≤ length s)
unfolding cut starts_with without
cut-some d [] piece from e = absurd (ground (arith, e))
cut-some d (c ∷ s) piece from e = elim (Option-cases (cut (d ∷ []) s)) [
  | inl f ↦ (ground (arith, e, f), ground (arith, e, f), ground (arith, e, f))
  | inr ((p, r), f) ↦
      let (g, h, k) = cut-some d s p r f in
      (ground (arith, e, f, g), ground (arith, e, f, h), ground (arith, e, f, k))
]

-- A piece in front of a delimiter is not empty, since no delimiter stands before it.
cut-filled :
    (d c : ℕ) (t piece from : Text)
    → is_member c (d ∷ []) ≡ false
    → cut (d ∷ []) (c ∷ t) ≡ some (piece, from)
    → (piece ≢ []) × (length from ≤ length t)
unfolding cut starts_with is_member
cut-filled d c t piece from m e = elim (Option-cases (cut (d ∷ []) t)) [
  | inl f ↦ absurd (ground (arith, e, f, m))
  | inr ((p, r), f) ↦
      let (g, h, k) = cut-some d t p r f in
      ((λ q. ground (arith, e, f, m, q)), ground (arith, e, f, m, k))
]

split_from-pieces :
    (fuel d : ℕ) (s : Text)
    → length s + 1 ≤ fuel
    → ((c : ℕ) (t : Text) → s ≡ c ∷ t → is_member c (d ∷ []) ≡ false)
    → (ps : List Text) × (split_from fuel (d ∷ []) s ≡ ok ps)
      × ArePieces d ps
      × (concat ps ≡ without d s)
unfolding split_from ArePieces concat without
split_from-pieces zero d s l h = absurd (omega arith)
split_from-pieces (suc fuel) d [] l h = ([], refl, tt, refl)
split_from-pieces (suc fuel) d (c ∷ s) l h = elim (Option-cases (cut (d ∷ []) (c ∷ s))) [
  | inl e ↦
      let g = cut-none d (c ∷ s) e in
      (
        (c ∷ s) ∷ [],
        ground (arith, e),
        (record { filled = λ q. ground (arith, q); plain = g }, tt),
        append_nil (c ∷ s) ∙ sym g,
      )
  | inr ((piece, from), e) ↦
      let (g, k, n) = cut-some d (c ∷ s) piece from e in
      let (q, m) = cut-filled d c s piece from (h c s refl) e in
      let (ps, r, a, b) =
        split_from-pieces fuel d (skip (d ∷ []) from) (omega (arith, length-skip (d ∷ []) from, m))
          (skip-head (d ∷ []) from) in
      (
        piece ∷ ps,
        ground (arith, e, r),
        (record { filled = q; plain = g }, a),
        ap (◌++◌ piece) (b ∙ without-skip d from)
            ∙ sym
                (ap (without d) k ∙ without-append d piece from ∙ ap (λ z. z ++ without d from) g),
      )
]

-- `split` by one character ends, its pieces are not empty and have no delimiter, and put together
-- they are the string without its delimiters.
pub split-pieces :
    (d : ℕ) (s : Text)
    → (ps : List Text) × (split s (d ∷ []) ≡ ok ps) × ArePieces d ps × (concat ps ≡ without d s)
unfolding split
split-pieces d s =
    let (ps, r, a, b) =
      split_from-pieces (suc (length s)) d (skip (d ∷ []) s) (omega (arith, length-skip (d ∷ []) s))
        (skip-head (d ∷ []) s) in
    (ps, r, a, b ∙ without-skip d s)

-- The loop of `split` does not end for an empty delimiter and a string that is not empty: no fuel
-- is enough.
pub split-empty : (fuel c : ℕ) (s : Text) → split_from fuel [] (c ∷ s) ≡ fault Fault.out_of_fuel
unfolding split_from cut skip is_member starts_with
split-empty zero c s = refl
split-empty (suc fuel) c s = ground (arith, split-empty fuel c s)
