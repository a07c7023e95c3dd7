-- ===== src/Parameters/Keys.antt =====
-- Strings as keys of a map, and the parts of a key between the dots.
use coin_data.Prelude.{
  ℕ, ◌≡◌, ◌≢◌, ◌↔◌, refl, sym, Bool, true, false, ◌&&◌, List, [], ◌∷◌, ◌++◌, arith, ◌==◌,
  if◌then◌else◌, Key,
}

abbrev pub Text : Type 0
Text = List ℕ

unfoldable pub same : Text → Text → Bool
same [] [] = true
same [] (y ∷ ys) = false
same (x ∷ xs) [] = false
same (x ∷ xs) (y ∷ ys) = (x == y) && same xs ys

same_refl : (a : Text) → same a a ≡ true
unfolding same
same_refl [] = refl
same_refl (x ∷ xs) = ground (arith, same_refl xs)

same_eq : (a b : Text) → same a b ≡ true → a ≡ b
unfolding same
same_eq [] [] h = refl
same_eq [] (y ∷ ys) h = cc
same_eq (x ∷ xs) [] h = cc
same_eq (x ∷ xs) (y ∷ ys) h = ground (arith, h, same_eq xs ys)

pub same_iff : (a b : Text) → (same a b ≡ true) ↔ (a ≡ b)
same_iff a b = (same_eq a b, λ e. rw (sym e) (same_refl a))

instance abbrev pub text_key : Key Text
text_key = record { beq = same; beq_iff = same_iff }

-- The loop over `find('.')`: the parts that a dot follows, and the last one. A dot is 46.
unfoldable pub split_key : Text → List Text × Text
split_key [] = ([], [])
split_key (c ∷ s) =
    let (parts, last) = split_key s in
    if c == 46
    then ([] ∷ parts, last)
    else elim parts [ [] ↦ ([], c ∷ last) | (p ∷ ps) ↦ ((c ∷ p) ∷ ps, last) ]

-- No character is a dot.
unfoldable pub IsPlain : Text → Type 0
IsPlain [] = Unit
IsPlain (c ∷ s) = (c ≢ 46) × IsPlain s

unfoldable pub ArePlain : List Text → Type 0
unfolding IsPlain
ArePlain [] = Unit
ArePlain (p ∷ ps) = IsPlain p × ArePlain ps

-- The parts joined by dots
unfoldable pub join_key : List Text → Text → Text
join_key [] last = last
join_key (p ∷ ps) last = p ++ 46 ∷ join_key ps last

split_key-IsPlain : (s : Text) → IsPlain s → split_key s ≡ ([], s)
unfolding split_key IsPlain
split_key-IsPlain [] h = refl
split_key-IsPlain (c ∷ s) (h, t) = ground (arith, split_key-IsPlain s t)

split_key-append :
    (p s : Text) → IsPlain p → split_key (p ++ 46 ∷ s) ≡ (p ∷ (split_key s).0, (split_key s).1)
unfolding split_key IsPlain
split_key-append [] s h = ground arith
split_key-append (c ∷ p) s (h, t) = ground (arith, split_key-append p s t)

-- x
pub split_key-join_key :
    (parts : List Text) (last : Text)
    → ArePlain parts
    → IsPlain last
    → split_key (join_key parts last) ≡ (parts, last)
unfolding join_key ArePlain
split_key-join_key [] last h l = split_key-IsPlain last l
split_key-join_key (p ∷ ps) last (h, t) l =
    ground (arith, split_key-append p (join_key ps last) h, split_key-join_key ps last t l)

-- The key is none of the parts.
unfoldable pub Misses : Text → List Text → Type 0
Misses key [] = Unit
Misses key (k ∷ ks) = (key ≢ k) × Misses key ks

dotted-IsPlain : (p s : Text) → IsPlain (p ++ 46 ∷ s) → p ≢ p
unfolding IsPlain
dotted-IsPlain [] s (h, t) = absurd (h refl)
dotted-IsPlain (c ∷ p) s (h, t) = absurd (dotted-IsPlain p s t refl)

dotted-Misses : (p s : Text) (ks : List Text) → ArePlain ks → Misses (p ++ 46 ∷ s) ks
unfolding ArePlain Misses
dotted-Misses p s [] h = tt
dotted-Misses p s (k ∷ ks) (h, t) = (λ e. dotted-IsPlain p s (rw e h) refl, dotted-Misses p s ks t)

-- A key with parts is longer than each of them.
pub join_key-Misses :
    (parts : List Text) (last : Text) → ArePlain parts → Misses (join_key parts last) parts
unfolding join_key ArePlain Misses
join_key-Misses [] last h = tt
join_key-Misses (p ∷ ps) last h = dotted-Misses p (join_key ps last) (p ∷ ps) h
