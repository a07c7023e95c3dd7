-- ===== src/Prelude/Maps.antt =====
-- `std::map` as an association list: at most one entry is live for a key. Its order is not modelled.
use Prim.Native.Nat.{ℕ}
use mathlib.Core.Path.{◌≡◌, refl}
use mathlib.Core.Logic.{◌≢◌, ◌↔◌}
use mathlib.Core.Bool.{Bool, true, false}
use mathlib.Core.List.{List, [], ◌∷◌}
use mathlib.Core.Option.{Option, none, some}
use native.Mathlib.Omega.{arith}
use text.Mathlib.Text.{◌==◌ as str_eq}
use text.Mathlib.TextEquality.{eq_iff}
use Prim.Native.String.{String}
use coin_data.Prelude.Tests.{◌==◌ as nat_eq, ==_iff, if◌then◌else◌}

-- A key type with a decided equality.
pub record Key {ℓ} (K : Type ℓ) : Type ℓ where
  pub beq : K → K → Bool
  pub beq_iff : (a b : K) → (beq a b ≡ true) ↔ (a ≡ b)

instance abbrev pub nat_key : Key ℕ
nat_key = record { beq = nat_eq; beq_iff = ==_iff }

instance abbrev pub string_key : Key String
string_key = record { beq = str_eq; beq_iff = eq_iff }

module _ {ℓ} {K : Type ℓ} ⦃e : Key K⦄ where
  pub beq_refl : (k : K) → e.beq k k ≡ true
  beq_refl k = (e.beq_iff k k).1 refl

  pub beq_ne : (k j : K) → k ≢ j → e.beq k j ≡ false
  beq_ne k j h = ground (arith, e.beq_iff k j)

module _ {ℓ κ} {K : Type ℓ} {V : Type κ} ⦃e : Key K⦄ where
  -- `find`
  unfoldable pub lookup : K → List (K × V) → Option V
  lookup k [] = none
  lookup k ((j, v) ∷ m) = if e.beq j k then some v else lookup k m

  -- `insert_or_assign`, and `operator[]` as the target of a write
  unfoldable pub insert_or_assign : K → V → List (K × V) → List (K × V)
  insert_or_assign k v [] = (k, v) ∷ []
  insert_or_assign k v ((j, w) ∷ m) =
      if e.beq j k then (k, v) ∷ m else (j, w) ∷ insert_or_assign k v m

  -- `erase`
  pub erase : K → List (K × V) → List (K × V)
  erase k [] = []
  erase k ((j, w) ∷ m) = if e.beq j k then erase k m else (j, w) ∷ erase k m

  -- `emplace` and `insert` leave an entry that is there.
  unfoldable pub emplace : K → V → List (K × V) → List (K × V)
  unfolding lookup insert_or_assign
  emplace k v m = elim (lookup k m) [ none ↦ insert_or_assign k v m | some w ↦ m ]

  pub lookup-insert_or_assign :
      (k j : K) (v : V) (m : List (K × V))
      → lookup j (insert_or_assign k v m) ≡ (if e.beq k j then some v else lookup j m)
  unfolding lookup insert_or_assign
  lookup-insert_or_assign k j v [] = refl
  lookup-insert_or_assign k j v ((i, w) ∷ m) =
      ground (arith, e.beq_iff k j, e.beq_iff i k, e.beq_iff i j, lookup-insert_or_assign k j v m)

  pub lookup-erase :
      (k j : K) (m : List (K × V)) → lookup j (erase k m) ≡ (if e.beq k j then none else lookup j m)
  unfolding lookup erase
  lookup-erase k j [] = ground arith
  lookup-erase k j ((i, w) ∷ m) =
      ground (arith, e.beq_iff k j, e.beq_iff i k, e.beq_iff i j, lookup-erase k j m)

  pub lookup-emplace :
      (k j : K) (v : V) (m : List (K × V))
      → lookup k m ≡ none
      → lookup j (emplace k v m) ≡ (if e.beq k j then some v else lookup j m)
  unfolding emplace
  lookup-emplace k j v m h = ground (arith, lookup-insert_or_assign k j v m)
