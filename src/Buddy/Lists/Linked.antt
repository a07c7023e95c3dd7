-- ===== src/Buddy/Lists/Linked.antt =====
-- The lists of free blocks: what it means that the headers and `block_list` form the given lists.
use native.Mathlib.Decide.{ℕ_discrete}
use coin_data.Prelude.{
  ℕ, ◌≤◌, ◌<◌, ◌≡◌, ◌≢◌, refl, ap, Bool, true, false, ◌||◌, List, [], ◌∷◌, some, arith, ◌==◌,
  length, get_elem?,
}
use coin_data.Buddy.Store.{Block, Store, crc32}

-- A free block `x` of level `l`, after the block `previous`.
pub record IsNode (b : Block) (l previous x : ℕ) : Type 0 where
  pub free : b.is_free ≡ true
  pub level : b.level ≡ l
  pub previous_eq : b.previous ≡ previous
  pub intact : b.crc ≡ crc32
  pub above : previous < x

-- What `previous` leads to: its field `next`, or the head of the list for 0.
pub record Leads (s : Store) (l previous x : ℕ) : Type 0 where
  pub head : previous ≡ 0 → get_elem? s.block_list l ≡ some x
  pub next : previous ≢ 0 → (s.mem previous).next ≡ x

-- After `previous` come the blocks `xs`, in the order of their addresses, and then no more.
abbrev pub Seg : Store → ℕ → ℕ → List ℕ → Type 0
Seg s l previous [] = Leads s l previous 0
Seg s l previous (x ∷ xs) = Leads s l previous x × IsNode (s.mem x) l previous x × Seg s l x xs

abbrev pub has : ℕ → List ℕ → Bool
has a [] = false
has a (x ∷ xs) = (a == x) || has a xs

-- `ls l` is the list of level `l`.
pub record Lists (s : Store) (ls : ℕ → List ℕ) : Type 0 where
  pub count : length s.block_list ≡ 32
  pub seg : (l : ℕ) → l < 32 → Seg s l 0 (ls l)

module _ (s : Store) (l : ℕ) where
  pub not-has_of_le :
      (q previous : ℕ) (xs : List ℕ) → Seg s l previous xs → q ≤ previous → has q xs ≡ false
  not-has_of_le q previous [] seg le = refl
  not-has_of_le q previous (x ∷ xs) (leads, node, rest) le =
      ground (arith, node.above, not-has_of_le q x xs rest (omega (arith, node.above)))

  pub not-has_of_level :
      (q previous : ℕ) (xs : List ℕ) → Seg s l previous xs → (s.mem q).level ≢ l → has q xs ≡ false
  not-has_of_level q previous [] seg ne = refl
  not-has_of_level q previous (x ∷ xs) (leads, node, rest) ne =
      ground (arith, node.level, not-has_of_level q x xs rest ne)

  pub not-has_of_used :
      (q previous : ℕ) (xs : List ℕ)
      → Seg s l previous xs
      → (s.mem q).is_free ≡ false
      → has q xs ≡ false
  not-has_of_used q previous [] seg used = refl
  not-has_of_used q previous (x ∷ xs) (leads, node, rest) used =
      ground (arith, node.free, not-has_of_used q x xs rest used)

  -- The blocks of a segment are above its start, of its level, and not null.
  pub lt_of_has :
      (q previous : ℕ) (xs : List ℕ) → Seg s l previous xs → has q xs ≡ true → previous < q
  lt_of_has q previous [] seg h = ground arith
  lt_of_has q previous (x ∷ xs) (leads, node, rest) h = elim (ℕ_discrete q x) [
    | yes e ↦ omega (arith, node.above)
    | no e ↦ omega (arith, node.above, lt_of_has q x xs rest (ground arith))
  ]

  pub level_of_has :
      (q previous : ℕ) (xs : List ℕ) → Seg s l previous xs → has q xs ≡ true → (s.mem q).level ≡ l
  level_of_has q previous [] seg h = ground arith
  level_of_has q previous (x ∷ xs) (leads, node, rest) h = elim (ℕ_discrete q x) [
    | yes e ↦ rw e node.level
    | no e ↦ level_of_has q x xs rest (ground arith)
  ]

  -- A segment survives any change that spares its blocks and what leads to it.
  pub Seg-frame :
      (s' : Store) (previous : ℕ) (xs : List ℕ)
      → Seg s l previous xs
      → ((q : ℕ) → has q xs ≡ true → s'.mem q ≡ s.mem q)
      → ((x : ℕ) → Leads s l previous x → Leads s' l previous x)
      → Seg s' l previous xs
  Seg-frame s' previous [] seg same leads_same = leads_same 0 seg
  Seg-frame s' previous (x ∷ xs) (leads, node, rest) same leads_same = (
    leads_same x leads,
    rw here node,
    Seg-frame s' x xs rest (λ q h. same q (ground arith))
        (λ y a. record {
          head = λ e. absurd (omega (arith, node.above));
          next = λ e. ground (arith, here, a.next e);
        }),
  )
    where
      here : s'.mem x ≡ s.mem x
      here = same x (ground arith)

pub ne_of_has : (q h : ℕ) (xs : List ℕ) → has q xs ≡ true → has h xs ≡ false → q ≢ h
ne_of_has q h xs a b e = ground (arith, ap (λ x. has x xs) e)

-- What no operation on free blocks changes in a header.
pub record Kept (a b : Block) : Type 0 where
  pub is_first : b.is_first ≡ a.is_first
  pub host_pid : b.host_pid ≡ a.host_pid
  pub memory_idx : b.memory_idx ≡ a.memory_idx
