-- ===== src/Objects/Names.antt =====
-- `read_node_idx_`: the node and the key in a name `/node/key`. A string is the list of its
-- characters' codes; `/` is 47.
use coin_data.Prelude.{
  ℕ, ◌≡◌, ◌≢◌, refl, List, [], ◌∷◌, ◌++◌, Option, none, some, arith, ◌==◌, if◌then◌else◌,
}

-- The parts before and after the first `/`, or none
unfoldable pub cut_slash : List ℕ → Option (List ℕ × List ℕ)
cut_slash [] = none
cut_slash (c ∷ s) =
    let rest = cut_slash s in
    if c == 47 then some ([], s) else elim rest [ none ↦ none | some (a, b) ↦ some (c ∷ a, b) ]

-- Without a second `/`, `find_first_of` gives `npos`: the node is all that follows the first one, and
-- the key is the whole string, since `npos + 1` is 0.
unfoldable pub read_node_idx : List ℕ → List ℕ × List ℕ
unfolding cut_slash
read_node_idx [] = ([], [])
read_node_idx (c ∷ s) =
    if c == 47
    then elim (cut_slash s) [
      -- `substr(1)` of the node takes its `/` away.
      | none ↦ (s, c ∷ s)
      | some (node, key) ↦ (node, key)
    ]
    else ([], c ∷ s)

-- No character is `/`.
unfoldable pub IsPlain : List ℕ → Type 0
IsPlain [] = Unit
IsPlain (c ∷ s) = (c ≢ 47) × IsPlain s

cut_slash-append :
    (node key : List ℕ) → IsPlain node → cut_slash (node ++ 47 ∷ key) ≡ some (node, key)
unfolding cut_slash IsPlain
cut_slash-append [] key h = refl
cut_slash-append (c ∷ node) key (h, t) = ground (arith, cut_slash-append node key t)

cut_slash-IsPlain : (s : List ℕ) → IsPlain s → cut_slash s ≡ none
unfolding cut_slash IsPlain
cut_slash-IsPlain [] h = refl
cut_slash-IsPlain (c ∷ s) (h, t) = ground (arith, cut_slash-IsPlain s t)

-- `/node/key` is read as the node and the key; a name with no second slash gives the whole name as
-- the key, its slash included; a name that does not start with a slash has no node.
pub read_node_idx-names :
    (node key : List ℕ)
    → IsPlain node
    → (read_node_idx (47 ∷ node ++ 47 ∷ key) ≡ (node, key))
      × (read_node_idx (47 ∷ node) ≡ (node, 47 ∷ node))
      × ((c : ℕ) → c ≢ 47 → read_node_idx (c ∷ key) ≡ ([], c ∷ key))
unfolding read_node_idx
read_node_idx-names node key h = (
  ground (arith, cut_slash-append node key h),
  ground (arith, cut_slash-IsPlain node h),
  λ c ne. ground arith,
)
