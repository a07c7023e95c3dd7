-- ===== src/Objects/Entries.antt =====
-- The entries of the map of removed objects: which of them `clear_shm_obj_remove_map_` takes.
use coin_data.Prelude.{
  ℕ, ◌≡◌, ◌≢◌, refl, Bool, true, false, List, [], ◌∷◌, none, some, arith, ◌==◌, lookup, erase,
  nat_key, lookup-erase,
}
use coin_data.Objects.{ObjectInfo}

unfoldable pub Absent : ℕ → List (ℕ × ℕ) → Type 0
Absent p [] = Unit
Absent p ((key, q) ∷ entries) = (q ≢ p) × Absent p entries

-- An info of this process, with a release function
unfoldable pub IsMine : ℕ → ℕ → List (ℕ × ObjectInfo) → Type 0
IsMine pid p infos =
    (i : ObjectInfo) × (lookup p infos ≡ some i) × (i.created_pid ≡ pid) × (i.release_func_addr ≢ 0)

-- The entries are of this process, each with an info of its own.
unfoldable pub AreMine : ℕ → List (ℕ × ℕ) → List (ℕ × ObjectInfo) → Type 0
AreMine pid [] infos = Unit
AreMine pid ((key, p) ∷ entries) infos =
    IsMine pid p infos × Absent p entries × AreMine pid entries infos

unfoldable pub is_unused : ℕ → List (ℕ × ObjectInfo) → Bool
is_unused p infos = elim (lookup p infos) [ none ↦ true | some i ↦ i.ref_cnt == 0 ]

-- The entries that somebody still refers to
unfoldable pub kept_entries : List (ℕ × ℕ) → List (ℕ × ObjectInfo) → List (ℕ × ℕ)
unfolding is_unused
kept_entries [] infos = []
kept_entries ((key, p) ∷ entries) infos =
    let rest = kept_entries entries infos in
    elim (is_unused p infos) [ true ↦ rest | false ↦ (key, p) ∷ rest ]

-- Whether an address is that of an entry that nobody refers to
unfoldable pub is_dropped : ℕ → List (ℕ × ℕ) → List (ℕ × ObjectInfo) → Bool
unfolding is_unused
is_dropped q [] infos = false
is_dropped q ((key, p) ∷ entries) infos =
    let rest = is_dropped q entries infos in
    elim (p == q) [ true ↦ elim (is_unused p infos) [ true ↦ true | false ↦ rest ] | false ↦ rest ]

pub AreMine-erase :
    (pid p : ℕ) (entries : List (ℕ × ℕ)) (infos : List (ℕ × ObjectInfo))
    → Absent p entries
    → AreMine pid entries infos
    → AreMine pid entries (erase p infos)
unfolding Absent AreMine IsMine
AreMine-erase pid p [] infos a h = h
AreMine-erase pid p ((key, q) ∷ entries) infos (ne, a) ((i, e, c, r), b, t) = (
  (i, ground (arith, e, ne, lookup-erase p q infos), c, r),
  b,
  AreMine-erase pid p entries infos a t,
)

pub kept_entries-erase :
    (p : ℕ) (entries : List (ℕ × ℕ)) (infos : List (ℕ × ObjectInfo))
    → Absent p entries
    → kept_entries entries (erase p infos) ≡ kept_entries entries infos
unfolding Absent kept_entries is_unused
kept_entries-erase p [] infos a = refl
kept_entries-erase p ((key, q) ∷ entries) infos (ne, a) =
    ground (arith, ne, lookup-erase p q infos, kept_entries-erase p entries infos a)

pub is_dropped-erase :
    (p q : ℕ) (entries : List (ℕ × ℕ)) (infos : List (ℕ × ObjectInfo))
    → Absent p entries
    → is_dropped q entries (erase p infos) ≡ is_dropped q entries infos
unfolding Absent is_dropped is_unused
is_dropped-erase p q [] infos a = refl
is_dropped-erase p q ((key, r) ∷ entries) infos (ne, a) =
    ground (arith, ne, lookup-erase p r infos, is_dropped-erase p q entries infos a)

pub is_dropped-Absent :
    (p : ℕ) (entries : List (ℕ × ℕ)) (infos : List (ℕ × ObjectInfo))
    → Absent p entries
    → is_dropped p entries infos ≡ false
unfolding Absent is_dropped
is_dropped-Absent p [] infos a = refl
is_dropped-Absent p ((key, r) ∷ entries) infos (ne, a) =
    ground (arith, ne, is_dropped-Absent p entries infos a)
