-- ===== src/Objects/Counts.antt =====
-- The count of references of an object and the names that a process has for it.
use coin_data.Prelude.{
  ℕ, ◌+◌, ◌<◌, ◌^◌, ◌≡◌, refl, List, [], ◌∷◌, none, some, ok, arith, ◌==◌, if◌then◌else◌, lookup,
  emplace, nat_key, lookup-insert_or_assign, sub_size, Bool-cases, inl, inr,
}
use coin_data.Objects.{
  ObjectInfo, Shared, Retention, Manager, read_info, read_retention, write_info,
}
use coin_data.Objects.Monitor.{read_ptr, drop_destroyed}

-- Whether a retention points at an info
unfoldable pub points : ℕ → ℕ → Manager → ℕ
points p r m = elim (lookup r m.retentions) [
  | none ↦ 0
  | some x ↦ elim x.ptr [ none ↦ 0 | some q ↦ if p == q then 1 else 0 ]
]

-- How many names of a list lead to an info
unfoldable pub holds : ℕ → List (ℕ × ℕ) → Manager → ℕ
unfolding points
holds p [] m = 0
holds p ((key, r) ∷ objs) m = points p r m + holds p objs m

-- Every name of a list leads to an info.
unfoldable pub AreKnown : List (ℕ × ℕ) → Manager → Shared → Type 0
AreKnown [] m sh = Unit
AreKnown ((key, r) ∷ objs) m sh =
    ((x : Retention) × (p : ℕ) × (i : ObjectInfo) × (lookup r m.retentions ≡ some x)
      × (x.ptr ≡ some p)
      × (lookup p sh.infos ≡ some i))
    × AreKnown objs m sh

-- The counts are those of others and one for each name.
pub record IsCounted (base : ℕ → ℕ) (objs : List (ℕ × ℕ)) (m : Manager) (sh : Shared) : Type 0 where
  pub counted :
      (p : ℕ) (i : ObjectInfo) → lookup p sh.infos ≡ some i → i.ref_cnt ≡ base p + holds p objs m
  pub bounded : (p : ℕ) (i : ObjectInfo) → lookup p sh.infos ≡ some i → i.ref_cnt < 2 ^ 64

pub AreKnown-write_info :
    (p : ℕ) (j : ObjectInfo) (objs : List (ℕ × ℕ)) (m : Manager) (sh : Shared)
    → AreKnown objs m sh
    → AreKnown objs m (write_info p j sh)
unfolding AreKnown write_info
AreKnown-write_info p j [] m sh h = h
AreKnown-write_info p j ((key, r) ∷ objs) m sh ((x, q, i, a, b, c), t) = (
  (x, q, if q == p then j else i, a, b, ground (arith, c, lookup-insert_or_assign p q j sh.infos)),
  AreKnown-write_info p j objs m sh t,
)

-- If every name leads to an info and the counts are those of others and one for each name, the loop
-- of the event over `obj_list` ends without a fault and the counts are then those of others and one
-- for each name that is left.
pub drop_destroyed-IsCounted :
    (base : ℕ → ℕ) (objs removed : List (ℕ × ℕ)) (m : Manager) (sh : Shared)
    → AreKnown objs m sh
    → IsCounted base objs m sh
    → (kept removed' : List (ℕ × ℕ)) × (sh' : Shared) × (drop_destroyed objs removed m sh
        ≡ ok (kept, removed', sh'))
      × IsCounted base kept m sh'
unfolding drop_destroyed read_ptr read_info read_retention write_info AreKnown holds points
drop_destroyed-IsCounted base [] removed m sh h c = ([], removed, sh, refl, c)
drop_destroyed-IsCounted base ((key, r) ∷ objs) removed m sh ((x, p, i, a, b, e), t) c =
    elim (Bool-cases i.is_destroy) [
      | inl gone ↦
          let j : ObjectInfo = record i { ref_cnt = sub_size i.ref_cnt 1 } in
          let (kept, removed', sh', f, g) =
            drop_destroyed-IsCounted base objs (emplace key r removed) m (write_info p j sh)
              (AreKnown-write_info p j objs m sh t)
              (record {
                counted = λ q k n. ground (
                  arith,
                  a,
                  b,
                  e,
                  n,
                  lookup-insert_or_assign p q j sh.infos,
                  c.counted q k,
                  c.counted p i e,
                  c.bounded p i e,
                );
                bounded = λ q k n.
                    ground (arith, n, lookup-insert_or_assign p q j sh.infos, c.bounded q k);
              }) in
          (kept, removed', sh', ground (arith, a, b, e, gone, f), g)
      | inr stays ↦
          let (kept, removed', sh', f, g) =
            drop_destroyed-IsCounted (λ q. base q + points q r m) objs removed m sh t
              (record {
                counted = λ q k n. ground (arith, c.counted q k n);
                bounded = c.bounded;
              }) in
          (
            (key, r) ∷ kept,
            removed',
            sh',
            ground (arith, a, b, e, stays, f),
            record { counted = λ q k n. ground (arith, g.counted q k n); bounded = g.bounded },
          )
    ]
