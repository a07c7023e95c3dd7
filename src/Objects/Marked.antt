-- ===== src/Objects/Marked.antt =====
-- An object that is being destroyed, beside the removed objects.
use coin_data.Prelude.{
  ℕ, ◌≡◌, refl, true, List, [], ◌∷◌, some, arith, lookup, insert_or_assign, nat_key,
  lookup-insert_or_assign,
}
use coin_data.Objects.{ObjectInfo, Shared, write_info}
use coin_data.Objects.Cleared.{IsSound}
use coin_data.Objects.Entries.{Absent, IsMine, AreMine, is_dropped, is_unused}

-- The info of an object that is being destroyed
unfoldable pub marked : ObjectInfo → ObjectInfo
marked i = record i { is_destroy = true }

pub marked-IsSound :
    (p : ℕ) (i : ObjectInfo) (sh : Shared)
    → IsSound sh
    → lookup p sh.infos ≡ some i
    → IsSound (write_info p (marked i) sh)
unfolding write_info marked
marked-IsSound p i sh h e = record {
  live = λ q j g.
      ground
        (arith, g, e, lookup-insert_or_assign p q (marked i) sh.infos, h.live q j, h.live p i e);
  own = λ q r j k g f o. ground (
    arith,
    g,
    f,
    o,
    e,
    lookup-insert_or_assign p q (marked i) sh.infos,
    lookup-insert_or_assign p r (marked i) sh.infos,
    h.own q r j k,
    h.own p r i k e,
    h.own q p j i,
  );
}

pub AreMine-insert :
    (pid p : ℕ) (j : ObjectInfo) (entries : List (ℕ × ℕ)) (infos : List (ℕ × ObjectInfo))
    → Absent p entries
    → AreMine pid entries infos
    → AreMine pid entries (insert_or_assign p j infos)
unfolding Absent AreMine IsMine
AreMine-insert pid p j [] infos a h = h
AreMine-insert pid p j ((key, q) ∷ entries) infos (ne, a) ((i, e, c, r), b, t) = (
  (i, ground (arith, e, ne, lookup-insert_or_assign p q j infos), c, r),
  b,
  AreMine-insert pid p j entries infos a t,
)

pub is_dropped-insert :
    (p q : ℕ) (j : ObjectInfo) (entries : List (ℕ × ℕ)) (infos : List (ℕ × ObjectInfo))
    → Absent p entries
    → is_dropped q entries (insert_or_assign p j infos) ≡ is_dropped q entries infos
unfolding Absent is_dropped is_unused
is_dropped-insert p q j [] infos a = refl
is_dropped-insert p q j ((key, r) ∷ entries) infos (ne, a) =
    ground (arith, ne, lookup-insert_or_assign p r j infos, is_dropped-insert p q j entries infos a)
