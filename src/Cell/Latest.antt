-- ===== src/Cell/Latest.antt =====
-- A reader sees the latest value, and whether there was one since it last looked.
use coin_data.Prelude.{
  ℕ, ◌+◌, ◌^◌, ◌<◌, ◌≡◌, refl, true, false, List, [], ◌∷◌, ok, arith, ◌==◌, if◌then◌else◌, ltb,
  length,
}
use coin_data.Cell.{Item, Reader, write, read, is_update}

unfoldable pub write_all : List ℕ → Item → Item
write_all [] item = item
write_all (v ∷ vs) item = write_all vs (write v item)

-- The last value of `vs` that is not null, and `v` if there is none.
unfoldable pub last_of : ℕ → List ℕ → ℕ
last_of v [] = v
last_of v (w ∷ ws) = last_of (if w == 0 then v else w) ws

write_all-fields :
    (vs : List ℕ) (item : Item)
    → item.index + length vs < 2 ^ 64
    → ((write_all vs item).buffer ≡ last_of item.buffer vs)
      × ((write_all vs item).index ≡ item.index + length vs)
unfolding write_all last_of write
write_all-fields [] item h = (refl, omega arith)
write_all-fields (v ∷ vs) item h = ground (arith, write_all-fields vs (write v item))

-- After a read of a connected reader, and writes that fit the index, `is_update` says whether there
-- was a write, and the next read gives the last value that is not null, or the one read before if
-- there is none; after that there is no update.
pub read-write_all :
    (vs : List ℕ) (item : Item) (r : Reader)
    → item.index + length vs < 2 ^ 64
    → r.connected ≡ true
    → (v : ℕ) × (r1 : Reader) × (r2 : Reader) × (read item r ≡ ok (v, r1))
      × (is_update (write_all vs item) r1 ≡ ltb 0 (length vs))
      × (read (write_all vs item) r1 ≡ ok (last_of v vs, r2))
      × (is_update (write_all vs item) r2 ≡ false)
unfolding read is_update
read-write_all vs item r h c = (
  item.buffer,
  record r { idx = item.index },
  record r { idx = (write_all vs item).index },
  ground (arith, c),
  ground (arith, c, write_all-fields vs item h),
  ground (arith, c, write_all-fields vs item h),
  ground (arith, c),
)
