-- ===== src/Buddy/Malloc/Split.antt =====
-- What the splitting loop of `buddy_malloc` does to the lists and the headers.
use native.Mathlib.Decide.{ℕ_discrete}
use coin_data.Prelude.{
  ℕ, zero, suc, ◌+◌, ◌^◌, ◌<◌, ◌≡◌, ◌≢◌, refl, ap, ◌∙◌, Bool, true, false, ◌&&◌, some, ok, arith,
  ltb, ◌==◌, if◌then◌else◌, ltb→lt, length, get_elem?, set, length-set, get_elem?-set_ne,
}
use coin_data.Buddy.Store.{Block, Store, update, free_header, init_free_block, crc32}
use coin_data.Buddy.Levels.{bytes}
use coin_data.Buddy.Malloc.{split, drop_list, new_head, detach, make_second, set_pair}

unfoldable pub true_below : (ℕ → Bool) → ℕ → Bool
true_below test zero = true
true_below test (suc k) = true_below test k && test k

pub true_below_lem :
    (test : ℕ → Bool) (k : ℕ) → true_below test k ≡ true → (j : ℕ) → j < k → test j ≡ true
unfolding true_below
true_below_lem test zero h j lt = absurd (omega arith)
true_below_lem test (suc k) h j lt = elim (ℕ_discrete j k) [
  | yes e ↦ ground (arith, ap test e)
  | no e ↦ true_below_lem test k (ground arith) j (omega arith)
]

-- Each of the 32 sizes is below the next, and below 2 ^ 64.
bytes_table : true_below (λ j. ltb (bytes j) (bytes (j + 1))) 31 ≡ true
unfolding true_below bytes
bytes_table = refl

bytes_step : (j : ℕ) → j < 31 → bytes j < bytes (j + 1)
bytes_step j h = ltb→lt (bytes j) (bytes (j + 1)) (true_below_lem _ 31 bytes_table j h)

pub bytes_mono : (j i : ℕ) → j < i → i < 32 → bytes j < bytes i
bytes_mono j zero h k = absurd (omega arith)
bytes_mono j (suc i) h k = elim (ℕ_discrete j i) [
  | yes e ↦ omega (arith, bytes_step i (omega arith), ap bytes e, ap bytes next)
  | no e ↦
      omega (
        arith,
        bytes_mono j i (omega arith) (omega arith),
        bytes_step i (omega arith),
        ap bytes next,
      )
]
  where
    next : i + 1 ≡ suc i
    next = omega arith

pub bytes_pos : (j : ℕ) → j < 32 → 0 < bytes j
unfolding bytes
bytes_pos j h = elim (ℕ_discrete j 0) [
  | yes e ↦ rw e (omega arith)
  | no e ↦ omega (arith, bytes_mono 0 j (omega arith) h)
]

-- The memory after `new_head`.
abbrev head_mem : (ℕ → Block) → ℕ → ℕ → ℕ → Block
head_mem m n level =
    if n == 0 then m else update m n (free_header (m n) 0 (m n).next level (m n).is_first)

new_head-mem :
    (level n : ℕ) (s : Store)
    → new_head level n s ≡ ok (tt, record s { mem = head_mem s.mem n level })
unfolding new_head init_free_block
new_head-mem level n s = ground arith

-- The memory after `detach`, `make_second` and `set_pair`.
abbrev detach_mem : (ℕ → Block) → ℕ → ℕ → ℕ → Block
detach_mem m h level =
    let m1 = head_mem m (m h).next level in update m1 h (record (m1 h) { next = 0; previous = 0 })

abbrev second_mem : (ℕ → Block) → ℕ → ℕ → ℕ → ℕ → Block
second_mem m h half level =
    let m1 =
      update m half
        (record (m half) { host_pid = (m h).host_pid; memory_idx = (m h).memory_idx }) in
    update m1 half (free_header (m1 half) h 0 level true)

abbrev pair_mem : (ℕ → Block) → ℕ → ℕ → ℕ → ℕ → Block
pair_mem m h half level = update m h (free_header (m h) (m h).previous half level false)

detach-mem :
    (level h : ℕ) (s : Store)
    → h ≢ 0
    → level < length s.block_list
    → detach level h s
      ≡ ok (
        tt,
        record s {
          block_list = set s.block_list level (s.mem h).next;
          mem = detach_mem s.mem h level;
        },
      )
unfolding detach
detach-mem level h s nonnull short = ground (
  arith,
  new_head-mem level (s.mem h).next
      (record s { block_list = set s.block_list level (s.mem h).next }),
)

make_second-mem :
    (level h : ℕ) (s : Store)
    → h ≢ 0
    → h + bytes level < 2 ^ 64
    → make_second level h s
      ≡ ok (h + bytes level, record s { mem = second_mem s.mem h (h + bytes level) level })
unfolding make_second init_free_block
make_second-mem level h s nonnull fits = ground arith

set_pair-mem :
    (fuel level h half : ℕ) (s : Store)
    → h ≢ 0
    → level < length s.block_list
    → get_elem? s.block_list level ≡ some 0
    → set_pair (suc fuel) level h half s
      ≡ ok (
        tt,
        record s { block_list = set s.block_list level h; mem = pair_mem s.mem h half level },
      )
unfolding set_pair drop_list init_free_block
set_pair-mem fuel level h half s nonnull short empty = ground arith

pub split_mem : (ℕ → Block) → ℕ → ℕ → ℕ → Block
split_mem m h i = pair_mem (second_mem (detach_mem m h (suc i)) h (h + bytes i) i) h (h + bytes i) i

pub split_lem :
    (fuel i h : ℕ) (s : Store)
    → h ≢ 0
    → h + bytes i < 2 ^ 64
    → suc i < length s.block_list
    → get_elem? s.block_list i ≡ some 0
    → split (suc fuel) i h s
      ≡ ok (
        tt,
        record s {
          block_list = set (set s.block_list (suc i) (s.mem h).next) i h;
          mem = split_mem s.mem h i;
        },
      )
unfolding split split_mem
split_lem fuel i h s nonnull fits short empty = ground (arith, detached, halved, paired)
  where
    s1 : Store
    s1 = record s {
      block_list = set s.block_list (suc i) (s.mem h).next;
      mem = detach_mem s.mem h (suc i);
    }

    s2 : Store
    s2 = record s1 { mem = second_mem s1.mem h (h + bytes i) i }

    detached : detach (suc i) h s ≡ ok (tt, s1)
    detached = detach-mem (suc i) h s nonnull short

    halved : make_second i h s1 ≡ ok (h + bytes i, s2)
    halved = make_second-mem i h s1 nonnull fits

    paired :
        set_pair (suc fuel) i h (h + bytes i) s2
        ≡ ok (
          tt,
          record s2 { block_list = set s2.block_list i h; mem = pair_mem s2.mem h (h + bytes i) i },
        )
    paired =
        set_pair-mem fuel i h (h + bytes i) s2 nonnull
          (omega (arith, length-set s.block_list (suc i) (s.mem h).next))
          (get_elem?-set_ne s.block_list {i = suc i} {j = i} (s.mem h).next (omega arith) ∙ empty)

-- The two blocks lie in the same memory of the same process.
pub record SameRegion (a b : Block) : Type 0 where
  pub host_pid : a.host_pid ≡ b.host_pid
  pub memory_idx : a.memory_idx ≡ b.memory_idx

module _ (i h : ℕ) (m : ℕ → Block) (apart : (m h).next ≢ h) (pos : 0 < bytes i) where
  pub split_mem-head :
      ((split_mem m h i h).next ≡ h + bytes i)
      × ((split_mem m h i h).previous ≡ 0)
      × ((split_mem m h i h).level ≡ i)
      × ((split_mem m h i h).is_free ≡ true)
  unfolding split_mem
  split_mem-head = ground arith

  pub split_mem-is_first : (split_mem m h i h).is_first ≡ false
  unfolding split_mem
  split_mem-is_first = ground arith

  pub split_mem-head_region : SameRegion (split_mem m h i h) (m h)
  unfolding split_mem
  split_mem-head_region = record { host_pid = ground arith; memory_idx = ground arith }

  pub split_mem-half_region : SameRegion (split_mem m h i (h + bytes i)) (m h)
  unfolding split_mem
  split_mem-half_region = record { host_pid = ground arith; memory_idx = ground arith }

  pub split_mem-half :
      (m h).next ≢ h + bytes i
      → ((split_mem m h i (h + bytes i)).next ≡ 0)
        × ((split_mem m h i (h + bytes i)).level ≡ i)
        × ((split_mem m h i (h + bytes i)).is_free ≡ true)
        × ((split_mem m h i (h + bytes i)).crc ≡ crc32)
  unfolding split_mem
  split_mem-half away = ground arith

  pub split_mem-next :
      (m h).next ≢ h + bytes i
      → (m h).next ≢ 0
      → split_mem m h i (m h).next
        ≡ free_header (m (m h).next) 0 (m (m h).next).next (suc i) (m (m h).next).is_first
  unfolding split_mem
  split_mem-next away nonnull = ground arith

  pub split_mem-same : (p : ℕ) → p ≢ h → p ≢ (m h).next → p ≢ h + bytes i → split_mem m h i p ≡ m p
  unfolding split_mem
  split_mem-same p a b c = ground arith
