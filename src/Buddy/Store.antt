-- ===== src/Buddy/Store.antt =====
-- The headers of `buddy_head_t` and the blocks, with `init_free_block` and `init_used_block`. An
-- address is a number, 0 for `NULL`; a header is read and written as a whole, at any other address.
use coin_data.Prelude.{
  ℕ, ◌%◌, ◌^◌, Bool, true, false, List, none, some, Result, ok, fault, Fault, ◌==◌, if◌then◌else◌,
  get_elem?, set, length, ltb,
}

-- `block_head_t`
pub record Block : Type 0 where
  pub previous : ℕ
  pub next : ℕ
  pub size : ℕ
  pub level : ℕ
  pub host_pid : ℕ
  pub memory_idx : ℕ
  pub is_free : Bool
  pub is_first : Bool
  pub crc : ℕ

-- `buddy_head_t` without its lock, and the memory that holds the blocks.
pub record Store : Type 0 where
  pub total_size : ℕ
  pub head_size : ℕ
  pub memory_size : ℕ
  pub memory_idx : ℕ
  pub block_list : List ℕ
  pub mem : ℕ → Block

-- `sizeof(struct block_head_t)`, packed to four bytes
abbrev pub block_head_size : ℕ
block_head_size = 60

-- `BUDDY_MAX_BLOCK_NUM`
abbrev pub max_block_num : ℕ
max_block_num = 32

abbrev pub page_size : ℕ
page_size = 4096

abbrev pub Cmd : Type 0 → Type 0
Cmd A = Store → Result (A × Store)

abbrev pub pure : {A : Type 0} → A → Cmd A
pure a s = ok (a, s)

abbrev pub stop : {A : Type 0} → Fault → Cmd A
stop e s = fault e

infixl 5 ◌>>=◌ ◌>>◌
abbrev pub ◌>>=◌ : {A B : Type 0} → Cmd A → (A → Cmd B) → Cmd B
◌>>=◌ m f s = elim (m s) [ ok (a, s') ↦ f a s' | fault e ↦ fault e ]

abbrev pub ◌>>◌ : {B : Type 0} → Cmd (Unit {0}) → Cmd B → Cmd B
m >> k = m >>= λ _. k

abbrev pub update : (ℕ → Block) → ℕ → Block → ℕ → Block
update m p b q = if p == q then b else m q

abbrev pub load : ℕ → Cmd Block
load p s = elim (p == 0) [ true ↦ fault Fault.null_pointer | false ↦ ok (s.mem p, s) ]

abbrev pub write : ℕ → Block → Cmd (Unit {0})
write p b s = elim (p == 0) [
  | true ↦ fault Fault.null_pointer
  | false ↦ ok (tt, record s { mem = update s.mem p b })
]

-- `buddy->block_list[i]`
abbrev pub list_at : ℕ → Cmd ℕ
list_at i s = elim (get_elem? s.block_list i) [
  | none ↦ fault Fault.out_of_range
  | some p ↦ ok (p, s)
]

abbrev pub set_list : ℕ → ℕ → Cmd (Unit {0})
set_list i p s = elim (ltb i (length s.block_list)) [
  | true ↦ ok (tt, record s { block_list = set s.block_list i p })
  | false ↦ fault Fault.out_of_range
]

-- The stub that stands for a checksum.
abbrev pub crc32 : ℕ
crc32 = 0x55AA

-- The last four bytes of the header are `crc`, least byte first.
abbrev pub crc32_check : Block → Bool
crc32_check b = b.crc % 2 ^ 16 == 0x55AA

abbrev pub free_header : Block → ℕ → ℕ → ℕ → Bool → Block
free_header b previous next level is_first = record b {
  size = 0;
  is_free = true;
  previous = previous;
  next = next;
  level = level;
  is_first = is_first;
  crc = crc32;
}

-- A null block is left alone.
unfoldable pub init_free_block : ℕ → ℕ → ℕ → ℕ → Bool → Cmd (Unit {0})
init_free_block block previous next level is_first s = elim (block == 0) [
  | true ↦ ok (tt, s)
  | false ↦ ok (
    tt,
    record s { mem = update s.mem block (free_header (s.mem block) previous next level is_first) },
  )
]

abbrev pub used_header : Block → Block
used_header b = record b { size = 0; is_free = false; previous = 0; next = 0; crc = crc32 }

-- The parameter `level` is not read by the code: the block keeps its level.
unfoldable pub init_used_block : ℕ → ℕ → Cmd (Unit {0})
init_used_block block level s = elim (block == 0) [
  | true ↦ ok (tt, s)
  | false ↦ ok (tt, record s { mem = update s.mem block (used_header (s.mem block)) })
]
