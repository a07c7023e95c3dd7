-- ===== src/Cell.antt =====
-- `LocalWriter` and `LocalReader` of src/coin-data/local/local_channal.hpp: one shared value that is
-- overwritten. A data pointer is a number, 0 for null; an assignment from null changes nothing, as
-- `ShmSharedPtr` has it.
pub mod Latest
pub mod Tests
use coin_data.Prelude.{
  ℕ, ◌+◌, Bool, true, false, not, List, [], ◌∷◌, Result, ok, fault, Fault, ◌==◌, if◌then◌else◌,
  add_size,
}

-- `Communicator::CommunicatorItem` of one pointer.
pub record Item : Type 0 where
  pub is_online : Bool
  pub index : ℕ
  pub buffer : ℕ

-- The constructor and the destructor of the writer.
unfoldable pub writer_online : Item → Item
writer_online item = record item { is_online = true }

unfoldable pub writer_offline : Item → Item
writer_offline item = record item { is_online = false; buffer = 0 }

unfoldable pub write : ℕ → Item → Item
write value item = record item {
  buffer = if value == 0 then item.buffer else value;
  index = add_size item.index 1;
}

-- `data_buffer_` is there or not.
pub record Reader : Type 0 where
  pub connected : Bool
  pub idx : ℕ

unfoldable pub is_online : Item → Reader → Bool
is_online item r = if r.connected then item.is_online else false

unfoldable pub is_update : Item → Reader → Bool
is_update item r = if r.connected then not (r.idx == item.index) else false

unfoldable pub read : Item → Reader → Result (ℕ × Reader)
read item r =
    if r.connected
    then ok (item.buffer, record r { idx = item.index })
    else fault Fault.null_pointer

unfoldable pub connecte_to : Reader → Reader
connecte_to r = record r { connected = true }

unfoldable pub disconnect : Reader → Reader
disconnect r = record r { connected = false }
