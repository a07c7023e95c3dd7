-- ===== src/Buddy.antt =====
-- The buddy allocator of src/coin-data/local/impl/buddy.hpp and buddy.cpp. The parts stand in the
-- child modules: the store of block headers, sizes and levels, the lists, `buddy_malloc`,
-- `buddy_free`, and what is proved of them.
pub mod Store
pub mod Levels
pub mod Lists
pub mod Malloc
pub mod Free
pub mod Sizes
pub mod Reach
pub mod Tests
pub mod ListTests
pub mod ClientTests
