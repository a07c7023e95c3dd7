-- ===== src/Parameters.antt =====
-- `AnyDataNode` of src/coin-commons/parmeter/impl/anydata/anydata_impl.hpp: a tree of tables and items
-- behind shared pointers. A string is the list of its characters' codes, a type is a number, and a
-- node is an address in a memory. `fresh` and `table` are what `make_shared` gives.
pub mod Keys
pub mod Nodes
pub mod Paths
pub mod Access
pub mod Tests
