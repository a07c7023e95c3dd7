-- ===== src/Lib.antt =====
-- coin-data: nodes of one machine that exchange data through shared memory.
--
-- A publisher writes into a ring in shared memory, and every subscriber of its name reads that ring at
-- its own pace, in turns that the channel of its process gives it. Objects of all kinds stand in shared
-- memory that a buddy allocator hands out, and are held by shared pointers whose counts stand there
-- too. Beside that there are a pool of worker threads, and times and rates for loops.
--
-- * Buddy (src/coin-data/local/impl/buddy.hpp, buddy.cpp). Store has the headers `block_head_t` and
--   `buddy_head_t` as records, and commands that read and write them; an address is a number. Levels
--   has the sizes, Lists the doubly linked lists with `buddy_insert_blcok`, `buddy_remove_block`,
--   `buddy_init_system` and `buddy_attch_memory`, Malloc and Free have `buddy_malloc` and `buddy_free`.
--   Their child modules prove. Lists/Linked says what it means that the headers form given lists, and
--   Lists/Place has what happens to the addresses alone (`place`, `give_back`). Sizes is about the
--   levels; Malloc/Split to Malloc/Allocate follow one call of `buddy_malloc`, Malloc/Handed what it
--   leaves of the lists; Free/Scan to Free/FreedAll do the same for `buddy_free`, and Free/Restored for
--   both in turn; Lists/Attached is about `buddy_attch_memory`. Reach has the states that a client can
--   reach, with the blocks that it has in use (Reach/Ownership) and the memory of each (Reach/Extent).
-- * CircularBuffer (`SharedCircularBuffer` in src/coin-data/local/impl/shmobj_manager.hpp), and History
--   on what it holds.
-- * PubSub (`LocalPublisher` and `LocalSubscriber` in src/coin-data/local/local_channal.hpp), which
--   uses the buffer. Links has the interleavings of publications with the steps of a subscriber's
--   turns, Turns those steps; Delivery and Drain follow a link over time.
-- * Channel (src/coin-data/local/local_channal.cpp): the lists of communicators and the timer.
--   Registry has how communicators come into them; Connections, Registered and Rounds prove.
-- * SharedPtr (src/coin-data/local/impl/shm_shared_ptr.hpp): pointers, and the heap with the counts.
--   Counts and Steps prove.
-- * ThreadPool (src/coin-commons/utils/threadpool.hpp, threadpool.cpp): Queue is `LockFreeQueue`, and
--   Fifo its contract; Threads has its two threads step by step, and Order what every schedule keeps;
--   Pool is `ThreadBindPool::add_task_to`, and Dispatch what becomes of a task; Loop is the loop of a
--   worker, Wakeup its waiting, Work its queue.
-- * Cell (`LocalWriter` and `LocalReader` in src/coin-data/local/local_channal.hpp): one value that is
--   overwritten. Service (`LocalService` and `LocalClient` there): requests in a ring, and answers.
-- * FileWatch (`INotifyMonitor` in src/coin-data/local/impl/shmobj_manager.cpp) and NodeMonitor
--   (src/coin-data/node/node.cpp): what is under watch, in maps that are inverse to each other.
-- * Environment (src/coin-commons/executor/executor.cpp): the array of `key=value` strings, and its
--   Values. Runtime (src/coin-commons/utils/utils.cpp): registered functions, `ok` and `shutdown`.
-- * Objects (`ShmObjManager` in src/coin-data/local/impl/shmobj_manager.hpp, shmobj_manager.cpp): the
--   manager of a process and the memory that all share. Start, Create, Destroy, Discovery and Monitor
--   have the operations, Names reads a name; Owner, Entries, Cleared, Marked and Ended follow an object
--   in its own process, Found, Counts, Lost and Stale in another one.
-- * Events (src/coin-commons/utils/event.hpp, event.cpp): conditions and tasks, handed to the workers.
-- * Locks (src/coin-data/local/impl/shm_memory.hpp, shm_memory.cpp): the mutex that processes share, and
--   the Areas that it guards.
-- * Mutable (src/coin-data/communicator.hpp, communicator.cpp): communicators that Service redirects.
-- * Parameters (`AnyDataNode` in src/coin-commons/parmeter/impl/anydata/anydata_impl.hpp): Keys cuts a
--   key into parts, Nodes has the tree, Paths and Access prove.
-- * Executor (src/coin-commons/executor/executor.cpp): a child process, its output and its Arguments.
--   Strings (src/coin-commons/utils/strings.cpp): `split`, which the executor uses.
-- * Ret (src/coin-commons/utils/ret.hpp): values with a flag and a reason, and Flag for `Ret<bool>`.
-- * DateTime (src/coin-commons/utils/datetime.hpp, datetime.cpp), and its Laws.
-- * Prelude (shared by all): tests, lists, maps, machine words, faults, positions in a ring.
--
-- Code that can stop the process or is undefined gives a `Fault`. `size_t` and `uint64_t` wrap around
-- where the code can overflow. A method that holds a mutex from start to end is one step; a guard of
-- the shared buffer is taken to get its mutex within its time.
--
-- Fuel: a walk along the list of blocks takes more than its length; the `do` loop of `buddy_malloc`
-- takes 33 rounds, as there are 32 levels; the loop of `buddy_free` takes 33, as each round but the last
-- goes up a level; the number of pages bounds the length of each list. The loop over `work_list_` takes
-- one for each step, the loop of `split` one more than the string is long.
--
-- Not modelled: files, segments, inotify and other system calls; encoding of parameters, which a TOML
-- library does; checksums, a copy of another project; logging; weak memory beyond acquire and release.
-- The addresses that an allocation gives to an object, the clock, the processes that live and what the
-- mutex of the system says are arguments.
pub mod Buddy
pub mod Cell
pub mod Channel
pub mod CircularBuffer
pub mod DateTime
pub mod Environment
pub mod Events
pub mod Executor
pub mod FileWatch
pub mod Locks
pub mod Mutable
pub mod NodeMonitor
pub mod Objects
pub mod Parameters
pub mod Prelude
pub mod PubSub
pub mod Ret
pub mod Runtime
pub mod Service
pub mod SharedPtr
pub mod Strings
pub mod ThreadPool
