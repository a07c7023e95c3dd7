-- ===== src/ThreadPool.antt =====
-- The tasks of the workers of src/coin-commons/utils/threadpool.hpp and threadpool.cpp: the queue of
-- a worker, its two threads, and the pool that hands tasks to workers.
pub mod Queue
pub mod Threads
pub mod Pool
pub mod Loop
pub mod Tests
