-- ===== src/Pool.antt =====
-- src/thread_pool.cpp with include/wpriorityqueue.hpp, src/semaphore.cpp and src/tptask.cpp.
pub mod Threads
pub mod Semaphore
pub mod Queue
pub mod Drained
pub mod Conserved
pub mod Order
pub mod Ending
mod Tests
