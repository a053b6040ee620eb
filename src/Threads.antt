-- ===== src/Threads.antt =====
-- src/thread: the threads that run loops.
pub mod EventThreadPool
pub mod EventThread
