-- ===== src/Timers.antt =====
-- src/timer: timers and their queue.
pub mod Timer
pub mod TimerQueue
