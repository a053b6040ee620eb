-- ===== src/Events.antt =====
-- The event loop, src/event.
pub mod Event
pub mod Epoll
pub mod EventCtrl
pub mod EventFd
pub mod EventLoop
