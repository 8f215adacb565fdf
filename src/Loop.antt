-- ===== src/Loop.antt =====
-- The reactor of net/: channels, the poller and the event loop.
pub mod Channel
pub mod EventLoop
pub mod Epoll
mod Examples
