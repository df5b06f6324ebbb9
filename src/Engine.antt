-- ===== src/Engine.antt =====
-- include/request_engine.hpp with include/factory.hpp and the gateways: what turns events into
-- tasks.
pub mod Factory
pub mod Loop
pub mod Epoll
pub mod Polled
pub mod Keeps
pub mod Gateways
mod Tests
