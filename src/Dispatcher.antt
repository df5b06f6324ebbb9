-- ===== src/Dispatcher.antt =====
-- `Dispatcher` and `CallBack` of include/dispatcher_callback.hpp.
pub mod Callbacks
pub mod Life
mod Tests
