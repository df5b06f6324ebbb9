-- ===== src/Handleton.antt =====
-- `Handleton` of include/handleton.hpp, whose `GetInstance` is that of `Singleton` in
-- include/singleton.hpp.
pub mod Moves
pub mod Single
mod Tests
