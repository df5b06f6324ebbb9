-- ===== src/Programs.antt =====
-- The programs of release/: the master of release/greencloud.0.5.cpp and the slave of
-- release/slave.cpp, composed of the parts.
pub mod Master
pub mod Slave
pub mod Signals
pub mod Main
pub mod Catches
pub mod Arguments
pub mod Serial
pub mod Threaded
mod Tests
