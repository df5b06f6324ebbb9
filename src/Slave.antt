-- ===== src/Slave.antt =====
-- src/slave_driver_proxy.cpp: the slave's end of the connection to the master.
pub mod Proxy
pub mod Parse
pub mod Reply
pub mod Tasks
