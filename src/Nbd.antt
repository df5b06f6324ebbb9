-- ===== src/Nbd.antt =====
-- src/nbd_driver_proxy.cpp and include/nbd_tasks.hpp: the master's end of a network block device.
pub mod Order
pub mod Stream
pub mod Driver
pub mod Framing
pub mod Device
pub mod Tasks
pub mod Layout
mod Tests
