-- ===== src/Wire.antt =====
-- The text datagrams between the master and a slave: src/cloud_storage.cpp and
-- src/slave_gateway.cpp on the one side, src/slave_driver_proxy.cpp on the other.
pub mod Decimal
pub mod Text
mod Tests
