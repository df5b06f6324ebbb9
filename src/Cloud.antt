-- ===== src/Cloud.antt =====
-- src/cloud_storage.cpp and src/slave_gateway.cpp: the master's storage, which sends each request
-- to a slave, and the gateway that takes the slave's reply.
pub mod Ids
pub mod Slaves
pub mod Send
pub mod Reply
pub mod Deliver
pub mod Transfer
pub mod Answer
mod Tests
