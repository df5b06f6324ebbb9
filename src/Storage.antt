-- ===== src/Storage.antt =====
-- include/storage.hpp: what the tasks expect of a `Storage`, as operations and laws.
-- `Mmap` and `Memory` are the two block storages of src/, `Disk` the stream of version 0.1; `Laws`
-- derives what holds of every storage that keeps the interface.
pub mod Mmap
pub mod Memory
pub mod Disk
pub mod Iface
pub mod Laws
pub mod Instances
pub mod Mapped
mod Tests
