-- ===== src/Data.antt =====
-- include/globals.hpp and include/driver_data.hpp: the keys of the factory, and the request that
-- travels from the block device through the tasks to a storage and back.
pub mod Buffers
pub mod Keys
pub mod Requests
unfoldable pub use Buffers.*
pub use Keys.*
pub use Requests.*
