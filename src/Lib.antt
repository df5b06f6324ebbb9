-- ===== src/Lib.antt =====
-- greencloud: a block device whose blocks are kept on other machines. The master answers the
-- kernel's NBD requests; it sends each to a slave as a datagram and answers when the slave has
-- replied.
--
-- A request goes like this. The master's driver makes a `DriverData` of it, `CloudStorage::Write`
-- or `Read` (src/cloud_storage.cpp) gives it a number, remembers its handle under the number and
-- sends a text to the slave. The slave's `SlaveDriverProxy::ReceiveRequest`
-- (src/slave_driver_proxy.cpp) parses the text, a task of include/slave_tasks.hpp does the work on
-- a storage, and `SendReply` sends a text back. The master's `SlaveGateway::Read`
-- (src/slave_gateway.cpp) parses that one, finds the handle, and makes the task that answers the
-- kernel.
--
-- Files, with the code that each models:
--
--   Base            helpers: Booleans, lists, blocks of bytes, C++ integers, and `Outcome`, the result
--                   of code that can fail. `undefined` is behaviour that C++ leaves open, `exits` a
--                   call of exit, `hangs` a wait that nothing ends.
--   Data            include/driver_data.hpp, include/globals.hpp. A `std::vector` is its size with the
--                   cells of its memory, since the code writes behind the size of a reserved vector.
--   Storage         include/storage.hpp as an interface with laws (Storage/Iface), and the three
--                   storages of src/mmap_storage.cpp, src/memory_storage.cpp, src/disk_storage.cpp.
--   Wire            printing and parsing of numbers, C strings in a buffer.
--   Cloud           src/cloud_storage.cpp with include/cloud_storage.hpp, and src/slave_gateway.cpp.
--                   Cloud/Ids is `HandlerToId` and `IdToHandler`, Cloud/Slaves the map of slaves and
--                   the handshake, Cloud/Send the requests, Cloud/Reply the replies.
--   Slave           src/slave_driver_proxy.cpp and include/slave_tasks.hpp.
--   Nbd             src/nbd_driver_proxy.cpp, src/ioctl_wrapper.cpp and include/nbd_tasks.hpp: byte order,
--                   the loops over a socket, requests and replies, and the life of the device. What
--                   linux/nbd.h declares is a parameter, Nbd/Driver's Protocol and Nbd/Device's Kernel.
--   Engine          include/factory.hpp, include/request_engine.hpp and the gateways that read from the
--                   driver and from standard input; src/epoll.cpp is Engine/Epoll.
--   Pool            src/thread_pool.cpp, include/wpriorityqueue.hpp: moves of the threads, in any order;
--                   the queue and src/semaphore.cpp by themselves in Pool/Queue and Pool/Semaphore.
--   Dispatcher      include/dispatcher_callback.hpp.
--   Handleton       include/handleton.hpp, whose GetInstance is also that of include/singleton.hpp.
--   Logger          src/logger.cpp: the layout of a line, and in Logger/Journal the file, its name and
--                   the filter by level.
--   Plugins         src/plug_and_play.cpp: the thread that watches the directory of plug-ins, and the loader.
--   Exchange        one request from the master's task to the answer, through all of the above, and in
--                   Exchange/Served to the bytes that the kernel reads. Exchange/Device runs any
--                   sequence of requests, one behind the other, against a block device.
--   Programs        release/greencloud.0.5.cpp (Programs/Master, with the main thread's signals in
--                   Programs/Signals and main in Programs/Main), release/slave.cpp (Programs/Slave) and
--                   the loop of release/greencloud.0.1.cpp (Programs/Serial). Programs/Threaded is
--                   release/greencloud.0.1.5.cpp with its main, a detached thread for each request,
--                   against the serial device of Programs/Serial/Device.
--   Tools           create_h_file.cpp.
--
-- Bounds. `size_t` is 64 bits, `int` and `unsigned` 32 bits; the buffers have the sizes of the
-- source. Memory that an allocation hands out holds any bytes: a function from index to byte is an
-- argument wherever such memory can be seen. What the network delivers and whether a system call
-- succeeds are arguments too. Printing is by recursion on fuel, the number itself, which is always
-- enough.
--
-- Not modelled: where the programs log, printing to the terminal, the system calls behind sockets
-- and files, and the releases from 0.2 to 0.4, which compose the same parts around tasks that are
-- not in the repository any more. The pool of Programs/Master and Programs/Slave executes any task
-- that waits, where Pool models the order of its queue, and the memory that the threads share is
-- read and written in one order.
pub mod Base
pub mod Data
pub mod Storage
pub mod Wire
pub mod Cloud
pub mod Slave
pub mod Exchange
pub mod Nbd
pub mod Engine
pub mod Dispatcher
pub mod Pool
pub mod Handleton
pub mod Logger
pub mod Plugins
pub mod Programs
pub mod Tools
