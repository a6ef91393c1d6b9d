-- ===== src/Lib.antt =====
-- A C++20 framework for remote procedure calls on coroutines and io_uring, as a library of models and
-- theorems. Each file names the source file whose code it is about; functions, types and fields keep
-- the names that they have there, in lower case with underscores.
--
-- The parts, and how they meet. A client frames a request as a message (rpc/protocol.hpp), whose
-- payload is made by the serializer (rpc/serializer.hpp), writes it and reads the frame that answers
-- it (rpc/rpc_client.hpp). The connection loop of the server (rpc/rpc_server.hpp) cuts the bytes it
-- reads into frames, looks each method up in the registry (rpc/service_registry.hpp) and writes the
-- answers back in order. A client finds the endpoints of a service by discovery
-- (rpc/registry/service_discovery.hpp) and chooses one with a balancer
-- (rpc/loadbalance/load_balancer.hpp). Below, bytes are held in buffers (net/buffer.hpp) and move over
-- connections (net/connection.hpp), which a pool keeps (net/connection_pool.hpp), a server accepts and
-- counts (net/tcp_server.hpp) and a client opens and opens again (net/tcp_client.hpp). The calls of
-- the system go through a ring (io/io_uring.hpp): reads and writes of whole files
-- (io/async_io.hpp), the timers that an event loop keeps (io/event_loop.hpp, the wheel of
-- io/timer.hpp), and the messages that event loops on several threads send each other
-- (io/event_loop_pool.hpp). Code is written as coroutines: tasks that wait
-- for each other (coroutine/task.hpp), generators (coroutine/generator.hpp), a scheduler whose workers
-- steal from each other (coroutine/scheduler.hpp), and locks (coroutine/sync.hpp). Interfaces are
-- declared in a language of their own (idl/idl_parser.hpp).
--
-- The files.
--   Common            numbers, lists, byte strings, maps, and little-endian fields of bytes
--   Rpc/Protocol      RpcMessage and ProtocolHeader of rpc/protocol.hpp: `serialize`, `deserialize`
--   Rpc/Serializer    BinarySerializer of rpc/serializer.hpp; its overloads are the interface `Codec`
--   Rpc/Registry      ServiceRegistry of rpc/service_registry.hpp
--   Rpc/Server        the counters and `handle_message` of rpc/rpc_server.hpp, and Rpc/Server/Loop its
--                     connection loop; Rpc/Frames has the cutting of a stream that it shares with the
--                     client
--   Rpc/Client        the call of a method in rpc/rpc_client.hpp
--   Rpc/LoadBalancer  rpc/loadbalance/load_balancer.hpp: the base class is an interface with laws, which
--                     RoundRobin, Weighted and Random fill and Rpc/Discovery takes
--   Rpc/Discovery     StaticServiceDiscovery of rpc/registry/service_discovery.hpp
--   Net/Buffer        Buffer of net/buffer.hpp, and Net/Chain its BufferChain
--   Net/Connection    Connection of net/connection.hpp
--   Net/ConnectionPool  ConnectionPool of net/connection_pool.hpp
--   Net/TcpServer     TcpServer of net/tcp_server.hpp: accepting, counting and stopping
--   Net/TcpClient     TcpClient of net/tcp_client.hpp, its reconnection and its pooled connections
--   Io/IoUring        the ring and the table of callbacks of io/io_uring.hpp
--   Io/AsyncIo        the loops of io/async_io.hpp that read and write until all is done
--   Io/EventLoop      EventLoop of io/event_loop.hpp and its timers
--   Io/EventLoopThread  EventLoopThread of io/event_loop_pool.hpp and the messages it takes
--   Io/EventLoopPool  EventLoopPool of io/event_loop_pool.hpp and how it chooses a worker
--   Io/TimingWheel    TimingWheel of io/timer.hpp
--   Io/TimedAwaiters  the awaiters of io/timer.hpp that race an operation with a timeout
--   Coroutine/Scheduler  the work-stealing queues and the scheduler of coroutine/scheduler.hpp
--   Coroutine/Task    Task of coroutine/task.hpp, and the awaiters of coroutine/awaitable.hpp
--   Coroutine/Generator  Generator of coroutine/generator.hpp and the walk over it
--   Coroutine/Sync    the mutex, semaphore and condition variable of coroutine/sync.hpp
--   Idl/Parser        IDLParser of idl/idl_parser.hpp
-- A file named Tests runs the code on small inputs.
--
-- How state and operations correspond. An object is a record, and a member function that changes it is
-- a function that returns the new record beside its result. What a lock protects is one step; where
-- the code gives a lock up in between, as the pool's `acquire` does, or takes it late, as the wheel's
-- `add_timer` does, the parts are steps of their own.
-- Numbers are natural numbers, and a `size_t`, `uint64_t` or `uint32_t` that may wrap wraps in the
-- model. A function whose result is an Option is `none` where the code reads or copies outside the
-- memory that it was given. Maps are association lists or functions. The order in which an unordered
-- map is walked is that of insertion, but for the pending tasks of an event loop's thread, where it is
-- a parameter.
--
-- What is not under the repository is a parameter: the contents of fresh memory (`alloc`, whose
-- blocks have the size asked for), padding bytes, the clock, the results of system calls, the room that
-- the kernel leaves in the ring, the handlers of a service, the draw of a random number, how the
-- resumption of a coroutine's body ends, and the member `error` of `RpcResult`, which the client names
-- and no file declares.
--
-- Fuel. A loop that the source leaves by a condition has fuel, and the theorems about it give enough.
-- That of `async_write_all` and of the write loops of files has the number of bytes to write: each turn
-- that goes on has written at least one. That of `async_read_all` has one more than the greatest size:
-- each turn that goes on has read at least one byte. That of the parser's `parse` has the number of
-- lines: each turn takes at least one. The connection loop of the server has one for each read of the
-- connection, of which each turn takes at least one. The client's attempts to reconnect are bounded by
-- the source itself. The walk over a generator needs more turns than the generator has values. All
-- others recurse on a list or a count.
--
-- Not modelled: starting and stopping the RPC server and the wiring of the RPC client, whose calls
-- are modelled; the manager of the pools and waiting in a pool; the loops that do nothing but call
-- one turn again; `schedule_batch`, a loop of `schedule`; tasks without a value, which repeat the
-- code of those with one; the code generator of the interface language, whose output is text in
-- another language; floating-point overloads of the serializer; socket options; and the examples,
-- tests and build files.
pub mod Common
pub mod Rpc
pub mod Net
pub mod Io
pub mod Coroutine
pub mod Idl
