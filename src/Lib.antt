-- ===== src/Lib.antt =====
-- A model of hxrpc, a remote procedure call framework over TCP with protobuf messages.
--
-- The parts and their files. A client (src/rpc_client.cc: Client) resolves a method to an endpoint
-- (src/service_discovery.cc and src/zookeeperutil.cc: Discovery; the sessions of its clients in
-- Discovery.Sessions, the contexts of its watches in Discovery.Watches), serializes the request
-- message (src/serializer.cc: Serializer), encodes it with its header to a frame (src/codec.cc:
-- Codec), exchanges the frame over a TCP connection (src/client_transport.cc: Transport), decodes
-- the response and reads its payload into a pooled message (src/message_pool.cc: MessagePool). A
-- server (src/rpc_server.cc: Server) runs an epoll loop (src/reactor.cc: Reactor) whose callbacks
-- belong to the connection manager (src/connection_manager.cc: ConnectionManager), which cuts the
-- bytes of a connection into frames and buffers what it sends. Each frame goes to the dispatcher
-- (src/rpc_dispatcher.cc: Dispatcher), which finds the method (src/service_registry.cc: Registry),
-- calls the service with a controller (src/controller.cc: Controller) and encodes the response.
-- EndToEnd puts a client and a server together, and EndToEnd.OverTcp the transport and the
-- connection manager between them. Types holds the data types of src/include/types.h, TextUtils
-- src/string_utils.cc, Config src/config.cc and Settings src/settings.cc. AsyncRuntime is
-- src/async_runtime.cc, the waits of coroutines for descriptors (its operations in any order, its
-- loop thread in AsyncRuntime.Loop, and its awaiter and the waits of the reactor in
-- AsyncRuntime.Awaiter), Task is src/include/task.h (the promise, the owners of frames in
-- Task.Ownership, and a co_await of a task in Task.Awaiting, whose body waits for descriptors),
-- and Logger is src/logger.cc. Benchmark is the benchmark of the framework
-- (benchmark/client/client.cc: its command line in Benchmark.Options, its threads and their counts
-- in Benchmark.Run, its figures in Benchmark.Metrics, its configuration in Benchmark.Main;
-- benchmark/server/server.cc: the service in Benchmark.Users, a login from the client to the
-- counts in Benchmark.Login and Benchmark.Counted). Common holds what all of them share, and
-- Examples concrete runs.
--
-- How code becomes definitions. An operation is a function with the source's name in snake case
-- that takes and returns the state it changes; a std::expected is an Expected, a std::string is
-- the list of its bytes, a map is an association list. What the operating system answers, such as
-- the results of ::send, ::recv, ::accept, ::connect and epoll_wait, is a script, a list in the
-- state or an argument; an empty script answers EAGAIN. An int32 is its 32-bit pattern and the
-- sizes in frames wrap at 2 ^ 32 as the casts do. Code that is not in the repository is a
-- parameter: the protobuf runtime (Protobuf, MessageApi, ServiceApi, UserMessages), with its
-- documented laws as the hypotheses IsProtobuf, IsMessageApi and IsUserMessages, and the ZooKeeper
-- library (ZooKeeper, with the laws of IsEnsemble where a theorem uses them). Where threads meet,
-- an operation is what one of them does under one lock, and a step relation (Step and Runs, Logs)
-- puts the operations in any order. A read through a reference or an iterator that the source has
-- made invalid is a result of its own, `dangling`; in Task an operation that C++ leaves undefined
-- is `none`.
--
-- Fuel. process_loop has one round more than the input buffer has bytes, and every frame takes
-- eight bytes or more off. split has one round more than the text has bytes. load_lines has a
-- round for every byte of the file, and fgets takes at least one. ensure_loop has a round for
-- every byte of the path. digits has the 20 digits of a 64-bit number.
--
-- Not modelled: the log lines of each part and the generated protobuf code but its dispatch on the
-- method. A ZooKeeper node without data, on which GetData throws. What a coroutine does on the
-- loop thread between its resumption and its next suspension, which is a step of another thread.
-- Of the benchmark client the text of the report and of the console; its doubles are a type that
-- is a parameter (Floats, with the laws of IsFloats). The coroutines of the client transport are
-- functions in which awaiting a task is running it. The mutexes of the message pool, of the idle
-- connections and of the resolver's cache make each use of them one step.
pub mod Common
pub mod Types
pub mod Codec
pub mod Reactor
pub mod ConnectionManager
pub mod Serializer
pub mod Registry
pub mod MessagePool
pub mod Controller
pub mod Dispatcher
pub mod Server
pub mod Client
pub mod Transport
pub mod Task
pub mod Discovery
pub mod AsyncRuntime
pub mod Logger
pub mod EndToEnd
pub mod TextUtils
pub mod Config
pub mod Settings
pub mod Benchmark
pub mod Examples
