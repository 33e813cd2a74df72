-- ===== src/Lib.antt =====
-- Verification of sofa-bolt-cpp, an RPC client library for the BOLT protocol.
--
-- A call goes through these parts. A session has the request written into an I/O buffer by the
-- protocol's assembling function; a socket sends the buffer and reads what comes back into another
-- one; the protocol's parsing functions tell from that buffer whether a whole response is there, and
-- read it. Shared tables and queues connect the threads that do this.
--
-- Base: the library names that all modules use, Boolean tests on numbers (Base/Tests) list functions
--   over the native numbers (Base/Lists), and sums over a list (Base/Counts).
-- ByteSource: the interface between the protocol code and the buffer that it reads, a record of
--   operations and laws. IoBuffer/Source gives it for the I/O buffer; Bolt/Response takes it.
-- IoBuffer: src/common/io_buffer.h and src/common/io_buffer.cpp. `Buffer` is `IOBuffer`, `Slice` and
--   `Block` are the structures of these names, and `Memory` holds the blocks of a thread with its
--   `s_tls_block_chain`. IoBuffer/Cut has pop_front, pop_back, the three `cut`s and copy_to;
--   IoBuffer/Append the appending operations and assignments. Loops over slices are recursion on the
--   list of slices; the loop of `append` runs on fuel, one unit for each byte, and every round pushes
--   a byte at least. The loop over the chain has fuel for every block that exists.
-- Bolt: the BOLT protocol. Bolt/Request is src/protocol/bolt/bolt_protocol.cpp with
--   include/protocol/bolt/bolt_request.h; Bolt/Response is src/protocol/bolt/bolt_response.cpp with
--   include/protocol/bolt/bolt_response.h. `deserialize` is a chain of steps that change the buffer and
--   the response and may return early; its loop over the header map has the size of the buffer as
--   fuel, and a round takes eight bytes at least. Bolt/Heartbeat has the heartbeats and the status texts.
-- LifeCycleLock: include/common/life_cycle_lock.h. Functions on the bits, and a step relation in which any
--   number of threads access them one at a time.
-- HashMap: include/common/concurrent_hash_map.h. The operations on one chain are functions on its list of
--   nodes, those of the map choose the bucket; each is one step, as the bucket's lock makes it.
-- MpscQueue, SpmcQueue and SpscQueue: the three queues of include/common/lockfree_queue.h. Functions for the
--   accesses to their indices and cells, and a step relation in which producers and consumers do them one
--   at a time. SpscQueue has whole calls and the destructor too, whose loop has the number of values as
--   fuel.
-- IntrusiveList: include/common/intrusive_list.h. The compare-and-exchange steps of each call in their order,
--   with no other thread between; the retry loops run on fuel, of which one unit is enough then.
-- ThreadPool: include/common/thread_pool.h. Each call is a function on the pool; ThreadPool/Runs has its
--   accesses in any order, with the threads that submit, of which none ends. A queue of tasks is a list.
-- Utils: include/common/utils.h. Trimming and splitting of texts.
-- Channel: src/channel/channel.cpp. Channel/Init makes a channel and chooses by the type of connection;
--   Channel.antt has the socket of a single channel and that of a pool, for one thread at a time.
-- Http: src/protocol/http. Http.antt has the callbacks that the HTTP parser calls, Http/Response the check
--   of a response and `deserialize`, Http/Request what is written for a request, and Http/Text that text
--   line by line. http_parser.c is a copy
--   of another project, a parameter that may call the callbacks in any way.
-- Session: src/session/session.cpp. The attempts of a call, from what the channel, the protocol, the
--   socket and the timer answer in each.
-- ReadSession: src/tcp/socket.h with src/session/session.cpp. The life of the record of one call: the sender,
--   the timer's thread and the reading thread access its lock one at a time.
-- Socket: src/tcp/socket.cpp. Socket/Write is `write`, with IoBuffer/Descriptor for the bytes it hands to the
--   system; its loop has one unit of fuel for a byte, since each call of the system that succeeds takes
--   one at least. What the reading thread does with the bytes it has: the message that is
--   complete goes to the call with its number. Socket/Protocols is src/protocol/protocol_define.cpp.
-- TimeThread: include/common/time_thread.h and src/schedule/time_thread.cpp. TimeThread/Loop is `loopOnce`
--   as a function that does its next access, and the end of `destroy`, run alone; TimeThread/Steps
--   interleaves the loop with the calls of `schedule` and `unschedule`. `Timer` has the members of the class, the calls in progress
--   and a record of what was run. Loops are phases of the step function, so none needs fuel.
-- EndPoint: include/tcp/endpoint.h and src/tcp/endpoint.cpp. `strtol` is written out; the look-ups of the
--   system are parameters.
-- Schedule: src/schedule/schedule.cpp, loop_thread.cpp and epoll_loop.cpp. Starting and stopping of the
--   threads that poll, and which of them gets a descriptor.
-- SocketManager: src/tcp/socket_manager.cpp. A round of `watchConnections` is a function of what the sockets
--   and the notification answer; SocketManager/Liveness has rounds one after the other.
-- Uri: include/common/uri.h and src/common/uri.cpp. The pointer loops are recursion on the text.
--
-- Not modelled: log output, system calls, the C++ memory model (atomic accesses are sequentially
-- consistent steps), and the parts of the library that no file below names.
pub mod Base
pub mod Bolt
pub mod ByteSource
pub mod Channel
pub mod EndPoint
pub mod HashMap
pub mod Http
pub mod IntrusiveList
pub mod IoBuffer
pub mod LifeCycleLock
pub mod MpscQueue
pub mod ReadSession
pub mod Schedule
pub mod Session
pub mod Socket
pub mod SocketManager
pub mod SpmcQueue
pub mod SpscQueue
pub mod ThreadPool
pub mod TimeThread
pub mod Uri
pub mod Utils
