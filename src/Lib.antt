-- ===== src/Lib.antt =====
-- saturn.
--
-- saturn is a C++ server framework: fibers and schedulers over epoll, timers, byte buffers, sockets and an
-- HTTP layer. This library models parts of it and proves what they promise.
--
--   saturn/bytearray.h, bytearray.cc   ByteArray.antt (the buffer), Codec.antt (the encodings), Values.antt
--                                      (the typed functions over both), ByteArray/Vectors.antt (the vectors)
--   saturn/timer.h, timer.cc           Timer.antt
--   saturn/iomanager.h, iomanager.cc   IoManager.antt (the contexts), IoManager/Calls.antt (the operations),
--                                      IoManager/Idle.antt (a round of `idle`)
--   saturn/fiber.h, fiber.cc           Fiber.antt (the states)
--   saturn/scheduler.h, scheduler.cc   Scheduler.antt
--   saturn/fdmanager.h, fdmanager.cc   FdManager.antt (the table of descriptors)
--   saturn/hook.cc                     Hook.antt (the calls that wait), Hook/Flags.antt (the others)
--   saturn/http/http.h, http.cc        Http.antt (methods and statuses), Http/Fields.antt (the maps),
--                                      Http/Messages.antt (the messages), Http/Params.antt (parameters)
--   saturn/http/servlet.h, servlet.cc  Servlet.antt
--   saturn/http/http_parser.cc         Http/Parser.antt (the callbacks)
--   saturn/http/http_session.cc        Http/Receive.antt (receiving a request)
--   saturn/http/http_connection.cc     Http/Pool.antt (the connection pool), Http/Chunks.antt (receiving a
--                                      response), Http/Requests.antt (requests and their results)
--   saturn/http/http_server.cc         Http/Server.antt
--   saturn/stream.cc                   Stream.antt
--   saturn/address.h, address.cc       Address.antt, Address/Texts.antt (texts and `UnixAddress`)
--   saturn/socket.h, socket.cc         Socket.antt
--   saturn/tcpserver.cc                Socket/Servers.antt
--   saturn/log.h, log.cc               Log.antt (formats), Log/Events.antt (events and their text),
--                                      Log/Loggers.antt (loggers and their configuration)
--   saturn/util.cc                     StringUtil.antt (URL encoding and decoding), StringUtil/Trim.antt
--   shared helpers                     Base.antt
--   concrete runs                      Tests.antt
--
-- ByteArray. A buffer is a record of the fields of the class. The chain of nodes is split at `m_cur`: `front`
-- are the nodes before it, and `rest` is the chain from it on, empty for a null pointer. A call returns an
-- `Outcome`: a value, the exception `std::out_of_range`, or a fault where the code uses a null `m_cur` or
-- stores behind a local variable, array or string. The bytes of a new node are those of an arbitrary memory, a parameter
-- `memory`. `size_t` differences wrap at 2 ^ 64; sums of sizes are bounded by memory and do not. The `double` in
-- `ceil(1.0 * size / m_baseSize)` is exact for sizes below 2 ^ 53, and is taken as division rounded up. `read`
-- returns all the bytes that it copies, of which the first `size` are in the caller's buffer. An `iovec` points
-- into one node: it names the node by its place in the chain, and the byte in it.
--
-- Codec and Values. An integer is its bit pattern, a signed one in two's complement; signed products and
-- negations that overflow, which C++ leaves undefined, wrap. `host` stands for `BYTE_ORDER` and is arbitrary.
-- The loops of the varints are bounded as in the code: by the size of the local array on writing, and by
-- the 5 or 10 values of the shift on reading. Each typed read has a variable of its own, and is a fault where
-- `read` copies more bytes than that holds (`read_local`), as it does for every read that ends inside a node.
--
-- Timer. The timers are objects in a store, by address; the `std::set` is the list of addresses in the order
-- of `Comparator`. The clock and the address of a new timer are arguments. Each locked part is one step:
-- `listExpiredCb` is `take_expired` and then `requeue`, and `reset` is `reset_first` and then `addTimer`. The
-- functions `list_expired_cb` and `reset` have nothing between their two parts; in the sequences of Timer/Steps.antt
-- the parts of `reset` are steps of their own.
--
-- IoManager. The manager is its table of contexts, the count of pending events, the tasks given to schedulers
-- and the calls of `epoll_ctl` so far; what `epoll_ctl` returns is a parameter. A call returns, or stops at an
-- assertion or a null pointer. Descriptors are not negative. Each operation is one step, under the lock of the
-- context. Of `idle`, the time to wait and what is done with each report are modelled, and not the loop.
--
-- StringUtil. A string is the list of its bytes. The new string of `UrlEncode` and `UrlDecode` is absent until the
-- first character that changes, as in the code; `c += 2` skips two rounds of the loop.
--
-- Fiber and Scheduler. The states of the fibers are a function of their addresses. A fiber that is swapped in runs
-- until it swaps out; what it schedules and in which of the four ways it leaves are parameters, and so is what
-- is scheduled while the idle fiber runs. A round of `run` is one step of one thread; the states that other
-- threads give to fibers are those at its beginning. The ids of threads are those of the system.
--
-- FdManager and Hook. A descriptor is the bit pattern of its `int`; the table holds `none` for a null pointer. The loop
-- that doubles the table is run in `fd + 1` rounds, which are enough since the table is never empty. What the
-- system calls give, whether a descriptor can be added to the manager, and which wait is ended by its timer come
-- from a script, a turn for each system call; `io` returns with the list of what it has done. A script that
-- ends before `io` returns gives `none`. A context is changed in place, in the table.
--
-- Http and Servlet. A map is the list of its entries in the order of `CaseInsensitiveLess`. The flags of
-- `m_parserParamFlag` are three fields. `strcasecmp` folds the ASCII letters. `PARSE_PARAM` is run in as many rounds
-- as the text has characters, since each round passes one. `fnmatch`, `lexical_cast`, and the servlets of clients are
-- parameters; the lock of the tables is not modelled.
--
-- Http/Parser. A callback is given the text from `at` on and the length of what is meant. The calls that the parser
-- of saturn/http/external makes are a list of events; `atoi` is a parameter, and the response's callbacks that do
-- nothing are left out.
--
-- Stream and pool. `read` and `write` of a stream are parameters over its states; a round that does not return passes
-- a byte, so as many rounds as bytes are enough. `m_total` counts connections, and is a ℕ. Whether
-- a socket is connected, and whether a new one connects, are arguments.
--
-- Messages of connections. The parser of saturn/http/external is an `Engine`: its states are a parameter, and
-- `run` gives how many bytes of the buffer it has parsed. The loop for a head ends in as many rounds as bytes are
-- to come and one more, since each round reads a byte, where the stream gives none at its end. A move of bytes
-- from before the buffer or behind it is `head_overrun`. A body's length from 2 ^ 63 on is negative, as in the code.
-- Whether `resize` of a length returns is a parameter; where it throws, the exception leaves the call, and the loop of
-- the server with the session open.
-- `content_len` of a chunk is not negative. What is returned for an error leaves out its text. The server's loop takes
-- what a session calls from a record `Session`, whose theorem has `recv_request` there; the servlets are a function.
--
-- Log. A format whose search for '%' runs behind its end is `none`, also in the configuration. The level that nobody
-- has set is `none`, and a message to such a logger ends with `level_unset`. How a stream prints a number, a path
-- and a time is a parameter. A logger of the map is changed in place, and those that have left it are kept apart,
-- since other threads may hold them. What is written is a list of lines with where they go.
--
-- Address and Socket. A number in an address is in the order of the host; the bytes of `s6_addr` are as they stand. A
-- shift without a defined result makes the address `undefined`, and so does a write behind an array. The hosts
-- that are split hold no 0. What the system calls return is a parameter of each operation of a socket; the
-- server's loop runs over what `accept` returns in each round.
--
-- Not modelled: the start and stop of schedulers, contexts and threads, files and
-- configuration, which are calls of the system and of other libraries; saturn/http/external (a copy of mongrel2)
-- and saturn/uri.cc (generated from uri.rl).

pub mod Address
pub mod Base
pub mod ByteArray
pub mod Codec
pub mod FdManager
pub mod Fiber
pub mod Hook
pub mod Http
pub mod IoManager
pub mod Log
pub mod Scheduler
pub mod Servlet
pub mod Socket
pub mod Stream
pub mod StringUtil
pub mod Tests
pub mod Timer
pub mod Values
