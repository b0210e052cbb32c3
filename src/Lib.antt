-- ===== src/Lib.antt =====
-- penduo: an event loop library after muduo, with timers and TCP servers.
--
-- A program gives each thread at most one EventLoop. The loop polls the descriptors of its Channels
-- through a Poller, calls back the channels that have events, and then runs the functors that any
-- thread has queued for it. A TimerQueue is a channel on a timer descriptor. A TcpServer accepts
-- connections; each TcpConnection has a channel and a Buffer, and its end goes through the queue of
-- functors, so that no object is destroyed inside its own callback.
--
-- Which file models which part:
--   Prelude     shared helpers: Boolean tests, lists and integers over the native numbers, lists up
--               to order, maps as functions, and Outcome, the result of code that may abort or throw.
--   Channel     net/Channel.h, net/Channel.cpp: the object, its masks of events, its destructor.
--   Reactor     net/Poller.h, net/Poller.cpp: update_channel and remove_channel, with the functions
--               of net/EventLoop.cpp and net/Channel.cpp that lead to them. The poller keeps indices
--               into an array in the channels, and moves the last entry when one is removed:
--               Invariant says what holds of them, the other child modules that it is kept. Table is
--               the poller without array and indices, as its callers see it.
--   Poll        net/Poller.cpp: poll and fill_active_channels.
--   Dispatch    net/Channel.cpp: handle_event.
--   Timestamp   base/Timestamp.h, base/Timestamp.cpp.
--   Timerfd     base/timerfd: how_much_time_from_now. Naive is TimerfdNaive.cpp, TimerfdCreator.cpp and
--               the class of Timerfd.h; Simulation is TimerfdThreadSimulation.cpp, the thread that
--               writes to pipes instead, whose child modules say what its set stands for (Armed,
--               Traces), how long it waits (Waits) and that it ends (Stops).
--   TimerQueue  net/Timer.h, net/Timer.cpp, net/TimerQueue.h, net/TimerQueue.cpp. Schedule is add_timer
--               from any thread, with net/TimerHandle.h and run_in_loop, run_at and run_after of
--               net/EventLoop.cpp.
--   Buffer      net/Buffer.h, net/Buffer.cpp.
--   Tcp         net/TcpConnection.h, net/TcpConnection.cpp, net/TcpServer.h, net/TcpServer.cpp, over
--               Reactor; do_pending_functors of net/EventLoop.cpp for the functors that they queue.
--   Acceptor    net/Acceptor.h, net/Acceptor.cpp, and the constructor and start of
--               net/TcpServer.cpp, over Socket and Tcp.
--   Endian      net/Endian.h.
--   InetAddress net/InetAddress.h, net/InetAddress.cpp, and the functions on addresses of
--               net/SocketsOps.cpp.
--   Sockets     net/SocketsOps.cpp. Ops is net/SocketsOps.h: a record of its functions.
--   Socket      net/Socket.h, net/Socket.cpp.
--   EventLoop   net/EventLoop.h, net/EventLoop.cpp: loop, queue_in_loop, quit, wakeup and
--               do_pending_functors as a step relation over the threads. Rounds is about its runs.
--   EventLoopThread
--               net/EventLoopThread.h, net/EventLoopThread.cpp: the thread and the calls of start_loop
--               as a step relation.
--   Loop        net/EventLoop.cpp: the rounds of loop, composed of the modules above, in a loop with its
--               timer queue, its pipe and one server. Invariant says what a running loop is; Events,
--               Active, Sweep and Rounds go from one callback to a whole round, over Tcp.Settled.
--   Lifetime    an EventLoop from its constructor to its destructor: the two channels that it owns, and
--               the loop that each thread remembers.
--   Logger      base/logging/Logger.h, base/logging/Logger.cpp.
--   Daytime     base/Daytime.h, base/Daytime.cpp.
--   Examples    the theorems applied to small inputs.
-- All these paths are under src.
--
-- How the code is read. Assertions are on: the build sets no build type, so NDEBUG is not defined. An
-- operation returns an Outcome: the new state, or the Fault that ends the process. LOG_FATAL aborts;
-- the other log lines are left out, but for the text of an address in one and for those of TimerfdNaive,
-- which take time. `current` is the calling thread, against the thread of the loop.
-- Objects that are shared (channels, connections) live in stores, functions from numbers, so that two
-- references to one object see one state. Descriptors, indices and events are read as the system
-- headers of Linux define them. Times are integers that do not overflow; a size_t is 64 bits wide.
-- Loops are by recursion on the list that they walk, so that there is no fuel.
--
-- What is a parameter: the system calls (poll of Poller::poll, the record System of Sockets,
-- NameCalls of InetAddress, Network of Sockets.Ops for all that a server calls, TimerSystem of
-- Timerfd.Naive, the result of readv), the macros of endian.h and the functions of OSByteOrder.h
-- (ByteOrder, OsByteOrder), inet_ntop, localtime_r, the conversions of sprintf, strerror_r,
-- std::to_string, easylogging++ (Easylogging), the clock, and the user's callbacks. The theorems
-- name what they use of them as hypotheses: IsPoll (of calls that succeed), FailsOnBadFd,
-- KeepsFlags, Keeps, IsTimerfd, IsByteOrder, LeavesOnFailure, IsFormat, IsLocaltime, HasFamily of
-- an address that accept stores, IsFit of what a round meets, and that to_string is injective.
--
-- What is not modelled: the vendored easylogging++, and the reference counts of shared pointers, of
-- which only the connection's hold on itself is seen. The step relation of EventLoop, where a callback
-- only queues functors or quits, is not joined with the rounds of Loop, where the functors of other
-- threads do not come in between. The classes of base/noncopyable.h and base/copyable.h have no
-- behaviour, and what the mutexes cover is one step; a round of the timer thread is one too. A user's
-- callback is seen in that it is called, and in what it adds, leaves or quits.
pub mod Prelude
pub mod Channel
pub mod Reactor
pub mod Poll
pub mod Timestamp
pub mod Timerfd
pub mod TimerQueue
pub mod Buffer
pub mod Daytime
pub mod Logger
pub mod Tcp
pub mod Acceptor
pub mod Endian
pub mod InetAddress
pub mod Socket
pub mod Sockets
pub mod EventLoop
pub mod EventLoopThread
pub mod Dispatch
pub mod Lifetime
pub mod Loop
pub mod Examples
