-- ===== src/Lib.antt =====
-- PluginsEngine: an event loop over epoll, with timers, TCP connections and plugins, in C++. Paths
-- below are those of the repository.
--
-- The parts and how they interact. `EventCtrl` (src/event/eventCtrl.cpp) keeps the events of a
-- loop, one to a descriptor, and registers them with an epoll instance (src/event/epoll.cpp). An
-- `Event` (src/event/event.cpp) holds the mask of one descriptor and up to four callbacks; each
-- change of the mask goes through the loop to epoll, and each turn of the loop hands the reported
-- masks back to `Event::handle`, which calls the callbacks. `EventLoop` (src/event/eventLoop.cpp)
-- takes such turns until it is stopped, and executes behind each the functions that other threads
-- have handed over. On this stand: the connections of src/net/tcp, whose `TcpConnect` reads into one
-- `Buffer` and writes from another, and whose `TcpServer` accepts them, spreads them over the loops of
-- the pool of src/thread/eventThreadPool.cpp and keeps them by name; the timers of src/timer, whose
-- queue keeps one timer descriptor set to the first expiry; the event descriptor of
-- src/event/eventfd.cpp, by which other threads have the loop execute callbacks; the signal descriptor
-- of src/signalMonitor; and the engine of src/engine, by which plugins have their own descriptors
-- watched. Plugins are found and created by src/plugin/pluginCreator.cpp, which keeps the libraries
-- and the plugins in maps of the engine. src/adapter lets a boost::asio::io_context take the place of
-- epoll. Programs in C hold an engine by an untyped address, which src/plugin/commonapi.cpp checks.
--
-- Which file models which part:
--   Prelude        the tests, list lemmas, bits, association lists and `int` that the others share
--   Net.Buffer     src/net/tcp/buffer.cpp, class Buffer; `Readv` is the system call
--   Net.Address    src/net/tcp/socketOperation.cpp, the parsing and printing of addresses
--   Net.SocketAddr src/net/tcp/socketAddr.cpp, class SocketAddr
--   Net.TcpConnect src/net/tcp/tcpConnect.cpp, class TcpConnect; `Write` is the system call
--   Net.TcpConnect.Registration  the constructor, `connectedHandle` and the destructor of the same class,
--                  over the registry of the loop
--   Net.TcpServer  src/net/tcp/tcpServer.cpp and src/net/tcp/tcpAccept.cpp; `virtual` stands for the
--                  functions of a derived class
--   Events.Event   src/event/event.cpp, class Event
--   Events.Epoll   what the kernel documents of epoll_ctl, as an interface with laws
--   Events.EventCtrl  src/event/eventCtrl.cpp with src/event/epoll.cpp
--   Events.EventLoop  src/event/eventLoop.cpp, class EventLoop
--   Events.EventFd  src/event/eventfd.cpp, class EventFD
--   Engine.FdMonitor  `addFd`, `removeFd` and `modifyFd` of src/engine/engine.cpp
--   Engine.DataStorage  `save`, `get` and `remove` of the same file, include/private/engine/utilMap.hpp
--                  and src/plugin/pluginDataStorage.cpp
--   Engine.PluginMap  include/comapi/plugin/PluginMap.hpp, class PluginMap
--   Engine.OnFirstUse  `getEventCallbackQueue`, `getTimerService`, `getSignalMonitor`, `postCallback` and
--                  `ComAPI::create` of src/engine/engine.cpp, with the constructors of the services
--   CommonApi      src/plugin/commonapi.cpp, the functions for programs in C
--   Engine.Services  `waitAndHandleEvents` and `getExistingPlugins` of src/engine/engine.cpp
--   Timers.Timer   src/timer/timer.cpp, class Timer
--   Timers.TimerQueue  src/timer/timerQueue.cpp, class TimerQueue
--   Threads.EventThreadPool  src/thread/eventThreadPool.cpp, class EventThreadPool
--   Threads.EventThread  src/thread/thread.cpp and src/thread/eventThread.cpp, as steps of two threads
--   Plugins.PluginCreator  src/plugin/pluginCreator.cpp and src/plugin/sharedLibrary.cpp; `Linker` and
--                  `Surroundings` are what the system gives
--   IoContextAdapter  src/adapter/IOContextAdapter.cpp, over a record of what asio is asked for
--   SignalMonitor  src/signalMonitor/signalMonitor.cpp, class SignalMonitor
-- A child of one of these modules holds theorems about it and is named for what they are about; a
-- child `Tests` runs it at concrete inputs.
--
-- How state and operations correspond to the code. A class is a record with its fields, and a method
-- a function from the state before to the state after, under the method's name in lower case
-- (`readFromIO` is `read_from_io`). What is stored in `std::map` or `std::unordered_map` is an
-- association list, a multimap a list in the order of iteration. `uint16_t`, `uint32_t` and
-- `uint64_t` wrap where the code's own arithmetic can reach their limits; `errno` is part of what a
-- failing system call returns. The events that the code shares by pointers stand in a store by
-- number, so that the mask that `enableReading` changes and the event that the loop finds for a
-- descriptor can be two different things, as they are in `modifyFd`. The memory that the handles for C
-- stand in is a function from addresses; what `delete` leaves at an address is a parameter of the
-- call, and what stands where no live handle is, is left open. A callback of the loop is a function on
-- its whole state (Events, and Engine.OnFirstUse.Posting, where it may post other callbacks), or an
-- entry in a list of the calls made: in Net.TcpConnect it is the last thing that its caller does; in
-- Timers it is taken not to change the queue. The functions of a class derived from TcpServer, and those that libraries export,
-- are functions on the whole state.
--
-- The kernel is a parameter throughout: `readv`, `write`, `accept`, `epoll_ctl`, `dlopen` and `dlsym`,
-- the listing of a directory, the readings of the clock, the descriptors that the kernel gives, the
-- signals that it lets a thread block, whether asio takes a descriptor and the addresses that `new`
-- gives are arguments of the functions that use them, and a theorem that relies
-- on what they document names it as a hypothesis (`Fits`, `IsReliable`, `Within`, `IsMonotonic`,
-- `AllDefined`).
--
-- Fuel. Only the second loop of `timerHandle` can run without end; its fuel counts its turns, and one
-- more than there are recurring timers is enough where no timer can expire twice while it runs.
-- Every other loop is a recursion on the list or the text that it goes through, but for the loop
-- over the dots of an address, whose fuel is the length of the text and is enough for every text, and
-- the digits of a printed number, at most as many as the number.
--
-- Not modelled: the system calls on sockets and descriptors that the program only passes arguments
-- to, and the closing of a descriptor; when the lifetime of a connection ends, which is with the last
-- `shared_ptr` to it, and that of the data that `writeInLoop` takes a pointer to; mutexes, since what
-- is done under one is modelled as one step, and the races of what is done under none; output to the
-- console.
pub mod Prelude
pub mod Net
pub mod Events
pub mod Engine
pub mod CommonApi
pub mod Timers
pub mod Threads
pub mod Plugins
pub mod IoContextAdapter
pub mod SignalMonitor
