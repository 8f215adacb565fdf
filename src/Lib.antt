-- ===== src/Lib.antt =====
-- SoL, a server library on Linux: a model of its core and what is proved of it.
--
-- The program has a logging library (base/) and a reactor for TCP servers and clients (net/). A
-- thread of its own runs an event loop: it waits in epoll for the channels' events, calls their
-- handlers, and then runs the functors that other threads have queued. Handlers read and write
-- sockets by the loops of net/Util.cpp. Log lines are formatted into a fixed buffer, queued in large
-- buffers under a mutex, and written to a file by one consumer thread. Dates are Julian Day Numbers.
--
-- Which file models which part:
--   Common: names and lemmas that all parts share.
--   Calendar, Calendar/RoundTrip: base/date.h, base/date.cpp (`get_julian_day_number`
--     is `getJulianDayNumber`, `get_year_month_day` is `getYearMonthDay`, `of_ymd` the constructor), without
--     the comparisons. A step that does not fit an `int` of 32 bits gives no result (`are_ints`).
--   Calendar/Utc, Calendar/Utc/RoundTrip: `toUtcTime` and `fromUtcTime` of base/timezone.cpp, without
--     times before the epoch; days that the cast to `int` would cut give no result.
--   Logging/FixedBuffer: `FixedBuffer` of base/log_stream.h.
--   Logging/Stream and below: `LogStream` of base/log_stream.h and base/log_stream.cpp. The loops of
--     `convert` and `convertHex` have 32 rounds, as many as a number has room for; that 20 and 16
--     are enough for 64 bits is part of the theorems.
--   Logging/LogFile and below: `AppendFile` of base/file_util.cpp and `LogFile` of base/log_file.cpp.
--     The time, the free space, the answers of fwrite and whether a file can be opened are arguments; the
--     assertion on a file that cannot gives no result.
--   Logging/Async and below: `AsyncLogging` of base/async_logging.h and base/async_logging.cpp. The
--     two blocks under the mutex, `append` and the head of the consumer's loop (`collect`), are atomic;
--     the rest of the loop (`drain`) works on local variables. A run is a list of such steps.
--   Logging/Logger and below: `Logger` of base/Logging.h and base/Logging.cpp, from the macro of a statement to
--     the line that is given out, for one thread. Logging/Printf has the conversions of snprintf that it uses;
--     twenty digits are more than an int has. Times are from the epoch on.
--   Threads: the mutex of base/Mutex.h. Threads/Latch and below: base/countdown_latch.cpp, whose threads take
--     steps in any order, and may wake without a cause. Threads/TimedWait and below: `waitForSeconds` of
--     base/Condition.cpp where the consumer of `AsyncLogging` calls it; Logging/Async has the buffers, and lets
--     the consumer collect at any time.
--   ProcessInfo and below: `procname` of base/process_info.cpp, and `readToString` of base/file_util.cpp, by which
--     it reads its file. The answers of read(2) are an argument.
--   SocketIo, SocketIo/Reading, SocketIo/Writing: the loops round read(2) and write(2) of
--     net/Util.cpp. What the kernel answers is a list, one answer for each call.
--   Loop/Channel: `Channel` of net/Channel.h and net/Channel.cpp.
--   Loop/EventLoop and below: the functor queue of net/EventLoop.cpp, as a machine whose steps are
--     those of the looping thread and of the threads that queue, in any order.
--   Loop/Epoll and below: `Epoll` of net/Epoll.h and net/Epoll.cpp. Whether a call of epoll_ctl succeeds,
--     and what epoll_wait returns, are arguments; what the kernel then knows is read off the calls that
--     succeeded (Loop/Epoll/Interest).
--   LoopPool, LoopPool/RoundRobin: `EventLoopThreadPool` of net/EventLoopThreadPool.cpp.
--   LoopPool/Accepting, LoopPool/Accepting/Turns: `handNewConn` of net/Server.cpp, which gives new connections
--     to the loops; what it calls on them is its result.
--   TimeZone, TimeZone/Search, TimeZone/LocalTime: the offset in force and local times of base/timezone.cpp, with
--     signed times; `gmtime_r` and `timegm` are arguments. TimeZone/File and below: `readTimeZoneFile`, on the
--     bytes of the file; what a thrown read leaves is kept as the source keeps it.
--   Timer, Timer/Expiry: `TimerNode` and `TimerManager` of net/Timer.h and net/Timer.cpp.
--   TaskPool and below: the pool of Examples/Ver0.1/threadpool.h and threadpool.cpp; whether each call
--     of pthreads succeeds is an argument.
--   Http and below: `requestData` of Examples/Ver0.1/HttpData.h and HttpData.cpp. Http/Uri is `parse_URI`,
--     Http/Headers `parse_Headers`, Http/Analysis `analysisRequest`, `handleError` and `MimeType`, and
--     Http/Handler the loop of `handleRequest`; each has its theorems below it. What `readn` and
--     `writen` return, the files and whether they can be mapped, and what is read where the text of the
--     file's type was destroyed, are arguments. An iterator before a text is a fault.
--   Http/Server and below: Examples/Ver0.1/main.cpp, with `mytimer` and the destructors of HttpData.cpp: the
--     main thread's steps on the requests, their timers and the queue of the timers. Http/Server/Slots is
--     about one request and its timer, Http/Server/Events about the events of one epoll_wait. Time, the
--     events, and what accept and the pool answer are arguments; what the pool's threads do is left out.
--   Http/Retrying and below: `readn` of Examples/Ver0.1/utility.cpp, with the answers of read(2) as a list.
--   EpollServer and below: Examples/SimpleEpoll_1.cpp, from `run_epoll` down. EpollServer/Links is about the
--     kernel's table and the buffers that it points to; what epoll_wait, accept and read answer are
--     arguments, the calls of epoll_ctl succeed, and a write does not end the process.
--
-- Other numbers are natural and do not wrap, which holds for the sizes and counts of these parts. No other
-- loop takes fuel: the loops on system calls recur on the list of answers, and where the list ends first
-- the model says that the loop is still running.
--
-- Not modelled: sockets, the file system, time and threads themselves, which are the kernel's; other text
-- formatting by snprintf; of base/, string pieces, `Thread` and the other process information; of net/,
-- the rest of the servers, and the clients; most of the programs and copies under Examples/.
pub mod Common
pub mod Http
pub mod Calendar
pub mod Logging
pub mod SocketIo
pub mod TaskPool
pub mod TimeZone
pub mod Threads
pub mod EpollServer
pub mod ProcessInfo
pub mod Timer
pub mod LoopPool
pub mod Loop
