-- ===== src/Lib.antt =====
-- A model of gobjfs, a library that reads, writes and deletes files of a directory on solid state
-- disks by asynchronous direct I/O, and of its parts:
--   Util/Align, Util/Stats    src/util/os_utils.h, src/util/Stats.h: sizes and statistics.
--   Util/Semaphore            src/util/SemaphoreWrapper.cpp: semaphores.
--   Job                       src/FilerJob.h, src/FilerJob.cpp, src/Queueable.h: one I/O as a job.
--   Executor                  src/IOExecutor.h, src/IOExecutor.cpp: the executor. Its children are
--     Executor/Submit         submitTask,
--     Executor/Requests       ProcessRequestQueue, which hands batches to io_submit,
--     Executor/FdQueue        ProcessFdQueue, the thread for deletes and unaligned writes,
--     Executor/Completions    ProcessCallbacks and ProcessCompletions, the completion thread,
--     Executor/Post           doPostProcessingOfJob and incrementOps,
--     Executor/Stop           stop, and the steps of callers, threads and stop on one executor, and
--     Executor/Submitter      execute, the thread that serves the queue if a configuration asks for it;
--     Executor/Invariant      holds the accounts that those keep.
--   File                      src/gIOExecFile.cpp, include/gIOExecFile.h: the interface to files, which
--     gives each fragment of a batch to submitTask of the file's executor. Its children are
--     File/Init               the service and its pipes,
--     File/Batch              the batches,
--     File/Operations         open, close, read, write and delete, and
--     File/StatsBuffer        IOExecGetStats.
--   Server                    src/networkxio: the server. Its children are
--     Server/Handler          NetworkXioIOHandler, which makes a reply of a message,
--     Server/Steps            the callbacks of NetworkXioServer and the workers of its work queue,
--     Server/Lifetime         the references to the data of a client,
--     Server/WorkQueue        NetworkXioWorkQueue: the pool of workers and how it grows and shrinks,
--     Server/Ending           the end of run against shutdown, and
--     Server/IoThread         the start and end of a handler with its completion thread.
--   Client                    src/networkxio: the client. Its children are
--     Client/Credits          NetworkXioClient: credits, queues and completions of a connection,
--     Client/Aio              gobjfs_client.cpp: contexts and asynchronous requests,
--     Client/Vectors          requests in vectors,
--     Client/Reading          read, for callers that wait,
--     Client/Completions      completion objects,
--     Client/Opening          ctx_init, and
--     Client/Session          the constructor of NetworkXioClient and the end of its session.
--   Protocol                  src/networkxio/NetworkXioProtocol.h: the messages and their packed form.
--   Exchange                  a request and its reply between NetworkXioClient and NetworkXioIOHandler.
--   Poller                    src/util/EPoller.h, src/util/EventFD.h: a loop of events. Its children are
--     Poller/Kernel           what it relies on of epoll and eventfd,
--     Poller/Events           the poller and its events,
--     Poller/Loop             run, and
--     Poller/Shutdown         shutdown against the threads in run.
--   Pool                      src/Mempool.cpp, src/gMempool.cpp: the pools of buffers.
-- Base has the shared types and lemmas, and Tests concrete executors.
--
-- A call is a function on the state that it changes, into `Outcome`: it returns, or ends in a
-- fault. A failed `assert` is a fault (an optimised build compiles the assertions out), and so are a
-- second use of a freed job, a read over the end of a buffer, a null dereference, and a wait that
-- only another thread can end. `LOG(FATAL)` only logs, as the library's logging makes it. A job's
-- `addr` is the identity of its allocation and is never given out again. The clock, io_submit,
-- unlink and pwrite are functions of `Env`, and open, pipe, ftruncate, the hash of a name and the
-- caller's translator of names are those of `Os`; the network library and the answers of the
-- file interface to the server are those of `Net`; msgpack is a `Msgpack` and epoll a `Kernel`, with
-- their laws in `IsMsgpack` and `IsKernel`; theorems say what they ask of them.
-- Counters of 32 and 64 bits wrap. The signed queue sizes are natural numbers whose decrement at 0
-- is a fault; queue depths are taken to be below 2^31, so that the casts to int32_t change nothing.
-- A thread's step between two points where it can be interleaved with others is one call: a caller
-- that goes on after it was woken makes a step of its own, and so do a caller that pushed its job and
-- then serves the queue, and each part of `stop`.
-- io_submit is tried five times, which is the source's own bound; the loops over queues end with the
-- queues, and a loop that waits for events takes the list of what it is delivered. A thread that waits
-- for a condition is woken only by a notification.
--
-- Not modelled: the start of the server and the loop of its thread; the creation of an executor's
-- threads and descriptors; timers; printing; and the configuration file.
-- What the network library answers and reports is an argument; its options are not modelled.
pub mod Base
pub mod Util
pub mod Job
pub mod Executor
pub mod File
pub mod Server
pub mod Client
pub mod Pool
pub mod Poller
pub mod Protocol
pub mod Exchange
pub mod Tests
