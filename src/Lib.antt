-- ===== src/Lib.antt =====
-- Flatline: a coordinator that gives jobs to workers, keeps them in a bounded store and recovers them
-- when a worker is lost. The modules follow the C files; paths are from the repository's root.
--
--  * Prelude: shared names; native lists, int64_t values as integers (Prelude/Int), and results of
--    calls that return an error code (Prelude/Result).
--  * Bytes: the big-endian fields that the log and the protocol share.
--  * Job: include/job.h and src/coordinator/job.c. `job_init`, `job_assign`, `job_start`,
--    `job_complete` and `job_fail` are the functions with the prefix `faultline_`. A byte array with
--    its size field is one list.
--  * JobQueue: include/job_queue.h and src/coordinator/job_queue.c, the ring of pending job IDs.
--    JobQueue/Refine reads it as a list.
--  * WorkerRegistry: include/worker_registry.h and src/coordinator/worker_registry.c, the table of
--    workers with their heartbeats.
--  * Protocol: include/protocol.h and src/common/protocol.c. Protocol/Message has the messages in host
--    order, Protocol/Frame the bounds, Protocol/Validate the validation, Protocol/Fields the parts of
--    payloads, Protocol/Codec the codecs.
--  * Scheduler: include/scheduler.h and src/coordinator/scheduler.c, the store of jobs. It calls Job
--    for each record and JobQueue for the pending IDs, and makes messages of Protocol.
--    Scheduler/Invariant has the invariant, one module for each call, and sequences of calls in
--    Scheduler/Invariant/History.
--  * Wal: include/wal.h and src/coordinator/wal_format.c, the write-ahead log. Wal/Format has the
--    checksum and the validation of snapshots, Wal/Codec the encoders and decoders.
--  * Wal/Replay: include/wal_replay.h and src/coordinator/wal_replay.c. Wal/Replay has `apply_record`,
--    Wal/Replay/Index the ranges of worker IDs, Wal/Replay/History the loop `read_history`,
--    Wal/Replay/Log the replay of a list of records. What realloc answers for a capacity is a parameter,
--    and the loop takes the exact reads as one; Wal/Opening has `read_exact`, and
--    `faultline_wal_replay_open_with_io`, which gives them to the loop.
--  * Wal/Writer: include/wal_writer.h and src/coordinator/wal_writer.c, the handle that appends records.
--    The system calls are a parameter, `Io`, over any state of the system; Wal/Writer/State has the
--    handle, Wal/Writer the operations.
--  * Task: include/task.h and src/worker/task.c, the executor of tasks. Its parameters are what the
--    k-th load of the cancellation flag, the k-th reading of the clock and the k-th pause answer.
--  * CoordinatorStore: include/coordinator_store.h and src/coordinator/coordinator_store.c, which
--    prepares a change with Scheduler or WorkerRegistry, appends its record and publishes it. The
--    writer of the log is a parameter, which answers whether it took the record. Its calls yield their
--    answer with the state, since a failure is kept in the state. CoordinatorStore/State has the state,
--    CoordinatorStore/Open the opening and the closing, where creation, replay and closing of the log
--    are parameters; CoordinatorStore/Session joins the store with the replay of its log.
--    CoordinatorStore/LogWriter is the writer of Wal/Writer as the store takes it, with an account of
--    the bytes in its file; CoordinatorStore/Kept has what a session keeps of the log, and
--    CoordinatorStore/SessionFile joins the store with that writer and
--    with the creation of its log, of which Wal/Writer/Created has the file.
--  * CoordinatorStats: include/coordinator_stats.h and src/coordinator/coordinator_stats.c, the totals of
--    the jobs and of the session. CoordinatorStats/Totals has the exact mean latency.
--
-- Elsewhere a call that fails is an `err`, and leaves its outputs and the state as they were.
-- Unsigned integers are natural numbers, with `% 2 ^ w` where the source may wrap; int64_t values
-- are integers. Pointers to structs and buffers are never null here, and the tests for null have no
-- counterpart. A buffer to read from with the number of bytes available is one list; an encoder
-- yields the bytes that it writes, and takes the capacity as a number. Every loop runs over a list
-- or an index range, so that no fuel is needed, but for three loops in Task: a sleep has as many
-- rounds as its fuel, and Task/Sleep says how much is enough; the loops over candidates and
-- divisors get the number that bounds them. In Wal/Replay the binary search has one round more than
-- there are ranges, which halving needs, and the reading loop as many as its fuel; Wal/Replay/File says
-- that one more than there are records is enough. The loops of Wal/Writer that repeat an interrupted
-- call or continue a short write have a number of rounds; Wal/Writer/Written says that the size of the
-- largest record and the number of interruptions bound those of an append, and Wal/Opening/Exact that
-- the size and the interruptions bound those of an exact read.
--
-- Not modelled: sockets, the event loop, threads and printing (src/coordinator/main.c,
-- src/worker/main.c, src/cli/main.c, src/common/net.c, src/common/log.c), which call what is
-- modelled.
pub mod Prelude
pub mod Bytes
pub mod Wal
pub mod Job
pub mod JobQueue
pub mod WorkerRegistry
pub mod Protocol
pub mod Scheduler
pub mod Task
pub mod CoordinatorStore
pub mod CoordinatorStats
