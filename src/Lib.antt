-- ===== src/Lib.antt =====
-- Verification of the two parts of this repository: a1, a launcher of database requests in
-- processes and threads, and a2, a transaction processor with several concurrency control modes.
--
-- a1. A request adds numbers to the fields of some records of a shared database, under a lock
-- for each record. `Database` is a1/include/database.h and a1/src/database.cc: a record is a
-- function from a position to a byte, and `Words` is how a 64-bit number stands in eight of
-- them, lowest byte first. `Request` is a1/src/request.cc run by one thread: `Request/Fields` is
-- `DoWrite` on the bytes of one record, `Request/Sequential` is `Execute`, `Request/Order` is
-- about the order of requests, and `Request/Copy` is `CopyRequest`, a request with its arrays in
-- one buffer of bytes. `Workers` is the same code run by any number of workers at once: a step
-- takes or frees one mutex, or loads or stores one field, and any worker may take the next step.
-- `Workers/Invariant` is what holds in every interleaving; `Workers/Safety`, `Workers/Progress`
-- and `Workers/Results` are its consequences. `Generate` and `TestRun` are the request generator
-- and the self test of a1/src/start.cc, and `Experiment` is its `main` and `run_experiment`.
-- `Launcher` is a1/src/launcher.cc, process_launcher.cc and thread_launcher.cc, as counters that
-- the launcher and its children change in any order. `Monitor` is a1/src/perf_monitor.cc, and
-- `Config` a1/include/config.h.
--
-- a2. `Txn` and `Txn/Programs` are a2/txn/txn.cc and txn_types.h: a transaction with its read
-- and write sets and buffers, and the four programs; `Txn/Programs/Random` is the constructor
-- that draws its sets. `Storage` is the two storage classes, `LockManager` the interface and the
-- two classes of a2/txn/lock_manager.cc. `Processor` is a2/txn/txn_processor.cc: a transaction
-- is named by a pointer, a number, and the queues hold pointers. `Processor/Spec` is what the
-- processor promises, in terms of databases only; `Processor/Execution`, `Processor/Serial` and
-- `Processor/History` relate the serial scheduler to it. `Processor/Locking` is the locking
-- scheduler, as steps of the scheduler, of the thread pool and of clients that hand in
-- transactions, over any lock manager; `Processor/Locking/Contract` is what it relies on in one
-- to lose no transaction, `Processor/Locking/Exclusion` what it relies on to keep them apart, and
-- `Processor/Locking/Isolation` the two ways to be kept apart: such a lock manager, or keys. `Processor/Locking/Invariant` is what holds between two steps, the files beside it take
-- the steps one by one, `Processor/Locking/Known` puts them together for a run, and
-- `Processor/Locking/Serializable` relates a run to the specification. `Processor/Interleaved`
-- is the same scheduler with each read of `ExecuteTxn` and each write of `ApplyWrites` a step of
-- its own, where clients also take results; the files beside it keep it next to a run of
-- `Processor/Locking`. `Processor/Modes` is the constructor and the choice of the scheduler.
-- `Mutex`, `Atomic` and `ThreadPool` are a2/utils/mutex.h, atomic.h and static_thread_pool.h;
-- `ThreadPool/Pool` is a client of the pool and its threads, as steps in any order.
--
-- `Common` holds what the others share: Boolean tests, maps and sets as ascending lists,
-- sorting, sums, and generators that draw every number. `Tests` applies the theorems at concrete
-- inputs.
--
-- Conventions. A 64-bit sum is written with its remainder by 2^64. A run that may fail an
-- assertion or wait for a mutex is an `Attempt`, and one that may end the process by `DIE` or
-- `exit` an `Outcome` or a `Parsed`. The clock, `rand`, `atoi` and the option parser are
-- arguments of the definitions that use them. The loops of `gen_unique`, of the random
-- constructor, of `AddTask` and of the draining of a queue have a fuel; where a theorem is about
-- one, it shows how much is enough.
--
-- Not modelled: the process and thread pools of a1 past the first assertion of their
-- constructors, since their bodies are not written; memory mapping, signals and thread
-- attributes; floating-point quotients; the tests. One access to the map of the storage is one
-- step, so nothing is said there of accesses that overlap inside it. The two lock managers of
-- the repository, as they stand, grant every lock, so they keep the first contract and not the
-- second, and nothing is said of their runs with transactions that are after the same keys: there
-- the results need not be serial. Nothing is said of runs on the multi-version storage, whose
-- reads and writes are not written. Assertions that hold wherever the model calls the code (that
-- a key is in range, that the sorted keys differ) are left out of the steps of `Workers`.
pub mod Common
pub mod Txn
pub mod Storage
pub mod LockManager
pub mod Processor
pub mod Mutex
pub mod Words
pub mod Database
pub mod Request
pub mod Workers
pub mod Generate
pub mod TestRun
pub mod Atomic
pub mod ThreadPool
pub mod Launcher
pub mod Config
pub mod Monitor
pub mod Tests
pub mod Experiment
