-- ===== src/Lib.antt =====
-- BlueThread: locks that check their order, condition variables and threads, modelled from the C++
-- code. A program holds BlueMutex objects; with the lockdep flag each of them is registered under its
-- name in tables that all threads share. Before a thread takes a lock, an edge is recorded from every
-- lock that it holds to the new one; an edge that would close a cycle ends the process. Condition
-- variables release and take back a BlueMutex, and ThreadBase makes the threads. A ThreadPool runs
-- worker threads that take items from its queues and report to a HeartbeatMap; a ShardedThreadPool runs
-- workers that each serve a shard of one queue.
--
-- Parts, and where they are:
-- - Lockdep: synchronization/utils.cc. The globals are the record Lockdep.State.Lockdep; bitmaps are
--   byte arrays as functions, with the bit operations of the source (Lockdep.Bits). Ids: _lockdep_register,
--   lockdep_get_free_id, lockdep_register. Follow: does_follow. Calls: lockdep_will_lock,
--   lockdep_locked, lockdep_will_unlock, lockdep_unregister. Invariant and its children state what the
--   tables mean and what each call does to them. Threads: threads that go through the calls, as steps.
-- - Mutex: synchronization/mutex.h and mutex.cc, mutex_debug_base and mutex_debug_impl. The state World
--   is one mutex with the tables. Holder, Plain, Checked and Lifetime prove the operations.
-- - MutexRecursive: synchronization/mutex_recursive.h.
-- - SharedMutex: synchronization/shared_mutex.h and shared_mutex.cc, on the base class in Mutex.
-- - ConditionVariable: synchronization/condition_variable.h and condition_variable.cc, with to_timespec of
--   synchronization/utils.h.
-- - Thread: thread/thread.h, thread/thread.cc and thread/utils.cc.
-- - BackTrace: synchronization/backtrace.h and backtrace.cc, the captured stack as data, and demangle.
-- - Pthread, RwLock: the pthread functions that the code calls, as records of parameters with their
--   documented behaviour as hypotheses (ErrorCheck, ReadersWriter). Recursive, Reacquires and SignalMask
--   are such hypotheses too, beside the parts that use them.
-- - Heartbeat: thread/heartbeat.h and heartbeat.cc, on the SharedMutex. Time is the 64-bit arithmetic of
--   std::chrono; Deadlines, Workers and Counting prove the operations.
-- - ThreadPool: thread/threadpool.h and threadpool.cc. Queue is WorkQueueVal, Scan is worker(), Calls are
--   the functions that other threads call, and System composes them: a step is a part of a function
--   between two points at which the thread takes, gives or waits for the pool's lock, and steps of
--   threads come in any order. Effects says what the parts do, Invariant what holds between steps,
--   Guarantees what callers may rely on, Ledger where the items are, and Progress that calls can return.
-- - ShardedThreadPool: thread/shardedthreadpool.h and shardedthreadpool.cc, in the same style: Steps composes
--   the sections of the workers and of one thread that controls the pool, with each unlocked read of a
--   flag as a step; Invariant relates the 32-bit counts to where the workers stand, Guarantees is about
--   pause() and drain(), and Stopping about stop().
-- - Prelude: shared names, Boolean tests, lists, maps as functions, and Outcome, the result of a call:
--   it returns, throws an error number, ends the process, waits, or runs out of fuel.
--
-- Names: a leading underscore of the source is dropped (_post_lock is post_lock), and an overload with a
-- predicate has _pred in its name. A thread is a number; it is an argument where the source asks for the
-- current one.
--
-- Bounds and fuel: does_follow runs with current_max_id + 1 levels, which is enough on every graph without a
-- cycle. The waits with a predicate take fuel for the number of wakeups; nothing is
-- proved of these two loops, which end only if others wake the caller. The int counters of lockdep
-- are unbounded integers, and so is lock_count of mutex_recursive.
--
-- Names of locks hold no NUL: _lockdep_register looks up name.c_str() and enters name, which are the same
-- for such names. Lockdep.Ids.register_c_str has the lookup of the source. Time points of a condition
-- variable are natural numbers of nanoseconds, so there is none before the epoch and no sum overflows.
-- A lock() of a mutex that waits ends as Mutex.lock_rest, or MutexRecursive.lock_rest, run in the state in
-- which the wait ends. The list of a HeartbeatMap is kept as its nodes and what they hold, in two lists.
--
-- Not modelled: what is printed; how a back trace is captured (it is an argument); the memory order of
-- atomics, since the calls of lockdep hold one global mutex and the fields of a mutex are written by its
-- holder; the test programs. Of the pool: the lock itself (its sections are atomic), the
-- destruction of a queue while it has items in work, and a race of start() with stop() on _threads, which the code leaves without the lock. The list _old_threads is always empty, since no code
-- adds to it. A wait of the pool may end at any time, as the standard allows. What the overridden
-- functions of a queue do, _clear() included, is a parameter (Container), with what the
-- pool relies on as hypotheses (Fills, Stores). Of the sharded pool: more than one controlling thread, and the index of a worker, which only
-- reaches the functions of the queue. The int counters of the pool are unbounded integers.
pub mod Prelude
pub mod BackTrace
pub mod Lockdep
pub mod Pthread
pub mod Mutex
pub mod MutexRecursive
pub mod RwLock
pub mod SharedMutex
pub mod ConditionVariable
pub mod Thread
pub mod Heartbeat
pub mod ThreadPool
pub mod ShardedThreadPool
