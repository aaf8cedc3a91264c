-- ===== src/Lib.antt =====
-- sdarc: sharded deferred atomic reference counting.
--
-- A `Sdarc` counts its references in one counter per shard. A background collector finds objects
-- whose counters add up to zero, and frees them when two of its iterations agree. Atomic pointers
-- and weak references are read either in a reader critical section or under a hazard pointer; the
-- collector looks at both before it reads counters. The counters live in the sharded allocator.
--
-- Which file models what (paths from the repository's root):
--   ShardIndex, ShardIndex/Words, ShardIndex/Arr   src/shard_index.rs: shard counts, indexes, arrays
--   EnvParams, EnvParams/Accepted                  src/env_params.rs: settings from the environment
--   TaggedCounter                                  src/tagged_counter.rs: the 64-bit word
--   Cell, TaggedCounter/Refine, TaggedCounter/Loop the same as a signed count with a tag
--   Object                                         src/sdarc.rs, src/weak_sdarc.rs and
--                                                  src/atomic_sdarc.rs: one `SdarcInner` and every
--                                                  atomic access to it, as an `Action`
--   Object/Accounts, Object/Quiet, Object/Totals   what the accesses keep
--   Collector                                      src/collector.rs, the part for one object, with
--                                                  `traverse_atomic_reader_signals`
--   Collector/Schedule, /Scan, /SecondScan, /Kept, /Settled, /Signals, /States, /Safety
--                                                 why a scan that sees zero can be trusted
--   Collector/Freed, /Quiet, /Progress, /CasRace   what follows for users
--   BTree, BTree/Order, BTree/Laws                 the ordered maps and sets that src/collector.rs uses
--   Tracker                                        src/collector.rs: the map of tracked counters, the
--                                                  inner iterations, freeing, the deep loop
--   Tracker/NotReady, /FreesReady, /Iteration, /Contract, /Scanning, /Freeing, /Specific, /Deep
--                                                  what the loops keep, given what the objects promise
--   Tracker/Heap                                   the objects behind the loops: one `Collector` run each
--   Tracker/Stands, /Whole, /Whole/Frees           why they keep the promise, and what follows
--   Tracker/Whole/New, /Taken                      the pending counters, and that they are taken
--   Tracker/Pending, /Whole/Pending                that they stay new while others are tracked
--   CollectorThread                                src/collector.rs: an outer iteration in parts, the loop of
--                                                  `collector_thread_main`, and those who wait for it
--   CollectorThread/Waiters, /Served               who is notified when
--   CollectorThread/Whole, /Sound                  what holds at every moment
--   CollectorThread/Allocated                      `Sdarc::new` while the collector runs
--   HazardPointers, HazardPointers/Slots           src/atomic_sdarc.rs: the slots of one thread
--   HazardPointers/Registry, /Entries, /Changes, /Exclusive
--                                                  src/atomic_sdarc.rs: who has which hazard data
--   AtomicSdarc, AtomicSdarc/NonNull, /Weak        src/sdarc.rs, src/weak_sdarc.rs and
--                                                  src/atomic_sdarc.rs: what each operation gives and
--                                                  counts, with pointers as values
--   AtomicSdarc/Counts, /Program, /Counted, /Borrow its theorems on counting and on borrowing
--   AtomicSdarc/Accesses, /Effects, /Loads, /Cells, /Operations, /Refine
--                                                  its operations as accesses to one `Object`
--   VTable                                         src/sdarc.rs: types erased and cast back
--   VTable/Typed, /Freed, /Created, /Sound         why no cast is to a wrong type
--   ShardedAlloc, ShardedAlloc/Maintenance         src/sharded_alloc.rs: units, groups, maintenance
--   ShardedAlloc/Address, /Usage, /Unwind, /Groups, /Allocate, /Maintained, /Report
--                                                  its theorems
--   ShardedAlloc/Concurrent, /Concurrent/Allocation the same code while other threads use the flags
--   ShardedAlloc/Concurrent/Agreed, /Scans, /Kept, /Maintained
--                                                  what stays true, and what maintenance drops
--   ShardedAlloc/Concurrent/Taken, /Attempts, /NewUnit, /Exclusive
--                                                  who has a slot that is allocated
--   ShardedRwLock                                  src/sharded_rwlock.rs: reads and writes step by step
--   ShardedRwLock/Laws, /Reads, /Writes, /Exclusion
--                                                  who can hold the lock at the same time
--   Outcome                                        results of code that may panic
--   Prelude                                        shared names and lemmas
--
-- How code becomes definitions. Every atomic access is one step, and the steps of all threads
-- interleave in one total order: the memory orderings and the asymmetric fences are taken to give
-- that order. The collector's run has a schedule, a list that says which actions the other threads
-- make before each of its accesses; any list is allowed, and after its end nobody else acts. The
-- collector's spinning ends with `none` when the schedule never lets it go on. Sums of counters are
-- integers, without the overflow of `i64`. In `Tracker/Heap` each object has a schedule of its own,
-- what the whole program does to that object; the collector's own drops of the `Sdarc`s in a freed
-- object are actions on the objects that they point to. `SHARED_HAZARD_DATA` has a fixed number of
-- entries there, `Config.readers`, with those that no thread has obtained yet outside and empty; that
-- it grows is in `HazardPointers/Registry`. An outer iteration is in parts, and a `Sdarc::new` comes
-- between two of them: within one inner iteration it touches nothing that the iteration reads, since
-- its counters are pending and not tracked. No address is used again. A shard index is an argument of each action, so threads
-- may change their shard at any time. A borrow guard may outlive the change of the pointer that it
-- was read from. In `AtomicSdarc` each operation runs by itself, but the loads of a borrow may give
-- different values. The exchange of `raw_compare_and_set` is an action of its own, which the theorems
-- on the collector's safety exclude.
--
-- Loops. The exchange loop of the decrement runs over a list of attempts; `inspect_times` runs a
-- given number of inner iterations; the loop of `AllocUnitGroup::allocate` has fuel, and one more
-- than the number of indexes to check is enough. The deep collection has the source's own limit of
-- 100000 turns. `CollectorThread` has no end: its theorems hold after any list of steps.
--
-- The allocator. `ShardedAlloc` lets the holder of a group's lock run alone, with the memory of the
-- slots. In `ShardedAlloc/Concurrent` the flags are in one memory, and before each access of the
-- holder others take slots (in groups of their own) and release slots, in any order; the memory of a
-- unit that is dropped is not given out again while the maintenance runs.
--
-- Parameters. The environment's variables once parsed, the number of CPUs, the current CPU, the
-- answer of the global allocator and the caller's `init_func` are arguments. `Tracker` takes
-- `update_state`, the reader signals and the freeing of an object as an interface, `Objects`, with
-- what the loops rely on as `Promises`; `Tracker/Heap` and `Tracker/Whole` fill both.
-- `ShardedRwLock` takes the locks of the shards as one, `RawRwLock`. `VTable` takes the compiler's
-- offsets, and whether the users' `Drop` of a value panics; what such a `Drop` creates or downgrades
-- is operations between the two parts of a free. In `Tracker/Heap` a freed object drops the `Sdarc`s
-- that `Layout` lists, and a panic of its `Drop` makes no difference.
--
-- Not modelled: formatting, hashing and comparison impls, logging, the names of types, and the float
-- of the status report.
pub mod Prelude
pub mod Outcome
pub mod ShardIndex
pub mod EnvParams
pub mod Cell
pub mod TaggedCounter
pub mod Object
pub mod Collector
pub mod BTree
pub mod Tracker
pub mod CollectorThread
pub mod HazardPointers
pub mod AtomicSdarc
pub mod ShardedAlloc
pub mod ShardedRwLock
pub mod VTable
