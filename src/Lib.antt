-- ===== src/Lib.antt =====
-- libcuckoo: the concurrent cuckoo hash table of libcuckoo/cuckoohash_map.hh (C++03, header only).
--
-- The table keeps 2^hashpower buckets of slot_per_bucket slots. A key may stand in two buckets:
-- `index_hash` of its hash, and `alt_index` of that under the one-byte partial key. An insertion
-- that finds both buckets full searches breadth first for a path of displacements that ends in an
-- empty slot and moves the pairs along it, from the end on. The number of pairs is kept in
-- counters, one per lock.
--
-- Files:
-- - Base, Base/Tests, Base/Lists, Base/Bits: shared names, Boolean tests, lists with an index,
--   and words as numbers modulo 2^w.
-- - Config: libcuckoo/cuckoohash_config.hh and the constants of the map. Params: the template
--   parameters, which are not code of the repository: the types, the hash and equality functions,
--   the arithmetic of `double`, the number of slots. `Laws` is what the documentation of standard
--   containers asks of a hash and an equality.
-- - Hash: `partial_key`, `lock_ind`, `hashsize`, `hashmask`, `index_hash`, `alt_index`, with
--   Hash/Alternate on the two buckets of a key and Hash/Growth on one more bit of hashpower.
-- - Bucket: class `Bucket`. The three arrays of a bucket are a list of slots; the raw storage of
--   a slot is `some` while a pair lives in it. Bucket/Search: `try_read_from_bucket`,
--   `check_in_bucket`, `try_find_insert_bucket`, `try_del_from_bucket`, `try_update_bucket` and
--   `try_update_bucket_fn`; Bucket/Laws and Bucket/Free are their lemmas.
-- - Table: the member variables, `cuckoo_find`, `cuckoo_contains`, `cuckoo_delete`,
--   `cuckoo_update`, `cuckoo_update_fn`, `cuckoo_clear`, `cuckoo_size`, `cuckoo_loadfactor`, and
--   the public functions over them. Table/Valid holds the invariant of the buckets and the
--   abstract map, Table/Counts the one of the counters; Table/History is on sequences of calls,
--   and the other files have one operation each.
-- - Queue: `b_slot` and the circular `b_queue` of 512 entries; Queue/Fifo its abstract list.
-- - Cuckoo: `slot_search`, `cuckoopath_search`, `cuckoopath_move`, `run_cuckoo`, `cuckoo_insert`.
--   Cuckoo/Search, Cuckoo/Trail, Cuckoo/Inner and Cuckoo/Bfs are on the search, Cuckoo/Paths and
--   Cuckoo/Decode on the paths that come out of it, Cuckoo/Place, Cuckoo/Relocate and
--   Cuckoo/Success on the swaps, Cuckoo/Insertion and Cuckoo/Total on `cuckoo_insert`.
-- - Expand: `move_buckets` and `cuckoo_fast_double` from the resizing on. `parallel_for` of the
--   TBB library is a parameter: the ranges into which it splits the locks and their order.
--   Expand/Where is on one key, Expand/Slots on one bucket, Expand/Stride and Expand/Ranges on
--   the loops, Expand/Double on the whole.
-- - Insert: `cuckoo_fast_double`, `cuckoo_expand_simple`, `cuckoo_insert_loop`, `insert`,
--   `upsert`, `rehash` and `reserve`; Insert/Outcomes, Loop, Factor, Unlimited and Upsert are on
--   the loops, Insert/Copied, Copy, Refill, Resize and Rehash on the change of size,
--   Insert/History on sequences of all calls. Reference: the class `reference`.
-- - LockedTable: `locked_table` and its iterators, with LockedTable/Steps, LockedTable/Pairs and
--   LockedTable/Traversal on `operator++`, LockedTable/Back on `operator--`, and
--   LockedTable/Store on writes through an iterator.
-- - Construct: `reserve_calc`, the setters and the constructor.
-- - Locks: `BucketContainer`, `lock_one`, `lock_two`, `lock_three`, `snapshot_and_lock_two`,
--   `snapshot_and_lock_all` and `AllUnlocker` as sequences of lock events of one thread;
--   Locks/Threads, Locks/Progress and Locks/Calls are on any interleaving of such sequences.
--   Locks/Shared adds `lock_two_shared` and `snapshot_and_lock_two_shared`, with locks that are
--   held by one writer or by readers. When the TBB library lets a waiting writer go before a reader
--   is not code of the repository: the model has the two bounds, never and always.
-- - Concurrent: the sections of `insert`, `upsert`, `cuckoo_insert`, `run_cuckoo` and of the other
--   calls, and where a thread stands between two of them; Concurrent/System has the threads and
--   their schedules, Concurrent/Stand and Meaning say what a thread may rely on and what a section
--   may do, Concurrent/Locked, Sections and Sound go through the sections, Concurrent/Linear is on
--   whole schedules. Concurrent/Alone and the files under it compare a thread that runs alone,
--   section by section, with the sequential functions of Cuckoo and Insert. Concurrent/Disjoint and
--   the files under it are on sections that hold no lock in common.
-- - LazyArray: libcuckoo/lazy_array.hh, the container of the locks.
-- - Allocator: `libcuckoo_aligned_allocator` of libcuckoo/cuckoohash_util.hh over an address space;
--   Allocator/Room is on one call, Allocator/Steps, Blocks and Sound on programs of many. The two
--   exception classes of that file are constructors of `Exception` in Table.
-- - CityHasher: libcuckoo/city_hasher.hh, one choice of the hash parameter.
-- - Examples: concrete parameters and tables at which the theorems are used.
--
-- Numbers are natural numbers; `size_t` is taken modulo 2^64 where the code may wrap. A shift by
-- 64 or more, undefined in C++, is no result in the functions that change the hashpower and is
-- excluded elsewhere by the hashpower being below 64 in every valid table. Loops over a bucket,
-- the buckets and the locks recurse on the list. The loop of `slot_search` runs on fuel: each
-- bucket that it takes from the queue is a node of a search tree with at most five levels, so
-- twice the nodes of that tree are enough. The retries of `run_cuckoo` run on fuel too; a path
-- that is found on buckets that no one else changes can be moved, so one is enough.
-- `cuckoo_insert_loop` has fuel for its rounds: every round but the last doubles the table, so
-- with a largest hashpower one for each hashpower up to it is enough. Without one, a positive
-- minimum load factor ends the loop after a few doublings; with neither it need not end, since the
-- code doubles the table for ever where too many keys have the same hash. The loop over the
-- buckets of a lock has as much fuel as there are buckets. `reserve_calc` has 63 rounds, one for
-- each shift up to 63.
--
-- The table operations are modelled twice: as one thread runs them from the call to the return,
-- and, in Concurrent, as steps from one place where a thread gives its locks back to the next one,
-- for any number of threads and any order of the steps. What is done under locks is one step;
-- that no two threads hold a lock together is what Locks describes, on its own, for any
-- interleaving of single lock events. Atomic loads and stores are taken in one order for all
-- threads. The first model has the checks of the hashpower never fail; in the second one they do.
-- An expansion, which the code runs under `expansion_lock_` and all locks, is one step; its mutex is
-- not among the locks of Locks. Where `cuckoopath_move` hashes a key that is gone, the model says so
-- and goes no further. The insertions of `cuckoo_expand_simple` run one range after the other; the
-- code runs the ranges in parallel. That a locked table and its iterators share one boolean is not
-- modelled: it is an argument of each operation. Also not modelled are the unlocking of one lock after the other while a table doubles and iterators of different
-- tables. Exceptions thrown by the element types and the allocators, the macros for compilers and
-- debug output are left out, and so are the programs under examples and tests, which only call the
-- library.
pub mod Allocator
pub mod Base
pub mod Bucket
pub mod CityHasher
pub mod Concurrent
pub mod Config
pub mod Construct
pub mod Cuckoo
pub mod Examples
pub mod Expand
pub mod Hash
pub mod Insert
pub mod LazyArray
pub mod LockedTable
pub mod Locks
pub mod Params
pub mod Queue
pub mod Reference
pub mod Table
