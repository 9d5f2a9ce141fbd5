-- ===== src/Lib.antt =====
-- A storage manager for disk-resident tables: a disk manager, a buffer pool with an LRU replacer, slotted
-- table pages, an extendible hash index, a reader-writer latch, a lock manager for two-phase locking with
-- wound-wait, a transaction manager, SQL values, and executors of joins and aggregates. The modules follow
-- the program's parts; each starts with its definitions, and its child modules hold the proofs, named for
-- what they are about. A module's Tests has runs on concrete input.
--
-- LruReplacer (src/buffer/lru_replacer.cpp): the list of unpinned frames and the hash map into it. List
--   iterators are identities of nodes, so that the map and the list can disagree; the proofs show that
--   they do not, and that the whole is a list of distinct frames (Refines), whatever the representation.
-- DiskManager (src/storage/disk/disk_manager.cpp): ReadPage and WritePage on a file of pages. A stream
--   that failed stays failed, which is how the program leaves it.
-- BufferPool (src/buffer/buffer_pool_manager_instance.cpp): frames, page table, free list, and the calls
--   on the replacer and the disk in the program's order. Each method holds the latch from its start to
--   its end, so a call is one step and an interleaving of threads is a sequence of calls: Run has it.
-- ParallelBufferPool (src/buffer/parallel_buffer_pool_manager.cpp): instances over one shared disk, with
--   routing by page id and round-robin allocation.
-- Transaction (src/include/concurrency/transaction.h, src/include/common/rid.h): the part of a
--   transaction that locking reads and writes.
-- LockManager (src/concurrency/lock_manager.cpp): the request queues and the wound-wait policy. A call is
--   cut where another thread can run, before the latch and at each wait, so its parts can be interleaved:
--   enter_shared and request_shared are the halves of LockShared, wake_lock what follows a wait.
--   Wounds has what a scan of the queue does, Grants what a granted lock means, Upgrades has LockUpgrade
--   and Unlock, and Hazards has the runs that break the locking discipline.
-- TransactionManager (src/concurrency/transaction_manager.cpp): Begin, Commit and Abort over the lock manager's
--   state, with the pages of the table heaps and the indexes as interfaces: of TableHeap::ApplyDelete
--   (src/storage/table/table_heap.cpp) the Unlock is modelled. Locks has what ReleaseLocks lets go, Ends the two
--   ends of a transaction. The set of locks is iterated in an order that is a parameter.
-- TablePage (src/storage/page/table_page.cpp): the slotted page. Layout has the bounds that keep slots and
--   tuples apart, Bytes the copies in memory, and the other modules one operation each.
-- HashBucket (src/storage/page/hash_table_bucket_page.cpp): the bucket page over its bitmaps, with Bits
--   and Bitmap on the bytes and Entries and Changes on the slots.
-- HashDirectory (src/storage/page/hash_table_directory_page.cpp): the directory page.
-- HashPlaces (src/container/hash/extendible_hash_table.cpp): the parts of SplitInsert and Merge that rewrite
--   the directory and move entries. Residues has the arithmetic of places that share their lowest bits,
--   Loops what the loops write, Leads how places lead hashes to buckets, and Split, Merge, Shrink and
--   Entries the operations. Loops take their bounds from the place and the size of the directory.
-- HashTable (src/container/hash/extendible_hash_table.cpp): GetValue, Insert, SplitInsert, Remove and Merge
--   as calls on the table's state, over PagePool, what the table uses of a buffer pool. A call returns, fails
--   an assertion, waits for the table latch, or has used up its rounds. Pool has what is relied on, a pool
--   whose fetches are answered while a frame holds no pinned page, Calls and Inserts one call each, Lookup both,
--   and Post and Rounds that ten rounds of Insert and SplitInsert are enough.
-- RwLatch (src/include/common/rwlatch.h): the reader-writer latch, whose functions are cut at their waits.
-- Execution (src/execution/nested_loop_join_executor.cpp, limit_executor.cpp): two executors over children
--   that are lists of tuples. A drain calls Next until it answers false, with a bound on the calls, and the
--   theorems ask only that the bound is above the number of tuples.
-- SqlType (src/type, src/include/type): SQL values and their types. A type's module has the functions of its
--   class, the four integer types from Integers by their width; Calls is the dispatch that Value does. A
--   width is half the number of a type's patterns, `undefined` is a result (a sum out of the range of the C++
--   type it is computed in), and a double is a parameter with the operations that are used of it, as is
--   `stod`. Bounds, Exact and Quotients have arithmetic, Comparisons and Order the order, Casts, Texts and
--   Printing conversions, Storage the stored bytes, Selection the least and the greatest value.
-- HashJoin (src/execution/hash_join_executor.cpp): the hash join, and Agrees with its results against those of the
--   nested-loop join.
-- Aggregation (src/execution/aggregation_executor.cpp): the aggregation hash table over SqlType's values, and
--   Groups with what it holds for each key.
-- Base: lists, options, maps and tests on numbers that the modules share.
--
-- Numbers are natural numbers, and machine words keep their wrap-around: page ids are the patterns of
-- page_id_t, with 2^32 - 1 for INVALID_PAGE_ID. A page's pin count is not cut at the range of an int. Memory areas, frames and pages are functions from their
-- index. Loops run over a list or over a count that the source bounds, so none needs fuel beyond that:
-- NewPgImp of the parallel manager takes one round for each instance, and a page's loops one for each
-- slot or byte. A failed assertion is a result of its own.
--
-- Not modelled: files and streams below a page, the log manager and recovery, which are empty in the
-- program, and memory management. Condition variables are wake-ups at any time. The calls of the hash table
-- run one after the other, and only its table latch is part of its state. The table heap, but for the
-- Unlock of its ApplyDelete, and the other executors stand on these modules and are not part of them. A tuple's layout by its schema is not modelled,
-- and no function of a TIMESTAMP value is, since the table of types has no entry for it.
pub mod Base
pub mod LruReplacer
pub mod DiskManager
pub mod BufferPool
pub mod ParallelBufferPool
pub mod Transaction
pub mod LockManager
pub mod TransactionManager
pub mod TablePage
pub mod HashBucket
pub mod HashDirectory
pub mod RwLatch
pub mod HashPlaces
pub mod HashTable
pub mod SqlType
pub mod Execution
pub mod HashJoin
pub mod Aggregation
