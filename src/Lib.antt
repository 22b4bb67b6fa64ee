-- ===== src/Lib.antt =====
-- ChronosDB (FrancoDB): a model of the storage core, the write-ahead log with the undo of its records,
-- the lexer, the WHERE clause, the lock manager and the pages of the index.
--
-- The program. A page of 4096 bytes lives on disk (src/storage) and, while it is used, in a frame of
-- the buffer pool (src/buffer). The pool finds a frame on its free list or takes one from a
-- replacer, which lists the frames that nobody has pinned. Page 2 of the file is a bitmap of the
-- used pages, which the pool asks for a new page. The rows of a table stand on slotted pages. An
-- executor reads rows and keeps those that match the conditions of a WHERE clause
-- (src/include/execution). A transaction locks tables and rows before (src/include/concurrency). Each
-- change is a record in the log (src/recovery), which is written before the page; recovery reads the
-- records back and redoes or undoes them on the tables.
--
-- The files.
-- Buffer/Lru: src/buffer/lru_replacer.cpp, Victim, Pin, Unpin, Size as `victim`, `pin`, `unpin`,
--   `size` on the record `Lru`.
-- Buffer/Clock: src/buffer/clock_replacer.cpp in the same way. The endless loop of Victim is `spin`
--   on fuel, two turns of the hand and one step more; that is enough whenever a frame is held, since
--   the first turn clears every reference bit.
-- Buffer/PageTable, Buffer/Pool: src/buffer/buffer_pool_manager.cpp and
--   src/include/storage/page/page.h. The record `Pool` is the manager's state; FetchPage, NewPage,
--   UnpinPage, FlushPage, DeletePage, FlushAllPages and Clear are `fetch_page` and so on. The disk
--   manager, the log manager and the page allocator are the record `Io`, a parameter, of which the
--   theorems assume nothing; its type `World` holds the order of the writes. A WritePage may throw in
--   FetchPage and NewPage; FlushPage and FlushAllPages are the runs in which none does. Every method
--   holds the latch, so a method is one step.
-- Storage/Memory: the bytes of a page as a function, with the reads and writes of 32-bit words in
--   little-endian order.
-- Storage/TablePage: src/storage/table/table_page.cpp, the slotted page on its bytes.
-- Storage/TableHeap: src/storage/table/table_heap.cpp, a table as a linked list of such pages. A
--   PageGuard is the page that the buffer manager has under an id, or none; NewPage is the parameter
--   `Manager`, whose result also holds the pages as other threads may have left them. The loop of
--   InsertTuple has fuel, for which the number of the table's pages is enough.
-- Storage/Tuple: a row's bytes, src/storage/table/tuple.cpp, src/storage/table/schema.cpp and
--   SerializeTo and DeserializeFrom of src/common/value.cpp. The bytes of a double are the record
--   `DoubleBytes`.
-- Storage/FreePages: src/include/storage/page/free_page_manager.h, the bitmap on page 2.
-- Execution/Like: EvaluateLike of src/include/execution/predicate_evaluator.h, with an index as the
--   rest of the string. The loop has fuel (|text| + 1) * (|pattern| + 1) + |pattern| + 1; each round
--   either shortens the pattern or moves the last `%` on by one character of the text.
-- Execution/Predicate: the comparisons and both overloads of Evaluate, which differ only in the type
--   that carries the conditions. Doubles and their comparisons are a parameter.
-- Concurrency/Locks: LockManager of src/include/concurrency/lock_manager.h. A call that waits on a
--   condition variable is one operation before the wait and one for the thread that wakes, so that
--   any order of wake-ups is a sequence of operations. Locks/Order has, as a step relation on one
--   queue, the sequences that grant every lock to the request that waits first; Locks/Manager has the maps of tables and rows.
--   Locks/Deadlock is HasCycle and DetectDeadlock, with the orders in which the unordered map and
--   sets are walked as lists; the fuel is the number of transactions, which is enough, since each
--   call of HasCycle visits a new one.
-- Index/Node: src/storage/page/b_plus_tree_page.cpp, b_plus_tree_internal_page.cpp and
--   b_plus_tree_leaf_page.cpp, with the comparator as a parameter. Index/Key: GenericKey and
--   GenericComparator of src/include/storage/index/index_key.h for integers, on a machine that keeps
--   the lowest byte first.
-- Parser/Token, Parser/Keywords, Parser/Names, Parser/Lexer: src/include/parser/token.h and
--   src/parser/lexer.cpp. The lexer's input and cursor are the rest of the input. Tokenize has fuel
--   for one token more than there are characters, which is enough. The characters are those of the
--   C locale.
-- Common/Crc32: CRC32 of src/include/common/crc32.h with its table; Crc32/Polynomial has the division
--   bit by bit that it stands for.
-- Recovery/Codec, Recovery/Value, Recovery/LogRecord: LogRecord of src/include/recovery/log_record.h,
--   the bytes that AppendLogRecord of src/recovery/log_manager.cpp writes for it and the readers of
--   src/recovery/recovery_manager.cpp. A stream is the list of the bytes that are left; a read past
--   its end leaves the variable's old bytes, as in the source. The standard library's conversions of
--   numbers to texts and back are the record `Runtime`, with what an unassigned number holds.
-- Recovery/LogManager: LogManager of src/recovery/log_manager.cpp. A flush is two operations, `extract`
--   and `write_piece`, since the source releases the latch between them; Order has the interleavings
--   of these with appends as a step relation. `next_lsn` wraps at 2^32; the theorems on the order ask
--   for LSNs below 2^31, where lsn_t is not negative.
-- Recovery/Tuples: the texts of rows, SerializeTupleBinary, DeserializeTupleBinary and
--   ParseTupleStringSafe of src/recovery/recovery_manager.cpp.
-- Recovery/Replay: RedoLogRecord, UndoLogRecord, RunRecoveryLoop (Replay/Loop) and RollbackToTime of
--   the same file. The table heap with its tuples and page LSNs is the record `HeapApi`, of which the
--   theorems assume nothing; its operations are modelled in Storage/TableHeap, on bytes. The records that RunRecoveryLoop and RollbackToTime read from the file are a list.
--
-- What is well formed. `Pool.Invariant.IsValid`: the page table, the free list and the replacer
-- agree on which frame holds which page and which may be evicted. `TablePage.Insert.IsValid`: the
-- header's count and free-space pointer fit the page and each other. `LogManager.Order.InOrder`: the
-- log file, the buffers that were taken and the current buffer follow each other by their LSNs.
-- `TableHeap.Inserts.IsTable`: the links lead from the first page through distinct well-formed pages
-- to the end, and the hint is one of them or none.
--
-- What is not modelled: the threads inside one method that keeps its latch, the thread that would
-- call DetectDeadlock and that nothing starts, the B+ tree above its pages, the analysis pass and the
-- streaming undo of recovery, checkpoints and time travel queries, the disk manager, the catalog, the
-- parser behind its lexer, the executors, the network, and the AI layer.
pub mod Prelude
pub mod Common
pub mod Recovery
pub mod Buffer
pub mod Storage
pub mod Execution
pub mod Concurrency
pub mod Index
pub mod Parser
