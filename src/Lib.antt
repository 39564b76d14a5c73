-- ===== src/Lib.antt =====
-- DBStream: a verification library for the core of the program.
--
-- DBStream copies the changes of a database to others. Its own core is a replicated log that the nodes
-- of a cluster keep (cluster/), stores for rows and their indexes (memKvDatabase/, database/), the
-- metadata of tables over time (meta/), and the queues, pools and locks that these share (util/,
-- memory/, thread/). This library models the parts listed here as functions, and states and proves what
-- makes them correct, and where they are not.
--
-- Cluster models the log of a cluster. LogIndex is the order of log positions (cluster/rpc.h,
-- logIndexInfo). Block is a buffer of entries (clusterLogFile::block: its constructor, find and append).
-- LogFile is one file of the log, cluster/clusterLogFile.cpp: create, append, _append, appendToNewBlock
-- and writeCurrentBlock. FindBlock is findBlock, Rollback is rollback, and Iterator is the file's
-- iterator with search and next. An append goes to the current block, or to a new block once that is
-- full; rollback and the iterator's search both find their place with findBlock, then with the block's
-- find.
-- The bytes of a block are the list of the entries in them, and an offset is a sum of sizes. Sizes and
-- offsets of 32 bits wrap around where the code adds, and m_offset is the word that its int32_t holds. The
-- array of blocks has room for as many as the configured sizes give, which can be none; a valid file has
-- room for one at least. The loop of findBlock runs on fuel of one more
-- round than there are blocks, which is proved enough. Not modelled: the reading of a file from disk
-- (loadBlock, loadIndex, recovery), the reference counts that keep a block loaded, the waiting of a
-- reader for a writer, finish and clear. Writes to the disk are outcomes that are passed in.
--
-- KvDb models memKvDatabase/. Version is the making of a row's columns (row.h, version::allocForInsert
-- and version::update), Row is the chain of a row's versions with its lock (row.h, row: lock, select,
-- insert, update, drop, commit, rollback), and Transaction is a client's transaction (transaction.cpp,
-- and startTrans of instance.cpp), which commits or rolls back the rows that it has changed. Memory is a
-- list of versions, freed ones included; rollback follows next pointers with fuel of the memory's
-- length, which is proved enough for a chain that leads forward, as every chain does that the
-- operations build. Operations run one at a time. Not modelled: tables and databases, which map keys to
-- rows, the redo list, the layout of a record in bytes, and the failure of an allocation.
--
-- Util models containers, numbers, JSON and configurations of util/. ArrayQueue (arrayQueue.h) and RingFixedQueue
-- (ringFixedQueue.h) are queues in an array that is used round and round; both rest on Ring, which says
-- what such an array holds. Heap is heap.h: insert, replaceAt and popAt with their loops. BitUtil is
-- bitUtil.h, and Timer the time stamps of timer.h. Numbers of 32 and 64 bits wrap around where the code
-- adds; the loop of calVolumn has fuel for the 32 rounds after which a doubled number is 2^31 or more,
-- and the loop of insert for as many rounds as its place has halves. Calls of the queues run one at a
-- time. Json is json.cpp: Parse with the parse functions of its classes, and their
-- toString. A text is a list of bytes, and a pointer into it what is left of the list; a read behind the
-- end is an outcome of its own. Parse takes fuel of twice the text's length and one, which is proved
-- enough. The 64 bits of a number wrap around where the code leaves an overflow undefined. Config is
-- config.h: the sections with get and set, trim, char2num, and getIntConf with getUint32 and getUint64 over
-- it; a hash table is a list of pairs. Config.File is load and save, with fuel of the file's length, which
-- is proved enough, and a number of rounds for the loop that looks for a comment, which may never end;
-- Config.Long is getLong and checkNumberString, with atol as a parameter.
-- PageTable is pageTable.h, a map from 32 bits to pointers in nodes of three levels (set, get, update,
-- erase, begin, end). Not modelled: its updateCas, purge and clear, failures of a configuration's file,
-- its numbers with a sign, waiting, locks and concurrent calls, the sorting of a heap, the timer's thread.
--
-- Meta models metaTimeline.h, the versions of a table's metadata by log position (put, get, purge), and
-- the identifiers of versions (metaData.h, tableID, tableVersion and genTableId). A chain that ends in a
-- pointer to a deleted version is kept apart from one that ends in null. TableIdTree is tableIdTree.h, the
-- tree from table numbers to the versions of their metadata (put, get, getPrevVersion): the root grows with
-- fuel for six levels above it, which is proved enough for table numbers of 31 bits. Not modelled: a get
-- while a put runs, and the freeing of the tree.
--
-- Database models the records of an index (database/). KeyChild is the growing array of the records of
-- one key (appendingIndex.h, appendIndex and find, which returns a number with a sign), and SolidIndex the index of a complete block:
-- createFixedSolidIndex of appendingIndex.h writes it, fixedSolidIndex of solidIndex.h reads it
-- (getRecordIdByIndex) and searches it (find), with fuel for as many rounds as there are keys, since each
-- round leaves fewer. The words of the index are two lists, one beside the keys and one behind them;
-- SolidIndex.Layout gives their places in bytes, behind the packed head. Not modelled: the skip list of
-- the keys, keys of variable size, iterators, blocks and pages.
--
-- Thread models mcsSpinlock.h, a lock whose waiting threads stand in a queue. Each access to shared memory
-- is a step of one thread (Move, and Step for the system), and the states that any interleaving leads to
-- are those of Reach. The queue is followed by tickets, which only the proofs have. Not modelled: an order
-- of accesses that threads see differently, and a thread that uses several locks, which share its node.
--
-- Common holds the names that the others share: Boolean tests on native numbers, and lists that are
-- measured and indexed by them.
pub mod Common
pub mod Cluster
pub mod KvDb
pub mod Util
pub mod Meta
pub mod Database
pub mod Thread
