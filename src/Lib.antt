-- ===== src/Lib.antt =====
-- KDI is a distributed table store. A table is cut into tablets by ranges of rows; a tablet is a
-- chain of fragments, the older ones first, and a read merges the fragments of the chain. A
-- compactor replaces rows of adjacent fragments by new ones, a tracker deletes files that nobody
-- refers to, and caches keep open what is used again. Ranges of rows are kept as intervals and sets
-- of intervals, and names of tablets as encoded strings that sort.
--
-- The files and the code that each of them models:
--
-- Interval: cc/warp/interval.h. Interval/Point has PointType, BoundType, IntervalPoint and
--   IntervalPointOrder; Interval/Range has Interval and the make... functions; Interval/Set and
--   Interval/Set/Add have IntervalSet, a sorted vector of endpoints. The value type and its
--   less-than functor are parameters, and the proofs take a strict weak order. An iterator is an
--   index. The specification of a set of intervals is the set of values that it covers
--   (Interval/Set/Inv), and a valid set has endpoints in order that are lower and upper bounds in
--   turn. The other modules below Interval hold the proofs, one for each operation.
-- Encode: cc/warp/zero_escape.h, zero_escape.cc and tuple_encode.h, as functions on lists of bytes,
--   which are numbers below 256; a raised error is none. Encode/TabletName: cc/kdi/tablet/TabletName.cc, which uses the tuple
--   encoding and the endpoints of intervals.
-- Chain: the fragment chain of cc/kdi/tablet/Tablet.cc: getFragmentParent, getFragmentChild,
--   getMaxAdjacentChain, replaceFragmentsInternal and removeFragments. For a new fragment
--   and an empty sequence the source erases a reversed range, which has no meaning; the model then
--   erases nothing.
-- Tablet: scan and getMergedScan of cc/kdi/tablet/Tablet.cc. What the fragments hold is a record of
--   parameters. Tablet/Scanner: cc/kdi/tablet/Scanner.cc and clipRows of cc/kdi/scan_predicate.cc;
--   each call of get comes with the tablet as it is at that moment. Tablet/Logs: addFragment and
--   replaceFragments of Tablet.cc with clonedLogs and duplicatedLogs, on a store of tablets and the
--   fragment graph; World has what the fragments and the super tablet answer. Tablet/Split:
--   chooseSplitRow, splitTablet and the constructor that clones, on the same store.
-- FragDag: cc/kdi/tablet/FragDag.cc. The state is the two maps from fragments to tablets and back,
--   the cached statistics, and the chains of the tablets that are pointed to. FragDag/Replace takes
--   the rows of tablets and the sizes of fragments as a record of parameters; it adds up row sets
--   with IntervalSet::add and replaces in chains with replaceFragmentsInternal. FragDag/Compaction
--   has chooseCompactionSet; getMaxWeightFragment is a parameter there, and std::sort an insertion.
-- Merge: cc/flux/merge.h with the heap of cc/warp/heap.h, over streams that are lists of the values
--   they have still to give; Merge/Cells: cc/kdi/cell_merge.h.
-- Compactor: CompactionOutput of cc/kdi/tablet/SharedCompactor.cc, and the loop of compact over the
--   mapped ranges, in which the cells that each range's merge gives are a parameter and no compaction
--   is cancelled. The writer is the list of the cells that it has been given, with its size as a
--   parameter; the size from which a file is split is one too. A raised error is none.
-- CellFilter: cc/kdi/cell_filter.cc over lists of cells, the sets of a predicate being those of
--   Interval/Set. HistoryFilter::get is history_get, and drain calls it until the stream ends.
-- Cutoff: cc/flux/cutoff.h, with the type of the cutoff that of the values, as by default.
-- MemoryTable: cc/kdi/memory_table.cc, with the order of cells of cc/kdi/sdstore_cell.h. The set is
--   a sorted list, and the overhead of a cell is a parameter. A scan reads the cells of one moment.
-- FileTracker: cc/kdi/tablet/FileTracker.cc, with the calls of fs::remove as a list of names. A
--   removal that fails is not modelled.
-- Lru: cc/warp/lru_cache.h. The index and the usage list hold the same items, so both are one list,
--   and the address of a value is the key of its item.
-- SuperTablet: getTabletInternal and performSplit of cc/kdi/tablet/SuperTablet.cc, over the tablets
--   with their rows, and Tablet/Split for the rows of the two parts. A raised error is none.
--   SuperTablet/Interlock has MutationInterlock and MutationLull as a relation between states, whose
--   steps are those of SyncQueue. A thread that waits goes on when a notification has woken it, and
--   may be woken without one. There is one thread that splits, the server's work queue having one.
-- SyncQueue: cc/warp/syncqueue.h, as a relation between states. A step is a part of a call between
--   two points where the thread takes and gives back the lock. A thread that waits can go on at any
--   time, and one in a timed call can give up at any time, so that which thread a notification
--   reaches, and when a time-out passes, is left open.
-- Common: sets and maps over numbers as sorted lists, lists and tests on the native numbers.
--
-- Numbers and loops: size_t wraps at 2 ^ 64 where the code adds or subtracts counts. A pointer or a
-- name that only serves as a key is a number. The fuel of emit_loop is the run's length, of which
-- each round takes 255; that of decode_loop is the string's length, of which each round takes two
-- bytes; that of longest_from is the chain's length, of which each round takes one fragment;
-- that of drain is one more than the number of cells, of which each call takes one; that of
-- the loops of a merge is the number of values that its heap has still to give, of which each round
-- takes one; that of add_children and add_parents is the width, of which each round takes one; that
-- of replace is one more than the number of clones that are known, of which each forwarding takes
-- one. All other loops are recursions on the list that they walk over.
--
-- Not modelled: locks and threads other than those of SyncQueue and SuperTablet/Interlock, logging,
-- input and output, the network and the file systems, the weights of fragments, which are
-- floating-point numbers, and the parts that the modules above do not name.
pub mod CellFilter
pub mod Chain
pub mod Common
pub mod Compactor
pub mod Cutoff
pub mod Encode
pub mod FileTracker
pub mod FragDag
pub mod Interval
pub mod Lru
pub mod MemoryTable
pub mod Merge
pub mod SuperTablet
pub mod SyncQueue
pub mod Tablet
