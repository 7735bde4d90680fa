-- ===== src/Lib.antt =====
-- Verification of tstorage, an embedded time-series storage engine. Rows of points come in at
-- Storage.InsertRows, which hands them to the partitions in memory; a full partition is encoded
-- metric by metric with the Gorilla compression and flushed to a file, from which a disk
-- partition decodes the points that a selection asks for. A linked list holds the partitions,
-- newest first; the storage flushes all but the first two, and takes out those that expire. This
-- development models the path of a point: the storage and its list, a partition in memory and its
-- metrics, the encoder, the stream of bits, the files of a flush, the decoder, and the disk
-- partition that reads them.
--
-- The files and the code they model:
-- - Base: names and lemmas that all modules share (native numbers, tests, lists, digits of
--   numbers); Base/Members is about members of permuted lists.
-- - Words: Go's fixed-width integers as bit patterns; the order of int64 is the order of the
--   patterns moved by 2 ^ 63. float64 values are their bits, since the code only copies and
--   compares bits.
-- - Rows: DataPoint and Row of storage.go, Label of label.go.
-- - BStream: bstream.go. BStream is bstream with writeBit, writeByte and writeBits; BReader is
--   bstreamReader with readBit, readBits, their quick forms, ReadByte and loadNextBuffer. io.EOF
--   is none. A byte slice is a list of numbers. BStream/Writes, WriteBits and WriteWords are
--   about the writer, Loads, Reads and ReadBits about the reader.
-- - Varint: PutUvarint, PutVarint, ReadUvarint and ReadVarint of encoding/binary, which
--   encoding.go and disk_wal.go call; Varint/RoundTrip is about the two together,
--   Varint/Truncated about numbers that are cut off; Varint/Sizes counts the bytes of a number,
--   Varint/Consumes those that a read takes.
-- - Encoding: encoding.go, gorillaEncoder with encodePoint, writeVDelta and flush. Encoding/Codes
--   describes the bits of a point without the stream. Encoding/Decoder is gorillaDecoder with
--   decodePoint and readValue, in a monad that keeps what was read before an error; Reads,
--   Values, Steps, Later and RoundTrip below it lead to the round trip. Encoding/Bounds is about
--   the length of the encoded stream.
-- - Search: sort.Search of the standard library, a binary search on fuel; the number of elements
--   is enough fuel.
-- - MemoryMetric: memoryMetric of memory_partition.go with insertPoint, selectPoints and
--   encodeAllPoints. An index or a slice out of range is none. Valid, Select and Encode below it
--   hold the proofs.
-- - MemoryPartition: memoryPartition of memory_partition.go with newMemoryPartition, insertRows,
--   getMetric, selectDataPoints and active. MemoryPartition/Valid, Count and Insert hold the
--   invariant and its proof, MemoryPartition/Query is about selections; Names is about the keys
--   of the map of metrics, Contents about what each name has before and after insertRows, First
--   about a partition that has been empty, Spelled about the names that a partition's metrics can
--   have.
-- - DiskPartition: diskPartition of disk_partition.go, selectDataPoints, expired and
--   openDiskPartition, with its selections in DiskPartition/Select.
-- - Flush: flush of storage.go, from the metrics of a partition in memory to the bytes of the
--   data file and the contents of the meta file. Flush/Placed shows where the metrics' points are
--   in the file, Flush/Select what the disk partition then selects; Flush/Stored starts from what
--   a partition has under a name, Texts is about the names in the meta file, and Flush/Ranges is
--   about a flushed partition whether or not it has the metric.
-- - Wal: the interface of wal.go as a record of operations, and nopWAL.
-- - DiskWal: disk_wal.go, diskWAL with append, flush, punctuate, removeOldest, removeAll and
--   refresh, and in DiskWal/Reader the reader of the segments, on fuel: a record takes a byte at
--   least, so that one round more than there are bytes is enough. DiskWal/RoundTrip is about a
--   record, Writes about what the operations leave in the segments, Recovery about the log as a
--   whole and Crash about a segment that is cut off; Reopen is about a log that is opened again,
--   and Ends about segments with any bytes. The order of the segments is the order of their
--   numbers, which is that of the file names for fewer than eleven segments.
-- - Partition: the interface of partition.go with samePartitions, each call sent to a partition
--   in memory or on disk.
-- - PartitionList: partition_list.go, a linked list in a heap of nodes. PartitionList/Chain,
--   Scan, Changes and Links relate the nodes to a list of cells, Refines gives each operation on
--   the plain list of partitions, and Each is the loop over the iterator of storage.go whose body
--   may change a partition.
-- - Storage: storage.go, with newPartition, ensureActiveHead, InsertRows and Select in Storage,
--   flush with the directory that it makes, flushPartitions, removeExpiredPartitions and Close in
--   Storage/Upkeep, and the options, NewStorage and recoverWAL in Storage/Opening. Storage/Query,
--   Windows and Ordered are about what selections give and Unwritten about what they leave,
--   Fresh, Insert and Heads about insertions and the head of the list, Retire and Persist about
--   partitions that are taken out or go to disk. Storage/Events runs calls and background work in
--   any order, and Sound and Kept are about an invariant of such runs; Closed is about Close.
--   Recover and Restart are about NewStorage on the log of a run that has ended; Mixed, Told and
--   Durable about selections over partitions in memory and on disk, and about what Close leaves;
--   Lifetime goes from InsertRows on a new storage to a selection behind Close, Reopened from
--   Close to NewStorage on its directory, and Filed from insertRows of a partition to its
--   directory.
-- - Label: marshalMetricName of label.go with internal/encoding/int.go, and in Label/Unique which
--   metrics share a name.
-- - Examples: tests, and each property at a concrete input, by component.
--
-- Bounds. Loops are recursions on the rounds that are left or on the lists that they walk. A loop
-- over the linked list has one round more than the list counts partitions, which is enough when
-- the list is one. The numbers of bytes and of points are plain numbers, since slices fit in
-- memory; timestamps, values, deltas and buffers wrap around at 64 bits, counts of bits at 8.
--
-- Parameters. sort.Slice is a function that returns a permutation in order, and the encoder of
-- encodeAllPoints any function that may fail. The WAL's append is a function that says whether it
-- took the rows, the clock a number for each row, and marshalMetricName a function, where a
-- partition uses them. The io.Writer of flush is a function that says whether it took the bytes.
-- The operating system and the libraries, where the storage calls them, are the record System of
-- Storage/Upkeep and the record Surroundings of Storage/Opening; for the WAL they are the record
-- WalFiles of DiskWal.
--
-- Bytes and arrays. encoding/json keeps strings that are valid UTF-8, and nothing is supposed of
-- others; whether a string is valid is a parameter. Select appends to a slice of the stored
-- points, which overwrites those that follow in the array when there is room: the lengths of the
-- arrays are a parameter that says them by a metric's contents. The slices that Select has
-- returned share these arrays with later insertions, which is not modelled. Storage/Events leaves
-- Select out for that reason. In the reader of the log, files can be opened, read and closed, and
-- memory is enough for a name of less than 2 ^ 63 bytes. What a buffered writer keeps depends
-- here on all bytes and not on how they were divided. The seconds of a partition's duration are
-- an exact division, where the code goes through a float64.
--
-- Not modelled: locks and atomics (each operation runs by itself), the channel that limits the
-- workers, the goroutines, which are steps that a caller runs, the memory that a buffered writer
-- has of an error, memory mapping, and internal/cgroup and internal/timerpool, which are copies
-- of packages of VictoriaMetrics.
pub mod Base
pub mod Words
pub mod BStream
pub mod Varint
pub mod Rows
pub mod Encoding
pub mod Search
pub mod MemoryMetric
pub mod MemoryPartition
pub mod DiskPartition
pub mod Flush
pub mod Label
pub mod PartitionList
pub mod Wal
pub mod DiskWal
pub mod Partition
pub mod Storage
pub mod Examples
