-- ===== src/Lib.antt =====
-- A model of the core logic of the dvida_oxide kernel, with the theorems that make it correct.
--
-- The kernel is one Rust crate, kernel/, whose paths below start at the root of the repository. At
-- boot it takes the memory map of the boot loader, fills the page bitmap from it and hands out
-- physical pages; it starts an executor of asynchronous tasks, which talk over channels; tasks drive
-- the disks, and the file system ext2 reads and allocates blocks on them and finds files by absolute
-- paths; the real-time clock gives the times that the file system stores.
--
-- Which file models which part:
--   Memory/Bitmap   kernel/src/arch/x86_64/memory/bitmap.rs and memmap.rs: the page bitmap and the
--                   sums over the memory map. A bitmap is the list of its bytes.
--   Memory/Frames   kernel/src/arch/x86_64/memory/frame_allocator.rs: BitmapAllocator. A state is
--                   passed in and out of every call; a frame is its address.
--   Time            kernel/src/time/mod.rs and formats.rs: dates and timestamps. Time/Rtc has the
--                   decoding of the clock's registers and the retries.
--   FilePath        kernel/src/hal/path.rs: Path and its iterator Components. A string is the list of
--                   its bytes. FilePath/Words says what a path means, by its words, and
--                   FilePath/Resolve what `.` and `..` do to them.
--   Sync/Bounded    kernel/src/ejcineque/sync/mpsc/bounded.rs: Channel, its sender and receiver.
--                   Sync/Bounded/Queue has the queue of messages and of waiting receivers that the
--                   channel is held against; Slots, Wakers and Polling the refinement.
--   Sync/Unbounded  kernel/src/ejcineque/sync/mpsc/unbounded.rs: each call is one step under the lock.
--   Sync/Cell       kernel/src/ejcineque/sync/spsc/cell.rs: SpscCell, set once and waited for.
--   Sync/Mutex      kernel/src/ejcineque/sync/mutex.rs: the asynchronous mutex, with the nodes of its
--                   list in a memory by addresses. Sync/Mutex/Ring has the list, Run its calls in
--                   order, and Tasks the interleaved steps of the tasks that share a mutex.
--   Executor        kernel/src/ejcineque/executor.rs: the tasks of a processor, the rounds of run and
--                   the spawner. Executor/Fairness has the rounds with what comes between them, and
--                   between the two locks of a spawn. Executor/Futures has the wait for ticks of time/mod.rs.
--   Pool            kernel/src/ejcineque/pools/mod.rs: the pool of buffers for the disks, each take and drop
--                   one step; the attempts of a take that fail are a list.
--   Crypto/Crc32    kernel/src/crypto/crc32.rs: the checksum by a table. Reference has it bit by bit.
--   Serialize       dvida_serialize/src/lib.rs and numbers.rs: numbers and arrays of them as bytes.
--   Gpt             kernel/src/hal/gpt.rs: the reader of the partition table, on a drive by sectors.
--   Ext2/Blocks     kernel/src/drivers/fs/ext2/block_iterator.rs, the side that reads, with the
--                   limits of read.rs. Ext2/Blocks/Tree and Levels walk the tree of blocks.
--   Ext2/Setting    kernel/src/drivers/fs/ext2/block_iterator.rs, the side that writes: set. Tree has the
--                   levels of the blocks, Settled the states between calls, and Single, Double and Triple
--                   the blocks below the indirect ones.
--   Ext2/Files      kernel/src/drivers/fs/ext2/read.rs and write.rs: read, and in Ext2/Files/Writing write,
--                   over the block iterator. Copying and Patching have the bytes of one block, Whole the
--                   calls, Outcome what a write leaves.
--   Ext2/Entries    kernel/src/drivers/fs/ext2/mod.rs, dirs.rs and open.rs: the entries of a directory as
--                   bytes, a new entry in a block and the search in a block. Tiles has the list that a
--                   block stands for; Adding and Search hold the code against it.
--   Ext2/Directory  kernel/src/drivers/fs/ext2/open.rs and dirs.rs: the search by name and the adding of an
--                   entry over the blocks of a directory.
--   Ext2/Inodes     kernel/src/drivers/fs/ext2/inode.rs: the numbers of inodes, and their reading and
--                   writing in the tables of the groups. Stored has what a write leaves.
--   Ext2/Bits       kernel/src/crypto/iterators.rs: BitIterator, for bytes.
--   Ext2/Allocator  kernel/src/drivers/fs/ext2/allocator.rs: the allocation of blocks, with get_group_lba
--                   of structs.rs. Scan and Outcome have what an allocation takes.
--   Ext2/Managers   kernel/src/drivers/fs/ext2/managers.rs: from blocks to sectors, groups and the
--                   places of descriptors.
-- Functions keep the names of the source; a loop of a function is a helper named for it.
--
-- Numbers are natural; an unsigned word keeps its wrap-around where the source can reach it, and
-- Prelude/Int has signed integers. A call that can fail returns an Option or a result of its own with
-- the state it leaves, on an error too. A loop has fuel where it is not over a list: the number of
-- pages for the frame allocator, the number of bytes for the path iterator, the distance of the two
-- positions and one more round for a ring of slots, the length of the buffer for the entries of the
-- partition table, the bits of a word, the blocks of a file and one more for a read, the bytes of the
-- input and one more for a write, the bytes of a block for its entries. That is enough since each round
-- takes at least one of them away; an entry of length 0 in a damaged block does not, and ends the fuel.
-- The pool of buffers is filled in as many rounds as the source has.
--
-- The drive is a parameter: a function from block numbers to bytes, or an error. Theorems on reads take
-- a drive that answers with whole blocks, those on writes one that takes each block. What set relies on
-- in the allocator is stated as Allocates; the heap of the pool is a parameter too, and so are the bytes of
-- an inode, which the code of a macro reads and writes. The descriptor of a block group and its bitmap
-- come to the allocator in the same way.
--
-- What is not modelled: calls of a channel that run inside one another, between the atomic steps; the
-- address of a buffer, which is taken as a multiple of four, so that bytemuck panics on the offsets that
-- are not; the panics of a debug build on overflow; what writes to ports, tables of the processor and devices; the file system's creation and deletion of files, its paths and the listing
-- of its directories, with what a write does behind its loop: the time stamp and the writing of the inode
-- and of the bitmaps;
-- the loader of programs; the end of the 64 bits for the addresses of the pool's buffers; the memory
-- order of the atomic operations, which are taken to happen one after the other.
pub mod Prelude
pub mod Memory
pub mod Pool
pub mod Time
pub mod Ext2
pub mod FilePath
pub mod Sync
pub mod Executor
pub mod Crypto
pub mod Gpt
pub mod Serialize
