-- ===== src/Lib.antt =====
-- Verification of the core of the Cavern microkernel, the crate kernel_core. The kernel crate links
-- its data structures, algorithms and policies to the hardware; that crate is not modelled.
--
-- Memory. kernel_core/src/memory/subtract_ranges.rs splits the memory of the machine into the gaps
-- between reserved ranges, and each gap is handed to `add_memory_region` of the buddy allocator of
-- kernel_core/src/memory/buddy.rs, which gives out and takes back pages.
-- kernel_core/src/memory/page_table.rs maps pages to addresses.
--   Memory/SubtractRanges: `SubtractRanges` is the iterator, `next` one call of it; its `while` loop
--   `next_loop` runs on fuel of two more than the number of ranges, since each round but the last
--   takes a range. Gaps is the loop as a function of the list of ranges, Refine relates the two,
--   and Cover is about the addresses that the items cover.
--   Memory/Buddy: `Allocator` is `BuddyPageAllocator`, with the heads of its free lists and the headers
--   that stand in memory. Pool reads these as lists of blocks, and counts for each address the free
--   blocks that it lies in. Links is about `push_free` and `pop_free`, Start about `new`, Region about
--   `add_memory_region` and Overrun about what it adds past the end, Split and Allocate about
--   `allocate`, Walks and Unlink about the searches along a list, Free and Returns about `free`, Reuse
--   about an allocation that is freed. The walks run on fuel above the length of the list,
--   `add_memory_region` on fuel of the pages of the region and the number of orders. Sizes are numbers
--   without overflow: the largest block of 16 orders of pages is far below the range of a `usize`.
--   The blocks lie in the kernel space; `allocate` gives a physical address and `free` takes one, by
--   the conversions of Memory/Addresses as they are outside of the tests.
--   Memory/Addresses: the pointers of kernel_core/src/memory/mod.rs, Physical and Virtual their methods,
--   and Translate the conversions between physical addresses and the kernel space. Overflow of a sum
--   or product is a panic, as in a build with overflow checks.
--   Memory/PageTable: the properties of a mapping, table entries, block sizes and the indices of an
--   address. Entries has the round trips of entries, Laws is about sizes and indices. The
--   method `bit_range` of the crate bitfield is a parameter, with what it documents as a hypothesis.
--
-- Collections. A handle map of kernel_core/src/collections/handle_map.rs asks the handle allocator of
-- kernel_core/src/collections/handle_allocator.rs for a free handle, and keeps the value in a tree of
-- tables that is walked by the bytes of the handle.
--   Collections/HandleAllocator: `next_handle` and `free_handle` as one caller sees them, with Words
--   and Scan about single words and the loop over the words, and Laws against the set of the handles
--   that are taken. Threads interleaves the atomic accesses of any number of threads, and Threads/
--   History states what holds of every interleaving.
--   Collections/HandleMap: Table has the tables and the loops that walk down, Map the operations.
--   Paths, Bytes and Shape relate the walks to the bytes of a handle, Laws has the invariant against a
--   finite map, Insert and Remove the operations, Alias what happens to a handle that is too large.
--   A map of the model has at least one level: `new` gives `none` where the source makes a map of
--   depth 0, which is only for no handles at all, and whose walks overflow in the source.
--
-- Process and Exceptions. The interrupt handler of kernel_core/src/exceptions/interrupt/handler.rs
-- calls `next_time_slice` of the scheduler of kernel_core/src/process/thread/scheduler.rs for each
-- interrupt of the timer.
--   Process/Thread: a thread, and `new`, which puts it into a handle map under its own id. The
--   accessors that the crate bitfield makes for the state field are parameters, with the law that what
--   was written is read back.
--   Process/Scheduler: `RoundRobinScheduler`; Laws has one time slice, Fair many in a row.
--   Exceptions/Handler: `process_interrupts` over the traits of the controller, the timer and the
--   scheduler, which are records of operations; a run of more interrupts than the fuel is not claimed
--   to end, since a controller may go on delivering them.
--
-- Platform. The kernel is handed the blob of a flattened device tree by its loader, and finds the
-- devices of the machine in it. kernel_core/src/platform/device_tree/fdt.rs reads words and texts of a
-- blob, iter.rs has the iterators over its tokens, and mod.rs the tree and the searches in it.
--   Platform/DeviceTree/Bytes: `Run`, a result, a panic, or the end of the fuel, and the slices and
--   indices of the source, which panic out of range. A string or a `CStr` is its list of bytes. The
--   words of the crate byteorder are a parameter, `ByteOrder`, with `IsBigEndian` for what it documents.
--   Platform/DeviceTree/Fdt: the header of a blob; Blob has `from_memory` and `from_bytes`, and the
--   header as a loader writes it.
--   Platform/DeviceTree/Tokens: the iterator over the tokens of the structure; Total is about bytes
--   that are no structure, Encode and Decode about those that are, Loops about the `for` loops over
--   the iterator, Yields and Steps about the structures that yield given tokens.
--   Platform/DeviceTree/Values: the value of a property and its accessors in Typed, lists of strings
--   in Strings, registers in Cells and regions in Regions.
--   Platform/DeviceTree/Search: the walk along a path in Finds, with Nodes for the trees that tokens
--   stand for and Skips for `skip_node`; Properties, Lookup and Named are about the properties of a
--   node, one property by its path, and the children of a node by their name; Names is about the two
--   parts of the name of a node.
--   A loop over the tokens runs on fuel of one more than the length of the structure, since each
--   token takes four bytes of it; a list of strings, of registers or of regions on fuel of one more
--   than the length of its bytes.
--   Platform/Cpu: kernel_core/src/platform/cpu.rs lists the cores that the tree describes, Cores, and
--   starts them, Boot. What the power manager and the page allocator answer is a function of the calls
--   before, so that they may keep any state; Boots says which calls are to be made, and Cores/Describes
--   which cores are to be found. The texts of errors and the level of the log are parameters.
--
-- Base has the tests on numbers, lists measured by native numbers, and single bits of words. Each
-- component has a module Examples with runs of its operations.
--
-- Not modelled: reference counts and the freeing of memory by `Drop`; memory orderings weaker than one
-- sequence of atomic accesses; the buddy allocator and the handle map under several threads at once;
-- the zeroing of pages; tables of pages and their walker, the heap, the logger, the printing of a
-- device tree, and the kernel crate, which is device registers and assembly for the most part.
pub mod Base
pub mod Memory
pub mod Collections
pub mod Process
pub mod Exceptions
pub mod Platform
