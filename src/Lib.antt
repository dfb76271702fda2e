-- ===== src/Lib.antt =====
-- A verification library of the crate in src/: the sweeper of a garbage collector, translated from
-- the Go runtime to Rust. The collector has a heap of spans, each a run of pages with objects of one
-- size. A span keeps two bitmaps, of allocated and of marked objects. The sweep makes the marked
-- objects the allocated ones and gives spans without any back to the heap. The spans that wait for
-- a sweep and those that are swept stand in two buffers, which trade roles with every collection.
--
-- Prelude: the library names, Boolean tests, outcomes (a value, a panic, undefined behaviour, fuel
--   used up), machine arithmetic with and without overflow checks, bits of words.
-- Span: src/memory_span.rs and the constants of src/size_classes.rs. Span/Class has `SpanClass`,
--   Span/Count `ONE_BIT_COUNT` and `count_allocations`, Span/Cache `refill_allocations_cache` and
--   `next_free_index`, Span/Pages `physical_page_bounds` and `released`.
-- SweepBuffer: src/sweep_buffer.rs, `new`, `get_spine_block`, `push` with `allocate_block` and
--   `grow_spine`, `pop`, over a memory of words with its allocator. SweepBuffer/Stack and
--   SweepBuffer/Refine have what the buffer promises, SweepBuffer/Pushers and SweepBuffer/Poppers
--   calls by several threads at once, interleaved by SweepBuffer/Threads, and SweepBuffer/Growers
--   pushes that may make the spine grow at once, with its mutex.
-- Arena: the constants of src/memory_allocator.rs by target, and `arena_index`, `arena_level_1` and
--   `arena_level_2` of src/memory_heap.rs.
-- Heap: src/memory_heap.rs, with src/static_vec.rs, src/memory_central.rs, src/memory_span_list.rs
--   and the record of src/memory_span_treap.rs. Heap/New has `new`, Heap/Buffers the choice of the
--   sweep buffers, Heap/SetSpan `set_span`, Heap/Free `free_span`, `free_manual_span` and `coalesce`,
--   Heap/Merge the closure of `coalesce`.
-- Sweep: `MemorySpanData::sweep` of src/memory_span.rs, which calls into all of these.
-- Gc: src/gc.rs, `GC::sweep_one`, with Gc/WorkBuffers for `free_some_work_buffers`, Gc/Background
--   for the background task, whose loop is a relation of steps, and Gc/Work for the records of
--   src/work.rs. Gc/Alone and Gc/Waiting are about a collector alone, Gc/Contended and Gc/Sweeping
--   about one where other threads claim spans.
-- Examples: runs of the model and instances of the theorems.
--
-- State is passed explicitly: a `Machine` is the heap with the spans behind their addresses, the
-- off-heap memory, the bytes of the bitmaps and the clock. A pointer is an address; one with nothing
-- behind it is undefined behaviour to follow. Words have 64 bits. `checks` is whether the build
-- checks for overflow, as a debug build does. Outside SweepBuffer/Threads a lock is held by the one
-- thread of the model, and what other threads do enters in three places: the length of the spine that
-- a push sees first may be an older one, a span may change between the read of its generation and
-- the compare-and-swap, and the machine may change between two steps of the background task, by any
-- relation. Threads that push at once, or pop at once, make their accesses to the buffer one by one
-- in any order; a relaxed load of the spine's length may give an older one. In SweepBuffer/Pushers
-- the search for the block is one access; in SweepBuffer/Growers the lock is taken, held while the
-- length is read again and the block added, and opened, or poisoned by a panic, access by access.
-- Where an access is undefined behaviour there is no move: a second growth of the spine, and an entry
-- that a pop finds beyond the memory's limit, as it does once the index has wrapped.
--
-- The off-heap memory is flat: each address below its limit holds a word, whichever allocation it lies
-- in. As `get_spine_block` is written, the entries of a block lie behind the address of its slot in
-- the spine, of which 256 entries are the 2048 bytes of the first spine; the 512 entries that the
-- theorems on SweepBuffer allow in a block reach past those into whatever memory follows.
--
-- Loops run on fuel. The search for a free object has one round for each object and one more, where
-- each round goes on by a block of 64; the loop of `sweep_one` has one round for each entry of the
-- buffer and one more, where each round takes an entry off. The batch of `free_some_work_buffers` is
-- the source's 64. A call of `push` makes four accesses to the buffer, or up to nine with those of
-- the lock, and one of `pop` at most three.
--
-- Parameters stand for what is not in the source: the size of a physical page (crate page_size),
-- the mapping of memory (crate memmap), and the functions whose bodies are `unimplemented!()`
-- (`free_specials`, `new_mark_bits`, `remove_span`, `is_empty`, `remove_first`), gathered in
-- `Unwritten`, of which `as_written` is the source's.
--
-- Not modelled: the Go code in comments, the treap's nodes, the futures that the background task of
-- src/gc.rs waits on, and pushes at the same time as pops, which the source forbids. A relaxed load of
-- the spine's address gives the one that it has.
pub mod Prelude
pub mod Span
pub mod SweepBuffer
pub mod Arena
pub mod Heap
pub mod Sweep
pub mod Gc
pub mod Examples
