-- ===== src/SweepBuffer/Growers.antt =====
-- `push` of src/sweep_buffer.rs by several threads at once, with `allocate_block` and the mutex around
-- `spine_cap`: the accesses of one call, in the order of the code.
pub mod Exclusion
pub mod Moves
pub mod Bound
pub mod Room
pub mod Places
pub mod Landed
pub mod Astray
pub mod OneBlock
pub mod Progress
pub mod Done
pub mod Poisoned
use rust_go_gc.Prelude.{
  ℕ, ◌+◌, ◌*◌, ◌/◌, ◌%◌, ◌<◌, ◌≤◌, ◌≡◌, List, [], ◌∷◌, Bool, if◌then◌else◌, ltb, ◌==◌,
}
use mathlib.Core.List
use rust_go_gc.Prelude.Outcome.{Outcome, ok, panic, Panic}
use rust_go_gc.Prelude.Word.{atomic_add}
use rust_go_gc.Span.{MemorySpan}
use rust_go_gc.SweepBuffer.{
  Offheap, SweepBuffer, store, alloc, get_spine_block, grow_spine, gc_sweep_block_entries,
}

-- The mutex of the spine: `Mutex::lock` waits while it is held, and fails once a thread has panicked
-- with it.
pub data Lock : Type 0 where
  open_lock : Lock
  held : Lock
  poisoned : Lock

pub record LockedBuffer : Type 0 where
  pub buffer : SweepBuffer
  pub lock : Lock

-- A thread in a call of `push`, with the local variables that are live there. From `holding` to
-- `extended` it has the guard of the lock.
pub data Grower : Type 0 where
  arriving : (span : MemorySpan) → Grower
  claimed : (span : MemorySpan) (cursor : ℕ) → Grower
  observed : (span : MemorySpan) (cursor spine_length : ℕ) → Grower  -- head of the loop
  holding : (span : MemorySpan) (cursor : ℕ) → Grower
  looked : (span : MemorySpan) (cursor spine_length : ℕ) → Grower  -- before the second test
  grown : (span : MemorySpan) (cursor : ℕ) → Grower  -- the spine has room for the block
  allocated : (span : MemorySpan) (cursor block : ℕ) → Grower
  extended : (span : MemorySpan) (cursor block : ℕ) → Grower  -- before `Unique::new`
  located : (span : MemorySpan) (cursor block : ℕ) → Grower
  pushed : (span : MemorySpan) (cursor : ℕ) → Grower
  panicked : (span : MemorySpan) (cursor : ℕ) → Grower

abbrev pub with_buffer : SweepBuffer → Lock → LockedBuffer
with_buffer b l = record { buffer = b; lock = l }

-- `if spine_length == *spine_cap { *spine_cap = self.grow_spine(*spine_cap) }`
unfoldable pub ensure_cap :
    (checks : Bool) (spine_length : ℕ) → SweepBuffer → Offheap → Outcome (SweepBuffer × Offheap)
unfolding grow_spine
ensure_cap checks spine_length b o =
    if spine_length == b.spine_cap then grow_spine checks b o else ok (b, o)

module _ (checks : Bool) where
  -- One access of a thread. A relaxed load of the spine's length without the lock may give one that
  -- the spine had before; with the lock it cannot. A panic with the guard poisons the lock. Where
  -- `ensure_cap` is undefined behaviour, as on a full spine whose memory `realloc` gets with a layout
  -- that it does not have, there is no move: a spine grows from no capacity, and never again.
  pub data Move : Grower → LockedBuffer → Offheap → Grower → LockedBuffer → Offheap → Type 0 where
    claim :
        (x : MemorySpan) (b : SweepBuffer) (l : Lock) (o : Offheap)
        → Move
            (arriving x)
            (with_buffer b l)
            o
            (claimed x b.index)
            (with_buffer (record b { index = atomic_add b.index 1 }) l)
            o
    observe :
        (x : MemorySpan) (c n : ℕ) (s : LockedBuffer) (o : Offheap)
        → n ≤ s.buffer.spine_length
        → Move (claimed x c) s o (observed x c n) s o
    find :
        (x : MemorySpan) (c n block : ℕ) (s : LockedBuffer) (o : Offheap)
        → c / gc_sweep_block_entries < n
        → get_spine_block (c / gc_sweep_block_entries) s.buffer ≡ ok block
        → Move (observed x c n) s o (located x c block) s o
    find_fail :
        (x : MemorySpan) (c n : ℕ) (s : LockedBuffer) (o : Offheap) (why : Panic)
        → c / gc_sweep_block_entries < n
        → get_spine_block (c / gc_sweep_block_entries) s.buffer ≡ panic why
        → Move (observed x c n) s o (panicked x c) s o
    acquire :
        (x : MemorySpan) (c n : ℕ) (b : SweepBuffer) (o : Offheap)
        → n ≤ c / gc_sweep_block_entries
        → Move (observed x c n) (with_buffer b open_lock) o (holding x c) (with_buffer b held) o
    refuse :
        (x : MemorySpan) (c n : ℕ) (b : SweepBuffer) (o : Offheap)
        → n ≤ c / gc_sweep_block_entries
        → Move (observed x c n) (with_buffer b poisoned) o (panicked x c) (with_buffer b poisoned) o
    look :
        (x : MemorySpan) (c : ℕ) (s : LockedBuffer) (o : Offheap)
        → Move (holding x c) s o (looked x c s.buffer.spine_length) s o
    again :
        (x : MemorySpan) (c n : ℕ) (b : SweepBuffer) (l : Lock) (o : Offheap)
        → c / gc_sweep_block_entries < n
        → Move (looked x c n) (with_buffer b l) o (observed x c n) (with_buffer b open_lock) o
    grow :
        (x : MemorySpan) (c n : ℕ) (b : SweepBuffer) (l : Lock) (o : Offheap) (b' : SweepBuffer)
        (o' : Offheap)
        → n ≤ c / gc_sweep_block_entries
        → ensure_cap checks n b o ≡ ok (b', o')
        → Move (looked x c n) (with_buffer b l) o (grown x c) (with_buffer b' l) o'
    grow_fail :
        (x : MemorySpan) (c n : ℕ) (b : SweepBuffer) (l : Lock) (o : Offheap) (why : Panic)
        → n ≤ c / gc_sweep_block_entries
        → ensure_cap checks n b o ≡ panic why
        → Move (looked x c n) (with_buffer b l) o (panicked x c) (with_buffer b poisoned) o
    allocate :
        (x : MemorySpan) (c : ℕ) (s : LockedBuffer) (o : Offheap)
        → Move
            (grown x c)
            s
            o
            (allocated x c ((alloc (gc_sweep_block_entries * 8) o).0))
            s
            ((alloc (gc_sweep_block_entries * 8) o).1)
    extend :
        (x : MemorySpan) (c block : ℕ) (b : SweepBuffer) (l : Lock) (o : Offheap)
        → Move
            (allocated x c block)
            (with_buffer b l)
            o
            (extended x c block)
            (with_buffer (record b { spine_length = atomic_add b.spine_length 1 }) l)
            o
    release :
        (x : MemorySpan) (c block : ℕ) (b : SweepBuffer) (l : Lock) (o : Offheap)
        → 0 < block
        → Move
            (extended x c block)
            (with_buffer b l)
            o
            (located x c block)
            (with_buffer b open_lock)
            o
    no_block :
        (x : MemorySpan) (c : ℕ) (b : SweepBuffer) (l : Lock) (o : Offheap)
        → Move (extended x c 0) (with_buffer b l) o (panicked x c) (with_buffer b poisoned) o
    write :
        (x : MemorySpan) (c block : ℕ) (s : LockedBuffer) (o : Offheap)
        → Move
            (located x c block)
            s
            o
            (pushed x c)
            s
            (store (block + 8 * (c % gc_sweep_block_entries)) x o)

-- The spans, each with a thread that is about to push it.
abbrev pub arrivals : List MemorySpan → List Grower
arrivals = List.map arriving

-- The threads that have the guard of the lock.
abbrev pub holds : Grower → ℕ
holds (arriving x) = 0
holds (claimed x c) = 0
holds (observed x c n) = 0
holds (holding x c) = 1
holds (looked x c n) = 1
holds (grown x c) = 1
holds (allocated x c block) = 1
holds (extended x c block) = 1
holds (located x c block) = 0
holds (pushed x c) = 0
holds (panicked x c) = 0

abbrev pub holders : List Grower → ℕ
holders [] = 0
holders (p ∷ ps) = holds p + holders ps

abbrev pub owned : Lock → ℕ
owned open_lock = 0
owned held = 1
owned poisoned = 0

-- The accesses that a thread has left, at most.
abbrev pub left : Grower → ℕ
left (arriving x) = 9
left (claimed x c) = 8
left (observed x c n) = if ltb (c / gc_sweep_block_entries) n then 2 else 7
left (holding x c) = 6
left (looked x c n) = 5
left (grown x c) = 4
left (allocated x c block) = 3
left (extended x c block) = 2
left (located x c block) = 1
left (pushed x c) = 0
left (panicked x c) = 0

abbrev pub left_all : List Grower → ℕ
left_all [] = 0
left_all (p ∷ ps) = left p + left_all ps
