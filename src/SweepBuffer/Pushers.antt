-- ===== src/SweepBuffer/Pushers.antt =====
-- `push` of src/sweep_buffer.rs by several threads at once: the accesses of one call, in the order
-- of the code, and any interleaving of those of the threads.
pub mod Moves
pub mod Log
pub mod Apart
pub mod Done
pub mod Running
pub mod Stack
use rust_go_gc.Prelude.{
  ℕ, suc, ◌+◌, ◌*◌, ◌/◌, ◌%◌, ◌≤◌, ◌≡◌, Bool, Option, none, some, List, [], ◌∷◌,
}
use mathlib.Core.List
use rust_go_gc.Prelude.Outcome.{Outcome, ok}
use rust_go_gc.Prelude.Word.{atomic_add}
use rust_go_gc.Span.{MemorySpan}
use rust_go_gc.SweepBuffer.{Offheap, SweepBuffer, store, find_block}

-- A thread in a call of `push`: before it; with a cursor; with the spine's length read; with the
-- block found; and after it.
pub data Pusher : Type 0 where
  arriving : (span : MemorySpan) → Pusher
  claimed : (span : MemorySpan) (cursor : ℕ) → Pusher
  observed : (span : MemorySpan) (cursor spine_length : ℕ) → Pusher
  located : (span : MemorySpan) (cursor block : ℕ) → Pusher
  pushed : (span : MemorySpan) (cursor : ℕ) → Pusher

module _ (checks : Bool) where
  -- One access of a thread: `fetch_add` of the index; the load of the spine's length, which is
  -- relaxed, so that it may give a length that the spine had before; the loop that finds the block,
  -- where the lock is held to its end; the write of the entry.
  pub data Move : Pusher → SweepBuffer → Offheap → Pusher → SweepBuffer → Offheap → Type 0 where
    claim :
        (x : MemorySpan) (b : SweepBuffer) (o : Offheap)
        → Move (arriving x) b o (claimed x b.index) (record b { index = atomic_add b.index 1 }) o
    observe :
        (x : MemorySpan) (c n : ℕ) (b : SweepBuffer) (o : Offheap)
        → n ≤ b.spine_length
        → Move (claimed x c) b o (observed x c n) b o
    find :
        (x : MemorySpan) (c n block : ℕ) (b : SweepBuffer) (o : Offheap) (b' : SweepBuffer)
        (o' : Offheap)
        → find_block checks n (c / 512) b o ≡ ok (block, b', o')
        → Move (observed x c n) b o (located x c block) b' o'
    write :
        (x : MemorySpan) (c block : ℕ) (b : SweepBuffer) (o : Offheap)
        → Move (located x c block) b o (pushed x c) b (store (block + 8 * (c % 512)) x o)

-- The spans, each with a thread that is about to push it.
abbrev pub arrivals : List MemorySpan → List Pusher
arrivals = List.map arriving

-- The accesses that a thread has left.
abbrev pub left : Pusher → ℕ
left (arriving x) = 4
left (claimed x c) = 3
left (observed x c n) = 2
left (located x c block) = 1
left (pushed x c) = 0

abbrev pub left_all : List Pusher → ℕ
left_all [] = 0
left_all (p ∷ ps) = left p + left_all ps
