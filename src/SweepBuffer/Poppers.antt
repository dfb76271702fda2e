-- ===== src/SweepBuffer/Poppers.antt =====
-- `pop` of src/sweep_buffer.rs by several threads at once: the accesses of one call, in the order of
-- the code.
pub mod Moves
pub mod Apart
pub mod Values
pub mod Running
pub mod Stack
use rust_go_gc.Prelude.{
  ℕ, zero, suc, ◌+◌, ◌-◌, ◌*◌, ◌/◌, ◌%◌, ◌<◌, ◌≡◌, ◌≢◌, Option, none, some, List, [], ◌∷◌,
}
use rust_go_gc.Prelude.Outcome.{Outcome, ok}
use rust_go_gc.Prelude.Word.{atomic_add, atomic_sub}
use rust_go_gc.Span.{MemorySpan}
use rust_go_gc.SweepBuffer.{Offheap, SweepBuffer, store, get_spine_block, as_option}

-- A thread in a call of `pop`: before it; with what `fetch_sub` found; with the entry of its cursor
-- read, before it is cleared; and after it, with what it returns.
pub data Popper : Type 0 where
  calling : Popper
  found : (old : ℕ) → Popper
  loaded : (x : Option MemorySpan) (cursor block : ℕ) → Popper
  returned : (x : Option MemorySpan) → Popper

-- One access of a thread: `fetch_sub` of the index; where it found 0, `fetch_add`; otherwise the
-- read of the entry, and the write that clears it. The memory ends at its limit, and an entry beyond
-- it is undefined behaviour to follow: there is no move for it. Pops at once on an empty buffer come
-- to such an entry, once the index has wrapped.
pub data Move : Popper → SweepBuffer → Offheap → Popper → SweepBuffer → Offheap → Type 0 where
  take :
      (b : SweepBuffer) (o : Offheap)
      → Move calling b o (found b.index) (record b { index = atomic_sub b.index 1 }) o
  give_back :
      (old : ℕ) (b : SweepBuffer) (o : Offheap)
      → old ≡ 0
      → Move (found old) b o (returned none) (record b { index = atomic_add b.index 1 }) o
  load :
      (old block : ℕ) (b : SweepBuffer) (o : Offheap)
      → old ≢ 0
      → get_spine_block ((old - 1) / 512) b ≡ ok block
      → block + 8 * ((old - 1) % 512) < o.limit
      → Move
          (found old)
          b
          o
          (loaded (as_option (o.words (block + 8 * ((old - 1) % 512)))) (old - 1) block)
          b
          o
  clear :
      (x : Option MemorySpan) (c block : ℕ) (b : SweepBuffer) (o : Offheap)
      → block + 8 * (c % 512) < o.limit
      → Move (loaded x c block) b o (returned x) b (store (block + 8 * (c % 512)) 0 o)

-- `n` threads that are about to pop.
abbrev pub callers : ℕ → List Popper
callers zero = []
callers (suc n) = calling ∷ callers n

-- What the threads that have returned got; the others' part is `none`.
abbrev pub result : Popper → Option MemorySpan
result calling = none
result (found old) = none
result (loaded x c block) = none
result (returned x) = x

-- The accesses that a thread has left.
abbrev pub left : Popper → ℕ
left calling = 3
left (found old) = 2
left (loaded x c block) = 1
left (returned x) = 0

abbrev pub left_all : List Popper → ℕ
left_all [] = 0
left_all (p ∷ ps) = left p + left_all ps
