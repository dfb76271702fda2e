-- ===== src/Gc/Sweeping.antt =====
-- `sweep_one` where another thread claims each span between the read of its generation and the swap,
-- which is where the code goes on to sweep it.
pub mod Buffers
pub mod Lost
pub mod Round
use rust_go_gc.Prelude.{
  ℕ, ◌+◌, ◌/◌, ◌≤◌, ◌≡◌, ◌≢◌, ◌⊎◌, Bool, true, false, Option, some, List, [], ◌∷◌, length,
  get_elem?, AllOf,
}
use rust_go_gc.Prelude.Outcome.{ok}
use rust_go_gc.Span.{MemorySpan, MemorySpanData, Bytes}
use rust_go_gc.SweepBuffer.{SweepBuffer}
use rust_go_gc.SweepBuffer.Stack.{IsStack, AreSpans}
use rust_go_gc.Heap.{Machine, Platform, Unwritten, MemoryCentral}
use rust_go_gc.Heap.Buffers.{popable_index, pushable_index, buffer}
use rust_go_gc.Sweep.{is_in_use, frees_to_heap}
use rust_go_gc.Sweep.Parts.{marked, Searches, with_brk}
use rust_go_gc.Sweep.InPlace.{IsDue}
use rust_go_gc.Gc.{Between}

-- The two blocks of entries lie apart.
abbrev pub AreApart : SweepBuffer → SweepBuffer → Type 0
AreApart b b' = (b.spine + 4096 ≤ b'.spine) ⊎ (b'.spine + 4096 ≤ b.spine)

abbrev pub AreDistinct : List MemorySpan → Type 0
AreDistinct [] = Unit {0}
AreDistinct (x ∷ xs) = AllOf (λ y. y ≢ x) xs × AreDistinct xs

-- What `new_mark_bits` does: it takes the bits of `n` objects off the free off-heap memory, which starts
-- at `brk`, and at `next` afterwards. The memory is clear already, so that no byte changes.
pub record GivesBits (u : Unwritten) : Type 0 where
  pub bits : (n brk : ℕ) → ℕ
  pub next : (n brk : ℕ) → ℕ
  pub fresh :
      (n : ℕ) (m : Machine)
      → u.new_mark_bits n m ≡ ok (bits n m.offheap.brk, with_brk (next n m.offheap.brk) m)
  pub from : (n brk : ℕ) → brk ≤ bits n brk
  pub to : (n brk : ℕ) → bits n brk + (n + 7) / 8 ≤ next n brk

module _ (w : Platform) (u : Unwritten) (between : Between) (g : ℕ) (bytes : Bytes)
    (central : List MemoryCentral) where
  -- An in-use span that is due, and that another thread claims before the swap: as that thread leaves
  -- it, it may be swept and does not go to the heap.
  pub record IsTaken (x : MemorySpan) (at : Option MemorySpanData) : Type 0 where
    pub span : MemorySpanData
    pub there : at ≡ some span
    pub using : is_in_use span.state ≡ true
    pub due : span.sweep_generation + 2 ≡ g
    pub searched : Searches w.checks bytes (between x span)
    pub claimed : IsDue g bytes (between x span)
    pub kept : frees_to_heap (between x span).span_class (marked bytes (between x span)) ≡ false
    pub list : MemoryCentral
    pub central_at : get_elem? central (between x span).span_class ≡ some list
    pub no_specials : (m : Machine) → u.free_specials x m ≡ ok m

  -- The machine in the middle of a sweep: `xs` wait in the one buffer, `ys` are swept in the other.
  pub record IsRound (m : Machine) (xs ys : List MemorySpan) : Type 0 where
    pub generation : m.heap.sweep_generation ≡ g
    pub running : m.heap.sweep_done ≡ false
    pub same_bytes : m.bytes ≡ bytes
    pub same_central : m.heap.central ≡ central
    pub waiting : IsStack 0 0 (buffer (popable_index g) m.heap) m.offheap xs
    pub done : IsStack 0 0 (buffer (pushable_index g) m.heap) m.offheap ys
    pub room : length xs + length ys ≤ 512
    pub apart : AreApart (buffer (popable_index g) m.heap) (buffer (pushable_index g) m.heap)
    pub spans : AreSpans xs
    pub distinct : AreDistinct xs
    pub taken : AllOf (λ x. IsTaken x (m.span_at x)) xs
