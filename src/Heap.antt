-- ===== src/Heap.antt =====
-- `MemoryHeap` of src/memory_heap.rs with what it reaches: the spans behind their addresses, the
-- off-heap memory of the sweep buffers, the bitmaps and the clock. The children hold the
-- operations. A lock is held by the one thread of the model, so taking it does nothing.
pub mod Buffers
pub mod New
pub mod SetSpan
pub mod Free
pub mod Merge
use rust_go_gc.Prelude.{
  ℕ, zero, suc, ◌+◌, ◌*◌, ◌/◌, ◌^◌, Bool, Option, none, some, List, [], ◌∷◌, ◌==◌, if◌then◌else◌,
}
use rust_go_gc.Prelude.Outcome.{Outcome, ok, panic, Panic, ◌>>=◌, deref}
use rust_go_gc.Span.{MemorySpan, MemorySpanData, Bytes}
use rust_go_gc.SweepBuffer.{SweepBuffer, Offheap}
use rust_go_gc.Arena.{ArenaConstants}

-- `StaticVec`, less its phantom.
pub record StaticVec : Type 0 where
  pub buffer : ℕ
  pub capacity : ℕ
  pub vec_length : ℕ

-- `MemorySpanList` and `MemoryCentral` have no fields, and a treap is the address of its root.
pub data MemorySpanList : Type 0 where
  memory_span_list : MemorySpanList

pub data MemoryCentral : Type 0 where
  memory_central : MemoryCentral

pub record MemorySpanTreap : Type 0 where
  pub treap : ℕ

-- The tables of an arena, by index.
pub record HeapArena : Type 0 where
  pub span_table : ℕ → MemorySpan
  pub page_in_use : ℕ → ℕ
  pub page_marks : ℕ → ℕ

-- The second level of the arena map; `none` is a null pointer.
abbrev pub ArenaMap : Type 0
ArenaMap = ℕ → Option HeapArena

pub record ProtectedMemoryHeap : Type 0 where
  pub free : MemorySpanTreap
  pub scav : MemorySpanTreap
  pub busy : List MemorySpanList
  pub busy_large : MemorySpanList
  pub static_spans : StaticVec
  pub pages_in_use : ℕ
  pub arenas : ℕ → Option ArenaMap

pub record MemoryHeap : Type 0 where
  pub protected : ProtectedMemoryHeap
  pub sweep_generation : ℕ
  pub sweep_done : Bool
  pub sweepers : ℕ
  pub sweep_buffer_0 : SweepBuffer
  pub sweep_buffer_1 : SweepBuffer
  pub pages_swept : ℕ
  pub arena_start : ℕ
  pub arena_used : ℕ
  pub central : List MemoryCentral

-- The heap and the memory around it.
pub record Machine : Type 0 where
  pub heap : MemoryHeap
  pub span_at : MemorySpan → Option MemorySpanData
  pub offheap : Offheap
  pub bytes : Bytes
  pub clock : ℕ

-- What the build and the platform fix.
pub record Platform : Type 0 where
  pub checks : Bool
  pub physical_page_size : ℕ
  pub constants : ArenaConstants

-- The functions whose bodies are `unimplemented!()`: `MemorySpanData::free_specials`,
-- `GC::new_mark_bits`, `MemorySpanTreap::remove_span`, of the scavenged treap or the other, and
-- `is_empty` and `remove_first` of the list of free work buffers.
pub record Unwritten : Type 0 where
  pub free_specials : MemorySpan → Machine → Outcome Machine
  pub new_mark_bits : ℕ → Machine → Outcome (ℕ × Machine)
  pub remove_span : Bool → MemorySpan → Machine → Outcome Machine
  pub is_empty : Machine → Outcome Bool
  pub remove_first : Machine → Outcome (Option MemorySpan × Machine)

-- As the source has them.
abbrev pub as_written : Unwritten
as_written = record {
  free_specials = λ p m. panic Panic.unimplemented;
  new_mark_bits = λ n m. panic Panic.unimplemented;
  remove_span = λ scavenged p m. panic Panic.unimplemented;
  is_empty = λ m. panic Panic.unimplemented;
  remove_first = λ m. panic Panic.unimplemented;
}

-- A span behind its address, and the write of one.
abbrev pub span_of : MemorySpan → Machine → Outcome MemorySpanData
span_of p m = deref (m.span_at p)

unfoldable pub put_span : MemorySpan → MemorySpanData → Machine → Machine
put_span p s m = record m { span_at = λ q. if q == p then some s else m.span_at q }

abbrev pub with_heap : MemoryHeap → Machine → Machine
with_heap h m = record m { heap = h }

-- `MemoryCentral::free_span`.
unfoldable pub central_free_span : MemoryCentral → MemorySpan → (preserve was_empty : Bool) → Bool
central_free_span c p preserve was_empty = Bool.false

-- `[f(); n]`, the arrays that `array_init` fills.
abbrev pub filled : {A : Type 0} → ℕ → A → List A
filled zero a = []
filled (suc n) a = a ∷ filled n a
