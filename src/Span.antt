-- ===== src/Span.antt =====
-- `MemorySpanData` of src/memory_span.rs: its state, its span class, and the fields that its
-- methods read. The children hold the methods.
pub mod Class
pub mod Count
pub mod Cache
pub mod Pages
use rust_go_gc.Prelude.{ℕ, ◌<◌, Bool}

-- `State`.
pub data State : Type 0 where
  dead in_use manual free : State

-- A pointer to a span, `MemorySpan = NonNull<MemorySpanData>`, is its address.
abbrev pub MemorySpan : Type 0
MemorySpan = ℕ

-- `unused_since` is an `Instant`, here a reading of the clock. `alloc_bits` and `gc_mark_bits`
-- are addresses; the bytes stand in a memory of their own.
pub record MemorySpanData : Type 0 where
  pub in_list : Bool
  pub start_address : ℕ
  pub number_of_pages : ℕ
  pub free_index : ℕ
  pub number_of_elements : ℕ
  pub alloc_cache : ℕ
  pub alloc_bits : ℕ
  pub gc_mark_bits : ℕ
  pub sweep_generation : ℕ
  pub allocations_count : ℕ
  pub span_class : ℕ
  pub state : State
  pub need_zero : ℕ
  pub element_size : ℕ
  pub unused_since : ℕ
  pub number_of_pages_released : ℕ
  pub scavenged : Bool

-- `is_in_list` and `base`.
unfoldable pub is_in_list : MemorySpanData → Bool
is_in_list s = s.in_list

unfoldable pub base : MemorySpanData → ℕ
base s = s.start_address

-- The bytes at each address, where the bitmaps lie.
abbrev pub Bytes : Type 0
Bytes = ℕ → ℕ

abbrev pub IsBytes : Bytes → Type 0
IsBytes bytes = (a : ℕ) → bytes a < 256
