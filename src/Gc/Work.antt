-- ===== src/Gc/Work.antt =====
-- The records of src/work.rs that are not comments, and `GCBitsArenas` of src/gc.rs, which has no
-- fields.
use rust_go_gc.Prelude.{ℕ, ◌*◌, ◌^◌}
use rust_go_gc.Heap.{MemorySpanList, memory_span_list}

-- `GC_BITS_CHUNK_BYTES`, 64 << 10.
abbrev pub gc_bits_chunk_bytes : ℕ
gc_bits_chunk_bytes = 64 * 2 ^ 10

pub data GcBitsArenas : Type 0 where
  gc_bits_arenas : GcBitsArenas

-- What the lock of the work buffers protects.
pub record WorkBufferSpansProtected : Type 0 where
  pub free : MemorySpanList
  pub busy : MemorySpanList

pub record WorkBufferSpans : Type 0 where
  pub protected : WorkBufferSpansProtected

pub record Work : Type 0 where
  pub work_buffer_spans : WorkBufferSpans

unfoldable pub new_work_buffer_spans_protected : WorkBufferSpansProtected
new_work_buffer_spans_protected = record { free = memory_span_list; busy = memory_span_list }

unfoldable pub new_work_buffer_spans : WorkBufferSpans
unfolding new_work_buffer_spans_protected
new_work_buffer_spans = record { protected = new_work_buffer_spans_protected }

unfoldable pub new_work : Work
unfolding new_work_buffer_spans
new_work = record { work_buffer_spans = new_work_buffer_spans }
