-- ===== src/Sweep.antt =====
-- `MemorySpanData::sweep` of src/memory_span.rs, in the pieces that its comments mark off. The
-- functions it calls that are `unimplemented!()` come from an `Unwritten`.
pub mod Written
pub mod Parts
pub mod InPlace
pub mod Kept
pub mod Moved
pub mod Freed
pub mod Ends
pub mod Refused
use rust_go_gc.Prelude.{
  ℕ, ◌+◌, ◌%◌, ◌^◌, Bool, true, false, not, ◌&&◌, ◌||◌, ltb, ◌==◌, get_elem?, if◌then◌else◌,
}
use rust_go_gc.Prelude.Outcome.{Outcome, ok, panic, Panic, ◌>>=◌, ◌>>◌, panic_if, in_bounds}
use rust_go_gc.Prelude.Word.{sub_word, sub_mod, atomic_add}
use rust_go_gc.Span.{State, dead, in_use, manual, free, MemorySpan, MemorySpanData}
use rust_go_gc.Span.Class.{size_class}
use rust_go_gc.Span.Count.{count_allocations}
use rust_go_gc.Span.Cache.{next_free_index, refill_allocations_cache}
use rust_go_gc.SweepBuffer.{push}
use rust_go_gc.Heap.{Machine, Platform, Unwritten, span_of, put_span, with_heap, central_free_span}
use rust_go_gc.Heap.Buffers.{pushable_index, buffer, set_buffer}
use rust_go_gc.Heap.Free.{free_span}

abbrev pub is_in_use : State → Bool
is_in_use in_use = true
is_in_use _ = false

-- `state != InUse || span generation != sweep_generation - 1`; the difference is taken for an
-- in-use span only.
unfoldable pub is_bad : Platform → (sweep_generation : ℕ) → MemorySpanData → Outcome Bool
is_bad w sweep_generation s =
    if is_in_use s.state
    then (do before ← sub_word w.checks sweep_generation 1; ok (not (s.sweep_generation == before)))
    else ok true

-- Whether a span goes back to the heap: it is of class 0 and nothing in it is marked.
abbrev pub frees_to_heap : (class marked : ℕ) → Bool
frees_to_heap class marked = size_class class == 0 && marked == 0

abbrev pub zeroed : Bool → MemorySpanData → MemorySpanData
zeroed to_heap s = record s { need_zero = if to_heap then 1 else s.need_zero }

-- The count of the marked objects becomes that of the allocated ones: the span, the number of
-- objects freed, and whether the span had no free object.
unfoldable pub recount :
    Platform → (class : ℕ) → Machine → MemorySpanData → Outcome (MemorySpanData × ℕ × ℕ × Bool)
unfolding count_allocations sub_mod next_free_index
recount w class m s = do
  counted ← count_allocations m.bytes s
  let marked = counted % 2 ^ 16
  freed ← sub_mod (2 ^ 16) w.checks s.allocations_count marked
  panic_if (ltb s.allocations_count marked) Panic.sweep_increased_allocation_count
  (next, s') ←
      next_free_index w.checks m.bytes
        (record (zeroed (frees_to_heap class marked) s) { allocations_count = marked })
  ok (s', marked, freed, next == s'.number_of_elements)

-- The mark bits become the allocation bits, the free index and the cache start afresh.
unfoldable pub turn_bits :
    Unwritten → MemorySpan → MemorySpanData → Machine → Outcome (MemorySpanData × Machine)
unfolding put_span refill_allocations_cache
turn_bits u p s m = do
  (bits, m') ←
      u.new_mark_bits s.number_of_elements
        (put_span p (record s { free_index = 0; alloc_bits = s.gc_mark_bits }) m)
  t ← span_of p m'
  ok (refill_allocations_cache m'.bytes 0 (record t { gc_mark_bits = bits }), m')

-- The serialization point: the span's generation is set where no one else will set it.
unfoldable pub serialize :
    Platform → (sweep_generation : ℕ) → Bool → MemorySpanData → Outcome MemorySpanData
unfolding is_bad
serialize w sweep_generation owned s =
    if owned
    then (do
      bad ← is_bad w sweep_generation s
      panic_if bad Panic.bad_span_state_after_sweep
      ok (record s { sweep_generation = sweep_generation }))
    else ok s

-- To the central list, to the heap, or neither; whether the span was returned to the heap.
unfoldable pub return_span :
    Platform
    → MemorySpan
    → (class freed : ℕ) → (to_heap preserve was_empty : Bool) → Machine
    → Outcome (Bool × Machine)
unfolding central_free_span free_span
return_span w p class freed to_heap preserve was_empty m =
    if ltb 0 freed && not (size_class class == 0)
    then (do
      central ← in_bounds (get_elem? m.heap.central class)
      ok (central_free_span central p preserve was_empty, m))
    else if to_heap
    then (do m' ← free_span w p 1 m; ok (true, m'))
    else ok (false, m)

-- A span that stays in use goes to the buffer of swept spans.
unfoldable pub requeue : Platform → (sweep_generation : ℕ) → MemorySpan → Machine → Outcome Machine
unfolding pushable_index buffer set_buffer push
requeue w sweep_generation p m = do
  let i = pushable_index sweep_generation
  (b, o) ← push w.checks p (buffer i m.heap) m.offheap
  ok (record m { heap = set_buffer i b m.heap; offheap = o })

abbrev pub with_pages_swept : ℕ → Machine → Machine
with_pages_swept n m =
    with_heap (record (m.heap) { pages_swept = atomic_add m.heap.pages_swept n }) m

unfoldable pub sweep :
    Platform → Unwritten → MemorySpan → (preserve : Bool) → Machine → Outcome (Bool × Machine)
unfolding is_bad recount turn_bits serialize return_span requeue put_span
sweep w u p preserve m = do
  s ← span_of p m
  let sweep_generation = m.heap.sweep_generation
  bad ← is_bad w sweep_generation s
  panic_if bad Panic.bad_span_state
  let class = s.span_class
  m₁ ← u.free_specials p (with_pages_swept s.number_of_pages m)
  s₁ ← span_of p m₁
  (s₂, marked, freed, was_empty) ← recount w class m₁ s₁
  (s₃, m₂) ← turn_bits u p s₂ m₁
  let to_heap = frees_to_heap class marked
  s₄ ← serialize w sweep_generation (to_heap || freed == 0) s₃
  (result, m₃) ← return_span w p class freed to_heap preserve was_empty (put_span p s₄ m₂)
  if result then ok (result, m₃) else (do m₄ ← requeue w sweep_generation p m₃; ok (result, m₄))
