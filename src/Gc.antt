-- ===== src/Gc.antt =====
-- `sweep_one` of src/gc.rs. `between` is what other threads do to a span between the read of its
-- generation and the compare-and-swap; it is the identity where the collector runs alone.
pub mod Alone
pub mod Waiting
pub mod Contended
pub mod Sweeping
pub mod Ends
pub mod Work
pub mod WorkBuffers
pub mod Background
use rust_go_gc.Prelude.{
  ℕ, zero, suc, ◌+◌, Bool, true, false, not, Option, none, some, ◌==◌, if◌then◌else◌,
}
use rust_go_gc.Prelude.Outcome.{Outcome, ok, Panic, out_of_fuel, ◌>>=◌, ◌>>◌, panic_if}
use rust_go_gc.Prelude.Word.{sub_word, atomic_add, atomic_sub, not_word}
use rust_go_gc.Span.{MemorySpan, MemorySpanData}
use rust_go_gc.SweepBuffer.{pop}
use rust_go_gc.Heap.{Machine, Platform, Unwritten, span_of, put_span, with_heap}
use rust_go_gc.Heap.Buffers.{popable_index, buffer, set_buffer}
use rust_go_gc.Sweep.{sweep, is_in_use}

-- `!0`, the result if there is nothing to sweep.
abbrev pub nothing_to_sweep : ℕ
nothing_to_sweep = not_word 0

abbrev pub Between : Type 0
Between = MemorySpan → MemorySpanData → MemorySpanData

-- Taking a span off the buffer of unswept spans.
unfoldable pub take_span : (sweep_generation : ℕ) → Machine → Outcome (Option MemorySpan × Machine)
unfolding popable_index buffer set_buffer pop
take_span sweep_generation m = do
  let i = popable_index sweep_generation
  (x, b, o) ← pop (buffer i m.heap) m.offheap
  ok (x, record m { heap = set_buffer i b m.heap; offheap = o })

-- `sweep_generation - 2 == compare_and_swap(sweep_generation - 2, sweep_generation - 1)`: the swap
-- gives the value that it found, so the test holds where the span was acquired.
unfoldable pub compare_and_swap :
    (expected replacement : ℕ) → MemorySpan → MemorySpanData → Machine → Bool × Machine
unfolding put_span
compare_and_swap expected replacement p t m = (
  expected == t.sweep_generation,
  if t.sweep_generation == expected
      then put_span p (record t { sweep_generation = replacement }) m
      else put_span p t m,
)

-- The tests on an in-use span: whether the loop continues with the next.
unfoldable pub try_acquire :
    Platform
    → Between
    → (sweep_generation : ℕ) → MemorySpan
    → MemorySpanData
    → Machine
    → Outcome (Bool × Machine)
unfolding compare_and_swap
try_acquire w between sweep_generation p s m = do
  unswept ← sub_word w.checks sweep_generation 2
  if not (s.sweep_generation == unswept) then ok (true, m) else (do
    sweeping ← sub_word w.checks sweep_generation 1
    ok (compare_and_swap unswept sweeping p (between p s) m))

-- The tests on any span that was taken off.
unfoldable pub inspect :
    Platform → Between → (sweep_generation : ℕ) → MemorySpan → Machine → Outcome (Bool × Machine)
unfolding try_acquire
inspect w between sweep_generation p m = do
  s ← span_of p m
  if is_in_use s.state then try_acquire w between sweep_generation p s m else (do
    panic_if (not (s.sweep_generation == sweep_generation)) Panic.non_in_use_span_in_unswept_list
    ok (true, m))

-- The span is swept; the pages that went back to the heap.
unfoldable pub sweep_span : Platform → Unwritten → MemorySpan → Machine → Outcome (ℕ × Machine)
unfolding sweep
sweep_span w u p m = do
  s ← span_of p m
  (returned, m') ← sweep w u p false m
  ok (if returned then s.number_of_pages else 0, m')

abbrev pub with_sweep_done : Machine → Machine
with_sweep_done m = with_heap (record (m.heap) { sweep_done = true }) m

-- One round with what was taken off; `next` is the loop from then on.
unfoldable pub sweep_round :
    Platform
    → Unwritten
    → Between
    → (sweep_generation : ℕ) → (next : Machine → Outcome (ℕ × Machine)) → Option MemorySpan
    → Machine
    → Outcome (ℕ × Machine)
unfolding inspect sweep_span
sweep_round w u between sweep_generation next none m = ok (nothing_to_sweep, with_sweep_done m)
sweep_round w u between sweep_generation next (some p) m = do
  (skip, m') ← inspect w between sweep_generation p m
  if skip then next m' else sweep_span w u p m'

-- The loop. Each round takes an entry off the buffer, so one more round than there are entries
-- is enough.
unfoldable pub sweep_loop :
    Platform → Unwritten → Between → (sweep_generation fuel : ℕ) → Machine → Outcome (ℕ × Machine)
unfolding take_span sweep_round
sweep_loop w u between sweep_generation zero m = out_of_fuel
sweep_loop w u between sweep_generation (suc fuel) m =
    let next = λ (m' : Machine). sweep_loop w u between sweep_generation fuel m' in
    take_span sweep_generation m >>= λ r. sweep_round w u between sweep_generation next r.0 r.1

abbrev pub with_sweepers : ℕ → Machine → Machine
with_sweepers n m = with_heap (record (m.heap) { sweepers = n }) m

unfoldable pub sweep_one : Platform → Unwritten → Between → Machine → Outcome (ℕ × Machine)
unfolding sweep_loop
sweep_one w u between m = if m.heap.sweep_done then ok (nothing_to_sweep, m) else (do
  let m' = with_sweepers (atomic_add m.heap.sweepers 1) m
  let g = m.heap.sweep_generation
  (pages, m'') ← sweep_loop w u between g ((buffer (popable_index g) m.heap).index + 1) m'
  ok (pages, with_sweepers (atomic_sub m''.heap.sweepers 1) m''))
