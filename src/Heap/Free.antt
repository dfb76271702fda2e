-- ===== src/Heap/Free.antt =====
-- `LockedMemoryHeap::free_span` with `coalesce`, and the two functions of `MemoryHeap` that call it.
pub mod Branches
use rust_go_gc.Prelude.{ℕ, Bool, true, false, not, ◌||◌, Option, none, some, ◌==◌, if◌then◌else◌}
use rust_go_gc.Prelude.Outcome.{Outcome, ok, panic, Panic, ◌>>=◌, ◌>>◌, panic_if}
use rust_go_gc.Prelude.Word.{sub_word}
use rust_go_gc.Span.{State, dead, in_use, manual, free, MemorySpan, MemorySpanData}
use rust_go_gc.Span.Pages.{released}
use rust_go_gc.Heap.{Machine, Platform, span_of, put_span, with_heap}

-- `coalesce`: the closure `merge` is built and not called, so all that happens is the call of
-- `released`.
unfoldable pub coalesce : Platform → MemorySpan → Machine → Outcome Machine
unfolding released
coalesce w p m = do s ← span_of p m; prescavenged ← released w.checks w.physical_page_size s; ok m

abbrev pub with_pages_in_use : ℕ → Machine → Machine
with_pages_in_use n m =
    with_heap (record (m.heap) { protected = record (m.heap.protected) { pages_in_use = n } }) m

-- The `match span.state`.
unfoldable pub check_state : Platform → State → MemorySpanData → Machine → Outcome Machine
check_state w manual s m = do
  panic_if (not (s.allocations_count == 0)) Panic.invalid_stack_free
  ok m
check_state w in_use s m = do
  panic_if (not (s.allocations_count == 0) || not (s.sweep_generation == m.heap.sweep_generation))
      Panic.invalid_free
  left ← sub_word w.checks m.heap.protected.pages_in_use s.number_of_pages
  ok (with_pages_in_use left m)
check_state w dead s m = panic Panic.invalid_span_state
check_state w free s m = panic Panic.invalid_span_state

-- `match unused_since { Some(instant) => instant, None => Instant::now() }`.
abbrev pub instant : Option ℕ → Machine → ℕ
instant (some t) m = t
instant none m = m.clock

-- `LockedMemoryHeap::free_span`; its two account flags are not read.
unfoldable pub locked_free_span :
    Platform
    → MemorySpan
    → (account_in_use account_idle : Bool) → (unused_since : Option ℕ) → Machine
    → Outcome Machine
unfolding coalesce check_state put_span
locked_free_span w p account_in_use account_idle unused_since m = do
  s ← span_of p m
  m' ← check_state w s.state s m
  coalesce w p (put_span p (record s { state = free; unused_since = instant unused_since m' }) m')

-- `MemoryHeap::free_manual_span` and `MemoryHeap::free_span`.
unfoldable pub free_manual_span : Platform → MemorySpan → Machine → Outcome Machine
unfolding locked_free_span put_span
free_manual_span w p m = do
  s ← span_of p m
  locked_free_span w p false true none (put_span p (record s { need_zero = 1 }) m)

unfoldable pub free_span : Platform → MemorySpan → (account : ℕ) → Machine → Outcome Machine
unfolding locked_free_span
free_span w p account m = locked_free_span w p true true none m
