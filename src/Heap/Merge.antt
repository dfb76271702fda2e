-- ===== src/Heap/Merge.antt =====
-- The closure `merge` of `coalesce`, which is built at every call and called by none.
pub mod Spans
use rust_go_gc.Prelude.{ℕ, ◌+◌, bit_or, ltb, if◌then◌else◌}
use rust_go_gc.Prelude.Outcome.{Outcome, ◌>>=◌}
use rust_go_gc.Prelude.Word.{add_word, mul_word, sub_word}
use rust_go_gc.Span.{MemorySpan}
use rust_go_gc.Span.Pages.{page_size, released}
use rust_go_gc.Heap.{Machine, Platform, Unwritten, span_of, put_span}
use rust_go_gc.Heap.SetSpan.{set_span}

-- The span at `p` grows by the one at `q`: pages, zeroing, start or end, and the entry of the page
-- where it now begins or ends. The count of scavenged bytes is not used afterwards.
unfoldable pub merge :
    Platform → Unwritten → (p q : MemorySpan) → (prescavenged : ℕ) → Machine → Outcome Machine
unfolding add_word mul_word set_span released put_span
merge w u p q prescavenged m = do
  s ← span_of p m
  other ← span_of q m
  pages ← add_word w.checks s.number_of_pages other.number_of_pages
  let grown = record s { number_of_pages = pages; need_zero = bit_or s.need_zero other.need_zero }
  m' ←
      if ltb other.start_address s.start_address
      then (let moved = record grown { start_address = other.start_address } in
          set_span w moved.start_address p (put_span p moved m))
      else (do
        bytes ← mul_word w.checks pages page_size
        offset ← sub_word w.checks bytes 1
        set_span w (grown.start_address + offset) p (put_span p grown m))
  freed ← released w.checks w.physical_page_size other
  total ← add_word w.checks prescavenged freed
  u.remove_span other.scavenged q m'
