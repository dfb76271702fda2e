-- ===== src/Span/Pages.antt =====
-- `released` and `physical_page_bounds` of src/memory_span.rs. The size of a physical page comes
-- from the crate `page_size` and is a parameter.
pub mod Bounds
use rust_go_gc.Prelude.{ℕ, ◌+◌, ◌*◌, ◌^◌, bit_and, Bool, true, false, ltb, if◌then◌else◌}
use rust_go_gc.Prelude.Outcome.{Outcome, ok, ◌>>=◌}
use rust_go_gc.Prelude.Word.{add_word, sub_word, shl_word, not_word}
use rust_go_gc.Span.{MemorySpanData}
use rust_go_gc.Span.Class.{page_shift}

-- `PAGE_SIZE` of src/memory_allocator.rs.
abbrev pub page_size : ℕ
page_size = 2 ^ page_shift

module _ (checks : Bool) (physical_page_size : ℕ) where
  -- `start + self.number_of_pages << PAGE_SHIFT`: in Rust the sum is shifted.
  unfoldable pub physical_page_bounds : MemorySpanData → Outcome (ℕ × ℕ)
  unfolding add_word
  physical_page_bounds s = do
    let start = s.start_address
    sum ← add_word checks start s.number_of_pages
    let end = shl_word sum page_shift
    if ltb page_size physical_page_size
        then (do
          raised ← add_word checks start physical_page_size
          less_one ← sub_word checks raised 1
          below ← sub_word checks physical_page_size 1
          ok (bit_and less_one (not_word below), bit_and end (not_word below)))
        else ok (start, end)

  unfoldable pub released : MemorySpanData → Outcome ℕ
  unfolding physical_page_bounds
  released s =
      if s.scavenged
      then (do (start, end) ← physical_page_bounds s; sub_word checks end start)
      else ok 0
