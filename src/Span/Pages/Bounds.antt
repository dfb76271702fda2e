-- ===== src/Span/Pages/Bounds.antt =====
-- What `physical_page_bounds` and `released` compute.
use rust_go_gc.Prelude.{
  ℕ, ◌+◌, ◌-◌, ◌*◌, ◌/◌, ◌%◌, ◌^◌, ◌<◌, ◌≤◌, ◌≡◌, refl, ap, Bool, true, false, arith, ltb,
}
use rust_go_gc.Prelude.Bits.{bit_and_align}
use rust_go_gc.Prelude.Outcome.{ok}
use rust_go_gc.Prelude.Word.{word, add_word-ok, sub_word-ok}
use rust_go_gc.Span.{MemorySpanData}
use rust_go_gc.Span.Pages.{page_size, physical_page_bounds, released}

-- The bytes from the start to the end of a scavenged span with page size at least the physical
-- one are computed as (start + pages) * page_size - start: the span's size, and the start
-- address times page_size - 1 besides.
pub released-overcounts :
    (checks : Bool) (physical_page_size : ℕ) (s : MemorySpanData)
    → s.scavenged ≡ true
    → physical_page_size ≤ page_size
    → (s.start_address + s.number_of_pages) * page_size < word
    → released checks physical_page_size s
      ≡ ok (s.number_of_pages * page_size + s.start_address * (page_size - 1))
unfolding released physical_page_bounds
released-overcounts checks p s on small fits =
    let skip : ltb page_size p ≡ false = ground arith in
    let end : (s.start_address + s.number_of_pages) * 2 ^ 13 % word
        ≡ (s.start_address + s.number_of_pages) * page_size =
      omega arith in
    rw (on, add_word-ok checks s.start_address s.number_of_pages (omega arith), skip)
      (rw
        (
          end,
          sub_word-ok checks ((s.start_address + s.number_of_pages) * page_size) s.start_address
              (omega arith) fits,
        )
        (ap ok (omega arith)))

-- With physical pages of 2^k bytes, larger than a page, the start is rounded up and the end
-- down to a physical page.
pub physical_page_bounds-aligned :
    (checks : Bool) (k : ℕ) (s : MemorySpanData)
    → page_size < 2 ^ k
    → k < 64
    → s.start_address + 2 ^ k < word
    → (s.start_address + s.number_of_pages) * page_size < word
    → physical_page_bounds checks (2 ^ k) s
      ≡ ok (
        (s.start_address + 2 ^ k - 1) / 2 ^ k * 2 ^ k,
        (s.start_address + s.number_of_pages) * page_size / 2 ^ k * 2 ^ k,
      )
unfolding physical_page_bounds
physical_page_bounds-aligned checks k s larger lt start_fits end_fits =
    let take : ltb page_size (2 ^ k) ≡ true = ground arith in
    let end : (s.start_address + s.number_of_pages) * 2 ^ 13 % word
        ≡ (s.start_address + s.number_of_pages) * page_size =
      omega arith in
    rw
      (
        add_word-ok checks s.start_address s.number_of_pages (omega arith),
        take,
        add_word-ok checks s.start_address (2 ^ k) start_fits,
        sub_word-ok checks (s.start_address + 2 ^ k) 1 (omega arith) start_fits,
        sub_word-ok checks (2 ^ k) 1 (omega arith) (omega arith),
        end,
        bit_and_align k (s.start_address + 2 ^ k - 1) (omega arith) (omega arith),
        bit_and_align k ((s.start_address + s.number_of_pages) * page_size) (omega arith) end_fits,
      )
      refl
