-- ===== src/Heap/Merge/Spans.antt =====
-- What the closure `merge` does to the span that grows, on a 64-bit target.
use rust_go_gc.Prelude.{
  ℕ, ◌+◌, ◌-◌, ◌*◌, ◌/◌, ◌^◌, ◌<◌, ◌≡◌, ◌∙◌, refl, ap, sym, Bool, true, false, Option, some, arith,
  ltb, bit_or, ◌==◌, if◌then◌else◌, Bool-cases, inl, inr,
}
use rust_go_gc.Prelude.Outcome.{ok, Panic, panic_if, >>=-inv, ok-eq}
use rust_go_gc.Prelude.Word.{word, add_word-ok, mul_word-ok, sub_word-ok}
use rust_go_gc.Span.{MemorySpan, MemorySpanData}
use rust_go_gc.Span.Pages.{page_size, released}
use rust_go_gc.Heap.{Machine, Platform, HeapArena, ArenaMap, Unwritten, put_span}
use rust_go_gc.Arena.{arena_index, pages_per_arena}
use rust_go_gc.Heap.SetSpan.{set_span, find_arena}
use rust_go_gc.Heap.SetSpan.Entry.{platform_64, place, span_entry, set_span-entry}
use rust_go_gc.Heap.Merge.{merge}

-- The span that `merge` makes of two.
abbrev pub merged : MemorySpanData → MemorySpanData → MemorySpanData
merged s other = record s {
  number_of_pages = s.number_of_pages + other.number_of_pages;
  need_zero = bit_or s.need_zero other.need_zero;
  start_address =
      if ltb other.start_address s.start_address then other.start_address else s.start_address;
}

-- The address whose entry `merge` writes: the new start, or the last byte.
abbrev pub border : MemorySpanData → MemorySpanData → ℕ
border s other =
    if ltb other.start_address s.start_address
    then other.start_address
    else s.start_address + ((s.number_of_pages + other.number_of_pages) * page_size - 1)

set_span-span_at :
    (w : Platform) (base span : ℕ) (m m' : Machine)
    → set_span w base span m ≡ ok m'
    → m'.span_at ≡ m.span_at
unfolding set_span
set_span-span_at w base span m m' e = >>=-inv (arena_index w.constants w.checks base) _ e λ i _ e₁.
    >>=-inv (panic_if (pages_per_arena w.constants == 0) Panic.division_by_zero) _ e₁ λ _ _ e₂.
      >>=-inv (find_arena w.constants i m) _ e₂
        λ (arena, l1, l2) _ last. sym (ap (λ (k : Machine). k.span_at) (ok-eq last))

module _ (checks : Bool) (physical : ℕ) (u : Unwritten) (p q : MemorySpan) (m m' m'' : Machine)
    (s other : MemorySpanData) (there : m.span_at p ≡ some s) (there_q : m.span_at q ≡ some other)
    (some_pages : 0 < s.number_of_pages) (not_scavenged : other.scavenged ≡ false)
    (end_fits : s.start_address + (s.number_of_pages + other.number_of_pages) * page_size < word)
    (wrote : set_span
        (platform_64 checks physical)
        (border s other)
        p
        (put_span p (merged s other) m)
      ≡ ok m')
    (removed : u.remove_span false q m' ≡ ok m'') where
  merge-steps : merge (platform_64 checks physical) u p q 0 m ≡ ok m''
  unfolding merge released
  merge-steps =
      let n = s.number_of_pages + other.number_of_pages in
      elim (Bool-cases (ltb other.start_address s.start_address)) [
        | inl below ↦ rw (
          there,
          there_q,
          add_word-ok checks s.number_of_pages other.number_of_pages (omega arith),
          below,
          rw below at wrote,
          not_scavenged,
          add_word-ok checks 0 0 (omega arith),
          removed,
        )
        | inr above ↦ rw (
          there,
          there_q,
          add_word-ok checks s.number_of_pages other.number_of_pages (omega arith),
          above,
          mul_word-ok checks n page_size (omega arith),
          sub_word-ok checks (n * page_size) 1 (omega arith) (omega arith),
          rw above at wrote,
          not_scavenged,
          add_word-ok checks 0 0 (omega arith),
          removed,
        )
      ]

-- On a 64-bit target, with no bytes scavenged before, two spans of which the first has pages and the
-- second is not scavenged, together within a word, with the new border in mapped memory below 2^47,
-- where the removal from the treap works and changes nothing else. `merge` returns: the first span
-- begins at the lower of the two starts, has the pages of both, and is to be zeroed if either is;
-- the entry of its new border is that span; and no other span has changed.
pub merge-merged :
    (checks : Bool) (physical : ℕ) (u : Unwritten) (p q r : MemorySpan) (m : Machine)
    (s other : MemorySpanData) (level : ArenaMap) (arena : HeapArena)
    → m.span_at p ≡ some s
    → m.span_at q ≡ some other
    → 0 < s.number_of_pages
    → other.scavenged ≡ false
    → s.start_address + (s.number_of_pages + other.number_of_pages) * page_size < word
    → border s other < 2 ^ 47
    → m.heap.protected.arenas 0 ≡ some level
    → level (place (border s other)) ≡ some arena
    → ((k : Machine) → u.remove_span false q k ≡ ok k)
    → (m' : Machine) × (merge (platform_64 checks physical) u p q 0 m ≡ ok m')
      × (m'.span_at r ≡ (if r == p then some (merged s other) else m.span_at r))
      × (span_entry (border s other) m' ≡ ok p)
merge-merged checks physical u p q r m s other level arena there there_q some_pages kept end_fits
      low mapped at works =
    let grown = put_span p (merged s other) m in
    let heap : grown.heap ≡ m.heap = unfold put_span in refl in
    let mapped' : grown.heap.protected.arenas 0 ≡ some level = rw heap mapped in
    let (m', wrote, entry) =
      set_span-entry checks physical grown level arena (border s other) p (border s other) low low
        mapped' at in
    let same : (border s other / page_size == border s other / page_size) ≡ true = ground arith in
    (
      m',
      merge-steps checks physical u p q m m' m' s other there there_q some_pages kept end_fits wrote
          (works m'),
      ap (λ (f : MemorySpan → Option MemorySpanData). f r)
            (set_span-span_at (platform_64 checks physical) (border s other) p grown m' wrote)
          ∙ (unfold put_span in refl),
      entry ∙ (rw same refl),
    )
