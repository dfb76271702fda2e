-- ===== src/Sweep/Kept.antt =====
-- `sweep` of a span that stays in use.
use rust_go_gc.Prelude.{
  ℕ, ◌+◌, ◌%◌, true, arith, length, ◌<◌, ◌≡◌, refl, false, some, ◌==◌, get_elem?, if◌then◌else◌,
  Bool-cases, inl, inr,
}
use rust_go_gc.Prelude.Outcome.{ok}
use rust_go_gc.Prelude.Word.{word}
use rust_go_gc.Span.{MemorySpan, MemorySpanData, IsBytes}
use rust_go_gc.Span.Cache.{refill_allocations_cache}
use rust_go_gc.Span.Cache.Take.{IsReady}
use rust_go_gc.Span.Cache.Drain.{allocate_all, clear_from, allocate_all-whole, length-clear_from}
use rust_go_gc.SweepBuffer.{SweepBuffer, store}
use rust_go_gc.SweepBuffer.Slot.{slot}
use rust_go_gc.Heap.{MemoryHeap, Machine, Platform, Unwritten, MemoryCentral, put_span}
use rust_go_gc.Heap.Buffers.{
  popable_index, buffers_trade, pushable_index, buffer, set_buffer, buffer-set_buffer,
}
use rust_go_gc.Sweep.{sweep, frees_to_heap}
use rust_go_gc.Sweep.Parts.{marked, Searches, return_span-kept, requeued, HasRoom, requeue-ok}
use rust_go_gc.Sweep.InPlace.{
  Works, WorksAt, works_at, IsDue, freed_objects, swept, was_empty, swept_in_place, sweep-finish,
  swept-IsReady, swept_in_place-span_at,
}

pages_swept-set_buffer :
    (i : ℕ) (b : SweepBuffer) (h : MemoryHeap) → (set_buffer i b h).pages_swept ≡ h.pages_swept
unfolding set_buffer
pages_swept-set_buffer i b h = elim (Bool-cases (i == 0)) [ inl e ↦ rw e refl | inr e ↦ rw e refl ]

module _ (w : Platform) (u : Unwritten) (p : MemorySpan) (m : Machine) (s : MemorySpanData)
    (searched : Searches w.checks m.bytes s) (there : m.span_at p ≡ some s)
    (small : IsBytes m.bytes) (g_fits : m.heap.sweep_generation < word)
    (claimed : IsDue m.heap.sweep_generation m.bytes s)
    (kept : frees_to_heap s.span_class (marked m.bytes s) ≡ false)
    (room : HasRoom (buffer (pushable_index m.heap.sweep_generation) m.heap)) (c : MemoryCentral)
    (central : get_elem? m.heap.central s.span_class ≡ some c) (bits : ℕ)
    (works : WorksAt u p m s.number_of_elements bits) where
  abbrev pub in_place : Machine
  in_place = swept_in_place w u p m s searched there small g_fits claimed false kept bits works

  unfoldable pub swept_at : Machine
  swept_at = requeued (pushable_index m.heap.sweep_generation) p in_place

  pub sweep-swept_at : sweep w u p false m ≡ ok (false, swept_at)
  unfolding swept_at put_span buffer
  sweep-swept_at =
      let g = m.heap.sweep_generation in
      let empty = was_empty w u p m s searched there small g_fits claimed false kept bits works in
      sweep-finish w u p m s searched there small g_fits claimed false kept bits works
        (ok (false, swept_at))
        (rw (
          return_span-kept w p s.span_class (freed_objects m.bytes s) false empty in_place c
              central,
          requeue-ok w g p in_place room,
        ))

  pub swept_at-buffer : buffer (pushable_index m.heap.sweep_generation) swept_at.heap ≡ (
      let b = buffer (pushable_index m.heap.sweep_generation) m.heap in
      record b { index = b.index + 1 })
  unfolding swept_at put_span buffer
  swept_at-buffer =
      let i = pushable_index m.heap.sweep_generation in
      let b = buffer i m.heap in
      buffer-set_buffer i (record b { index = b.index + 1 }) in_place.heap

  swept_at-pages_swept : swept_at.heap.pages_swept ≡ (m.heap.pages_swept + s.number_of_pages) % word
  unfolding swept_at put_span
  swept_at-pages_swept =
      let i = pushable_index m.heap.sweep_generation in
      let b = buffer i in_place.heap in
      pages_swept-set_buffer i (record b { index = b.index + 1 }) in_place.heap

  pub swept_at-waiting :
      buffer (popable_index m.heap.sweep_generation) swept_at.heap
      ≡ buffer (popable_index m.heap.sweep_generation) m.heap
  unfolding swept_at put_span buffer
  swept_at-waiting =
      let g = m.heap.sweep_generation in
      let b = buffer (pushable_index g) m.heap in
      (buffers_trade in_place.heap g (record b { index = b.index + 1 })).1

  pub swept_at-offheap : swept_at.offheap ≡ (
      let b = buffer (pushable_index m.heap.sweep_generation) m.heap in
      store (slot b.spine b.index) p (record (m.offheap) { brk = works.brk }))
  unfolding swept_at put_span buffer
  swept_at-offheap = refl

  swept_at-span_at : swept_at.span_at p ≡ some (swept m.bytes m.heap.sweep_generation false bits s)
  unfolding swept_at put_span
  swept_at-span_at = let self : (p == p) ≡ true = ground arith in rw self refl

  swept_at-bytes : swept_at.bytes ≡ m.bytes
  unfolding swept_at put_span
  swept_at-bytes = refl

-- A span that may be swept and does not go to the heap, that has no special records, with room in
-- the block of the buffer of swept spans, in a build without overflow checks or where the search for
-- a free object meets none. `sweep` returns false. The span then has the marked objects for its
-- allocated ones, by their count and by its bitmap; it is ready for the search of a free object from
-- its first on; its generation is the heap's if no object was freed, and is left one behind if one
-- was. No other span has changed, the pages are counted as swept, the span is the last of the buffer,
-- and the buffer of spans to be swept is as it was.
pub sweep-kept :
    (w : Platform) (u : Unwritten) (p : MemorySpan) (m : Machine) (s : MemorySpanData)
    (c : MemoryCentral) (bits : ℕ)
    → Searches w.checks m.bytes s
    → m.span_at p ≡ some s
    → IsBytes m.bytes
    → m.heap.sweep_generation < word
    → IsDue m.heap.sweep_generation m.bytes s
    → frees_to_heap s.span_class (marked m.bytes s) ≡ false
    → HasRoom (buffer (pushable_index m.heap.sweep_generation) m.heap)
    → get_elem? m.heap.central s.span_class ≡ some c
    → Works u p s.number_of_elements bits
    → (m' : Machine) × (sweep w u p false m ≡ ok (false, m'))
      × ((q : MemorySpan)
          → m'.span_at q ≡ (
              if q == p
              then some (swept m.bytes m.heap.sweep_generation false bits s)
              else m.span_at q))
      × IsReady m'.bytes (swept m.bytes m.heap.sweep_generation false bits s)
      × (m'.heap.pages_swept ≡ (m.heap.pages_swept + s.number_of_pages) % word)
      × (let b = buffer (pushable_index m.heap.sweep_generation) m.heap in
          (buffer (pushable_index m.heap.sweep_generation) m'.heap
            ≡ record b { index = b.index + 1 })
          × (buffer (popable_index m.heap.sweep_generation) m'.heap
              ≡ buffer (popable_index m.heap.sweep_generation) m.heap)
          × (m'.offheap ≡ store (slot b.spine b.index) p m.offheap))
unfolding swept_at put_span
sweep-kept w u p m s c bits searched there small fits claimed kept room central works = (
  swept_at w u p m s searched there small fits claimed kept room c central bits (works_at m works),
  sweep-swept_at w u p m s searched there small fits claimed kept room c central bits
      (works_at m works),
  swept_in_place-span_at w u p m s searched there small fits claimed false kept bits
      (works_at m works),
  swept-IsReady w u p m s searched there small fits claimed false kept bits (works_at m works),
  swept_at-pages_swept w u p m s searched there small fits claimed kept room c central bits
      (works_at m works),
  (
    swept_at-buffer w u p m s searched there small fits claimed kept room c central bits
        (works_at m works),
    swept_at-waiting w u p m s searched there small fits claimed kept room c central bits
        (works_at m works),
    swept_at-offheap w u p m s searched there small fits claimed kept room c central bits
        (works_at m works),
  ),
)

-- A build without overflow checks, and a span that may be swept and does not go to the heap, that
-- has no special records, with room in the block of the buffer of swept spans. `sweep` returns
-- false, and what allocation from the span hands out afterwards, until it is full, is exactly the
-- objects that were not marked, each once and in order. They are as many as the objects of the span
-- less the marked ones. So no marked object is handed out, and none that was not marked is lost.
pub sweep-reuses :
    (w : Platform) (u : Unwritten) (p : MemorySpan) (m : Machine) (s : MemorySpanData)
    (c : MemoryCentral) (bits : ℕ)
    → w.checks ≡ false
    → m.span_at p ≡ some s
    → IsBytes m.bytes
    → m.heap.sweep_generation < word
    → IsDue m.heap.sweep_generation m.bytes s
    → frees_to_heap s.span_class (marked m.bytes s) ≡ false
    → HasRoom (buffer (pushable_index m.heap.sweep_generation) m.heap)
    → get_elem? m.heap.central s.span_class ≡ some c
    → Works u p s.number_of_elements bits
    → (m' : Machine) × (s' : MemorySpanData) × (full : MemorySpanData) × (sweep w u p false m
        ≡ ok (false, m'))
      × (m'.span_at p ≡ some s')
      × (allocate_all false m'.bytes (s.number_of_elements + 1) s'
          ≡ ok (clear_from m.bytes s.gc_mark_bits 0 s.number_of_elements, full))
      × (length (clear_from m.bytes s.gc_mark_bits 0 s.number_of_elements) + marked m.bytes s
          ≡ s.number_of_elements)
unfolding refill_allocations_cache
sweep-reuses w u p m s c bits unchecked there small fits claimed kept room central works =
    let searched : Searches w.checks m.bytes s = inl unchecked in
    let s' = swept m.bytes m.heap.sweep_generation false bits s in
    let (full, e) =
      allocate_all-whole m.bytes small s'
        (swept-IsReady w u p m s searched there small fits claimed false kept bits
          (works_at m works))
        claimed.elements refl in
    let same =
      swept_at-bytes w u p m s searched there small fits claimed kept room c central bits
        (works_at m works) in
    (
      swept_at w u p m s searched there small fits claimed kept room c central bits
          (works_at m works),
      s',
      full,
      sweep-swept_at w u p m s searched there small fits claimed kept room c central bits
          (works_at m works),
      swept_at-span_at w u p m s searched there small fits claimed kept room c central bits
          (works_at m works),
      rw same e,
      length-clear_from m.bytes s.gc_mark_bits 0 s.number_of_elements,
    )
