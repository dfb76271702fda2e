-- ===== src/Sweep/Freed.antt =====
-- `sweep` of a span that goes back to the heap.
use rust_go_gc.Prelude.{
  ℕ, ◌-◌, ◌<◌, ◌≤◌, ◌≡◌, ◌∙◌, refl, Bool, true, false, not, none, some, arith, ltb, ◌==◌, ◌&&◌,
  if◌then◌else◌, Bool-cases, inl, inr,
}
use rust_go_gc.Prelude.Outcome.{ok}
use rust_go_gc.Prelude.Word.{word}
use rust_go_gc.Span.{MemorySpan, MemorySpanData, free, IsBytes}
use rust_go_gc.Span.Class.{size_class}
use rust_go_gc.Span.Cache.{refill_allocations_cache}
use rust_go_gc.Heap.{Machine, Platform, Unwritten, put_span}
use rust_go_gc.Heap.Free.{free_span}
use rust_go_gc.Heap.Free.Branches.{IsFreeable, freed, pages_left, locked_free_span-freed}
use rust_go_gc.Sweep.{sweep, frees_to_heap, return_span}
use rust_go_gc.Sweep.Parts.{Searches, marked}
use rust_go_gc.Sweep.InPlace.{
  Works, WorksAt, works_at, IsDue, freed_objects, swept, was_empty, swept_in_place, sweep-finish,
  swept_in_place-span_at,
}

return_span-freed :
    (w : Platform) (p : MemorySpan) (class n : ℕ) (was_empty : Bool) (m m' : Machine)
    → size_class class ≡ 0
    → free_span w p 1 m ≡ ok m'
    → return_span w p class n true false was_empty m ≡ ok (true, m')
unfolding return_span
return_span-freed w p class n was_empty m m' large e =
    let other : (ltb 0 n && not (size_class class == 0)) ≡ false = ground arith in rw (other, e)

free_span-freed :
    (w : Platform) (p : MemorySpan) (m : Machine) (s : MemorySpanData)
    → m.span_at p ≡ some s
    → s.scavenged ≡ false
    → m.heap.protected.pages_in_use < word
    → IsFreeable s.state s m
    → free_span w p 1 m ≡ ok (put_span p (freed s none m) (pages_left s.state s m))
unfolding free_span
free_span-freed w p m s there kept fits ready =
    locked_free_span-freed w p true true none m s there kept fits ready

module _ (w : Platform) (u : Unwritten) (p : MemorySpan) (m : Machine) (s : MemorySpanData)
    (searched : Searches w.checks m.bytes s) (there : m.span_at p ≡ some s)
    (small : IsBytes m.bytes) (g_fits : m.heap.sweep_generation < word)
    (claimed : IsDue m.heap.sweep_generation m.bytes s)
    (frees : frees_to_heap s.span_class (marked m.bytes s) ≡ true) (bits : ℕ)
    (works : WorksAt u p m s.number_of_elements bits) (not_scavenged : s.scavenged ≡ false)
    (pages : s.number_of_pages ≤ m.heap.protected.pages_in_use)
    (pages_fit : m.heap.protected.pages_in_use < word) where
  abbrev in_place : Machine
  in_place = swept_in_place w u p m s searched there small g_fits claimed true frees bits works

  abbrev done : MemorySpanData
  done = swept m.bytes m.heap.sweep_generation true bits s

  freed_at : Machine
  freed_at = put_span p (freed done none in_place) (pages_left s.state done in_place)

  free_span-freed_at : free_span w p 1 in_place ≡ ok freed_at
  unfolding freed_at put_span refill_allocations_cache
  free_span-freed_at =
      let none_marked : marked m.bytes s ≡ 0 = ground arith in
      let using = claimed.using in
      let self : (p == p) ≡ true = ground arith in
      let at : in_place.span_at p ≡ some done =
        swept_in_place-span_at w u p m s searched there small g_fits claimed true frees bits works p
        ∙ (rw self refl) in
      free_span-freed w p in_place done at not_scavenged pages_fit
        (rw using (none_marked, refl, pages))

  sweep-freed_at : sweep w u p false m ≡ ok (true, freed_at)
  sweep-freed_at =
      let empty = was_empty w u p m s searched there small g_fits claimed true frees bits works in
      let large : size_class s.span_class ≡ 0 = ground arith in
      sweep-finish w u p m s searched there small g_fits claimed true frees bits works
        (ok (true, freed_at))
        (rw
          (return_span-freed w p s.span_class (freed_objects m.bytes s) empty in_place freed_at
            large free_span-freed_at)
          refl)

  freed_at-span_at :
      (q : MemorySpan)
      → freed_at.span_at q ≡ (
          if q == p
          then some (record done { state = free; unused_since = m.clock })
          else m.span_at q)
  unfolding freed_at put_span refill_allocations_cache
  freed_at-span_at q =
      let using = claimed.using in
      elim (Bool-cases (q == p)) [
        | inl self ↦ rw (using, self) refl
        | inr other ↦ rw (using, other) refl
      ]

  freed_at-pages :
      freed_at.heap.protected.pages_in_use ≡ m.heap.protected.pages_in_use - s.number_of_pages
  unfolding freed_at put_span refill_allocations_cache
  freed_at-pages = let using = claimed.using in rw using refl

-- A span that may be swept, of a large object that is not marked, that is not scavenged, has no
-- special records, and whose pages are among those in use, in a build without overflow checks or
-- where the search for a free object meets none. `sweep` returns true. The span is free then, stamped
-- with the clock, to be zeroed, without objects, and of the heap's generation; its pages are no
-- longer in use, and no other span has changed.
pub sweep-freed :
    (w : Platform) (u : Unwritten) (p : MemorySpan) (m : Machine) (s : MemorySpanData) (bits : ℕ)
    → Searches w.checks m.bytes s
    → m.span_at p ≡ some s
    → IsBytes m.bytes
    → m.heap.sweep_generation < word
    → IsDue m.heap.sweep_generation m.bytes s
    → frees_to_heap s.span_class (marked m.bytes s) ≡ true
    → Works u p s.number_of_elements bits
    → s.scavenged ≡ false
    → s.number_of_pages ≤ m.heap.protected.pages_in_use
    → m.heap.protected.pages_in_use < word
    → (m' : Machine) × (s' : MemorySpanData) × (sweep w u p false m ≡ ok (true, m'))
      × ((q : MemorySpan) → m'.span_at q ≡ (if q == p then some s' else m.span_at q))
      × (s'.state ≡ free)
      × (s'.unused_since ≡ m.clock)
      × (s'.need_zero ≡ 1)
      × (s'.allocations_count ≡ 0)
      × (s'.sweep_generation ≡ m.heap.sweep_generation)
      × (m'.heap.protected.pages_in_use ≡ m.heap.protected.pages_in_use - s.number_of_pages)
unfolding refill_allocations_cache
sweep-freed w u p m s bits searched there small fits claimed frees works kept pages pages_fit = (
  freed_at w u p m s searched there small fits claimed frees bits (works_at m works) kept pages
      pages_fit,
  record (swept m.bytes m.heap.sweep_generation true bits s) {
    state = free;
    unused_since = m.clock;
  },
  sweep-freed_at w u p m s searched there small fits claimed frees bits (works_at m works) kept
      pages pages_fit,
  freed_at-span_at w u p m s searched there small fits claimed frees bits (works_at m works) kept
      pages pages_fit,
  refl,
  refl,
  refl,
  ground arith,
  refl,
  freed_at-pages w u p m s searched there small fits claimed frees bits (works_at m works) kept
      pages pages_fit,
)
