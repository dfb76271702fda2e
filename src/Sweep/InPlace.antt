-- ===== src/Sweep/InPlace.antt =====
-- `sweep` up to the return of the span, where the functions that the source leaves unimplemented
-- work.
use rust_go_gc.Prelude.{
  ℕ, ◌+◌, ◌-◌, ◌^◌, ◌<◌, ◌≤◌, ◌≡◌, ◌∙◌, ap, refl, Bool, false, some, arith, ◌==◌, if◌then◌else◌,
  Bool-cases, inl, inr,
}
use rust_go_gc.Prelude.Outcome.{Outcome, ok, ◌>>=◌}
use rust_go_gc.Prelude.Word.{word}
use rust_go_gc.Span.{MemorySpan, MemorySpanData, in_use, Bytes, IsBytes}
use rust_go_gc.Span.Cache.{refill_allocations_cache}
use rust_go_gc.Span.Cache.Refill.{refill-IsCached}
use rust_go_gc.Span.Cache.Take.{IsReady}
use rust_go_gc.SweepBuffer.{Offheap}
use rust_go_gc.Heap.{Machine, Platform, Unwritten, put_span}
use rust_go_gc.Sweep.{sweep, with_pages_swept, frees_to_heap, requeue, return_span}
use rust_go_gc.Sweep.Parts.{
  marked, counted, Searches, recount-Recounted, turned, turn_bits-ok, with_brk, is_bad-due,
  serialized, serialize-ok,
}

-- What the functions that are not written do for a span without special records: `free_specials`
-- nothing, and `new_mark_bits` gives the address of new bits.
pub record Works (u : Unwritten) (p : MemorySpan) (n bits : ℕ) : Type 0 where
  pub no_specials : (m : Machine) → u.free_specials p m ≡ ok m
  pub fresh : (m : Machine) → u.new_mark_bits n m ≡ ok (bits, m)

-- The same in a machine `m`, where `new_mark_bits` may take the new bits off the free off-heap memory,
-- which starts at `brk` then.
pub record WorksAt (u : Unwritten) (p : MemorySpan) (m : Machine) (n bits : ℕ) : Type 0 where
  pub brk : ℕ
  pub no_specials : (m' : Machine) → u.free_specials p m' ≡ ok m'
  pub fresh :
      (m' : Machine) → m'.offheap ≡ m.offheap → u.new_mark_bits n m' ≡ ok (bits, with_brk brk m')

abbrev pub works_at :
    {u : Unwritten} {p : MemorySpan} {n bits : ℕ} (m : Machine)
    → Works u p n bits
    → WorksAt u p m n bits
works_at {n} {bits} m works = record {
  brk = m.offheap.brk;
  no_specials = works.no_specials;
  fresh = λ m' same. works.fresh m' ∙ ap (λ (o : Offheap). ok (bits, with_brk o.brk m')) same;
}

-- A span that may be swept in generation `g`: in use and claimed, its cache in step, and counted
-- with at least as many allocated objects as are marked.
pub record IsDue (g : ℕ) (bytes : Bytes) (s : MemorySpanData) : Type 0 where
  pub using : s.state ≡ in_use
  pub due : s.sweep_generation + 1 ≡ g
  pub ready : IsReady bytes s
  pub elements : s.number_of_elements + 64 < word
  pub fewer : marked bytes s ≤ s.allocations_count
  pub count : s.allocations_count < 2 ^ 16

abbrev pub freed_objects : Bytes → MemorySpanData → ℕ
freed_objects bytes s = s.allocations_count - marked bytes s

-- The span after the sweep, before it goes to the heap if it does.
abbrev pub swept : Bytes → (g : ℕ) → (to_heap : Bool) → (bits : ℕ) → MemorySpanData → MemorySpanData
swept bytes g to_heap bits s =
    serialized g to_heap (freed_objects bytes s) (turned bytes bits (counted bytes to_heap s))

-- The end of `sweep`, from the return of the span on.
abbrev pub finish :
    Platform → MemorySpan → (g : ℕ) → Outcome (Bool × Machine) → Outcome (Bool × Machine)
finish w p g returned = do
  (result, m) ← returned
  if result then ok (result, m) else (do m' ← requeue w g p m; ok (result, m'))

module _ (w : Platform) (u : Unwritten) (p : MemorySpan) (m : Machine) (s : MemorySpanData)
    (searched : Searches w.checks m.bytes s) (there : m.span_at p ≡ some s)
    (small : IsBytes m.bytes) (g_fits : m.heap.sweep_generation < word)
    (claimed : IsDue m.heap.sweep_generation m.bytes s) (to_heap : Bool)
    (decided : frees_to_heap s.span_class (marked m.bytes s) ≡ to_heap) (bits : ℕ)
    (works : WorksAt u p m s.number_of_elements bits) where
  abbrev pub recounted_at : Machine
  recounted_at = with_pages_swept s.number_of_pages m

  pub cache_left : ℕ
  cache_left =
      (recount-Recounted w recounted_at small s searched to_heap decided claimed.ready
        claimed.elements claimed.fewer claimed.count).1

  pub was_empty : Bool
  was_empty =
      (recount-Recounted w recounted_at small s searched to_heap decided claimed.ready
        claimed.elements claimed.fewer claimed.count).2

  -- The machine with the span swept, before the span goes anywhere.
  abbrev pub swept_in_place : Machine
  swept_in_place = put_span p (swept m.bytes m.heap.sweep_generation to_heap bits s) (
      with_brk works.brk (
        put_span p
          (record (counted m.bytes to_heap s) {
            free_index = 0;
            alloc_cache = cache_left;
            alloc_bits = s.gc_mark_bits;
          })
          recounted_at))

  pub sweep-finish :
      (outcome : Outcome (Bool × Machine))
      → finish w p m.heap.sweep_generation (
          return_span w p s.span_class
            (freed_objects m.bytes s)
            to_heap
            false
            was_empty
            swept_in_place)
        ≡ outcome
      → sweep w u p false m ≡ outcome
  unfolding sweep was_empty cache_left refill_allocations_cache
  sweep-finish outcome h =
      let g = m.heap.sweep_generation in
      let (f, cache, empty, counts) =
        recount-Recounted w recounted_at small s searched to_heap decided claimed.ready
          claimed.elements claimed.fewer claimed.count in
      rw
        (
          there,
          is_bad-due w g s g_fits claimed.using claimed.due,
          works.no_specials recounted_at,
          there,
          counts,
          turn_bits-ok u p bits works.brk
              (record (counted m.bytes to_heap s) { free_index = f; alloc_cache = cache })
              recounted_at works.fresh,
          decided,
          serialize-ok w g to_heap (freed_objects m.bytes s)
              (turned m.bytes bits (counted m.bytes to_heap s)) g_fits claimed.using claimed.due,
        )
        h

  pub swept-IsReady : IsReady m.bytes (swept m.bytes m.heap.sweep_generation to_heap bits s)
  unfolding refill_allocations_cache
  swept-IsReady = record {
    in_range = omega arith;
    cached = λ ne.
        let t : MemorySpanData = record (counted m.bytes to_heap s) {
          free_index = 0;
          alloc_bits = s.gc_mark_bits;
          gc_mark_bits = bits;
        } in
        let cached = refill-IsCached m.bytes small t 0 refl in
        record { within = cached.within; above = cached.above };
  }

  pub swept_in_place-span_at :
      (q : MemorySpan)
      → swept_in_place.span_at q ≡ (
          if q == p
          then some (swept m.bytes m.heap.sweep_generation to_heap bits s)
          else m.span_at q)
  unfolding put_span
  swept_in_place-span_at q = elim (Bool-cases (q == p)) [
    | inl self ↦ rw self refl
    | inr other ↦ rw other refl
  ]
