-- ===== src/Sweep/Parts.antt =====
-- The parts of `sweep` for a span of small objects, where the functions that the source leaves
-- unimplemented work.
use rust_go_gc.Prelude.{
  ℕ, ◌+◌, ◌-◌, ◌/◌, ◌%◌, ◌^◌, ◌<◌, ◌≤◌, ◌≡◌, refl, ap, Bool, true, false, some, arith, ltb, ◌==◌,
  ◌||◌, ◌&&◌, not, get_elem?, if◌then◌else◌, Bool-cases, inl, inr, ◌⊎◌, ◌≢◌,
}
use rust_go_gc.Prelude.Outcome.{ok}
use rust_go_gc.Prelude.Word.{word, sub_word-ok, sub_mod}
use rust_go_gc.Span.{MemorySpan, MemorySpanData, in_use, Bytes, IsBytes}
use rust_go_gc.Span.Class.{size_class}
use rust_go_gc.Span.Count.Laws.{marked_from, count_allocations-marked}
use rust_go_gc.Span.Cache.{next_free_index, refill_allocations_cache}
use rust_go_gc.Span.Cache.Take.{IsReady, IsFound, IsFirstFree}
use rust_go_gc.Span.Cache.Overflow.{next_free_index-checked}
use rust_go_gc.Span.Cache.Scan.{next_free_index-IsFound}
use rust_go_gc.Heap.{Machine, Platform, Unwritten, put_span, MemoryCentral, central_free_span}
use rust_go_gc.Heap.Buffers.{pushable_index, buffer, set_buffer}
use rust_go_gc.SweepBuffer.{SweepBuffer, store}
use rust_go_gc.SweepBuffer.Slot.{slot, push-spine}
use rust_go_gc.Sweep.{
  is_bad, frees_to_heap, zeroed, recount, turn_bits, serialize, return_span, requeue,
}

-- The number of marked objects of a span.
abbrev pub marked : Bytes → MemorySpanData → ℕ
marked bytes s = marked_from bytes s.gc_mark_bits 0 s.number_of_elements

-- A span with the count of the marked objects for that of the allocated ones; its memory is to be
-- zeroed if it goes to the heap.
abbrev pub counted : Bytes → (to_heap : Bool) → MemorySpanData → MemorySpanData
counted bytes to_heap s = record (zeroed to_heap s) { allocations_count = marked bytes s }

pub counted-IsReady :
    (bytes : Bytes) (to_heap : Bool) (s : MemorySpanData)
    → IsReady bytes s
    → IsReady bytes (counted bytes to_heap s)
counted-IsReady bytes to_heap s r = record {
  in_range = r.in_range;
  cached = λ ne. record { within = (r.cached ne).within; above = (r.cached ne).above };
}

-- The search for a free object of a build does what one without overflow checks does: there are no
-- checks, or the first free object `r` is not the last of a block that the search enters at its first.
abbrev pub Searches : (checks : Bool) → Bytes → MemorySpanData → Type 0
Searches checks bytes s =
    (checks ≡ false)
    ⊎ ((r : ℕ) × IsFirstFree bytes s s.free_index r
        × ((s.number_of_elements ≤ r) ⊎ (r % 64 ≢ 63) ⊎ (r < s.free_index + 63)))

-- A count that is no more than another one is taken off it.
pub sub_mod-ok :
    (checks : Bool) (a b : ℕ) → b ≤ a → a < 2 ^ 16 → sub_mod (2 ^ 16) checks a b ≡ ok (a - b)
unfolding sub_mod
sub_mod-ok checks a b le lt = ground arith

pub next_free_index-Searches :
    (checks : Bool) (bytes : Bytes) (s : MemorySpanData)
    → IsBytes bytes
    → IsReady bytes s
    → s.number_of_elements + 64 < word
    → Searches checks bytes s
    → next_free_index checks bytes s ≡ next_free_index false bytes s
next_free_index-Searches checks bytes s small ready fits (inl none) = rw none refl
next_free_index-Searches checks bytes s small ready fits (inr (r, first, apart)) =
    elim (Bool-cases checks) [
      | inl on ↦ rw on (next_free_index-checked bytes small s r ready fits first apart)
      | inr off ↦ rw off refl
    ]

counted-Searches :
    (checks : Bool) (bytes : Bytes) (to_heap : Bool) (s : MemorySpanData)
    → Searches checks bytes s
    → Searches checks bytes (counted bytes to_heap s)
counted-Searches checks bytes to_heap s (inl none) = inl none
counted-Searches checks bytes to_heap s (inr (r, first, apart)) = inr (
  r,
  record { from = first.from; to = first.to; allocated = first.allocated; free = first.free },
  apart,
)

module _ (w : Platform) (m : Machine) (small : IsBytes m.bytes) (s : MemorySpanData)
    (searched : Searches w.checks m.bytes s) (to_heap : Bool)
    (decided : frees_to_heap s.span_class (marked m.bytes s) ≡ to_heap) (ready : IsReady m.bytes s)
    (elements : s.number_of_elements + 64 < word) (fewer : marked m.bytes s ≤ s.allocations_count)
    (count : s.allocations_count < 2 ^ 16) where
  next :
      IsFound m.bytes
        (counted m.bytes to_heap s)
        s.free_index
        (next_free_index false m.bytes (counted m.bytes to_heap s))
  next =
      next_free_index-IsFound m.bytes small (counted m.bytes to_heap s)
        (counted-IsReady m.bytes to_heap s ready) elements

  -- The span after the recount, and what the recount says.
  abbrev pub Recounted : Type 0
  Recounted =
      (f : ℕ) × (cache : ℕ) × (was_empty : Bool) × (recount w s.span_class m s
        ≡ ok (
          record (counted m.bytes to_heap s) { free_index = f; alloc_cache = cache },
          marked m.bytes s,
          s.allocations_count - marked m.bytes s,
          was_empty,
        ))

  pub recount-Recounted : Recounted
  unfolding recount
  recount-Recounted =
      let low : marked m.bytes s % 2 ^ 16 ≡ marked m.bytes s = omega arith in
      let not_more : ltb s.allocations_count (marked m.bytes s) ≡ false = ground arith in
      (
        next.after.free_index,
        next.after.alloc_cache,
        next.result == next.after.number_of_elements,
        rw
            (
              count_allocations-marked m.bytes s small,
              low,
              decided,
              sub_mod-ok w.checks s.allocations_count (marked m.bytes s) fewer count,
              not_more,
              next_free_index-Searches w.checks m.bytes (counted m.bytes to_heap s) small
                  (counted-IsReady m.bytes to_heap s ready) elements
                  (counted-Searches w.checks m.bytes to_heap s searched),
              next.returns,
            )
            (ap
              (λ (t : MemorySpanData). ok (
                t,
                marked m.bytes s,
                s.allocations_count - marked m.bytes s,
                next.result == next.after.number_of_elements,
              ))
              next.same),
      )

-- The mark bits of a span become its allocation bits; `bits` are the new mark bits.
abbrev pub turned : Bytes → (bits : ℕ) → MemorySpanData → MemorySpanData
turned bytes bits s =
    refill_allocations_cache bytes 0
      (record s { free_index = 0; alloc_bits = s.gc_mark_bits; gc_mark_bits = bits })

pub span_at-put_span_self :
    (p : MemorySpan) (s : MemorySpanData) (m : Machine) → (put_span p s m).span_at p ≡ some s
unfolding put_span
span_at-put_span_self p s m = let self : (p == p) ≡ true = ground arith in rw self

-- The machine with the free off-heap memory from `k` on.
abbrev pub with_brk : ℕ → Machine → Machine
with_brk k m = record m { offheap = record (m.offheap) { brk = k } }

pub turn_bits-ok :
    (u : Unwritten) (p : MemorySpan) (bits k : ℕ) (s : MemorySpanData) (m : Machine)
    → ((m' : Machine)
        → m'.offheap ≡ m.offheap
        → u.new_mark_bits s.number_of_elements m' ≡ ok (bits, with_brk k m'))
    → turn_bits u p s m
      ≡ ok (
        turned m.bytes bits s,
        with_brk k (put_span p (record s { free_index = 0; alloc_bits = s.gc_mark_bits }) m),
      )
unfolding turn_bits
turn_bits-ok u p bits k s m fresh =
    let t = record s { free_index = 0; alloc_bits = s.gc_mark_bits } in
    rw (fresh (put_span p t m) (unfold put_span in refl), span_at-put_span_self p t m)
      (unfold put_span in refl)

pub is_bad-due :
    (w : Platform) (g : ℕ) (s : MemorySpanData)
    → g < word
    → s.state ≡ in_use
    → s.sweep_generation + 1 ≡ g
    → is_bad w g s ≡ ok false
unfolding is_bad
is_bad-due w g s fits using due =
    let before : (s.sweep_generation == g - 1) ≡ true = ground arith in
    rw (using, sub_word-ok w.checks g 1 (omega arith) fits, before)

-- The generation after the sweep: it is set where the span goes to the heap or nothing was freed.
abbrev pub serialized : (g : ℕ) → (to_heap : Bool) → (freed : ℕ) → MemorySpanData → MemorySpanData
serialized g to_heap freed s = record s {
  sweep_generation = if to_heap || freed == 0 then g else s.sweep_generation;
}

pub serialize-ok :
    (w : Platform) (g : ℕ) (to_heap : Bool) (freed : ℕ) (s : MemorySpanData)
    → g < word
    → s.state ≡ in_use
    → s.sweep_generation + 1 ≡ g
    → serialize w g (to_heap || freed == 0) s ≡ ok (serialized g to_heap freed s)
unfolding serialize
serialize-ok w g to_heap freed s fits using due = elim (Bool-cases (to_heap || freed == 0)) [
  | inl sets ↦ rw (sets, is_bad-due w g s fits using due)
  | inr leaves ↦ rw leaves
]

pub return_span-kept :
    (w : Platform) (p : MemorySpan) (class freed : ℕ) (preserve was_empty : Bool) (m : Machine)
    (c : MemoryCentral)
    → get_elem? m.heap.central class ≡ some c
    → return_span w p class freed false preserve was_empty m ≡ ok (false, m)
unfolding return_span central_free_span
return_span-kept w p class freed preserve was_empty m c at =
    elim (Bool-cases (ltb 0 freed && not (size_class class == 0))) [
      | inl some_freed ↦ rw (some_freed, at)
      | inr other ↦ rw other
    ]

-- The machine after a span is on the buffer of swept spans.
abbrev pub requeued : (i : ℕ) → MemorySpan → Machine → Machine
requeued i p m =
    let b = buffer i m.heap in
    record m {
      heap = set_buffer i (record b { index = b.index + 1 }) m.heap;
      offheap = store (slot b.spine b.index) p m.offheap;
    }

-- A buffer that has the block of the next push.
abbrev pub HasRoom : SweepBuffer → Type 0
HasRoom b = (0 < b.spine) × (b.index / 512 < b.spine_length) × (b.index + 1 < word)

pub requeue-ok :
    (w : Platform) (g : ℕ) (p : MemorySpan) (m : Machine)
    → HasRoom (buffer (pushable_index g) m.heap)
    → requeue w g p m ≡ ok (requeued (pushable_index g) p m)
unfolding requeue
requeue-ok w g p m (pos, known, fits) =
    rw (push-spine w.checks p (buffer (pushable_index g) m.heap) m.offheap pos known fits)
