-- ===== src/Sweep/Ends.antt =====
-- The end of `sweep` of src/memory_span.rs, over all that it calls.
use rust_go_gc.Prelude.{
  ℕ, zero, suc, ◌+◌, ◌/◌, ◌%◌, ◌^◌, ◌<◌, ◌≡◌, Bool, true, false, not, ◌&&◌, ◌||◌, some, ltb, ◌==◌,
  get_elem?,
}
use rust_go_gc.Prelude.Outcome.{
  ok, Panic, Ends, >>=-Ends, if-Ends, ok-Ends, panic_if-Ends, deref-Ends, in_bounds-Ends,
  deref-eq-ok,
}
use rust_go_gc.Prelude.Word.{word, add_word-Ends, sub_mod-Ends}
use rust_go_gc.Span.{State, dead, in_use, manual, free, MemorySpan, MemorySpanData, Bytes}
use rust_go_gc.Span.Class.{size_class}
use rust_go_gc.Span.Count.{one_bit_count, table_entry, count_bytes, count_allocations}
use rust_go_gc.Span.Cache.Ends.{next_free_index-Ends}
use rust_go_gc.Span.Pages.{page_size, physical_page_bounds, released}
use rust_go_gc.SweepBuffer.Ends.{push-Ends}
use rust_go_gc.Heap.{Machine, Platform, Unwritten, put_span}
use rust_go_gc.Heap.Buffers.{pushable_index, buffer}
use rust_go_gc.Heap.Free.{coalesce, check_state, locked_free_span, free_span}
use rust_go_gc.Sweep.{
  is_in_use, is_bad, frees_to_heap, recount, turn_bits, serialize, return_span, requeue,
  with_pages_swept, sweep,
}

-- The count of the marked objects.
table_entry-Ends : (i : ℕ) → Ends (table_entry i)
unfolding table_entry
table_entry-Ends i = in_bounds-Ends (get_elem? one_bit_count i)

count_bytes-Ends : (bytes : Bytes) (bits n i count : ℕ) → Ends (count_bytes bytes bits n i count)
unfolding count_bytes
count_bytes-Ends bytes bits zero i count = λ e. cc
count_bytes-Ends bytes bits (suc n) i count =
    >>=-Ends _ _ (table_entry-Ends (bytes (bits + i)))
      λ ones _. count_bytes-Ends bytes bits n (i + 1) (count + ones)

count_allocations-Ends : (bytes : Bytes) (s : MemorySpanData) → Ends (count_allocations bytes s)
unfolding count_allocations
count_allocations-Ends bytes s =
    >>=-Ends _ _ (count_bytes-Ends bytes s.gc_mark_bits (s.number_of_elements / 8) 0 0) λ count _.
      if-Ends (s.number_of_elements % 8 == 0) (ok count) _ (λ e. cc)
        (>>=-Ends _ _ (table_entry-Ends _) λ ones _. ok-Ends (count + ones))

-- The way to the heap.
module _ (checks : Bool) (physical_page_size : ℕ) (s : MemorySpanData) where
  physical_page_bounds-Ends : Ends (physical_page_bounds checks physical_page_size s)
  unfolding physical_page_bounds
  physical_page_bounds-Ends =
      >>=-Ends _ _ (add_word-Ends checks s.start_address s.number_of_pages) λ sum _.
        if-Ends (ltb page_size physical_page_size) _ (ok _)
          (>>=-Ends _ _ (add_word-Ends checks s.start_address physical_page_size) λ raised _.
            >>=-Ends _ _ (sub_mod-Ends word checks raised 1) λ less_one _.
              >>=-Ends _ _ (sub_mod-Ends word checks physical_page_size 1) λ below _ e. cc)
          (λ e. cc)

  released-Ends : Ends (released checks physical_page_size s)
  unfolding released
  released-Ends =
      if-Ends s.scavenged _ (ok 0)
        (>>=-Ends _ _ physical_page_bounds-Ends
          λ (start, end) _. sub_mod-Ends word checks end start)
        (λ e. cc)

module _ (w : Platform) where
  check_state-Ends :
      (state : State) (s : MemorySpanData) (m : Machine) → Ends (check_state w state s m)
  unfolding check_state
  check_state-Ends manual s m =
      >>=-Ends _ _ (panic_if-Ends (not (s.allocations_count == 0)) Panic.invalid_stack_free)
        λ _ _. ok-Ends m
  check_state-Ends in_use s m =
      >>=-Ends _ _
        (panic_if-Ends
          (not (s.allocations_count == 0) || not (s.sweep_generation == m.heap.sweep_generation))
          Panic.invalid_free)
        λ _ _.
          >>=-Ends _ _ (sub_mod-Ends word w.checks m.heap.protected.pages_in_use s.number_of_pages)
            λ n _ e. cc
  check_state-Ends dead s m = λ e. cc
  check_state-Ends free s m = λ e. cc

  coalesce-Ends : (p : MemorySpan) (m : Machine) → Ends (coalesce w p m)
  unfolding coalesce
  coalesce-Ends p m =
      >>=-Ends _ _ (deref-Ends (m.span_at p))
        λ t _. >>=-Ends _ _ (released-Ends w.checks w.physical_page_size t) λ n _. ok-Ends m

  free_span-Ends : (p : MemorySpan) (account : ℕ) (m : Machine) → Ends (free_span w p account m)
  unfolding free_span locked_free_span
  free_span-Ends p account m = >>=-Ends _ _ (deref-Ends (m.span_at p)) λ s _.
      >>=-Ends _ _ (check_state-Ends s.state s m)
        λ m' _. coalesce-Ends p (put_span p (record s { state = free; unused_since = m'.clock }) m')

  is_bad-Ends : (g : ℕ) (s : MemorySpanData) → Ends (is_bad w g s)
  unfolding is_bad
  is_bad-Ends g s =
      if-Ends (is_in_use s.state) _ (ok true)
        (>>=-Ends _ _ (sub_mod-Ends word w.checks g 1) λ before _ e. cc) (λ e. cc)

  turn_bits-Ends :
      (u : Unwritten)
      → ((n : ℕ) (m : Machine) → Ends (u.new_mark_bits n m))
      → (p : MemorySpan) (s : MemorySpanData) (m : Machine) → Ends (turn_bits u p s m)
  unfolding turn_bits
  turn_bits-Ends u bits p s m =
      >>=-Ends _ _ (bits s.number_of_elements _)
        λ (b, m') _. >>=-Ends _ _ (deref-Ends (m'.span_at p)) λ t _. ok-Ends _

  recount-Ends :
      (class : ℕ) (m : Machine) (s : MemorySpanData)
      → s.number_of_elements + 64 < word
      → Ends (recount w class m s)
  unfolding recount
  recount-Ends class m s fits = >>=-Ends _ _ (count_allocations-Ends m.bytes s) λ counted _.
      >>=-Ends _ _ (sub_mod-Ends (2 ^ 16) w.checks s.allocations_count (counted % 2 ^ 16))
        λ freed _.
          >>=-Ends _ _
            (panic_if-Ends (ltb s.allocations_count (counted % 2 ^ 16))
              Panic.sweep_increased_allocation_count)
            λ _ _. >>=-Ends _ _ (next_free_index-Ends w.checks m.bytes _ fits) λ r _. ok-Ends _

  serialize-Ends : (g : ℕ) (owned : Bool) (s : MemorySpanData) → Ends (serialize w g owned s)
  unfolding serialize
  serialize-Ends g owned s =
      if-Ends owned _ (ok s)
        (>>=-Ends _ _ (is_bad-Ends g s) λ bad _.
          >>=-Ends _ _ (panic_if-Ends bad Panic.bad_span_state_after_sweep) λ _ _. ok-Ends _)
        (ok-Ends s)

  return_span-Ends :
      (p : MemorySpan) (class freed : ℕ) (to_heap preserve was_empty : Bool) (m : Machine)
      → Ends (return_span w p class freed to_heap preserve was_empty m)
  unfolding return_span
  return_span-Ends p class freed to_heap preserve was_empty m =
      if-Ends (ltb 0 freed && not (size_class class == 0)) _ _
        (>>=-Ends _ _ (in_bounds-Ends (get_elem? m.heap.central class)) λ c _. ok-Ends _)
        (if-Ends to_heap _ _ (>>=-Ends _ _ (free_span-Ends p 1 m) λ m' _. ok-Ends (true, m'))
          (ok-Ends (false, m)))

  requeue-Ends : (g : ℕ) (p : MemorySpan) (m : Machine) → Ends (requeue w g p m)
  unfolding requeue
  requeue-Ends g p m =
      >>=-Ends _ _ (push-Ends w.checks p (buffer (pushable_index g) m.heap) m.offheap)
        λ r _. ok-Ends _

-- Every span has fewer than 2^64 - 64 objects.
abbrev pub AreSmall : Machine → Type 0
AreSmall m =
    (p : MemorySpan) (s : MemorySpanData) → m.span_at p ≡ some s → s.number_of_elements + 64 < word

-- What a sweep needs of the functions that are not written: that they end, and that `free_specials`
-- does not make a span grow too large.
pub record AreEnding (u : Unwritten) : Type 0 where
  pub specials : (p : MemorySpan) (m : Machine) → AreSmall m → Ends (u.free_specials p m)
  pub small :
      (p : MemorySpan) (m m' : Machine) → AreSmall m → u.free_specials p m ≡ ok m' → AreSmall m'
  pub bits : (n : ℕ) (m : Machine) → Ends (u.new_mark_bits n m)

pub sweep-Ends :
    (w : Platform) (u : Unwritten) (p : MemorySpan) (preserve : Bool) (m : Machine)
    → AreEnding u
    → AreSmall m
    → Ends (sweep w u p preserve m)
unfolding sweep
sweep-Ends w u p preserve m ending small = >>=-Ends _ _ (deref-Ends (m.span_at p)) λ s _.
    >>=-Ends _ _ (is_bad-Ends w m.heap.sweep_generation s) λ bad _.
      >>=-Ends _ _ (panic_if-Ends bad Panic.bad_span_state) λ _ _.
        >>=-Ends _ _ (ending.specials p (with_pages_swept s.number_of_pages m) small)
          λ m₁ freed_specials. >>=-Ends _ _ (deref-Ends (m₁.span_at p)) λ s₁ at.
            >>=-Ends _ _
              (recount-Ends w s.span_class m₁ s₁ (
                ending.small p (with_pages_swept s.number_of_pages m) m₁ small freed_specials p s₁
                  (deref-eq-ok (m₁.span_at p) at)))
              λ (s₂, marked, freed, was_empty) _.
                >>=-Ends _ _ (turn_bits-Ends w u ending.bits p s₂ m₁) λ (s₃, m₂) _.
                  >>=-Ends _ _
                    (serialize-Ends w m.heap.sweep_generation
                      (frees_to_heap s.span_class marked || freed == 0) s₃)
                    λ s₄ _.
                      >>=-Ends _ _
                        (return_span-Ends w p s.span_class freed (frees_to_heap s.span_class marked)
                          preserve was_empty (put_span p s₄ m₂))
                        λ (result, m₃) _. if-Ends result _ _ (ok-Ends (result, m₃)) (
                          >>=-Ends _ _ (requeue-Ends w m.heap.sweep_generation p m₃)
                            λ m₄ _. ok-Ends (result, m₄))
