-- ===== src/Examples/Sweep.antt =====
-- Instances for `sweep` of src/memory_span.rs.
use rust_go_gc.Prelude.{
  ◌+◌, ◌/◌, ◌<◌, ◌^◌, length, [], ◌∷◌, ◌%◌, ◌≡◌, ◌≢◌, refl, inl, inr, true, false, none, some,
  arith, ◌==◌, if◌then◌else◌,
}
use rust_go_gc.Prelude.Bits.{bit}
use rust_go_gc.Prelude.Outcome.{ok, panic, Panic}
use rust_go_gc.Prelude.Word.{word}
use rust_go_gc.Span.{MemorySpan, MemorySpanData, free}
use rust_go_gc.Span.Class.{size_class}
use rust_go_gc.Span.Count.Laws.{marked_from}
use rust_go_gc.Span.Cache.{refill_allocations_cache}
use rust_go_gc.Span.Cache.Refill.{refill-IsCached}
use rust_go_gc.Span.Cache.Take.{IsFirstFree, IsReady}
use rust_go_gc.Span.Cache.Drain.{allocate_all, clear_from}
use rust_go_gc.SweepBuffer.{store}
use rust_go_gc.SweepBuffer.Slot.{slot}
use rust_go_gc.Heap.{memory_central, Machine, Platform, Unwritten, as_written}
use rust_go_gc.Heap.Buffers.{popable_index, pushable_index, buffer}
use rust_go_gc.Heap.SetSpan.Entry.{platform_64}
use rust_go_gc.Sweep.{sweep, frees_to_heap}
use rust_go_gc.Sweep.Written.{sweep-as_written}
use rust_go_gc.Sweep.Parts.{marked, Searches, HasRoom}
use rust_go_gc.Sweep.InPlace.{IsDue, swept}
use rust_go_gc.Sweep.Kept.{sweep-kept, sweep-reuses}
use rust_go_gc.Sweep.Freed.{sweep-freed}
use rust_go_gc.Sweep.Refused.{increases, wraps, sweep-Refused}
use rust_go_gc.Examples.Span.{span_of_elements, few, few-IsBytes}
use rust_go_gc.Examples.SweepBuffer.{one_block}
use rust_go_gc.Examples.Heap.{heap_of, machine_of}

-- Spans have no special records, and the new mark bits are those at 9000.
abbrev pub working : Unwritten
working = record as_written { free_specials = λ p m. ok m; new_mark_bits = λ n m. ok (9000, m) }

-- A span claimed for the sweep in generation 4: of its 3 objects 2 are marked.
abbrev pub claimed : MemorySpanData
claimed = refill_allocations_cache few (0 / 8) (record (span_of_elements 10) {
  sweep_generation = 3;
  allocations_count = 3;
  gc_mark_bits = 1000;
})

abbrev machine : Machine
machine =
    record (machine_of (heap_of (λ i. none) one_block one_block)
      (λ p. if p == 64 then some claimed else none)) { bytes = few }

abbrev release : Platform
release = platform_64 false 4096

claimed-IsReady : IsReady few claimed
unfolding refill_allocations_cache
claimed-IsReady = record {
  in_range = omega arith;
  cached = λ ne.
      refill-IsCached few few-IsBytes
        (record (span_of_elements 10) {
          sweep_generation = 3;
          allocations_count = 3;
          gc_mark_bits = 1000;
        })
        0 refl;
}

marked_2 : marked_from few 1000 0 10 ≡ 2
unfolding marked_from bit
marked_2 = refl

pub claimed-IsDue : IsDue 4 few claimed
unfolding refill_allocations_cache
claimed-IsDue = record {
  using = refl;
  due = refl;
  ready = claimed-IsReady;
  elements = omega arith;
  fewer = (let e = marked_2 in omega arith);
  count = omega arith;
}

pub stays : frees_to_heap claimed.span_class (marked few claimed) ≡ false
unfolding refill_allocations_cache size_class
stays = refl

has_room : HasRoom (buffer (pushable_index machine.heap.sweep_generation) machine.heap)
unfolding buffer pushable_index
has_room = (omega arith, omega arith, omega arith)

-- A build with overflow checks, where the search for a free object finds object 1.
abbrev pub debug : Platform
debug = platform_64 true 4096

first_is_1 : IsFirstFree few claimed 0 1
unfolding refill_allocations_cache bit
first_is_1 = record {
  from = omega arith;
  to = omega arith;
  allocated = λ i from lt. let e : i ≡ 0 = omega arith in rw e refl;
  free = λ lt. refl;
}

pub searched : Searches debug.checks few claimed
unfolding refill_allocations_cache
searched = inr (1, first_is_1, inr (inr (omega arith)))

sweep-kept_example :
    (m' : Machine) × (sweep debug working 64 false machine ≡ ok (false, m'))
    × ((q : MemorySpan)
        → m'.span_at q
          ≡ (if q == 64 then some (swept few 4 false 9000 claimed) else machine.span_at q))
    × IsReady m'.bytes (swept few 4 false 9000 claimed)
    × (m'.heap.pages_swept ≡ (machine.heap.pages_swept + 1) % word)
    × (let b = buffer (pushable_index 4) machine.heap in
        (buffer (pushable_index 4) m'.heap ≡ record b { index = b.index + 1 })
        × (buffer (popable_index 4) m'.heap ≡ buffer (popable_index 4) machine.heap)
        × (m'.offheap ≡ store (slot b.spine b.index) 64 machine.offheap))
unfolding refill_allocations_cache
sweep-kept_example =
    sweep-kept debug working 64 machine claimed memory_central 9000 searched refl few-IsBytes
      (omega arith) claimed-IsDue stays has_room refl
      (record { no_specials = λ m. refl; fresh = λ m. refl })

sweep-reuses_example :
    (m' : Machine) × (s' : MemorySpanData) × (full : MemorySpanData) × (sweep release working 64
        false machine
      ≡ ok (false, m'))
    × (m'.span_at 64 ≡ some s')
    × (allocate_all false m'.bytes (10 + 1) s' ≡ ok (clear_from few 1000 0 10, full))
    × (length (clear_from few 1000 0 10) + marked few claimed ≡ 10)
unfolding refill_allocations_cache
sweep-reuses_example =
    sweep-reuses release working 64 machine claimed memory_central 9000 refl refl few-IsBytes
      (omega arith) claimed-IsDue stays has_room refl
      (record { no_specials = λ m. refl; fresh = λ m. refl })

unmarked_8 : clear_from few 1000 0 10 ≡ 1 ∷ 3 ∷ 4 ∷ 5 ∷ 6 ∷ 7 ∷ 8 ∷ 9 ∷ []
unfolding clear_from bit
unmarked_8 = refl

-- A span with one large object, which is not marked.
abbrev large : MemorySpanData
large = refill_allocations_cache few (0 / 8) (record (span_of_elements 1) {
  sweep_generation = 3;
  allocations_count = 1;
  gc_mark_bits = 2000;
  span_class = 0;
  scavenged = false;
})

abbrev machine_large : Machine
machine_large = record machine { span_at = λ p. if p == 64 then some large else none }

unmarked : marked_from few 2000 0 1 ≡ 0
unfolding marked_from bit
unmarked = refl

large-IsDue : IsDue 4 few large
unfolding refill_allocations_cache
large-IsDue = record {
  using = refl;
  due = refl;
  ready = record {
    in_range = omega arith;
    cached = λ ne.
        refill-IsCached few few-IsBytes
          (record (span_of_elements 1) {
            sweep_generation = 3;
            allocations_count = 1;
            gc_mark_bits = 2000;
            span_class = 0;
            scavenged = false;
          })
          0 refl;
  };
  elements = omega arith;
  fewer = (let e = unmarked in omega arith);
  count = omega arith;
}

goes : frees_to_heap large.span_class (marked few large) ≡ true
unfolding refill_allocations_cache size_class marked_from bit
goes = refl

sweep-freed_example :
    (m' : Machine) × (s' : MemorySpanData) × (sweep release working 64 false machine_large
      ≡ ok (true, m'))
    × ((q : MemorySpan) → m'.span_at q ≡ (if q == 64 then some s' else machine_large.span_at q))
    × (s'.state ≡ free)
    × (s'.unused_since ≡ 77)
    × (s'.need_zero ≡ 1)
    × (s'.allocations_count ≡ 0)
    × (s'.sweep_generation ≡ 4)
    × (m'.heap.protected.pages_in_use ≡ 8)
unfolding refill_allocations_cache
sweep-freed_example =
    sweep-freed release working 64 machine_large large 9000 (inl refl) refl few-IsBytes
      (omega arith) large-IsDue goes (record { no_specials = λ m. refl; fresh = λ m. refl }) refl
      (omega arith) (omega arith)

unwritten_panics : sweep release as_written 64 false machine ≢ ok (true, machine)
unwritten_panics = sweep-as_written release 64 false machine (true, machine)

-- Of the objects of this span one is allocated and two are marked.
abbrev miscounted : MemorySpanData
miscounted = record claimed { allocations_count = 1 }

abbrev machine_miscounted : Machine
machine_miscounted = record machine { span_at = λ p. if p == 64 then some miscounted else none }

more_marked : miscounted.allocations_count < marked few miscounted
unfolding refill_allocations_cache
more_marked = let e = marked_2 in omega arith

few_marked : marked few miscounted < 2 ^ 16
unfolding refill_allocations_cache
few_marked = let e = marked_2 in omega arith

sweep-Refused_example :
    sweep release working 64 true machine_miscounted ≡ panic Panic.sweep_increased_allocation_count
unfolding refill_allocations_cache
sweep-Refused_example =
    sweep-Refused release working 64 true machine_miscounted miscounted
      Panic.sweep_increased_allocation_count refl few-IsBytes (omega arith) (omega arith)
      (λ m. refl) (increases refl refl refl more_marked few_marked)

debug_wraps : sweep debug working 64 true machine_miscounted ≡ panic Panic.overflow
unfolding refill_allocations_cache
debug_wraps =
    sweep-Refused debug working 64 true machine_miscounted miscounted Panic.overflow refl
      few-IsBytes (omega arith) (omega arith) (λ m. refl)
      (wraps refl refl refl more_marked few_marked)
