-- ===== src/Examples/Span.antt =====
-- Runs and instances for the code of src/memory_span.rs.
use rust_go_gc.Prelude.{
  ℕ, zero, suc, ◌+◌, ◌-◌, ◌*◌, ◌/◌, ◌%◌, ◌^◌, ◌<◌, ◌≡◌, ◌↔◌, refl, Bool, true, false, Bool-cases,
  ◌&&◌, inl, inr, arith, ◌==◌, if◌then◌else◌,
}
use rust_go_gc.Prelude.Bits.{bit, trailing_zeros, shr}
use rust_go_gc.Prelude.Outcome.{ok, panic, Panic}
use rust_go_gc.Prelude.Word.{add_word, sub_mod}
use rust_go_gc.Span.{MemorySpanData, in_use, Bytes, IsBytes}
use rust_go_gc.Span.Count.{count_allocations, count_bytes, table_entry, one_bit_count}
use rust_go_gc.Span.Count.Laws.{marked_from, count_allocations-marked}
use rust_go_gc.Span.Cache.{
  le_bytes, refill_allocations_cache, refill_at_block, shr_word, take_index, scan, next_free_index,
}
use rust_go_gc.Span.Cache.Refill.{IsCached, refill-IsCached}
use rust_go_gc.Span.Cache.Take.{IsFirstFree, IsReady, IsFound}
use rust_go_gc.Span.Cache.Scan.{next_free_index-IsFound}
use rust_go_gc.Span.Cache.Overflow.{next_free_index-overflow, next_free_index-checked}
use rust_go_gc.Span.Pages.{physical_page_bounds, released, page_size}
use rust_go_gc.Span.Pages.Bounds.{released-overcounts, physical_page_bounds-aligned}
use rust_go_gc.Span.Class.{
  size_class, no_scan, num_span_classes, num_size_classes, tiny_span_class, tiny_size_class,
}
use rust_go_gc.Span.Class.Laws.{span_class_parts}

-- The bitmap at 1000: objects 0 and 2 are allocated.
abbrev pub few : Bytes
few a = if a == 1000 then 5 else 0

pub few-IsBytes : IsBytes few
few-IsBytes a = ground arith

-- The bitmap at 1000: of the first 64 objects all but the last are allocated.
abbrev most : Bytes
most a = if a == 1007 then 127 else 255

most-IsBytes : IsBytes most
most-IsBytes a = ground arith

abbrev pub span_of_elements : ℕ → MemorySpanData
span_of_elements n = record {
  in_list = false;
  start_address = 8192;
  number_of_pages = 1;
  free_index = 0;
  number_of_elements = n;
  alloc_cache = 0;
  alloc_bits = 1000;
  gc_mark_bits = 1000;
  sweep_generation = 4;
  allocations_count = 2;
  span_class = 5;
  state = in_use;
  need_zero = 0;
  element_size = 16;
  unused_since = 0;
  number_of_pages_released = 0;
  scavenged = true;
}

abbrev few_of_10 : MemorySpanData
few_of_10 = refill_allocations_cache few (0 / 8) (span_of_elements 10)

abbrev most_of_70 : MemorySpanData
most_of_70 = refill_allocations_cache most (0 / 8) (span_of_elements 70)

few_of_10-IsReady : IsReady few few_of_10
unfolding refill_allocations_cache
few_of_10-IsReady = record {
  in_range = omega arith;
  cached = λ ne. refill-IsCached few few-IsBytes (span_of_elements 10) 0 refl;
}

most_of_70-IsReady : IsReady most most_of_70
unfolding refill_allocations_cache
most_of_70-IsReady = record {
  in_range = omega arith;
  cached = λ ne. refill-IsCached most most-IsBytes (span_of_elements 70) 0 refl;
}

run_few :
    next_free_index false few few_of_10
    ≡ ok (1, record few_of_10 { free_index = 2; alloc_cache = (2 ^ 64 - 6) / 4 })
unfolding refill_allocations_cache next_free_index scan take_index le_bytes shr_word add_word
    trailing_zeros refill_at_block shr
run_few = refl

run_most : next_free_index true most most_of_70 ≡ panic Panic.overflow
unfolding refill_allocations_cache next_free_index scan take_index le_bytes shr_word add_word
    trailing_zeros refill_at_block shr
run_most = refl

next_free_index-IsFound_example :
    IsFound few few_of_10 few_of_10.free_index (next_free_index false few few_of_10)
unfolding refill_allocations_cache
next_free_index-IsFound_example =
    next_free_index-IsFound few few-IsBytes few_of_10 few_of_10-IsReady (omega arith)

first_few : IsFirstFree few few_of_10 few_of_10.free_index 1
unfolding refill_allocations_cache bit
first_few = record {
  from = omega arith;
  to = omega arith;
  allocated = λ i h lt. let e : i ≡ 0 = omega arith in rw e refl;
  free = λ h. refl;
}

all_set : ℕ → ℕ → Bool
all_set x zero = true
all_set x (suc k) = bit x k && all_set x k

set_of_all : (x k i : ℕ) → all_set x k ≡ true → i < k → bit x i ≡ true
unfolding all_set
set_of_all x zero i h lt = absurd (omega arith)
set_of_all x (suc k) i h lt = ground (arith, set_of_all x k i)

all_set_255 : all_set 255 8 ≡ true
unfolding all_set bit
all_set_255 = refl

all_set_127 : all_set 127 7 ≡ true
unfolding all_set bit
all_set_127 = refl

first_most : IsFirstFree most most_of_70 most_of_70.free_index 63
unfolding refill_allocations_cache
first_most = record {
  from = omega arith;
  to = omega arith;
  allocated = λ i h lt. elim (Bool-cases (1000 + i / 8 == 1007)) [
    | inl last ↦ rw last (set_of_all 127 7 (i % 8) all_set_127 (ground arith))
    | inr before ↦ rw before (set_of_all 255 8 (i % 8) all_set_255 (omega arith))
  ];
  free = λ h. unfold bit in refl;
}

next_free_index-overflow_example : next_free_index true most most_of_70 ≡ panic Panic.overflow
unfolding refill_allocations_cache
next_free_index-overflow_example =
    next_free_index-overflow most most-IsBytes most_of_70 63 most_of_70-IsReady (omega arith)
      first_most (omega arith) (refl, omega arith)

next_free_index-checked_example :
    next_free_index true few few_of_10 ≡ next_free_index false few few_of_10
unfolding refill_allocations_cache
next_free_index-checked_example =
    next_free_index-checked few few-IsBytes few_of_10 1 few_of_10-IsReady (omega arith) first_few
      (inr (inr (omega arith)))

refilled : IsCached few (refill_allocations_cache few (64 / 8) (span_of_elements 100)) 64
refilled = refill-IsCached few few-IsBytes (span_of_elements 100) 64 refl

run_count : count_allocations few (span_of_elements 2) ≡ ok 1
unfolding count_allocations count_bytes table_entry one_bit_count
run_count = refl

count_allocations-marked_example :
    count_allocations few (span_of_elements 10) ≡ ok (marked_from few 1000 0 10)
count_allocations-marked_example = count_allocations-marked few (span_of_elements 10) few-IsBytes

released-overcounts_example :
    released true 4096 (span_of_elements 10) ≡ ok (1 * page_size + 8192 * (page_size - 1))
released-overcounts_example =
    released-overcounts true 4096 (span_of_elements 10) refl (omega arith) (omega arith)

few_rounded :
    physical_page_bounds true (2 ^ 16) (span_of_elements 10)
    ≡ ok ((8192 + 2 ^ 16 - 1) / 2 ^ 16 * 2 ^ 16, (8192 + 1) * page_size / 2 ^ 16 * 2 ^ 16)
few_rounded =
    physical_page_bounds-aligned true 16 (span_of_elements 10) (omega arith) (omega arith)
      (omega arith) (omega arith)

run_released : released true 4096 (span_of_elements 10) ≡ ok 67108864
unfolding released physical_page_bounds add_word sub_mod
run_released = refl

parts_5 :
    (5 ≡ size_class 5 * 2 + (if no_scan 5 then 1 else 0))
    × ((5 < num_span_classes) ↔ (size_class 5 < num_size_classes))
    × (size_class tiny_span_class ≡ tiny_size_class)
    × (no_scan tiny_span_class ≡ true)
parts_5 = span_class_parts 5
