-- ===== src/Examples/Heap.antt =====
-- Runs and instances for the code of src/memory_heap.rs, src/static_vec.rs and the sweep of a span.
use rust_go_gc.Prelude.{
  ℕ, ◌+◌, ◌/◌, ◌%◌, ◌≡◌, refl, true, false, Option, none, some, arith, ◌==◌, if◌then◌else◌,
}
use rust_go_gc.Prelude.Outcome.{ok, panic, Panic, undefined_behaviour}
use rust_go_gc.Prelude.Word.{word}
use rust_go_gc.Span.{MemorySpan, MemorySpanData, in_use, free}
use rust_go_gc.Span.Pages.{page_size}
use rust_go_gc.SweepBuffer.{SweepBuffer}
use rust_go_gc.Heap.{
  memory_span_list, MemoryHeap, HeapArena, ArenaMap, Machine, Platform, put_span, filled,
  memory_central, Unwritten, as_written,
}
use rust_go_gc.Heap.Buffers.{pushable_index, popable_index, buffer, set_buffer, buffers_trade}
use rust_go_gc.Heap.Merge.{merge}
use rust_go_gc.Heap.Merge.Spans.{merged, merge-merged}
use rust_go_gc.Heap.New.{static_vec_new, static_vec_new-same}
use rust_go_gc.Heap.Free.{locked_free_span}
use rust_go_gc.Heap.Free.Branches.{
  IsFreeable, pages_left, freed, locked_free_span-freed, IsFreeable-of_locked_free_span,
  locked_free_span-twice,
}
use rust_go_gc.Heap.SetSpan.{set_span}
use rust_go_gc.Heap.SetSpan.Entry.{platform_64, span_entry, set_span-entry, set_span-unmapped}
use rust_go_gc.Examples.Span.{span_of_elements}
use rust_go_gc.Examples.SweepBuffer.{sevens, one_block}

abbrev pub heap_of : (arenas : ℕ → Option ArenaMap) (first second : SweepBuffer) → MemoryHeap
heap_of arenas first second = record {
  protected = record {
    free = record { treap = 0 };
    scav = record { treap = 0 };
    busy = filled 128 memory_span_list;
    busy_large = memory_span_list;
    static_spans = record { buffer = 4096; capacity = 0; vec_length = 0 };
    pages_in_use = 9;
    arenas = arenas;
  };
  sweep_generation = 4;
  sweep_done = false;
  sweepers = 0;
  sweep_buffer_0 = first;
  sweep_buffer_1 = second;
  pages_swept = 0;
  arena_start = 0;
  arena_used = 0;
  central = filled 134 memory_central;
}

-- A span in use, without objects, swept in generation 4, at address 64.
abbrev swept : MemorySpanData
swept = record (span_of_elements 10) { allocations_count = 0; scavenged = false }

abbrev empty_arena : HeapArena
empty_arena = record { span_table = λ i. 0; page_in_use = λ i. 0; page_marks = λ i. 0 }

-- The arena map with every arena.
abbrev level : ArenaMap
level j = some empty_arena

abbrev pub no_buffer : SweepBuffer
no_buffer = record { index = 0; spine_length = 0; spine_cap = 0; spine = 0 }

abbrev pub machine_of : MemoryHeap → (MemorySpan → Option MemorySpanData) → Machine
machine_of h spans = record {
  heap = h;
  span_at = spans;
  offheap = sevens;
  bytes = λ a. 0;
  clock = 77;
}

abbrev machine : Machine
machine = machine_of (heap_of (λ i. some level) no_buffer no_buffer) (λ p. some swept)

abbrev unmapped : Machine
unmapped = machine_of (heap_of (λ i. none) no_buffer no_buffer) (λ p. some swept)

abbrev w : Platform
w = platform_64 true 4096

after : Machine
after = put_span 64 (freed swept none machine) (pages_left in_use swept machine)

free_once : locked_free_span w 64 true true none machine ≡ ok after
unfolding after
free_once =
    locked_free_span-freed w 64 true true none machine swept refl refl (omega arith)
      (refl, refl, omega arith)

locked_free_span-freed_example :
    locked_free_span w 64 true true none machine
    ≡ ok (put_span 64 (freed swept none machine) (pages_left in_use swept machine))
locked_free_span-freed_example =
    locked_free_span-freed w 64 true true none machine swept refl refl (omega arith)
      (refl, refl, omega arith)

IsFreeable-of_locked_free_span_example : IsFreeable in_use swept machine
IsFreeable-of_locked_free_span_example =
    IsFreeable-of_locked_free_span w 64 true true none machine after swept refl refl free_once

locked_free_span-twice_example :
    locked_free_span w 64 false true (some 3) after ≡ panic Panic.invalid_span_state
locked_free_span-twice_example =
    locked_free_span-twice w 64 true true false true none (some 3) machine after free_once

set_span-entry_example :
    (m' : Machine) × (set_span w 1048576 64 machine ≡ ok m')
    × (span_entry 1048580 m' ≡ (
        if 1048580 / page_size == 1048576 / page_size then ok 64 else span_entry 1048580 machine))
set_span-entry_example =
    set_span-entry true 4096 machine level empty_arena 1048576 64 1048580 (omega arith)
      (omega arith) refl refl

no_arena_is_mapped : set_span w 1048576 64 unmapped ≡ undefined_behaviour
no_arena_is_mapped = set_span-unmapped true 4096 unmapped 1048576 64 (omega arith) refl

capacity_is_ignored :
    static_vec_new true 8 (λ n. if n == 0 then none else some 4096) 100
    ≡ static_vec_new true 8 (λ n. if n == 0 then none else some 4096) 0
capacity_is_ignored =
    static_vec_new-same true 8 (λ n. if n == 0 then none else some 4096) 100 0 (omega arith)
      (omega arith)

machine_buffers_trade :
    (buffer (pushable_index 4) (set_buffer (pushable_index 4) one_block machine.heap) ≡ one_block)
    × (buffer (popable_index 4) (set_buffer (pushable_index 4) one_block machine.heap)
        ≡ buffer (popable_index 4) machine.heap)
    × (buffer (popable_index 4) (set_buffer (popable_index 4) one_block machine.heap) ≡ one_block)
    × (buffer (pushable_index 4) (set_buffer (popable_index 4) one_block machine.heap)
        ≡ buffer (pushable_index 4) machine.heap)
    × (pushable_index ((4 + 2) % word) ≡ popable_index 4)
    × (popable_index ((4 + 2) % word) ≡ pushable_index 4)
machine_buffers_trade = buffers_trade machine.heap 4 one_block

-- A span right behind the one at 64.
abbrev behind : MemorySpanData
behind = record swept { start_address = 16384; state = free; need_zero = 1 }

abbrev two_spans : Machine
two_spans = record machine { span_at = λ p. if p == 64 then some swept else some behind }

abbrev treap : Unwritten
treap = record as_written { remove_span = λ scavenged p m. ok m }

merge-merged_example :
    (m' : Machine) × (merge w treap 64 128 0 two_spans ≡ ok m')
    × (m'.span_at 64 ≡ some (merged swept behind))
    × (span_entry 24575 m' ≡ ok 64)
merge-merged_example =
    merge-merged true 4096 treap 64 128 64 two_spans swept behind level empty_arena refl refl
      (omega arith) refl (omega arith) (omega arith) refl refl (λ k. refl)
