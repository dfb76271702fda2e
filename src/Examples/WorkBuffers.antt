-- ===== src/Examples/WorkBuffers.antt =====
-- An instance for `free_some_work_buffers` of src/gc.rs: a list of free spans that works.
use rust_go_gc.Prelude.{
  ℕ, zero, suc, ◌≡◌, refl, ap, true, false, AllOf, Option, none, some, List, [], ◌∷◌, ltb, arith,
  ◌==◌,
}
use rust_go_gc.Prelude.Outcome.{Outcome, ok}
use rust_go_gc.Span.{MemorySpan, MemorySpanData, manual}
use rust_go_gc.Heap.{Machine, Unwritten, as_written}
use rust_go_gc.Heap.SetSpan.Entry.{platform_64}
use rust_go_gc.Gc.WorkBuffers.{phase_off, free_some_work_buffers}
use rust_go_gc.Gc.WorkBuffers.Batch.{
  NotIn, none_in, FreeList, IsFreed, free_some_work_buffers-frees,
}
use rust_go_gc.Examples.Span.{span_of_elements}
use rust_go_gc.Examples.Heap.{heap_of, machine_of, no_buffer}

-- The list is a number at address 0: it holds the spans from that number down to 1.
abbrev countdown : ℕ → List MemorySpan
countdown zero = []
countdown (suc n) = suc n ∷ countdown n

abbrev remove : ℕ → Machine → Outcome (Option MemorySpan × Machine)
remove zero m = ok (none, m)
remove (suc n) m = ok (some (suc n), record m { bytes = λ a. n })

abbrev counting : Unwritten
counting = record as_written {
  is_empty = λ m. ok (m.bytes 0 == 0);
  remove_first = λ m. remove (m.bytes 0) m;
}

none_in-countdown : (n : ℕ) (xs : List MemorySpan) → xs ≡ countdown n → (n == 0) ≡ none_in xs
none_in-countdown zero xs e = rw e refl
none_in-countdown (suc n) xs e = rw e (ground arith)

remove-none : (n : ℕ) (m : Machine) → [] ≡ countdown n → remove n m ≡ ok (none, m)
remove-none zero m e = refl
remove-none (suc n) m e = cc

remove-some :
    (n x : ℕ) (xs : List MemorySpan) (m : Machine)
    → (x ∷ xs) ≡ countdown n
    → (m' : Machine) × (remove n m ≡ ok (some x, m'))
      × (xs ≡ countdown (m'.bytes 0))
      × (m'.span_at ≡ m.span_at)
      × (m'.heap ≡ m.heap)
remove-some zero x xs m e = cc
remove-some (suc n) x xs m e =
    let head : suc n ≡ x = cc in
    (
      record m { bytes = λ a. n },
      ap (λ (y : ℕ). ok (some y, record m { bytes = λ a. n })) head,
      cc,
      refl,
      refl,
    )

abbrev counting_list : FreeList counting
counting_list = record {
  Holds = λ m xs. xs ≡ countdown (m.bytes 0);
  stable = λ m f xs h. h;
  empties = λ m xs h. ap ok (none_in-countdown (m.bytes 0) xs h);
  exhausted = λ m h. remove-none (m.bytes 0) m h;
  first = λ m x xs h. remove-some (m.bytes 0) x xs m h;
}

abbrev unused : MemorySpanData
unused = record (span_of_elements 0) { state = manual; allocations_count = 0; scavenged = false }

abbrev machine : Machine
machine = record (machine_of (heap_of (λ i. none) no_buffer no_buffer) (λ p. some unused)) {
  bytes = λ a. 2;
}

free_some_work_buffers-frees_example :
    (m' : Machine) × (free_some_work_buffers (platform_64 true 4096) counting phase_off true machine
      ≡ ok (ltb 64 2, m'))
    × ([] ≡ countdown (m'.bytes 0))
    × AllOf (IsFreed m') (2 ∷ 1 ∷ [])
    × ((q : MemorySpan) → NotIn q (2 ∷ 1 ∷ []) → m'.span_at q ≡ some unused)
free_some_work_buffers-frees_example =
    free_some_work_buffers-frees (platform_64 true 4096) counting counting_list true machine
      (2 ∷ 1 ∷ []) refl (((omega arith, tt), (tt, tt)))
      ((unused, refl, refl, refl, refl), ((unused, refl, refl, refl, refl), tt)) (omega arith)
