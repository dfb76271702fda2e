-- ===== src/Examples/Gc.antt =====
-- Runs and instances for the code of src/gc.rs.
use rust_go_gc.Prelude.{
  AllOf, ap, Bool-cases, inr, false, ◌≡◌, ◌≢◌, ◌+◌, refl, true, none, some, [], ◌∷◌, inl, arith,
  ◌==◌, if◌then◌else◌,
}
use mathlib.Core.Path.{subst}
use rust_go_gc.Prelude.Outcome.{ok, ok-eq, ok-Ends, out_of_fuel}
use rust_go_gc.Sweep.Ends.{AreSmall, AreEnding}
use rust_go_gc.Gc.Ends.{sweep_one-Ends}
use rust_go_gc.Examples.Sweep.{working}
use rust_go_gc.Span.{MemorySpanData}
use rust_go_gc.SweepBuffer.Stack.{IsStack}
use rust_go_gc.Heap.{put_span, with_heap, Machine, Platform, Unwritten, as_written}
use rust_go_gc.Heap.Buffers.{popable_index, buffer}
use rust_go_gc.Heap.SetSpan.Entry.{platform_64}
use rust_go_gc.Gc.{nothing_to_sweep, sweep_one, Between, inspect, try_acquire, compare_and_swap}
use rust_go_gc.Gc.Work.{gc_bits_arenas}
use rust_go_gc.Heap.{memory_span_list, with_heap}
use rust_go_gc.Gc.Contended.{inspect-Contended}
use rust_go_gc.Sweep.{is_in_use}
use rust_go_gc.Prelude.Word.{sub_mod}
use rust_go_gc.Gc.Background.{
  Gc, Others, waiting, freeing, with_machine, wait_for_unpark, Reaches, start, step, sets_up,
  unparked, none_left, meanwhile,
}
use rust_go_gc.Gc.Background.Alone.{Reaches-number}
use rust_go_gc.Gc.Background.Parks.{background_sweep-parks}
use rust_go_gc.Gc.Alone.{alone, SweptNothing, sweep_one-alone}
use rust_go_gc.Gc.Waiting.{IsClaimed, sweep_one-strands}
use rust_go_gc.Examples.Span.{span_of_elements}
use rust_go_gc.Examples.SweepBuffer.{one_block, one_block-IsStack}
use rust_go_gc.Examples.Heap.{heap_of, machine_of}

-- A span that waits in generation 4.
abbrev due : MemorySpanData
due = record (span_of_elements 10) { sweep_generation = 2 }

-- In generation 4 the pops are from the second buffer; it holds the span at 7.
abbrev machine : Machine
machine =
    machine_of (heap_of (λ i. none) one_block one_block) (λ p. if p == 7 then some due else none)

abbrev w : Platform
w = platform_64 true 4096

queue :
    IsStack 0 0
      (buffer (popable_index machine.heap.sweep_generation) machine.heap)
      machine.offheap
      (7 ∷ [])
unfolding popable_index buffer
queue = one_block-IsStack

stranded :
    (m' : Machine) × (sweep_one w as_written alone machine ≡ ok (nothing_to_sweep, m'))
    × AllOf (IsClaimed 4 m') (7 ∷ [])
    × (m'.heap.sweep_done ≡ true)
stranded =
    sweep_one-strands w as_written machine (7 ∷ []) (omega arith) (omega arith) refl queue
      (omega arith, tt) ((due, refl, refl, inl refl), tt)

sweep_one-strands_example :
    (m' : Machine) × (sweep_one w as_written alone machine ≡ ok (nothing_to_sweep, m'))
    × AllOf (IsClaimed 4 m') (7 ∷ [])
    × (m'.heap.sweep_done ≡ true)
sweep_one-strands_example =
    sweep_one-strands w as_written machine (7 ∷ []) (omega arith) (omega arith) refl queue
      (omega arith, tt) ((due, refl, refl, inl refl), tt)

sweep_one-alone_example : SweptNothing machine nothing_to_sweep stranded.0
sweep_one-alone_example =
    sweep_one-alone w as_written machine nothing_to_sweep stranded.0 stranded.1

abbrev pub collector : Gc
collector = record {
  phase = 0;
  background_sweep = record { parked = false; unpark_sender = false; number = 5; sweep_pauses = 0 };
  machine = machine;
  bits_arenas = gc_bits_arenas;
  work = record {
    work_buffer_spans = record {
      protected = record { free = memory_span_list; busy = memory_span_list };
    };
  };
}

-- Another thread may start a sweep.
abbrev pub starts : Others
starts m m' = m' ≡ with_heap (record (m.heap) { sweep_done = false }) m

-- The task waits, another thread starts a sweep, the task is unparked, and finds nothing to sweep.
run :
    Reaches w as_written alone starts collector freeing
      (with_machine stranded.0 (wait_for_unpark collector))
run =
    step (step (step (step start sets_up) (meanwhile {m = machine} refl)) unparked)
      (none_left stranded.1)

Reaches-number_example :
    ((with_machine stranded.0 (wait_for_unpark collector)).background_sweep.number
      ≡ collector.background_sweep.number)
    × ((with_machine stranded.0 (wait_for_unpark collector)).phase ≡ collector.phase)
Reaches-number_example =
    Reaches-number w as_written starts collector
      (with_machine stranded.0 (wait_for_unpark collector)) freeing run

abbrev idle : Unwritten
idle = record as_written { is_empty = λ m. ok true }

background_sweep-parks_example :
    (d : Gc) × Reaches w idle alone starts collector waiting d
    × (d.background_sweep.parked ≡ true)
    × (d.machine.heap.sweep_done ≡ true)
    × (d.background_sweep.number ≡ 5)
    × AllOf (IsClaimed 4 d.machine) (7 ∷ [])
background_sweep-parks_example =
    background_sweep-parks w idle starts collector (7 ∷ []) (inr (λ m. refl)) (omega arith)
      (omega arith) refl queue (omega arith, tt) ((due, refl, refl, inl refl), tt)

-- Another thread claims the span before the swap.
abbrev pub claiming : Between
claiming p s = record s { sweep_generation = 3 }

after_claim : Machine
after_claim = put_span 7 (record due { sweep_generation = 3 }) machine

lost : inspect w claiming 4 7 machine ≡ ok (false, after_claim)
unfolding inspect try_acquire compare_and_swap sub_mod put_span after_claim
lost = refl

inspect-Contended_example :
    (s : MemorySpanData) × (machine.span_at 7 ≡ some s)
    × (is_in_use s.state ≡ true)
    × (s.sweep_generation + 2 ≡ 4)
    × ((claiming 7 s).sweep_generation ≢ s.sweep_generation)
    × (after_claim.span_at 7 ≡ some (claiming 7 s))
inspect-Contended_example =
    inspect-Contended w claiming 4 7 machine after_claim (omega arith) (omega arith) lost

machine-AreSmall : AreSmall machine
machine-AreSmall p s at = elim (Bool-cases (p == 7)) [
  | inl self ↦
      let e : due ≡ s = (let h = rw self at at in cc) in
      let n = ap (λ (t : MemorySpanData). t.number_of_elements) e in omega arith
  | inr other ↦ let h = rw other at at in cc
]

working-AreEnding : AreEnding working
working-AreEnding = record {
  specials = λ p m small. ok-Ends m;
  small = λ p m m' small e. subst AreSmall (ok-eq e) small;
  bits = λ n m. ok-Ends (9000, m);
}

sweep_one-Ends_example : sweep_one w working claiming machine ≢ out_of_fuel
unfolding buffer popable_index
sweep_one-Ends_example =
    sweep_one-Ends w working claiming machine working-AreEnding (λ p s. refl) machine-AreSmall
      (omega arith)
