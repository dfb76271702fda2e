-- ===== src/Examples/Sweeping.antt =====
-- An instance for the background task of src/gc.rs that sweeps spans which other threads claim.
use mathlib.Core.List.{reverse_aux}
use rust_go_gc.Prelude.{
  ℕ, ◌+◌, ◌*◌, ◌/◌, ◌%◌, ◌≡◌, refl, true, inl, inr, none, some, [], ◌∷◌, arith, ◌==◌, if◌then◌else◌,
}
use rust_go_gc.Prelude.Outcome.{ok}
use rust_go_gc.Prelude.Word.{word}
use rust_go_gc.Span.{MemorySpan, MemorySpanData}
use rust_go_gc.Span.Cache.{refill_allocations_cache}
use rust_go_gc.SweepBuffer.{Offheap, SweepBuffer, store}
use rust_go_gc.SweepBuffer.Stack.{IsStack}
use rust_go_gc.Heap.{memory_central, Machine, Unwritten}
use rust_go_gc.Heap.Buffers.{popable_index, pushable_index, buffer}
use rust_go_gc.Sweep.Parts.{with_brk}
use rust_go_gc.Gc.Sweeping.{GivesBits, IsTaken, IsRound}
use rust_go_gc.Gc.Background.{Gc, Reaches, waiting}
use rust_go_gc.Gc.Background.Sweeps.{background_sweep-sweeps}
use rust_go_gc.Gc.Background.Sweeps.Rounds.{SweptInTurn}
use rust_go_gc.Examples.Span.{few, few-IsBytes}
use rust_go_gc.Examples.SweepBuffer.{sevens, one_block}
use rust_go_gc.Examples.Heap.{heap_of, machine_of}
use rust_go_gc.Examples.Sweep.{working, claimed, claimed-IsDue, searched, stays, debug}
use rust_go_gc.Examples.Gc.{claiming, collector, starts}

-- Two spans are due in generation 4, and lie in the second buffer; the first one is empty.
abbrev due : MemorySpanData
due = record claimed { sweep_generation = 2 }

abbrev queue : Offheap
queue = record (store 4096 64 (store 4104 72 sevens)) { brk = 32768; limit = 1000000 }

abbrev from : SweepBuffer
from = record one_block { index = 2 }

abbrev to : SweepBuffer
to = record one_block { index = 0; spine = 20480 }

abbrev machine : Machine
machine =
    record (machine_of (heap_of (λ i. none) to from)
      (λ p. if p == 64 then some due else if p == 72 then some due else none)) {
        bytes = few;
        offheap = queue;
      }

abbrev task : Gc
task = record collector { machine = machine }

-- The bytes of the words that hold `n` bits.
abbrev words_of : ℕ → ℕ
words_of n = 8 * ((n + 63) / 64)

-- No work buffer waits, and new mark bits come off the free memory.
abbrev ready : Unwritten
ready = record working {
  is_empty = λ m. ok true;
  new_mark_bits = λ n m. ok (m.offheap.brk, with_brk (m.offheap.brk + words_of n) m);
}

gives : GivesBits ready
gives = record {
  bits = λ n brk. brk;
  next = λ n brk. brk + words_of n;
  fresh = λ n m. refl;
  from = λ n brk. omega arith;
  to = λ n brk. omega arith;
}

taken : (x : MemorySpan) → IsTaken debug ready claiming 4 few machine.heap.central x (some due)
unfolding refill_allocations_cache
taken x = record {
  span = due;
  there = refl;
  using = refl;
  due = refl;
  searched = searched;
  claimed = claimed-IsDue;
  kept = stays;
  list = memory_central;
  central_at = refl;
  no_specials = λ m. refl;
}

waits : IsStack 0 0 from queue (72 ∷ 64 ∷ [])
unfolding store
waits = record {
  in_spine = omega arith;
  allocated = omega arith;
  from = omega arith;
  to = omega arith;
  fits = omega arith;
  at = refl;
  contents = (refl, (refl, tt));
}

round : IsRound debug ready claiming 4 few machine.heap.central machine (72 ∷ 64 ∷ []) []
unfolding buffer popable_index pushable_index
round = record {
  generation = refl;
  running = refl;
  same_bytes = refl;
  same_central = refl;
  waiting = waits;
  done = record {
    in_spine = omega arith;
    allocated = omega arith;
    from = omega arith;
    to = omega arith;
    fits = omega arith;
    at = refl;
    contents = tt;
  };
  room = omega arith;
  apart = inl (omega arith);
  spans = (omega arith, (omega arith, tt));
  distinct = (((λ e. omega arith), tt), (tt, tt));
  taken = (taken 72, (taken 64, tt));
}

background_sweep-sweeps_example :
    (d : Gc) × Reaches debug ready claiming starts task waiting d
    × (d.background_sweep.parked ≡ true)
    × (d.machine.heap.sweep_done ≡ true)
    × (d.background_sweep.number ≡ (5 + 2) % word)
    × SweptInTurn claiming 4 few machine d.machine 32768 (72 ∷ 64 ∷ [])
    × IsStack 0 0
        (buffer (pushable_index 4) d.machine.heap)
        d.machine.offheap
        (reverse_aux (72 ∷ 64 ∷ []) [])
background_sweep-sweeps_example =
    background_sweep-sweeps debug ready claiming starts task (72 ∷ 64 ∷ []) [] gives
      (inr (λ m. refl)) (omega arith) (omega arith) (omega arith) few-IsBytes round
