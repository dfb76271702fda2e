-- ===== src/Gc/Background/Sweeps.antt =====
-- The background task of src/gc.rs where other threads claim the spans that it takes off.
pub mod Rounds
use mathlib.Core.List.{reverse_aux}
use mathlib.Core.Path.{subst}
use rust_go_gc.Prelude.{
  ℕ, zero, suc, ◌+◌, ◌%◌, ◌<◌, ◌≤◌, ◌≡◌, ◌≢◌, ◌∙◌, ◌⊎◌, refl, sym, ap, Bool, true, false, some,
  List, [], ◌∷◌, arith, length, AllOf, ◌==◌,
}
use rust_go_gc.Prelude.Outcome.{ok}
use rust_go_gc.Prelude.Word.{word, atomic_add, atomic_sub}
use rust_go_gc.Span.{MemorySpan, MemorySpanData, Bytes, IsBytes}
use rust_go_gc.SweepBuffer.{Offheap, SweepBuffer}
use rust_go_gc.SweepBuffer.Slot.{pop-empty}
use rust_go_gc.SweepBuffer.Stack.{IsStack}
use rust_go_gc.Heap.{Machine, Platform, Unwritten, MemoryCentral}
use rust_go_gc.Heap.Buffers.{popable_index, pushable_index, buffer, set_buffer, buffers_trade}
use rust_go_gc.Sweep.InPlace.{swept}
use rust_go_gc.Gc.{
  nothing_to_sweep, Between, take_span, sweep_round, sweep_loop, sweep_one, with_sweep_done,
  with_sweepers,
}
use rust_go_gc.Gc.Waiting.{sweep_one-loop}
use rust_go_gc.Gc.Sweeping.{GivesBits, IsTaken, IsRound}
use rust_go_gc.Gc.Sweeping.Round.{
  ended, off-taken, off-there, sweep_one-ended, ended-span_at, ended-IsRound,
}
use rust_go_gc.Gc.Background.{
  Gc, Others, Place, sweeping, freeing, waiting, with_machine, counted_sweep, parked_at,
  wait_for_unpark, Reaches, start, step, sets_up, unparked, swept_one, none_left, parks,
}
use rust_go_gc.Gc.WorkBuffers.{phase_off}
use rust_go_gc.Gc.Background.Parks.{NoWorkBuffers, free_some_work_buffers-none}
use rust_go_gc.Gc.Background.Sweeps.Rounds.{
  SweptInTurn, SweptInTurn-after, sweeping-Swept, sweep_one-Emptied,
}

-- The background task in its setup, with no work buffer to free, in a generation from 2 on below
-- 2^64 whose sweep is not done, and a queue of distinct spans, in the first block, that are in use and
-- due, each of which another thread claims after its generation was read and before the swap. As that
-- thread leaves it, the span may be swept, does not go to the heap, has no special records, and the
-- search for a free object in it meets no overflow check. The other buffer has room for the queue in
-- its first block, and the two blocks lie apart. New mark bits come off the free off-heap memory. Once
-- it is unparked, the task comes to wait again, parked, with the sweep counted as done: it has swept
-- every span of the queue and counted each; the spans have new mark bits, in turn, those of a span
-- behind those of the span before it and all in memory that was free at first and is not any more; and
-- the swept spans lie in the other buffer on top of those that lay there.
pub background_sweep-sweeps :
    (w : Platform) (u : Unwritten) (between : Between) (others : Others) (c : Gc)
    (xs ys : List MemorySpan)
    → GivesBits u
    → NoWorkBuffers u c
    → 2 ≤ c.machine.heap.sweep_generation
    → c.machine.heap.sweep_generation < word
    → c.background_sweep.number < word
    → IsBytes c.machine.bytes
    → IsRound w u between c.machine.heap.sweep_generation c.machine.bytes c.machine.heap.central
        c.machine xs ys
    → (d : Gc) × Reaches w u between others c waiting d
      × (d.background_sweep.parked ≡ true)
      × (d.machine.heap.sweep_done ≡ true)
      × (d.background_sweep.number ≡ (c.background_sweep.number + length xs) % word)
      × SweptInTurn between c.machine.heap.sweep_generation c.machine.bytes c.machine d.machine
          c.machine.offheap.brk xs
      × IsStack 0 0
          (buffer (pushable_index c.machine.heap.sweep_generation) d.machine.heap)
          d.machine.offheap
          (reverse_aux xs ys)
background_sweep-sweeps w u between others c xs ys gives idle big fits below small r =
    let g = c.machine.heap.sweep_generation in
    let bytes = c.machine.bytes in
    let (d, to, round, all, _, number, phase) =
      sweeping-Swept w u between g big fits bytes small c.machine.heap.central gives others c
        (wait_for_unpark c) xs ys (step (step start sets_up) unparked) below r in
    let (m, emptied, done, same, kept, off) =
      sweep_one-Emptied w u between g big fits bytes small c.machine.heap.central gives d.machine
        (reverse_aux xs ys) round in
    let idle' : NoWorkBuffers u d =
      subst (λ (i : ℕ). (i ≢ phase_off) ⊎ ((n : Machine) → u.is_empty n ≡ ok true)) (sym phase)
        idle in
    (
      parked_at true (with_machine m d),
      step (step to (none_left emptied)) (parks (free_some_work_buffers-none w u d m idle') done),
      refl,
      done,
      number,
      SweptInTurn-after between g bytes c.machine d.machine m c.machine.offheap.brk xs same
          (ap (λ (o : Offheap). o.brk) off) all,
      rw (kept, off) round.done,
    )
