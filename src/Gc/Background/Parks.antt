-- ===== src/Gc/Background/Parks.antt =====
-- A round of the background sweeper over spans that wait to be swept, with no other thread.
use rust_go_gc.Prelude.{
  AllOf, ◌≤◌, ◌<◌, ◌≡◌, ◌≢◌, ◌⊎◌, inl, inr, refl, true, false, List, arith, ◌==◌,
}
use rust_go_gc.Prelude.Outcome.{ok}
use rust_go_gc.Prelude.Word.{word}
use rust_go_gc.Span.{MemorySpan}
use rust_go_gc.SweepBuffer.Stack.{IsStack, AreSpans}
use rust_go_gc.Heap.{Machine, Platform, Unwritten}
use rust_go_gc.Heap.Buffers.{popable_index, buffer}
use rust_go_gc.Gc.Alone.{alone}
use rust_go_gc.Gc.Waiting.{IsWaiting, IsClaimed, sweep_one-strands}
use rust_go_gc.Gc.WorkBuffers.{phase_off, free_some_work_buffers}
use rust_go_gc.Gc.Background.{
  Gc, Others, sets_up, unparked, none_left, parks, Reaches, start, step, waiting, wait_for_unpark,
  with_machine, parked_at,
}

-- There is no work buffer to free: a collection is going on, or the list of free spans is empty.
abbrev pub NoWorkBuffers : Unwritten → Gc → Type 0
NoWorkBuffers u c = (c.phase ≢ phase_off) ⊎ ((m : Machine) → u.is_empty m ≡ ok true)

pub free_some_work_buffers-none :
    (w : Platform) (u : Unwritten) (c : Gc) (m : Machine)
    → NoWorkBuffers u c
    → free_some_work_buffers w u c.phase true m ≡ ok (false, m)
unfolding free_some_work_buffers
free_some_work_buffers-none w u c m (inl busy) =
    let other : (c.phase == phase_off) ≡ false = ground arith in rw other refl
free_some_work_buffers-none w u c m (inr empty) = rw (empty m) (ground arith)

-- The background task in its setup, with no other thread and no work buffer to free, in a generation
-- from 2 on below 2^64 whose sweep is not done, and a queue in the first block of spans in use that
-- wait to be swept. Once it is unparked, the task comes to wait again, parked, with the sweep
-- counted as done; it has counted no swept span, and every span of the queue is marked as being
-- swept.
pub background_sweep-parks :
    (w : Platform) (u : Unwritten) (others : Others) (c : Gc) (xs : List MemorySpan)
    → NoWorkBuffers u c
    → 2 ≤ c.machine.heap.sweep_generation
    → c.machine.heap.sweep_generation < word
    → c.machine.heap.sweep_done ≡ false
    → IsStack 0 0
        (buffer (popable_index c.machine.heap.sweep_generation) c.machine.heap)
        c.machine.offheap
        xs
    → AreSpans xs
    → AllOf (IsWaiting c.machine.heap.sweep_generation c.machine) xs
    → (d : Gc) × Reaches w u alone others c waiting d
      × (d.background_sweep.parked ≡ true)
      × (d.machine.heap.sweep_done ≡ true)
      × (d.background_sweep.number ≡ c.background_sweep.number)
      × AllOf (IsClaimed c.machine.heap.sweep_generation d.machine) xs
background_sweep-parks w u others c xs idle big fits running queue spans wait =
    let (m, swept, claimed, done) =
      sweep_one-strands w u c.machine xs big fits running queue spans wait in
    let d = with_machine m (wait_for_unpark c) in
    (
      parked_at true d,
      step (step (step (step start sets_up) unparked) (none_left swept))
          (parks (free_some_work_buffers-none w u d m idle) done),
      refl,
      done,
      refl,
      claimed,
    )
