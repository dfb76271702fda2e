-- ===== src/Gc/Background.antt =====
-- The background sweeper of src/gc.rs: its records, and `background_sweep` from the end of its
-- setup on, as steps between the points where it looks at the collector.
pub mod Alone
pub mod Parks
pub mod Sweeps
use rust_go_gc.Prelude.{ℕ, Bool, true, false, ◌≡◌, ◌≢◌}
use rust_go_gc.Prelude.Outcome.{ok}
use rust_go_gc.Prelude.Word.{atomic_add}
use rust_go_gc.Heap.{Machine, Platform, Unwritten, MemoryHeap, with_heap}
use rust_go_gc.Gc.{Between, nothing_to_sweep, sweep_one}
use rust_go_gc.Gc.Work.{GcBitsArenas, gc_bits_arenas, Work, new_work}
use rust_go_gc.Gc.WorkBuffers.{phase_off, free_some_work_buffers}

-- `BackgroundSweep`; of the sender only whether there is one.
pub record BackgroundSweep : Type 0 where
  pub parked : Bool
  pub unpark_sender : Bool
  pub number : ℕ
  pub sweep_pauses : ℕ

unfoldable pub new_sweep : BackgroundSweep
new_sweep = record { parked = false; unpark_sender = false; number = 0; sweep_pauses = 0 }

-- `GC`, with the memory around its heap.
pub record Gc : Type 0 where
  pub phase : ℕ
  pub background_sweep : BackgroundSweep
  pub machine : Machine
  pub bits_arenas : GcBitsArenas
  pub work : Work

-- `new_gc`, around the heap that `MemoryHeap::new` gives.
unfoldable pub new_gc : MemoryHeap → Machine → Gc
unfolding new_sweep new_work
new_gc heap around = record {
  phase = phase_off;
  background_sweep = new_sweep;
  machine = with_heap heap around;
  bits_arenas = gc_bits_arenas;
  work = new_work;
}

-- Where the task is: in the setup, in the loop over the spans, in the loop over the work buffers,
-- or waiting to be unparked, at first or again.
pub data Place : Type 0 where
  setup sweeping freeing waiting : Place

abbrev pub parked_at : Bool → Gc → Gc
parked_at b c = record c { background_sweep = record (c.background_sweep) { parked = b } }

abbrev pub with_machine : Machine → Gc → Gc
with_machine m c = record c { machine = m }

abbrev pub counted_sweep : Gc → Gc
counted_sweep c = record c {
  background_sweep = record (c.background_sweep) {
    number = atomic_add c.background_sweep.number 1;
  };
}

-- The block before the first wait: the task counts as parked, and there is a sender.
abbrev pub wait_for_unpark : Gc → Gc
wait_for_unpark c = record c {
  background_sweep = record (c.background_sweep) { parked = true; unpark_sender = true };
}

-- What other threads may do to the machine while the task yields or waits.
abbrev pub Others : Type 1
Others = Machine → Machine → Type 0

-- One step of the task, or of the other threads between two of its steps.
pub data Step (w : Platform) (u : Unwritten) (between : Between) (others : Others)
    : Place → Gc → Place → Gc → Type 0 where
  sets_up : {c : Gc} → Step w u between others setup c waiting (wait_for_unpark c)
  -- The wait is over.
  unparked : {c : Gc} → Step w u between others waiting c sweeping c
  swept_one :
      {c : Gc} {pages : ℕ} {m : Machine}
      → sweep_one w u between c.machine ≡ ok (pages, m)
      → pages ≢ nothing_to_sweep
      → Step w u between others sweeping c sweeping (counted_sweep (with_machine m c))
  none_left :
      {c : Gc} {m : Machine}
      → sweep_one w u between c.machine ≡ ok (nothing_to_sweep, m)
      → Step w u between others sweeping c freeing (with_machine m c)
  freed_some :
      {c : Gc} {m : Machine}
      → free_some_work_buffers w u c.phase true c.machine ≡ ok (true, m)
      → Step w u between others freeing c freeing (with_machine m c)
  -- A collection ran since the loop over the spans ended.
  not_done :
      {c : Gc} {m : Machine}
      → free_some_work_buffers w u c.phase true c.machine ≡ ok (false, m)
      → m.heap.sweep_done ≡ false
      → Step w u between others freeing c sweeping (with_machine m c)
  parks :
      {c : Gc} {m : Machine}
      → free_some_work_buffers w u c.phase true c.machine ≡ ok (false, m)
      → m.heap.sweep_done ≡ true
      → Step w u between others freeing c waiting (parked_at true (with_machine m c))
  meanwhile :
      {p : Place} {c : Gc} {m : Machine}
      → others c.machine m
      → Step w u between others p c p (with_machine m c)

-- The states that steps lead to from one in the setup.
pub data Reaches (w : Platform) (u : Unwritten) (between : Between) (others : Others) (c₀ : Gc)
    : Place → Gc → Type 0 where
  start : Reaches w u between others c₀ setup c₀
  step :
      {p q : Place} {c d : Gc}
      → Reaches w u between others c₀ p c
      → Step w u between others p c q d
      → Reaches w u between others c₀ q d
