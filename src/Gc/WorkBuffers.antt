-- ===== src/Gc/WorkBuffers.antt =====
-- `GC::free_some_work_buffers` of src/gc.rs. The list of free spans is the `MemorySpanList` of
-- src/work.rs, whose functions are not written: they come from an `Unwritten`.
pub mod Batch
use rust_go_gc.Prelude.{
  ℕ, zero, suc, Bool, true, false, not, Option, none, some, ◌==◌, if◌then◌else◌,
}
use rust_go_gc.Prelude.Outcome.{Outcome, ok, ◌>>=◌}
use rust_go_gc.Span.{MemorySpan}
use rust_go_gc.Heap.{Machine, Platform, Unwritten}
use rust_go_gc.Heap.Free.{free_manual_span}

-- `GCPhase::Off as usize`.
abbrev pub phase_off : ℕ
phase_off = 0

-- `batch_size`.
abbrev pub batch_size : ℕ
batch_size = 64

-- `for _ in 0..batch_size`, with `left` rounds to go.
unfoldable pub free_batch : Platform → Unwritten → (left : ℕ) → Machine → Outcome Machine
unfolding free_manual_span
free_batch w u zero m = ok m
free_batch w u (suc left) m = do
  (first, m') ← u.remove_first m
  elim first [ some p ↦ free_manual_span w p m' >>= λ m''. free_batch w u left m'' | none ↦ ok m' ]

-- Its flag is not read.
unfoldable pub free_some_work_buffers :
    Platform → Unwritten → (phase : ℕ) → (preemptible : Bool) → Machine → Outcome (Bool × Machine)
unfolding free_batch
free_some_work_buffers w u phase preemptible m =
    if not (phase == phase_off) then ok (false, m) else (do
      empty ← u.is_empty m
      if empty
          then ok (false, m)
          else (do m' ← free_batch w u batch_size m; empty' ← u.is_empty m'; ok (not empty', m')))
