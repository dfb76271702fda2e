-- ===== src/SweepBuffer/Growers/Done.antt =====
-- Concurrent calls of `push` that make the spine grow by one block: where they lead.
use rust_go_gc.Prelude.{ℕ, ◌+◌, ◌*◌, ◌<◌, ◌≤◌, ◌≡◌, refl, Bool, List, [], ◌∷◌, arith, length, AllOf}
use rust_go_gc.Span.{MemorySpan}
use rust_go_gc.SweepBuffer.{Offheap, SweepBuffer}
use rust_go_gc.SweepBuffer.Threads.{Run}
use rust_go_gc.SweepBuffer.Growers.{
  LockedBuffer, Grower, arriving, claimed, observed, holding, looked, grown, allocated, extended,
  located, pushed, panicked, Move, arrivals, left, left_all,
}
use rust_go_gc.SweepBuffer.Growers.Moves.{IsSound, waits, waiting}
use rust_go_gc.SweepBuffer.Growers.Room.{IsFine, pends, pending}
use rust_go_gc.SweepBuffer.Growers.OneBlock.{IsNext, room, start-IsFilling, Run-IsFilling}
use rust_go_gc.SweepBuffer.Growers.Progress.{arrivals-left, Run-left, Goes, goes}

-- A thread that has returned from `push`.
abbrev pub IsPushed : Grower → Type 0
IsPushed (pushed x c) = Unit {0}
IsPushed _ = ⊥

abbrev pub Done : (t spine_length : ℕ) → Grower → Type 0
Done t spine_length p = IsPushed p × (waits p ≡ 0) × (pends p ≡ 0) × (t < spine_length)

module _ (t index spine_length : ℕ) where
  pub left-Done :
      (p : Grower) → IsSound t index spine_length p → IsFine p → left p ≡ 0 → Done t spine_length p
  left-Done (arriving x) sound fine e = absurd (omega arith)
  left-Done (claimed x c) sound fine e = absurd (omega arith)
  left-Done (observed x c n) sound fine e = absurd (ground arith)
  left-Done (holding x c) sound fine e = absurd (omega arith)
  left-Done (looked x c n) sound fine e = absurd (omega arith)
  left-Done (grown x c) sound fine e = absurd (omega arith)
  left-Done (allocated x c block) sound fine e = absurd (omega arith)
  left-Done (extended x c block) sound fine e = absurd (omega arith)
  left-Done (located x c block) sound fine e = absurd (omega arith)
  left-Done (pushed x c) (range, known) fine e = (tt, refl, refl, known)
  left-Done (panicked x c) sound fine e = absurd fine

  pub left_all-Done :
      (ps : List Grower)
      → AllOf (IsSound t index spine_length) ps
      → AllOf IsFine ps
      → left_all ps ≡ 0
      → AllOf IsPushed ps × (waiting ps ≡ 0) × (pending ps ≡ 0)
  left_all-Done [] sound fine e = (tt, refl, refl)
  left_all-Done (p ∷ ps) (sound, sounds) (fine, fines) e =
      let (done, waits, pends, _) = left-Done p sound fine (omega arith) in
      let (dones, waiting, pending) = left_all-Done ps sounds fines (omega arith) in
      ((done, dones), omega arith, omega arith)

SweepBuffer-eq :
    (b : SweepBuffer) {index spine_length spine_cap spine : ℕ}
    → b.index ≡ index
    → b.spine_length ≡ spine_length
    → b.spine_cap ≡ spine_cap
    → b.spine ≡ spine
    → b
      ≡ record { index = index; spine_length = spine_length; spine_cap = spine_cap; spine = spine }
SweepBuffer-eq b e f g h = rw (← e, ← f, ← g, ← h) refl

-- Threads, at least one, push spans at once that all go to one block, the next one that the spine is
-- to get; the lock is open, the spine has the capacity for the block, and the memory has room for it.
-- In any interleaving of their accesses, when none has an access left, each has returned from its
-- push; the spine has exactly one block more, which is all that was allocated, and is where it was;
-- and the index has moved by the number of the spans.
pub growers-one_block :
    (checks : Bool) (t : ℕ) (x : MemorySpan) (xs : List MemorySpan) (s : LockedBuffer) (o : Offheap)
    → IsNext t (length (x ∷ xs)) s o
    → (n : ℕ) (p : Grower) (ps : List Grower) (s' : LockedBuffer) (o' : Offheap)
    → Run (Move checks) (arrivals (x ∷ xs)) s o n (p ∷ ps) s' o'
    → left_all (p ∷ ps) ≡ 0
    → AllOf IsPushed (p ∷ ps)
      × (s'.buffer
          ≡ record (s.buffer) { index = s.buffer.index + length (x ∷ xs); spine_length = t + 1 })
      × (o'.brk ≡ o.brk + 4096)
growers-one_block checks t x xs s o next n p ps s' o' run none =
    let top = s.buffer.index + length (x ∷ xs) in
    let h = Run-IsFilling checks (room next) top run (start-IsFilling (x ∷ xs) next) in
    let (dones, no_one_waits, none_pends) =
      left_all-Done t s'.buffer.index s'.buffer.spine_length (p ∷ ps) h.growing.sound h.fine none in
    let (above, from, reached, under, fits) = h.growing.reached in
    let (sound, _) = h.growing.sound in
    let (fine, _) = h.fine in
    let (_, _, _, known) =
      left-Done t s'.buffer.index s'.buffer.spine_length p sound fine (omega arith) in
    let to = next.to in
    let brk = h.within.brk in
    let length_now : s'.buffer.spine_length ≡ t + 1 = omega arith in
    let index_now : s'.buffer.index ≡ top = omega arith in
    (dones, SweepBuffer-eq s'.buffer index_now length_now h.within.cap h.within.at, omega arith)

-- Threads push spans at once that all go to one block, the next one that the spine is to get; the
-- lock is open, the spine has the capacity for the block, and the memory has room for it. In any
-- interleaving of their accesses, some thread can make its next access until none has one left, so
-- the lock never leaves them waiting for each other; and together they make at most nine accesses
-- for each span.
pub growers-finish :
    (checks : Bool) (t : ℕ) (xs : List MemorySpan) (s : LockedBuffer) (o : Offheap)
    → IsNext t (length xs) s o
    → (n : ℕ) (ps : List Grower) (s' : LockedBuffer) (o' : Offheap)
    → Run (Move checks) (arrivals xs) s o n ps s' o'
    → (n + left_all ps ≤ 9 * length xs) × (0 < left_all ps → Goes checks ps s' o')
growers-finish checks t xs s o next n ps s' o' run =
    let top = s.buffer.index + length xs in
    let h = Run-IsFilling checks (room next) top run (start-IsFilling xs next) in
    let cap = h.within.cap in
    let at = h.within.at in
    let below = next.below in
    let placed = next.placed in
    let to = next.to in
    let (above, from, reached, under, fits) = h.growing.reached in
    let guarded = h.growing.guarded in
    let made = Run-left checks run in
    (
      omega (arith, arrivals-left xs),
      λ more.
          goes checks t s'.buffer o' (omega arith) (omega arith) (omega arith) s'.lock ps
            h.within.unpoisoned h.growing.sound h.fine (omega arith) more,
    )
