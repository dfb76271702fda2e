-- ===== src/SweepBuffer/Growers/OneBlock.antt =====
-- Concurrent calls of `push` that reach a block which the spine does not have yet.
use rust_go_gc.Prelude.{ℕ, ◌+◌, ◌*◌, ◌<◌, ◌≤◌, ◌≡◌, refl, Bool, List, [], ◌∷◌, arith, length, AllOf}
use rust_go_gc.Prelude.Word.{word}
use rust_go_gc.Span.{MemorySpan}
use rust_go_gc.SweepBuffer.{Offheap}
use rust_go_gc.SweepBuffer.Threads.{Step, here, there, Run, start, later}
use rust_go_gc.SweepBuffer.Growers.{open_lock, LockedBuffer, Grower, Move, arrivals, holds, holders}
use rust_go_gc.SweepBuffer.Growers.Exclusion.{owned-le}
use rust_go_gc.SweepBuffer.Growers.Moves.{waits, waiting, IsSound}
use rust_go_gc.SweepBuffer.Growers.Bound.{
  Sound, ReachedBy, IsGrowing, IsFit, start-IsGrowing, IsGrowing-Step, Reached-eq,
}
use rust_go_gc.SweepBuffer.Growers.Room.{
  pends, pending, pending-le, IsFine, Room, IsWithin, Before, Move-IsWithin,
}

module _ (checks : Bool) {t : ℕ} (r : Room t) where
  pub IsWithin-eq :
      {n m : ℕ} (s : LockedBuffer) (o : Offheap) → n ≡ m → IsWithin r n s o → IsWithin r m s o
  IsWithin-eq s o e h = rw (← e) h

  -- What is known of the first thread, with `guards` other threads that have the guard, and `rest` of
  -- them with a block that does not count yet.
  pub head-Before :
      (top guards rest others : ℕ) (p : Grower) (ps : List Grower) (s : LockedBuffer)
      → top ≤ 512 * (t + 1)
      → IsSound t s.buffer.index s.buffer.spine_length p
      → ReachedBy t top s.buffer (others + waiting (p ∷ ps))
      → rest ≤ guards
      → guards + holders (p ∷ ps) ≤ 1
      → IsFine p
      → Before t (guards + holders ps) (rest + pending ps) p s
  head-Before top guards rest others p ps s to sound (above, from, le, under, fits) few single
        fine =
      let below = pending-le ps in
      record {
        sound = sound;
        above = above;
        to = omega arith;
        few = omega arith;
        single = omega arith;
        fits = omega arith;
        fine = fine;
      }

  -- `guards` is the number of the other threads with the guard, and `rest` of those with a block
  -- that does not count yet.
  Step-IsWithin :
      (top guards rest others : ℕ) {ps : List Grower} {s : LockedBuffer} {o : Offheap}
      {ps' : List Grower} {s' : LockedBuffer} {o' : Offheap}
      → Step (Move checks) ps s o ps' s' o'
      → top ≤ 512 * (t + 1)
      → Sound t s.buffer ps
      → ReachedBy t top s.buffer (others + waiting ps)
      → rest ≤ guards
      → guards + holders ps ≤ 1
      → AllOf IsFine ps
      → IsWithin r (rest + pending ps) s o
      → IsWithin r (rest + pending ps') s' o' × AllOf IsFine ps'
  Step-IsWithin top guards rest others (here p s o p' s' o' ps mv) to (sound, _) reached few single
        (fine, fines) h =
      let before = head-Before top guards rest others p ps s to sound reached few single fine in
      let (h', fine') =
        Move-IsWithin checks r (guards + holders ps) (rest + pending ps) mv before
          (IsWithin-eq s o (omega arith) h) in
      (IsWithin-eq s' o' (omega arith) h', (fine', fines))
  Step-IsWithin top guards rest others (there p ps s o ps' s' o' st) to (_, sound) reached few
        single (fine, fines) h =
      let below = pending-le (p ∷ []) in
      let (h', fines') =
        Step-IsWithin top (guards + holds p) (rest + pends p) (others + waits p) st to sound
          (Reached-eq t top s.buffer (omega arith) reached) (omega arith) (omega arith) fines
          (IsWithin-eq s o (omega arith) h) in
      (IsWithin-eq s' o' (omega arith) h', (fine, fines'))

-- A buffer and a memory for threads that need the block `t`, the next one of the spine, and no other:
-- the spine has the capacity for it, and the memory has room.
pub record IsNext (t pushes : ℕ) (s : LockedBuffer) (o : Offheap) : Type 0 where
  pub opened : s.lock ≡ open_lock
  pub next : s.buffer.spine_length ≡ t
  pub from : 512 * t ≤ s.buffer.index
  pub to : s.buffer.index + pushes ≤ 512 * (t + 1)
  pub fits : 512 * (t + 2) < word
  pub below : t < s.buffer.spine_cap
  pub placed : 0 < s.buffer.spine
  pub mapped : 0 < o.brk
  pub enough : o.brk + 4096 ≤ o.limit

module _ {t pushes : ℕ} {s : LockedBuffer} {o : Offheap} (next : IsNext t pushes s o) where
  abbrev pub room : Room t
  room = record {
    spine_cap = s.buffer.spine_cap;
    spine = s.buffer.spine;
    brk = o.brk;
    limit = o.limit;
    below = next.below;
    placed = next.placed;
    mapped = next.mapped;
    enough = next.enough;
  }

  start-IsFit : IsFit t (s.buffer.index + pushes) pushes s
  start-IsFit =
      let same = next.next in
      let from = next.from in
      let to = next.to in
      let fits = next.fits in
      record {
        opened = next.opened;
        above = omega arith;
        from = next.from;
        reached = omega arith;
        under = refl;
        fits = omega arith;
      }

-- What holds at every point of the calls.
pub record IsFilling {t : ℕ} (r : Room t) (top : ℕ) (ps : List Grower) (s : LockedBuffer)
    (o : Offheap) : Type 0 where
  pub to : top ≤ 512 * (t + 1)
  pub growing : IsGrowing t top ps s
  pub within : IsWithin r (0 + pending ps) s o
  pub fine : AllOf IsFine ps

arrivals-IsFine : (xs : List MemorySpan) → AllOf IsFine (arrivals xs) × (pending (arrivals xs) ≡ 0)
arrivals-IsFine [] = (tt, refl)
arrivals-IsFine (x ∷ xs) = let (fine, none) = arrivals-IsFine xs in ((tt, fine), omega arith)

pub start-IsFilling :
    {t : ℕ} {s : LockedBuffer} {o : Offheap} (xs : List MemorySpan)
    (next : IsNext t (length xs) s o)
    → IsFilling (room next) (s.buffer.index + length xs) (arrivals xs) s o
start-IsFilling {t} {s} {o} xs next =
    let (fine, none) = arrivals-IsFine xs in
    let opened = next.opened in
    let same = next.next in
    record {
      to = next.to;
      growing = start-IsGrowing t (s.buffer.index + length xs) xs s (start-IsFit next);
      within = record {
        cap = refl;
        at = refl;
        limit = refl;
        brk = omega arith;
        unpoisoned = λ e. cc;
      };
      fine = fine;
    }

pub IsFilling-Step :
    (checks : Bool) {t : ℕ} (r : Room t) (top : ℕ) {ps : List Grower} {s : LockedBuffer}
    {o : Offheap} {ps' : List Grower} {s' : LockedBuffer} {o' : Offheap}
    → Step (Move checks) ps s o ps' s' o'
    → IsFilling r top ps s o
    → IsFilling r top ps' s' o'
IsFilling-Step checks {t} r top {s} st h =
    let guarded = h.growing.guarded in
    let single = owned-le s.lock in
    let (within, fine) =
      Step-IsWithin checks r top 0 0 0 st h.to h.growing.sound h.growing.reached (omega arith)
        (omega arith) h.fine h.within in
    record {
      to = h.to;
      growing = IsGrowing-Step checks t top st h.growing;
      within = within;
      fine = fine;
    }

pub Run-IsFilling :
    (checks : Bool) {t : ℕ} (r : Room t) (top : ℕ) {ps : List Grower} {s : LockedBuffer}
    {o : Offheap} {n : ℕ} {ps' : List Grower} {s' : LockedBuffer} {o' : Offheap}
    → Run (Move checks) ps s o n ps' s' o'
    → IsFilling r top ps s o
    → IsFilling r top ps' s' o'
Run-IsFilling checks r top start h = h
Run-IsFilling checks r top (later _ _ _ _ _ _ _ run st) h =
    IsFilling-Step checks r top st (Run-IsFilling checks r top run h)
