-- ===== src/SweepBuffer/Growers/Bound.antt =====
-- How far the spine grows in concurrent calls of `push`.
use rust_go_gc.Prelude.{ℕ, ◌+◌, ◌*◌, ◌<◌, ◌≤◌, ◌≡◌, refl, Bool, List, [], ◌∷◌, arith, length, AllOf}
use rust_go_gc.Prelude.Word.{word}
use rust_go_gc.Span.{MemorySpan}
use rust_go_gc.SweepBuffer.{Offheap, SweepBuffer}
use rust_go_gc.SweepBuffer.Threads.{Step, here, there, Run, start, later}
use rust_go_gc.SweepBuffer.Growers.{
  open_lock, LockedBuffer, Grower, arriving, claimed, observed, holding, looked, grown, allocated,
  extended, located, pushed, panicked, Move, arrivals, holds, holders, owned,
}
use rust_go_gc.SweepBuffer.Growers.Exclusion.{owned-le, Step-holders, holders-arrivals}
use rust_go_gc.SweepBuffer.Growers.Moves.{
  waits, waiting, IsSound, Reached, Grows, Move-Grows, Move-Reached, Move-IsSound,
}

-- A thread that makes no access stays sound: the index and the spine only grow, and the spine does
-- not if the thread has the guard.
keep-IsSound :
    (t : ℕ) {index index' spine_length spine_length' : ℕ} (q : Grower)
    → index ≤ index'
    → spine_length ≤ spine_length'
    → (0 < holds q → spine_length' ≡ spine_length)
    → IsSound t index spine_length q
    → IsSound t index' spine_length' q
keep-IsSound t (arriving x) le above same h = tt
keep-IsSound t (claimed x c) le above same (ge, lt) = (ge, omega arith)
keep-IsSound t (observed x c n) le above same ((ge, lt), at) = ((ge, omega arith), omega arith)
keep-IsSound t (holding x c) le above same (ge, lt) = (ge, omega arith)
keep-IsSound t (looked x c n) le above same ((ge, lt), at) =
    let e = same (omega arith) in ((ge, omega arith), omega arith)
keep-IsSound t (grown x c) le above same ((ge, lt), at) =
    let e = same (omega arith) in ((ge, omega arith), omega arith)
keep-IsSound t (allocated x c block) le above same ((ge, lt), at) =
    let e = same (omega arith) in ((ge, omega arith), omega arith)
keep-IsSound t (extended x c block) le above same ((ge, lt), at) = ((ge, omega arith), omega arith)
keep-IsSound t (located x c block) le above same ((ge, lt), at) = ((ge, omega arith), omega arith)
keep-IsSound t (pushed x c) le above same ((ge, lt), at) = ((ge, omega arith), omega arith)
keep-IsSound t (panicked x c) le above same (ge, lt) = (ge, omega arith)

keep-Sound :
    (t : ℕ) {index index' spine_length spine_length' : ℕ} (qs : List Grower)
    → index ≤ index'
    → spine_length ≤ spine_length'
    → (0 < holders qs → spine_length' ≡ spine_length)
    → AllOf (IsSound t index spine_length) qs
    → AllOf (IsSound t index' spine_length') qs
keep-Sound t [] le above same h = tt
keep-Sound t (q ∷ qs) le above same (h, hs) = (
  keep-IsSound t q le above (λ some_guard. same (omega arith)) h,
  keep-Sound t qs le above (λ some_guard. same (omega arith)) hs,
)

abbrev pub Sound : (t : ℕ) → SweepBuffer → List Grower → Type 0
Sound t b ps = AllOf (IsSound t b.index b.spine_length) ps

abbrev pub ReachedBy : (t top : ℕ) → SweepBuffer → (waiting : ℕ) → Type 0
ReachedBy t top b waiting = Reached t top b.index b.spine_length waiting

pub Reached-eq :
    (t top : ℕ) (b : SweepBuffer) {n m : ℕ} → n ≡ m → ReachedBy t top b n → ReachedBy t top b m
Reached-eq t top b e r = rw (← e) r

module _ (checks : Bool) (t top : ℕ) where
  Step-Grows :
      (others : ℕ) {ps : List Grower} {s : LockedBuffer} {o : Offheap} {ps' : List Grower}
      {s' : LockedBuffer} {o' : Offheap}
      → Step (Move checks) ps s o ps' s' o'
      → ReachedBy t top s.buffer (others + waiting ps)
      → Grows (holders ps) s.buffer s'.buffer
  Step-Grows others (here p s _ _ _ _ ps mv) r =
      let (le, above, same) =
        Move-Grows checks t top (others + waiting ps) mv
          (Reached-eq t top s.buffer (omega arith) r) in
      (le, above, λ none. same (omega arith))
  Step-Grows others (there p ps s _ _ _ _ st) r =
      let (le, above, same) =
        Step-Grows (others + waits p) st (Reached-eq t top s.buffer (omega arith) r) in
      (le, above, λ none. same (omega arith))

  Step-Reached :
      (others : ℕ) {ps : List Grower} {s : LockedBuffer} {o : Offheap} {ps' : List Grower}
      {s' : LockedBuffer} {o' : Offheap}
      → Step (Move checks) ps s o ps' s' o'
      → Sound t s.buffer ps
      → ReachedBy t top s.buffer (others + waiting ps)
      → ReachedBy t top s'.buffer (others + waiting ps')
  Step-Reached others (here p s _ p' s' _ ps mv) (sound, _) r =
      Reached-eq t top s'.buffer (omega arith) (
        Move-Reached checks t top (others + waiting ps) mv sound
          (Reached-eq t top s.buffer (omega arith) r))
  Step-Reached others (there p ps s _ ps' s' _ st) (_, sound) r =
      Reached-eq t top s'.buffer (omega arith)
        (Step-Reached (others + waits p) st sound (Reached-eq t top s.buffer (omega arith) r))

  Step-Sound :
      (others : ℕ) {ps : List Grower} {s : LockedBuffer} {o : Offheap} {ps' : List Grower}
      {s' : LockedBuffer} {o' : Offheap}
      → Step (Move checks) ps s o ps' s' o'
      → holders ps ≤ 1
      → Sound t s.buffer ps
      → ReachedBy t top s.buffer (others + waiting ps)
      → Sound t s'.buffer ps'
  Step-Sound others (here p s _ p' s' _ ps mv) single (sound, sounds) r =
      let reached : ReachedBy t top s.buffer (others + waiting ps + waits p) =
        Reached-eq t top s.buffer (omega arith) r in
      let (le, above, same) = Move-Grows checks t top (others + waiting ps) mv reached in
      (
        Move-IsSound checks t top (others + waiting ps) mv sound reached,
        keep-Sound t ps le above (λ some_guard. same (omega arith)) sounds,
      )
  Step-Sound others (there p ps s _ ps' s' _ st) single (sound, sounds) r =
      let reached : ReachedBy t top s.buffer (others + waits p + waiting ps) =
        Reached-eq t top s.buffer (omega arith) r in
      let (le, above, same) = Step-Grows (others + waits p) st reached in
      (
        keep-IsSound t p le above (λ some_guard. same (omega arith)) sound,
        Step-Sound (others + waits p) st (omega arith) sounds reached,
      )

-- What holds at every point of the calls.
pub record IsGrowing (t top : ℕ) (ps : List Grower) (s : LockedBuffer) : Type 0 where
  pub reached : ReachedBy t top s.buffer (0 + waiting ps)
  pub sound : Sound t s.buffer ps
  pub guarded : 0 + holders ps ≡ owned s.lock

pub arrivals-Sound :
    (t : ℕ) (b : SweepBuffer) (xs : List MemorySpan)
    → Sound t b (arrivals xs) × (waiting (arrivals xs) ≡ length xs)
arrivals-Sound t b [] = (tt, refl)
arrivals-Sound t b (x ∷ xs) =
    let (sound, waits) = arrivals-Sound t b xs in ((tt, sound), omega arith)

-- A buffer where the block `t` is at most the next one of the spine and the spine has no block
-- beyond the one of the last cursor, before so many pushes.
pub record IsFit (t top pushes : ℕ) (s : LockedBuffer) : Type 0 where
  pub opened : s.lock ≡ open_lock
  pub above : t ≤ s.buffer.spine_length
  pub from : 512 * t ≤ s.buffer.index
  pub reached : 512 * s.buffer.spine_length < s.buffer.index + 512
  pub under : s.buffer.index + pushes ≡ top
  pub fits : top + 512 < word

pub start-IsGrowing :
    (t top : ℕ) (xs : List MemorySpan) (s : LockedBuffer)
    → IsFit t top (length xs) s
    → IsGrowing t top (arrivals xs) s
start-IsGrowing t top xs s fit =
    let (sound, waits) = arrivals-Sound t s.buffer xs in
    let under = fit.under in
    let opened = fit.opened in
    let guards = holders-arrivals xs in
    record {
      reached = (fit.above, fit.from, fit.reached, omega arith, fit.fits);
      sound = sound;
      guarded = rw (opened, guards) refl;
    }

pub IsGrowing-Step :
    (checks : Bool) (t top : ℕ) {ps : List Grower} {s : LockedBuffer} {o : Offheap}
    {ps' : List Grower} {s' : LockedBuffer} {o' : Offheap}
    → Step (Move checks) ps s o ps' s' o'
    → IsGrowing t top ps s
    → IsGrowing t top ps' s'
IsGrowing-Step checks t top {s} st h =
    let guarded = h.guarded in
    let single = owned-le s.lock in
    record {
      reached = Step-Reached checks t top 0 st h.sound h.reached;
      sound = Step-Sound checks t top 0 st (omega arith) h.sound h.reached;
      guarded = Step-holders checks 0 st guarded;
    }

pub Run-IsGrowing :
    (checks : Bool) (t top : ℕ) {ps : List Grower} {s : LockedBuffer} {o : Offheap} {n : ℕ}
    {ps' : List Grower} {s' : LockedBuffer} {o' : Offheap}
    → Run (Move checks) ps s o n ps' s' o'
    → IsGrowing t top ps s
    → IsGrowing t top ps' s'
Run-IsGrowing checks t top start h = h
Run-IsGrowing checks t top (later _ _ _ _ _ _ _ run st) h =
    IsGrowing-Step checks t top st (Run-IsGrowing checks t top run h)

-- Threads push spans at once, in any interleaving of their accesses, where the lock is open and the
-- spine has no block beyond that of the last cursor, and where the index does not come near 2^64. At
-- every point the spine has no block that the cursors given out do not reach: as the length is tested
-- again under the lock, no two threads add a block for the same need.
pub growers-bound :
    (checks : Bool) (xs : List MemorySpan) (s : LockedBuffer) (o : Offheap)
    → IsFit 0 (s.buffer.index + length xs) (length xs) s
    → (n : ℕ) (ps : List Grower) (s' : LockedBuffer) (o' : Offheap)
    → Run (Move checks) (arrivals xs) s o n ps s' o'
    → 512 * s'.buffer.spine_length < s'.buffer.index + 512
growers-bound checks xs s o fit n ps s' o' run =
    let top = s.buffer.index + length xs in
    (Run-IsGrowing checks 0 top run (start-IsGrowing 0 top xs s fit)).reached.2
