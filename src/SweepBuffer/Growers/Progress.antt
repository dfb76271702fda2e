-- ===== src/SweepBuffer/Growers/Progress.antt =====
-- Concurrent calls of `push` that make the spine grow: what a thread has left to do, and who goes on.
use rust_go_gc.Prelude.{
  ℕ, suc, ◌+◌, ◌*◌, ◌/◌, ◌<◌, ◌≤◌, ◌≡◌, ◌≢◌, refl, Bool, List, [], ◌∷◌, arith, ltb, Bool-cases, inl,
  inr, AllOf, length,
}
use rust_go_gc.Span.{MemorySpan}
use rust_go_gc.SweepBuffer.{Offheap, SweepBuffer}
use rust_go_gc.SweepBuffer.Threads.{Step, here, there, Run, start, later}
use rust_go_gc.SweepBuffer.Growers.{
  Lock, open_lock, held, poisoned, LockedBuffer, with_buffer, Grower, arriving, claimed, observed,
  holding, looked, grown, allocated, extended, located, pushed, panicked, Move, claim, observe,
  find, find_fail, acquire, refuse, look, again, grow, grow_fail, allocate, extend, release,
  no_block, write, holders, owned, arrivals, left, left_all,
}
use rust_go_gc.SweepBuffer.Growers.Bound.{Sound}
use rust_go_gc.SweepBuffer.Growers.Room.{IsFine, ensure_cap-enough, get_spine_block-ok}

pub arrivals-left : (xs : List MemorySpan) → left_all (arrivals xs) ≡ 9 * length xs
arrivals-left [] = refl
arrivals-left (x ∷ xs) = omega (arith, arrivals-left xs)

module _ (checks : Bool) where
  left-Move :
      {p : Grower} {s : LockedBuffer} {o : Offheap} {p' : Grower} {s' : LockedBuffer} {o' : Offheap}
      → Move checks p s o p' s' o'
      → suc (left p') ≤ left p
  left-Move (claim _ _ _ _) = omega arith
  left-Move (observe _ _ _ _ _ _) = ground arith
  left-Move (find _ _ _ _ _ _ known _) = ground arith
  left-Move (find_fail _ _ _ _ _ _ known _) = ground arith
  left-Move (acquire _ _ _ _ _ le) = ground arith
  left-Move (refuse _ _ _ _ _ le) = ground arith
  left-Move (look _ _ _ _) = omega arith
  left-Move (again _ _ _ _ _ _ known) = ground arith
  left-Move (grow _ _ _ _ _ _ _ _ _ _) = omega arith
  left-Move (grow_fail _ _ _ _ _ _ _ _ _) = omega arith
  left-Move (allocate _ _ _ _) = omega arith
  left-Move (extend _ _ _ _ _ _) = omega arith
  left-Move (release _ _ _ _ _ _ _) = omega arith
  left-Move (no_block _ _ _ _ _) = omega arith
  left-Move (write _ _ _ _ _) = omega arith

  left_all-Step :
      {ps : List Grower} {s : LockedBuffer} {o : Offheap} {ps' : List Grower} {s' : LockedBuffer}
      {o' : Offheap}
      → Step (Move checks) ps s o ps' s' o'
      → suc (left_all ps') ≤ left_all ps
  left_all-Step (here _ _ _ _ _ _ ps mv) = omega (arith, left-Move mv)
  left_all-Step (there _ _ _ _ _ _ _ st) = omega (arith, left_all-Step st)

  pub Run-left :
      {ps : List Grower} {s : LockedBuffer} {o : Offheap} {n : ℕ} {ps' : List Grower}
      {s' : LockedBuffer} {o' : Offheap}
      → Run (Move checks) ps s o n ps' s' o'
      → n + left_all ps' ≤ left_all ps
  Run-left start = omega arith
  Run-left (later _ _ _ _ _ _ _ run st) = omega (arith, Run-left run, left_all-Step st)

  -- A step of some thread of `ps`.
  abbrev pub Goes : List Grower → LockedBuffer → Offheap → Type 0
  Goes ps s o =
      (ps' : List Grower) × (s' : LockedBuffer) × (o' : Offheap) × Step (Move checks) ps s o ps' s'
        o'

  Goes-there :
      (p : Grower) {ps : List Grower} {s : LockedBuffer} {o : Offheap}
      → Goes ps s o
      → Goes (p ∷ ps) s o
  Goes-there p (ps', s', o', st) = (p ∷ ps', s', o', there _ _ _ _ _ _ _ st)

  module _ (t : ℕ) (b : SweepBuffer) (o : Offheap) (below : t < b.spine_cap) (placed : 0 < b.spine)
      (to : b.index ≤ 512 * (t + 1)) where
    -- The thread with the guard goes on.
    holder-Goes :
        (l : Lock) (ps : List Grower)
        → Sound t b ps
        → AllOf IsFine ps
        → 0 < holders ps
        → Goes ps (with_buffer b l) o
    holder-Goes l [] sound fine some_guard = absurd (omega arith)
    holder-Goes l (holding x c ∷ ps) sound fine some_guard =
        (_, _, _, here _ _ _ _ _ _ ps (look x c (with_buffer b l) o))
    holder-Goes l (looked x c n ∷ ps) (((ge, lt), at), _) fine some_guard =
        elim (Bool-cases (ltb (c / 512) n)) [
          | inl known ↦ (_, _, _, here _ _ _ _ _ _ ps (again x c n b l o (ground arith)))
          | inr unknown ↦
              (let le : n ≤ c / 512 = ground arith in
                (
                  _,
                  _,
                  _,
                  here _ _ _ _ _ _ ps
                      (grow x c n b l o b o le (ensure_cap-enough checks n b o (omega arith))),
                ))
        ]
    holder-Goes l (grown x c ∷ ps) sound fine some_guard =
        (_, _, _, here _ _ _ _ _ _ ps (allocate x c (with_buffer b l) o))
    holder-Goes l (allocated x c block ∷ ps) sound fine some_guard =
        (_, _, _, here _ _ _ _ _ _ ps (extend x c block b l o))
    holder-Goes l (extended x c block ∷ ps) sound (fine, _) some_guard =
        (_, _, _, here _ _ _ _ _ _ ps (release x c block b l o fine))
    holder-Goes l (arriving x ∷ ps) (_, sound) (_, fine) some_guard =
        Goes-there (arriving x) (holder-Goes l ps sound fine (omega arith))
    holder-Goes l (claimed x c ∷ ps) (_, sound) (_, fine) some_guard =
        Goes-there (claimed x c) (holder-Goes l ps sound fine (omega arith))
    holder-Goes l (observed x c n ∷ ps) (_, sound) (_, fine) some_guard =
        Goes-there (observed x c n) (holder-Goes l ps sound fine (omega arith))
    holder-Goes l (located x c block ∷ ps) (_, sound) (_, fine) some_guard =
        Goes-there (located x c block) (holder-Goes l ps sound fine (omega arith))
    holder-Goes l (pushed x c ∷ ps) (_, sound) (_, fine) some_guard =
        Goes-there (pushed x c) (holder-Goes l ps sound fine (omega arith))
    holder-Goes l (panicked x c ∷ ps) (_, sound) (_, fine) some_guard =
        Goes-there (panicked x c) (holder-Goes l ps sound fine (omega arith))

    -- Where the lock is open, any thread that is not done goes on.
    open-Goes :
        (ps : List Grower)
        → Sound t b ps
        → holders ps ≡ 0
        → 0 < left_all ps
        → Goes ps (with_buffer b open_lock) o
    open-Goes [] sound none more = absurd (omega arith)
    open-Goes (arriving x ∷ ps) sound none more =
        (_, _, _, here _ _ _ _ _ _ ps (claim x b open_lock o))
    open-Goes (claimed x c ∷ ps) sound none more = (
      _,
      _,
      _,
      here _ _ _ _ _ _ ps (observe x c b.spine_length (with_buffer b open_lock) o (omega arith)),
    )
    open-Goes (observed x c n ∷ ps) sound none more = elim (Bool-cases (ltb (c / 512) n)) [
      | inl known ↦ (
        _,
        _,
        _,
        here _ _ _ _ _ _ ps (
            find x c n (b.spine + 8 * (c / 512)) (with_buffer b open_lock) o (ground arith)
              (get_spine_block-ok (c / 512) b placed)),
      )
      | inr unknown ↦ (_, _, _, here _ _ _ _ _ _ ps (acquire x c n b o (ground arith)))
    ]
    open-Goes (holding x c ∷ ps) sound none more = absurd (omega arith)
    open-Goes (looked x c n ∷ ps) sound none more = absurd (omega arith)
    open-Goes (grown x c ∷ ps) sound none more = absurd (omega arith)
    open-Goes (allocated x c block ∷ ps) sound none more = absurd (omega arith)
    open-Goes (extended x c block ∷ ps) sound none more = absurd (omega arith)
    open-Goes (located x c block ∷ ps) sound none more =
        (_, _, _, here _ _ _ _ _ _ ps (write x c block (with_buffer b open_lock) o))
    open-Goes (pushed x c ∷ ps) (_, sound) none more =
        Goes-there (pushed x c) (open-Goes ps sound (omega arith) (omega arith))
    open-Goes (panicked x c ∷ ps) (_, sound) none more =
        Goes-there (panicked x c) (open-Goes ps sound (omega arith) (omega arith))

    pub goes :
        (l : Lock) (ps : List Grower)
        → l ≢ poisoned
        → Sound t b ps
        → AllOf IsFine ps
        → holders ps ≡ owned l
        → 0 < left_all ps
        → Goes ps (with_buffer b l) o
    goes open_lock ps fine sound fines guarded more = open-Goes ps sound guarded more
    goes held ps fine sound fines guarded more = holder-Goes held ps sound fines (omega arith)
    goes poisoned ps fine sound fines guarded more = absurd (fine refl)
