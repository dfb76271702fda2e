-- ===== src/SweepBuffer/Growers/Astray.antt =====
-- Concurrent calls of `push` that make the spine grow by one block: where the spans lie in the end.
use rust_go_gc.Prelude.{
  ℕ, ◌+◌, ◌*◌, ◌%◌, ◌≤◌, ◌≡◌, refl, Bool, true, false, List, [], ◌∷◌, arith, length, AllOf,
}
use rust_go_gc.Span.{MemorySpan}
use rust_go_gc.SweepBuffer.{Offheap}
use rust_go_gc.SweepBuffer.Slot.{slot}
use rust_go_gc.SweepBuffer.Threads.{Run, start, later, Distinct}
use rust_go_gc.SweepBuffer.Growers.{
  LockedBuffer, Grower, arriving, claimed, observed, holding, looked, grown, allocated, extended,
  located, pushed, panicked, Move, arrivals, left_all,
}
use rust_go_gc.SweepBuffer.Growers.Exclusion.{owned-le}
use rust_go_gc.SweepBuffer.Growers.Moves.{IsSound}
use rust_go_gc.SweepBuffer.Growers.Room.{Room, pends, pending}
use rust_go_gc.SweepBuffer.Growers.OneBlock.{
  IsNext, room, IsFilling, start-IsFilling, IsFilling-Step,
}
use rust_go_gc.SweepBuffer.Growers.Places.{cursor, Lands}
use rust_go_gc.SweepBuffer.Growers.Landed.{IsClear, AllLand, counts, Step-Distinct, Step-Lands}
use rust_go_gc.SweepBuffer.Growers.Done.{IsPushed, left_all-Done, left-Done}

-- The span of a thread that has returned lies in the block at `block`, or at the entry of its cursor.
abbrev pub IsAt : (words : ℕ → ℕ) (spine block : ℕ) (new : Bool) → Grower → Type 0
IsAt words spine block true (pushed x c) = words (block + 8 * (c % 512)) ≡ x
IsAt words spine block false (pushed x c) = words (slot spine c) ≡ x
IsAt words spine block _ _ = ⊥

abbrev pub AllAt : (words : ℕ → ℕ) (spine block : ℕ) → List Bool → List Grower → Type 0
AllAt words spine block [] [] = Unit {0}
AllAt words spine block (f ∷ fs) (p ∷ ps) =
    IsAt words spine block f p × AllAt words spine block fs ps
AllAt words spine block _ _ = ⊥

module _ {t : ℕ} (r : Room t) where
  -- What holds at every point of the calls.
  record IsLanding (top : ℕ) (fs : List Bool) (ps : List Grower) (s : LockedBuffer) (o : Offheap)
      : Type 0 where
    filling : IsFilling r top ps s o
    distinct : Distinct cursor ps
    lands : AllLand r o.words fs ps
    flags : counts r fs + t ≡ s.buffer.spine_length + pending ps

  IsLanding-Run :
      (checks : Bool) (top : ℕ) (fs : List Bool) {ps : List Grower} {s : LockedBuffer} {o : Offheap}
      {n : ℕ} {ps' : List Grower} {s' : LockedBuffer} {o' : Offheap}
      → Run (Move checks) ps s o n ps' s' o'
      → IsClear r
      → IsLanding top fs ps s o
      → (fs' : List Bool) × IsLanding top fs' ps' s' o'
  IsLanding-Run checks top fs start clear h = (fs, h)
  IsLanding-Run checks top fs (later _ ps s o ps' s' o' run st) clear h =
      let (fs', h') = IsLanding-Run checks top fs run clear h in
      let (above, from, reached, under, fits) = h'.filling.growing.reached in
      let to = h'.filling.to in
      let guarded = h'.filling.growing.guarded in
      let single = owned-le s.lock in
      let before = h'.flags in
      let (fs'', lands, flags, _) =
        Step-Lands r checks top 0 0 0 fs' st to clear h'.filling.growing.sound
          h'.filling.growing.reached (omega arith) (omega arith) h'.filling.fine h'.filling.within
          h'.distinct h'.lands in
      (
        fs'',
        record {
          filling = IsFilling-Step checks r top st h'.filling;
          distinct =
              Step-Distinct r checks st (omega arith) clear h'.filling.growing.sound h'.distinct;
          lands = lands;
          flags = omega arith;
        },
      )

  arrivals-Lands :
      (words : ℕ → ℕ) (xs : List MemorySpan)
      → (fs : List Bool) × AllLand r words fs (arrivals xs)
        × (counts r fs ≡ 0)
        × Distinct cursor (arrivals xs)
        × (pending (arrivals xs) ≡ 0)
  arrivals-Lands words [] = ([], tt, refl, tt, refl)
  arrivals-Lands words (x ∷ xs) =
      let (fs, lands, none, distinct, pends) = arrivals-Lands words xs in
      (false ∷ fs, (refl, lands), omega arith, ((λ d e. cc), distinct), omega arith)

  Lands-IsAt :
      (words : ℕ → ℕ) (index spine_length : ℕ) (f : Bool) (p : Grower)
      → index ≤ 512 * (t + 1)
      → IsSound t index spine_length p
      → IsPushed p
      → Lands r words f p
      → IsAt words r.spine r.brk f p
  Lands-IsAt words index n true (pushed x c) to sound done land = land
  Lands-IsAt words index n false (pushed x c) to ((ge, lt), _) done land =
      let same : slot r.spine c ≡ r.spine + 8 * t + 8 * (c % 512) = omega arith in rw same land
  Lands-IsAt words index n f (arriving x) to sound done land = absurd done
  Lands-IsAt words index n f (claimed x c) to sound done land = absurd done
  Lands-IsAt words index n f (observed x c k) to sound done land = absurd done
  Lands-IsAt words index n f (holding x c) to sound done land = absurd done
  Lands-IsAt words index n f (looked x c k) to sound done land = absurd done
  Lands-IsAt words index n f (grown x c) to sound done land = absurd done
  Lands-IsAt words index n f (allocated x c block) to sound done land = absurd done
  Lands-IsAt words index n f (extended x c block) to sound done land = absurd done
  Lands-IsAt words index n f (located x c block) to sound done land = absurd done
  Lands-IsAt words index n f (panicked x c) to sound done land = absurd done

  AllLand-AllAt :
      (words : ℕ → ℕ) (index spine_length : ℕ) (fs : List Bool) (ps : List Grower)
      → index ≤ 512 * (t + 1)
      → AllOf (IsSound t index spine_length) ps
      → AllOf IsPushed ps
      → AllLand r words fs ps
      → AllAt words r.spine r.brk fs ps
  AllLand-AllAt words index n [] [] to sounds dones lands = tt
  AllLand-AllAt words index n (f ∷ fs) (p ∷ ps) to (sound, sounds) (done, dones) (land, lands) = (
    Lands-IsAt words index n f p to sound done land,
    AllLand-AllAt words index n fs ps to sounds dones lands,
  )
  AllLand-AllAt words index n [] (p ∷ ps) to sounds dones lands = absurd lands
  AllLand-AllAt words index n (f ∷ fs) [] to sounds dones lands = absurd lands

-- Threads, at least one, push spans at once that all go to one block, the next one that the spine is
-- to get; the lock is open, the spine has the capacity for the block, the memory has room for it, and
-- the new block does not overlap the entries where a pop looks for the spans. In any interleaving of
-- their accesses, when none has an access left, exactly one span, whichever thread has added the
-- block, lies in that block; each other one lies at the entry of its cursor, where a pop looks for it.
pub growers-one_astray :
    (checks : Bool) (t : ℕ) (x : MemorySpan) (xs : List MemorySpan) (s : LockedBuffer) (o : Offheap)
    (next : IsNext t (length (x ∷ xs)) s o)
    → IsClear (room next)
    → (n : ℕ) (p : Grower) (ps : List Grower) (s' : LockedBuffer) (o' : Offheap)
    → Run (Move checks) (arrivals (x ∷ xs)) s o n (p ∷ ps) s' o'
    → left_all (p ∷ ps) ≡ 0
    → (fs : List Bool) × (counts (room next) fs ≡ 1)
      × AllAt o'.words s.buffer.spine o.brk fs (p ∷ ps)
growers-one_astray checks t x xs s o next clear n p ps s' o' run none =
    let r = room next in
    let top = s.buffer.index + length (x ∷ xs) in
    let (fs₀, lands₀, none₀, distinct₀, pends₀) = arrivals-Lands r o.words (x ∷ xs) in
    let same = next.next in
    let (fs, h) = IsLanding-Run r checks top fs₀ run clear (record {
      filling = start-IsFilling (x ∷ xs) next;
      distinct = distinct₀;
      lands = lands₀;
      flags = omega arith;
    }) in
    let (above, from, reached, under, fits) = h.filling.growing.reached in
    let (dones, no_one_waits, none_pends) =
      left_all-Done t s'.buffer.index s'.buffer.spine_length (p ∷ ps) h.filling.growing.sound
        h.filling.fine none in
    let (sound, _) = h.filling.growing.sound in
    let (fine, _) = h.filling.fine in
    let (_, _, _, known) =
      left-Done t s'.buffer.index s'.buffer.spine_length p sound fine (omega arith) in
    let to = next.to in
    let flags = h.flags in
    (
      fs,
      omega arith,
      AllLand-AllAt r o'.words s'.buffer.index s'.buffer.spine_length fs (p ∷ ps) (omega arith)
          h.filling.growing.sound dones h.lands,
    )
