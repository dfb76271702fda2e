-- ===== src/SweepBuffer/Growers/Landed.antt =====
-- Concurrent calls of `push` that make the spine grow by one block: where each span is written.
use mathlib.Core.Path.{subst}
use rust_go_gc.Prelude.{
  ℕ, ◌+◌, ◌*◌, ◌<◌, ◌≤◌, ◌≡◌, ◌≢◌, ◌⊎◌, inl, inr, refl, Bool, true, false, some, List, [], ◌∷◌,
  arith, AllOf,
}
use rust_go_gc.SweepBuffer.{Offheap}
use rust_go_gc.SweepBuffer.Threads.{Step, here, there, Absent, Distinct}
use rust_go_gc.SweepBuffer.Growers.{
  LockedBuffer, Grower, arriving, claimed, observed, holding, looked, grown, allocated, extended,
  located, pushed, panicked, Move, holds, holders,
}
use rust_go_gc.SweepBuffer.Growers.Moves.{IsSound, waits, waiting}
use rust_go_gc.SweepBuffer.Growers.Bound.{Sound, ReachedBy, Reached-eq}
use rust_go_gc.SweepBuffer.Growers.Room.{IsFine, Room, IsWithin, pends, pending, pending-le}
use rust_go_gc.SweepBuffer.Growers.OneBlock.{head-Before, IsWithin-eq}
use rust_go_gc.SweepBuffer.Growers.Places.{
  cursor, sound-cursor, place, Lands, count, Move-cursor, Move-Landed,
}

-- The new block and the place of its slot lie apart.
abbrev pub IsClear : {t : ℕ} → Room t → Type 0
IsClear {t} r = (r.spine + 8 * t + 4096 ≤ r.brk) ⊎ (r.brk + 4096 ≤ r.spine + 8 * t)

abbrev InBlock : (t d : ℕ) → Type 0
InBlock t d = (512 * t ≤ d) × (d < 512 * (t + 1))

place-apart :
    {t : ℕ} (r : Room t) (f g : Bool) (d e : ℕ)
    → IsClear r
    → InBlock t d
    → InBlock t e
    → d ≢ e
    → place r f d ≢ place r g e
place-apart r true true d e clear (a, b) (a', b') other = λ same. other (omega arith)
place-apart r true false d e clear (a, b) (a', b') other = λ same. omega arith
place-apart r false true d e clear (a, b) (a', b') other = λ same. omega arith
place-apart r false false d e clear (a, b) (a', b') other = λ same. other (omega arith)

module _ {t : ℕ} (r : Room t) where
  keep-Lands :
      (words words' : ℕ → ℕ) (f : Bool) (q : Grower)
      → ((d : ℕ) → cursor q ≡ some d → words' (place r f d) ≡ words (place r f d))
      → Lands r words f q
      → Lands r words' f q
  keep-Lands words words' f (arriving x) same h = h
  keep-Lands words words' f (claimed x c) same h = h
  keep-Lands words words' f (observed x c n) same h = h
  keep-Lands words words' f (holding x c) same h = h
  keep-Lands words words' f (looked x c n) same h = h
  keep-Lands words words' f (grown x c) same h = h
  keep-Lands words words' f (allocated x c block) same h = h
  keep-Lands words words' f (extended x c block) same h = h
  keep-Lands words words' f (located x c block) same h = h
  keep-Lands words words' f (pushed x c) same h = rw (same c refl) h
  keep-Lands words words' f (panicked x c) same h = h

  -- Each thread with its flag.
  abbrev pub AllLand : (ℕ → ℕ) → List Bool → List Grower → Type 0
  AllLand words [] [] = Unit {0}
  AllLand words (f ∷ fs) (p ∷ ps) = Lands r words f p × AllLand words fs ps
  AllLand words _ _ = ⊥

  abbrev pub counts : List Bool → ℕ
  counts [] = 0
  counts (f ∷ fs) = count f + counts fs

  -- An address that is no thread's place.
  abbrev Away : ℕ → Grower → Type 0
  Away a p = (f : Bool) (d : ℕ) → cursor p ≡ some d → a ≢ place r f d

  module _ (index spine_length : ℕ) (to : index ≤ 512 * (t + 1)) (clear : IsClear r) where
    IsSound-Away :
        (f : Bool) (d : ℕ) (q : Grower)
        → IsSound t index spine_length q
        → InBlock t d
        → Absent cursor d q
        → Away (place r f d) q
    IsSound-Away f d q sound range absent g e at =
        let (ge, lt) = sound-cursor t index spine_length q sound e at in
        place-apart r f g d e clear range (omega arith, omega arith) (λ same. absent (rw same at))

    Sound-Away :
        (f : Bool) (d : ℕ) (qs : List Grower)
        → AllOf (IsSound t index spine_length) qs
        → InBlock t d
        → AllOf (Absent cursor d) qs
        → AllOf (Away (place r f d)) qs
    Sound-Away f d [] sound range absent = tt
    Sound-Away f d (q ∷ qs) (sound, sounds) range (absent, absents) =
        (IsSound-Away f d q sound range absent, Sound-Away f d qs sounds range absents)

    -- The access of one thread leaves what the others have written.
    keep-AllLand :
        (words words' : ℕ → ℕ) (p : Grower) (fs : List Bool) (qs : List Grower)
        → IsSound t index spine_length p
        → AllOf (IsSound t index spine_length) qs
        → ((d : ℕ) → cursor p ≡ some d → AllOf (Absent cursor d) qs)
        → ((a : ℕ) → Away a p → words' a ≡ words a)
        → AllLand words fs qs
        → AllLand words' fs qs
    keep-AllLand words words' p [] [] sound sounds apart same h = tt
    keep-AllLand words words' p (f ∷ fs) (q ∷ qs) sound (sound_q, sounds) apart same (h, hs) = (
      keep-Lands words words' f q
          (λ d at.
            let (ge, lt) = sound-cursor t index spine_length q sound_q d at in
            same (place r f d)
              (IsSound-Away f d p sound (ge, omega arith) (λ at'. (apart d at').0 at)))
          h,
      keep-AllLand words words' p fs qs sound sounds (λ d at. (apart d at).1) same hs,
    )
    keep-AllLand words words' p [] (q ∷ qs) sound sounds apart same h = absurd h
    keep-AllLand words words' p (f ∷ fs) [] sound sounds apart same h = absurd h

    Absent-outside :
        (qs : List Grower)
        → AllOf (IsSound t index spine_length) qs
        → AllOf (Absent cursor index) qs
    Absent-outside [] sound = tt
    Absent-outside (q ∷ qs) (sound, sounds) = (
      (λ e. let (_, lt) = sound-cursor t index spine_length q sound index e in omega arith),
      Absent-outside qs sounds,
    )

  module _ (checks : Bool) where
    Step-Absent :
        (d : ℕ) {ps : List Grower} {s : LockedBuffer} {o : Offheap} {ps' : List Grower}
        {s' : LockedBuffer} {o' : Offheap}
        → Step (Move checks) ps s o ps' s' o'
        → d < s.buffer.index
        → AllOf (Absent cursor d) ps
        → AllOf (Absent cursor d) ps'
    Step-Absent d (here _ s _ _ _ _ ps mv) lt (absent, absents) = (
      (λ e. elim (Move-cursor checks d mv e) [ inl old ↦ absent old | inr fresh ↦ omega arith ]),
      absents,
    )
    Step-Absent d (there _ _ _ _ _ _ _ st) lt (absent, absents) =
        (absent, Step-Absent d st lt absents)

    pub Step-Distinct :
        {ps : List Grower} {s : LockedBuffer} {o : Offheap} {ps' : List Grower} {s' : LockedBuffer}
        {o' : Offheap}
        → Step (Move checks) ps s o ps' s' o'
        → s.buffer.index ≤ 512 * (t + 1)
        → IsClear r
        → Sound t s.buffer ps
        → Distinct cursor ps
        → Distinct cursor ps'
    Step-Distinct (here p s o p' s' o' ps mv) to clear (sound, sounds) (apart, distinct) = (
      (λ d e. elim (Move-cursor checks d mv e) [
        | inl old ↦ apart d old
        | inr fresh ↦
            subst (λ (i : ℕ). AllOf (Absent cursor i) ps) fresh
              (Absent-outside s.buffer.index s.buffer.spine_length to clear ps sounds)
      ]),
      distinct,
    )
    Step-Distinct (there p ps s o ps' s' o' st) to clear (sound, sounds) (apart, distinct) = (
      (λ d e.
          let (_, lt) = sound-cursor t s.buffer.index s.buffer.spine_length p sound d e in
          Step-Absent d st lt (apart d e)),
      Step-Distinct st to clear sounds distinct,
    )

    -- The flags after a step, with the memory that it leaves as it was.
    abbrev StepLands :
        List Bool
        → List Grower
        → List Grower
        → LockedBuffer
        → LockedBuffer
        → Offheap
        → Offheap
        → Type 0
    StepLands fs ps ps' s s' o o' =
        (fs' : List Bool) × AllLand o'.words fs' ps'
        × (counts fs' + (s.buffer.spine_length + pending ps)
            ≡ counts fs + (s'.buffer.spine_length + pending ps'))
        × ((a : ℕ) → AllOf (Away a) ps → o'.words a ≡ o.words a)

    pub Step-Lands :
        (top guards rest others : ℕ) (fs : List Bool) {ps : List Grower} {s : LockedBuffer}
        {o : Offheap} {ps' : List Grower} {s' : LockedBuffer} {o' : Offheap}
        → Step (Move checks) ps s o ps' s' o'
        → top ≤ 512 * (t + 1)
        → IsClear r
        → Sound t s.buffer ps
        → ReachedBy t top s.buffer (others + waiting ps)
        → rest ≤ guards
        → guards + holders ps ≤ 1
        → AllOf IsFine ps
        → IsWithin r (rest + pending ps) s o
        → Distinct cursor ps
        → AllLand o.words fs ps
        → StepLands fs ps ps' s s' o o'
    Step-Lands top guards rest others [] (here _ _ _ _ _ _ _ _) to clear sound reached few single
          fine h distinct lands =
        absurd lands
    Step-Lands top guards rest others [] (there _ _ _ _ _ _ _ _) to clear sound reached few single
          fine h distinct lands =
        absurd lands
    Step-Lands top guards rest others (f ∷ fs) (here p s o p' s' o' ps mv) to clear (sound, sounds)
          reached few single (fine, fines) h (apart, distinct) (land, lands) =
        let (_, _, _, under, _) = reached in
        let before =
          head-Before checks r top guards rest others p ps s to sound reached few single fine in
        let (f', land', flags, same) =
          Move-Landed checks r (guards + holders ps) (rest + pending ps) f mv before
            (IsWithin-eq checks r s o (omega arith) h) land in
        (
          f' ∷ fs,
          (
            land',
            keep-AllLand s.buffer.index s.buffer.spine_length (omega arith) clear o.words o'.words p
                fs ps sound sounds apart (λ a away. same a (away f)) lands,
          ),
          omega arith,
          λ a (away, _). same a (away f),
        )
    Step-Lands top guards rest others (f ∷ fs) (there p ps s o ps' s' o' st) to clear
          (sound, sounds) reached few single (fine, fines) h (apart, distinct) (land, lands) =
        let (_, _, _, under, _) = reached in
        let below = pending-le (p ∷ []) in
        let next : ReachedBy t top s.buffer (others + waits p + waiting ps) =
          Reached-eq t top s.buffer (omega arith) reached in
        let (fs', lands', flags, same) =
          Step-Lands top (guards + holds p) (rest + pends p) (others + waits p) fs st to clear
            sounds next (omega arith) (omega arith) fines (IsWithin-eq checks r s o (omega arith) h)
            distinct lands in
        (
          f ∷ fs',
          (
            keep-Lands o.words o'.words f p
                (λ d e.
                  let (ge, lt) = sound-cursor t s.buffer.index s.buffer.spine_length p sound d e in
                  same (place r f d) (
                    Sound-Away s.buffer.index s.buffer.spine_length (omega arith) clear f d ps
                      sounds (ge, omega arith) (apart d e)))
                land,
            lands',
          ),
          omega arith,
          λ a (_, away). same a away,
        )
