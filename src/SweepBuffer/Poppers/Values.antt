-- ===== src/SweepBuffer/Poppers/Values.antt =====
-- Concurrent calls of `pop`: what the threads return.
use mathlib.Core.List.{Perm}
use mathlib.Core.List.Perm
use mathlib.Core.Path.{subst}
use rust_go_gc.Prelude.{
  ℕ, zero, suc, ◌+◌, ◌-◌, ◌*◌, ◌<◌, ◌≤◌, ◌≡◌, ◌∙◌, sym, ap, refl, Option, some, List, [], ◌∷◌, ◌++◌,
  arith, AllOf,
}
use rust_go_gc.Span.{MemorySpan}
use rust_go_gc.SweepBuffer.{Offheap, SweepBuffer}
use rust_go_gc.SweepBuffer.Slot.{slot}
use rust_go_gc.SweepBuffer.Threads.{Absent, Distinct, Step, here, there}
use rust_go_gc.SweepBuffer.Poppers.{Popper, calling, found, loaded, returned, Move}
use rust_go_gc.SweepBuffer.Poppers.Moves.{
  cursor, IsSound, value, waits, gained, taken_by, HasEntries, Move-buffer, Move-words, Move-value,
}
use rust_go_gc.SweepBuffer.Threads.{perm_between}
use rust_go_gc.SweepBuffer.Poppers.Apart.{
  waiting, Sound, taken, place-tail, sound-cursor, Step-buffer, Step-words,
}

abbrev pub values : (ℕ → ℕ) → (spine : ℕ) → List Popper → List (Option MemorySpan)
values words spine [] = []
values words spine (p ∷ ps) = value words spine p ++ values words spine ps

-- What a thread returns does not change where its entry does not.
keep-value :
    {spine spine' : ℕ} (words words' : ℕ → ℕ) (q : Popper)
    → spine' ≡ spine
    → ((d : ℕ) → cursor q ≡ some d → words' (slot spine d) ≡ words (slot spine d))
    → value words' spine' q ≡ value words spine q
keep-value words words' calling e same = refl
keep-value words words' (found old) e same = rw (e, same (old - 1) refl) refl
keep-value words words' (loaded x c block) e same = refl
keep-value words words' (returned x) e same = refl

keep-values :
    {spine spine' index top : ℕ} (words words' : ℕ → ℕ) (p : Popper) (qs : List Popper)
    → spine' ≡ spine
    → ((d : ℕ)
        → Absent cursor d p
        → index ≤ d
        → d < top
        → words' (slot spine d) ≡ words (slot spine d))
    → ((d : ℕ) → cursor p ≡ some d → AllOf (Absent cursor d) qs)
    → AllOf (IsSound spine index top) qs
    → values words' spine' qs ≡ values words spine qs
keep-values words words' p [] e same apart h = refl
keep-values {spine} {spine'} {index} {top} words words' p (q ∷ qs) e same apart (h, hs) =
    ap (λ (v : List (Option MemorySpan)). v ++ values words' spine' qs)
      (keep-value words words' q e (λ d at.
        let (ge, lt) = sound-cursor spine index top q d h at in
        same d (λ at'. (apart d at').0 at) ge lt))
    ∙ ap (λ (vs : List (Option MemorySpan)). value words spine q ++ vs)
        (keep-values words words' p qs e same (λ d at. (apart d at).1) hs)

gained_assoc :
    (n : ℕ) (b : SweepBuffer) (o : Offheap) (xs ys : List (Option MemorySpan))
    → (gained n b o ++ xs) ++ ys ≡ gained n b o ++ (xs ++ ys)
gained_assoc zero b o xs ys = refl
gained_assoc (suc n) b o xs ys = refl

module _ (t : ℕ) where
  pub Step-values :
      {ps : List Popper} {b : SweepBuffer} {o : Offheap} {ps' : List Popper} {b' : SweepBuffer}
      {o' : Offheap} (st : Step Move ps b o ps' b' o')
      → HasEntries t (waiting ps) b
      → Sound t b ps
      → Distinct cursor ps
      → Perm (values o'.words b'.spine ps') (gained (taken st) b o ++ values o.words b.spine ps)
  Step-values (here p b o p' b' o' ps mv) place (h, hs) (apart, _) =
      let from = place.from in
      let moved = Move-buffer t (waiting ps) mv place h in
      let own = Move-value t (waits p + waiting ps) mv place h in
      let rest =
        keep-values {index = b.index} {top = 512 * (t + 1)} o.words o'.words p ps
          (ap (λ (r : SweepBuffer). r.spine) moved)
          (λ d absent ge lt.
            Move-words t (waits p + waiting ps) d mv place h absent (omega arith) lt)
          apart hs in
      subst
        (λ (vs : List (Option MemorySpan)).
          Perm vs
            (gained (taken_by mv) b o ++ (value o.words b.spine p ++ values o.words b.spine ps)))
        (sym (
          ap (λ (v : List (Option MemorySpan)). v ++ values o'.words b'.spine ps) own
          ∙ ap
              (λ (vs : List (Option MemorySpan)).
                (gained (taken_by mv) b o ++ value o.words b.spine p) ++ vs)
              rest
          ∙ gained_assoc (taken_by mv) b o (value o.words b.spine p) (values o.words b.spine ps)))
        (Perm.refl _)
  Step-values (there p ps b o ps' b' o' st) place (h, hs) (apart, distinct) =
      let from = place.from in
      let below = place-tail t (waits p) (waiting ps) b place in
      let moved = Step-buffer t st below hs in
      let same =
        keep-value {spine = b.spine} {spine' = b'.spine} o.words o'.words p
          (ap (λ (r : SweepBuffer). r.spine) moved)
          (λ d at.
            let (ge, lt) = sound-cursor b.spine b.index (512 * (t + 1)) p d h at in
            Step-words t d st below hs (apart d at) (omega arith) lt) in
      subst
        (λ (v : List (Option MemorySpan)).
          Perm (v ++ values o'.words b'.spine ps')
            (gained (taken st) b o ++ (value o.words b.spine p ++ values o.words b.spine ps)))
        (sym same)
        (Perm.trans (Perm.append_left (value o.words b.spine p) (Step-values st below hs distinct))
          (perm_between (value o.words b.spine p) (gained (taken st) b o)
            (values o.words b.spine ps)))
