-- ===== src/SweepBuffer/Poppers/Apart.antt =====
-- Concurrent calls of `pop`: the cursors of the threads.
use rust_go_gc.Prelude.{
  ℕ, ◌+◌, ◌-◌, ◌*◌, ◌<◌, ◌≤◌, ◌≡◌, inl, inr, ap, some, List, [], ◌∷◌, arith, AllOf,
}
use rust_go_gc.SweepBuffer.{Offheap, SweepBuffer}
use rust_go_gc.SweepBuffer.Slot.{slot}
use rust_go_gc.SweepBuffer.Threads.{Absent, Distinct, Step, here, there}
use rust_go_gc.SweepBuffer.Poppers.{Popper, calling, found, loaded, returned, Move}
use rust_go_gc.SweepBuffer.Poppers.Moves.{
  cursor, IsSound, waits, taken_by, HasEntries, Move-waits, Move-buffer, Move-words, Move-IsSound,
  Move-Absent, Move-cursor,
}

abbrev pub waiting : List Popper → ℕ
waiting [] = 0
waiting (p ∷ ps) = waits p + waiting ps

abbrev pub Sound : (t : ℕ) → SweepBuffer → List Popper → Type 0
Sound t b ps = AllOf (IsSound b.spine b.index (512 * (t + 1))) ps

abbrev pub taken :
    {ps : List Popper} {b : SweepBuffer} {o : Offheap} {ps' : List Popper} {b' : SweepBuffer}
    {o' : Offheap}
    → Step Move ps b o ps' b' o'
    → ℕ
taken (here _ _ _ _ _ _ _ mv) = taken_by mv
taken (there _ _ _ _ _ _ _ st) = taken st

pub place-tail : (t m n : ℕ) (b : SweepBuffer) → HasEntries t (m + n) b → HasEntries t n b
place-tail t m n b place =
    let from = place.from in
    record { allocated = place.allocated; from = omega arith; to = place.to; fits = place.fits }

pub sound-cursor :
    (spine index top : ℕ) (q : Popper) (d : ℕ)
    → IsSound spine index top q
    → cursor q ≡ some d
    → (index ≤ d) × (d < top)
sound-cursor spine index top calling d h e = cc
sound-cursor spine index top (found old) d (lt, le) e =
    let f : old - 1 ≡ d = cc in (omega arith, omega arith)
sound-cursor spine index top (loaded x c block) d (ge, lt, _) e =
    let f : c ≡ d = cc in (omega arith, omega arith)
sound-cursor spine index top (returned x) d h e = cc

pub below-Absent :
    (spine index top d : ℕ) (qs : List Popper)
    → d < index
    → AllOf (IsSound spine index top) qs
    → AllOf (Absent cursor d) qs
below-Absent spine index top d [] lt h = tt
below-Absent spine index top d (q ∷ qs) lt (h, hs) = (
  (λ e. let (ge, _) = sound-cursor spine index top q d h e in omega arith),
  below-Absent spine index top d qs lt hs,
)

keep-IsSound :
    {spine spine' index index' : ℕ} (top : ℕ) (q : Popper)
    → spine' ≡ spine
    → index' ≤ index
    → IsSound spine index top q
    → IsSound spine' index' top q
keep-IsSound top calling e le h = tt
keep-IsSound top (found old) e le (lt, h) = (omega arith, h)
keep-IsSound top (loaded x c block) e le (ge, lt, at) = (omega arith, lt, omega arith)
keep-IsSound top (returned x) e le h = tt

keep-Sound :
    {spine spine' index index' : ℕ} (top : ℕ) (qs : List Popper)
    → spine' ≡ spine
    → index' ≤ index
    → AllOf (IsSound spine index top) qs
    → AllOf (IsSound spine' index' top) qs
keep-Sound top [] e le h = tt
keep-Sound top (q ∷ qs) e le (h, hs) = (keep-IsSound top q e le h, keep-Sound top qs e le hs)

module _ (t : ℕ) where
  pub Step-waiting :
      {ps : List Popper} {b : SweepBuffer} {o : Offheap} {ps' : List Popper} {b' : SweepBuffer}
      {o' : Offheap} (st : Step Move ps b o ps' b' o')
      → (taken st + waiting ps' ≡ waiting ps) × (taken st ≤ 1)
  Step-waiting (here _ _ _ _ _ _ ps mv) = let (e, le) = Move-waits t mv in (omega arith, le)
  Step-waiting (there p _ _ _ _ _ _ st) = let (e, le) = Step-waiting st in (omega arith, le)

  pub Step-buffer :
      {ps : List Popper} {b : SweepBuffer} {o : Offheap} {ps' : List Popper} {b' : SweepBuffer}
      {o' : Offheap} (st : Step Move ps b o ps' b' o')
      → HasEntries t (waiting ps) b
      → Sound t b ps
      → b' ≡ record b { index = b.index - taken st }
  Step-buffer (here _ _ _ _ _ _ ps mv) place (h, _) = Move-buffer t (waiting ps) mv place h
  Step-buffer (there p ps b _ _ _ _ st) place (_, hs) =
      Step-buffer st (place-tail t (waits p) (waiting ps) b place) hs

  pub Step-words :
      {ps : List Popper} {b : SweepBuffer} {o : Offheap} {ps' : List Popper} {b' : SweepBuffer}
      {o' : Offheap} (d : ℕ) (st : Step Move ps b o ps' b' o')
      → HasEntries t (waiting ps) b
      → Sound t b ps
      → AllOf (Absent cursor d) ps
      → 512 * t ≤ d
      → d < 512 * (t + 1)
      → o'.words (slot b.spine d) ≡ o.words (slot b.spine d)
  Step-words d (here p b _ _ _ _ ps mv) place (h, _) (absent, _) ge lt =
      Move-words t (waits p + waiting ps) d mv place h absent ge lt
  Step-words d (there p ps b _ _ _ _ st) place (_, hs) (_, absent) ge lt =
      Step-words d st (place-tail t (waits p) (waiting ps) b place) hs absent ge lt

  Step-Absent :
      {ps : List Popper} {b : SweepBuffer} {o : Offheap} {ps' : List Popper} {b' : SweepBuffer}
      {o' : Offheap} (d : ℕ) (st : Step Move ps b o ps' b' o')
      → HasEntries t (waiting ps) b
      → b.index ≤ d
      → AllOf (Absent cursor d) ps
      → AllOf (Absent cursor d) ps'
  Step-Absent d (here _ _ _ _ _ _ ps mv) place le (h, hs) =
      (Move-Absent t (waiting ps) d mv place le h, hs)
  Step-Absent d (there p ps b _ _ _ _ st) place le (h, hs) =
      (h, Step-Absent d st (place-tail t (waits p) (waiting ps) b place) le hs)

  pub Step-Distinct :
      {ps : List Popper} {b : SweepBuffer} {o : Offheap} {ps' : List Popper} {b' : SweepBuffer}
      {o' : Offheap} (st : Step Move ps b o ps' b' o')
      → HasEntries t (waiting ps) b
      → Sound t b ps
      → Distinct cursor ps
      → Distinct cursor ps'
  Step-Distinct (here p b o _ _ _ ps mv) place (h, hs) (apart, rest) = (
    (λ d e. elim (Move-cursor t d mv e) [
      | inl before ↦ apart d before
      | inr (new, one) ↦
          let from = place.from in
          below-Absent b.spine b.index (512 * (t + 1)) d ps (omega arith) hs
    ]),
    rest,
  )
  Step-Distinct (there p ps b o _ _ _ st) place (h, hs) (apart, rest) =
      let below = place-tail t (waits p) (waiting ps) b place in
      (
        (λ d e.
            Step-Absent d st below (sound-cursor b.spine b.index (512 * (t + 1)) p d h e).0
              (apart d e)),
        Step-Distinct st below hs rest,
      )

  pub Step-Sound :
      {ps : List Popper} {b : SweepBuffer} {o : Offheap} {ps' : List Popper} {b' : SweepBuffer}
      {o' : Offheap} (st : Step Move ps b o ps' b' o')
      → HasEntries t (waiting ps) b
      → Sound t b ps
      → Sound t b' ps'
  Step-Sound (here p b _ _ b' _ ps mv) place (h, hs) =
      let moved = Move-buffer t (waiting ps) mv place h in
      (
        Move-IsSound t (waiting ps) mv place h,
        keep-Sound (512 * (t + 1)) ps (ap (λ (r : SweepBuffer). r.spine) moved)
            (omega (arith, ap (λ (r : SweepBuffer). r.index) moved)) hs,
      )
  Step-Sound (there p ps b _ _ b' _ st) place (h, hs) =
      let below = place-tail t (waits p) (waiting ps) b place in
      let moved = Step-buffer st below hs in
      (
        keep-IsSound (512 * (t + 1)) p (ap (λ (r : SweepBuffer). r.spine) moved)
            (omega (arith, ap (λ (r : SweepBuffer). r.index) moved)) h,
        Step-Sound st below hs,
      )
