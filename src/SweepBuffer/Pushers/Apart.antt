-- ===== src/SweepBuffer/Pushers/Apart.antt =====
-- Concurrent calls of `push`: the cursors of the threads, and the entries written.
use mathlib.Core.Path.{subst}
use rust_go_gc.Prelude.{
  ℕ, ◌+◌, ◌*◌, ◌<◌, ◌≤◌, ◌≡◌, ◌⊎◌, inl, inr, ap, refl, Bool, List, [], ◌∷◌, some, arith, length,
  AllOf,
}
use rust_go_gc.SweepBuffer.{Offheap, SweepBuffer}
use rust_go_gc.SweepBuffer.Slot.{slot}
use rust_go_gc.SweepBuffer.Pushers.{
  Pusher, arriving, claimed, observed, located, pushed, Move, claim, observe, find, write,
}
use rust_go_gc.SweepBuffer.Threads.{Step, here, there, Absent, Distinct}
use rust_go_gc.SweepBuffer.Pushers.Moves.{
  cursor, InRange, IsSound, HasPlace, taken, Sound, Move-buffer, Move-words, Move-IsSound,
  Move-Absent, place-tail,
}

sound-cursor :
    (base spine index : ℕ) (words : ℕ → ℕ) (q : Pusher) (d : ℕ)
    → IsSound base spine index words q
    → cursor q ≡ some d
    → InRange base index d
sound-cursor base spine index words (arriving x) d h e = cc
sound-cursor base spine index words (claimed x c) d (ge, lt) e =
    let f : c ≡ d = cc in (omega arith, omega arith)
sound-cursor base spine index words (observed x c n) d (ge, lt) e =
    let f : c ≡ d = cc in (omega arith, omega arith)
sound-cursor base spine index words (located x c block) d ((ge, lt), _) e =
    let f : c ≡ d = cc in (omega arith, omega arith)
sound-cursor base spine index words (pushed x c) d ((ge, lt), _) e =
    let f : c ≡ d = cc in (omega arith, omega arith)

-- A cursor out of the range is no thread's.
pub outside-Absent :
    (base spine index : ℕ) (words : ℕ → ℕ) (d : ℕ) (qs : List Pusher)
    → (InRange base index d → ⊥)
    → AllOf (IsSound base spine index words) qs
    → AllOf (Absent cursor d) qs
outside-Absent base spine index words d [] out h = tt
outside-Absent base spine index words d (q ∷ qs) out (h, hs) = (
  (λ e. out (sound-cursor base spine index words q d h e)),
  outside-Absent base spine index words d qs out hs,
)

-- A thread that makes no access stays sound, as its entry is left and the index only grows.
keep-IsSound :
    (base : ℕ) {spine spine' index index' : ℕ} (words words' : ℕ → ℕ) (q : Pusher)
    → spine' ≡ spine
    → index ≤ index'
    → ((d : ℕ)
        → cursor q ≡ some d
        → base ≤ d
        → d < index
        → words' (slot spine d) ≡ words (slot spine d))
    → IsSound base spine index words q
    → IsSound base spine' index' words' q
keep-IsSound base words words' (arriving x) e le same h = tt
keep-IsSound base words words' (claimed x c) e le same (ge, lt) = (ge, omega arith)
keep-IsSound base words words' (observed x c n) e le same (ge, lt) = (ge, omega arith)
keep-IsSound base words words' (located x c block) e le same ((ge, lt), at) =
    ((ge, omega arith), omega arith)
keep-IsSound base words words' (pushed x c) e le same ((ge, lt), at) =
    ((ge, omega arith), rw (e, same c refl ge lt) at)

keep-Sound :
    (base : ℕ) {spine spine' index index' : ℕ} (words words' : ℕ → ℕ) (p : Pusher)
    (qs : List Pusher)
    → spine' ≡ spine
    → index ≤ index'
    → ((d : ℕ)
        → Absent cursor d p
        → base ≤ d
        → d < index
        → words' (slot spine d) ≡ words (slot spine d))
    → ((d : ℕ) → cursor p ≡ some d → AllOf (Absent cursor d) qs)
    → AllOf (IsSound base spine index words) qs
    → AllOf (IsSound base spine' index' words') qs
keep-Sound base words words' p [] e le same apart h = tt
keep-Sound base words words' p (q ∷ qs) e le same apart (h, hs) = (
  keep-IsSound base words words' q e le (λ d at. same d (λ at'. (apart d at').0 at)) h,
  keep-Sound base words words' p qs e le same (λ d at. (apart d at).1) hs,
)

module _ (checks : Bool) where
  Move-cursor :
      (d : ℕ) {p : Pusher} {b : SweepBuffer} {o : Offheap} {p' : Pusher} {b' : SweepBuffer}
      {o' : Offheap}
      → Move checks p b o p' b' o'
      → cursor p' ≡ some d
      → (cursor p ≡ some d) ⊎ (b.index ≡ d)
  Move-cursor d (claim _ _ _) e = inr (cc)
  Move-cursor d (observe _ _ _ _ _ _) h = inl h
  Move-cursor d (find _ _ _ _ _ _ _ _ _) h = inl h
  Move-cursor d (write _ _ _ _ _) h = inl h

  module _ (t base : ℕ) where
    pub Step-buffer :
        {ps : List Pusher} {b : SweepBuffer} {o : Offheap} {ps' : List Pusher} {b' : SweepBuffer}
        {o' : Offheap} (st : Step (Move checks) ps b o ps' b' o')
        → HasPlace t base ps b
        → Sound base b o ps
        → b' ≡ record b { index = b.index + length (taken checks st) }
    Step-buffer (here _ _ _ _ _ _ ps mv) place (h, _) = Move-buffer checks t base ps mv place h
    Step-buffer (there p ps b _ _ _ _ st) place (_, hs) =
        Step-buffer st (place-tail checks t base p ps b place) hs

    -- No entry is written but those of the threads' cursors.
    pub Step-words :
        {ps : List Pusher} {b : SweepBuffer} {o : Offheap} {ps' : List Pusher} {b' : SweepBuffer}
        {o' : Offheap} (d : ℕ) (st : Step (Move checks) ps b o ps' b' o')
        → HasPlace t base ps b
        → Sound base b o ps
        → AllOf (Absent cursor d) ps
        → 512 * t ≤ d
        → d < 512 * (t + 1)
        → o'.words (slot b.spine d) ≡ o.words (slot b.spine d)
    Step-words d (here _ _ _ _ _ _ ps mv) place (h, _) (absent, _) ge lt =
        Move-words checks t base ps d mv place h absent ge lt
    Step-words d (there p ps b _ _ _ _ st) place (_, hs) (_, absent) ge lt =
        Step-words d st (place-tail checks t base p ps b place) hs absent ge lt

    Step-Absent :
        {ps : List Pusher} {b : SweepBuffer} {o : Offheap} {ps' : List Pusher} {b' : SweepBuffer}
        {o' : Offheap} (d : ℕ) (st : Step (Move checks) ps b o ps' b' o')
        → d < b.index
        → AllOf (Absent cursor d) ps
        → AllOf (Absent cursor d) ps'
    Step-Absent d (here _ _ _ _ _ _ ps mv) lt (h, hs) = (Move-Absent checks t base d mv lt h, hs)
    Step-Absent d (there p ps b _ _ _ _ st) lt (h, hs) = (h, Step-Absent d st lt hs)

    pub Step-Distinct :
        {ps : List Pusher} {b : SweepBuffer} {o : Offheap} {ps' : List Pusher} {b' : SweepBuffer}
        {o' : Offheap} (st : Step (Move checks) ps b o ps' b' o')
        → Sound base b o ps
        → Distinct cursor ps
        → Distinct cursor ps'
    Step-Distinct (here p b o _ _ _ ps mv) (h, hs) (apart, rest) = (
      (λ d e. elim (Move-cursor d mv e) [
        | inl before ↦ apart d before
        | inr new ↦
            subst (λ (c : ℕ). AllOf (Absent cursor c) ps) new
              (outside-Absent base b.spine b.index o.words b.index ps (λ (_, lt). omega arith) hs)
      ]),
      rest,
    )
    Step-Distinct (there p ps b o _ _ _ st) (h, hs) (apart, rest) = (
      (λ d e. Step-Absent d st (sound-cursor base b.spine b.index o.words p d h e).1 (apart d e)),
      Step-Distinct st hs rest,
    )

    pub Step-Sound :
        {ps : List Pusher} {b : SweepBuffer} {o : Offheap} {ps' : List Pusher} {b' : SweepBuffer}
        {o' : Offheap} (st : Step (Move checks) ps b o ps' b' o')
        → HasPlace t base ps b
        → base ≤ b.index
        → Sound base b o ps
        → Distinct cursor ps
        → Sound base b' o' ps'
    Step-Sound (here p b o _ b' o' ps mv) place above (h, hs) (apart, _) =
        let moved = Move-buffer checks t base ps mv place h in
        let to = place.to in
        let from = place.from in
        (
          Move-IsSound checks t base ps mv place above h,
          keep-Sound base o.words o'.words p ps (ap (λ (r : SweepBuffer). r.spine) moved)
              (omega (arith, ap (λ (r : SweepBuffer). r.index) moved))
              (λ d absent ge lt.
                Move-words checks t base ps d mv place h absent (omega arith) (omega arith))
              apart hs,
        )
    Step-Sound (there p ps b o ps' b' o' st) place above (h, hs) (apart, rest) =
        let below = place-tail checks t base p ps b place in
        let moved = Step-buffer st below hs in
        let to = place.to in
        let from = place.from in
        (
          keep-IsSound base o.words o'.words p (ap (λ (r : SweepBuffer). r.spine) moved)
              (omega (arith, ap (λ (r : SweepBuffer). r.index) moved))
              (λ d at ge lt. Step-words d st below hs (apart d at) (omega arith) (omega arith)) h,
          Step-Sound st below above hs rest,
        )
