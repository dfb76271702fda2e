-- ===== src/SweepBuffer/Pushers/Moves.antt =====
-- What one access of a thread in `push` changes, in a block that the spine has.
use rust_go_gc.Prelude.{
  ℕ, suc, ◌+◌, ◌*◌, ◌/◌, ◌%◌, ◌<◌, ◌≤◌, ◌≡◌, ◌≢◌, ◌∙◌, sym, ap, false, true, refl, Bool, List, [],
  ◌∷◌, Option, none, some, arith, length, AllOf, ◌==◌,
}
use mathlib.Core.Path.{subst}
use rust_go_gc.Prelude.Outcome.{ok}
use rust_go_gc.Prelude.Word.{word}
use rust_go_gc.Span.{MemorySpan}
use rust_go_gc.SweepBuffer.{Offheap, SweepBuffer, store, find_block}
use rust_go_gc.SweepBuffer.Slot.{slot, find_block-spine}
use rust_go_gc.SweepBuffer.Pushers.{
  Pusher, arriving, claimed, observed, located, pushed, Move, claim, observe, find, write, left,
  left_all,
}
use rust_go_gc.SweepBuffer.Threads.{Step, here, there, Absent}

abbrev pub cursor : Pusher → Option ℕ
cursor (arriving x) = none
cursor (claimed x c) = some c
cursor (observed x c n) = some c
cursor (located x c block) = some c
cursor (pushed x c) = some c

-- A thread's cursor lies from `base` up to the index, its block is the cursor's, and its entry, once
-- written, is its span.
abbrev pub InRange : (base index c : ℕ) → Type 0
InRange base index c = (base ≤ c) × (c < index)

abbrev pub IsSound : (base spine index : ℕ) → (ℕ → ℕ) → Pusher → Type 0
IsSound base spine index words (arriving x) = Unit {0}
IsSound base spine index words (claimed x c) = InRange base index c
IsSound base spine index words (observed x c n) = InRange base index c
IsSound base spine index words (located x c block) =
    InRange base index c × (block ≡ spine + 8 * (c / 512))
IsSound base spine index words (pushed x c) = InRange base index c × (words (slot spine c) ≡ x)

-- The threads that have no cursor yet.
abbrev pub waits : Pusher → ℕ
waits (arriving x) = 1
waits (claimed x c) = 0
waits (observed x c n) = 0
waits (located x c block) = 0
waits (pushed x c) = 0

abbrev pub waiting : List Pusher → ℕ
waiting [] = 0
waiting (p ∷ ps) = waits p + waiting ps

-- The block `t` is the spine's, `base` lies in it, and it has room for the threads that wait.
pub record HasPlace (t base : ℕ) (ps : List Pusher) (b : SweepBuffer) : Type 0 where
  pub in_spine : t < b.spine_length
  pub allocated : 0 < b.spine
  pub from : 512 * t ≤ base
  pub to : b.index + waiting ps ≤ 512 * (t + 1)
  pub fits : 512 * (t + 1) < word

abbrev pub Sound : (base : ℕ) → SweepBuffer → Offheap → List Pusher → Type 0
Sound base b o ps = AllOf (IsSound base b.spine b.index o.words) ps

same_index : (b : SweepBuffer) → b ≡ record b { index = b.index + 0 }
same_index b = let e : b.index + 0 ≡ b.index = omega arith in rw e refl

module _ (checks : Bool) where
  -- The spans that get their cursor in a step: one, or none.
  abbrev pub taken_by :
      {p : Pusher} {b : SweepBuffer} {o : Offheap} {p' : Pusher} {b' : SweepBuffer} {o' : Offheap}
      → Move checks p b o p' b' o'
      → List MemorySpan
  taken_by (claim x _ _) = x ∷ []
  taken_by (observe _ _ _ _ _ _) = []
  taken_by (find _ _ _ _ _ _ _ _ _) = []
  taken_by (write _ _ _ _ _) = []

  abbrev pub taken :
      {ps : List Pusher} {b : SweepBuffer} {o : Offheap} {ps' : List Pusher} {b' : SweepBuffer}
      {o' : Offheap}
      → Step (Move checks) ps b o ps' b' o'
      → List MemorySpan
  taken (here _ _ _ _ _ _ _ mv) = taken_by mv
  taken (there _ _ _ _ _ _ _ st) = taken st

  -- Every step is one access less to make.
  left-Move :
      {p : Pusher} {b : SweepBuffer} {o : Offheap} {p' : Pusher} {b' : SweepBuffer} {o' : Offheap}
      → Move checks p b o p' b' o'
      → left p ≡ suc (left p')
  left-Move (claim x _ _) = refl
  left-Move (observe _ _ _ _ _ _) = refl
  left-Move (find _ _ _ _ _ _ _ _ _) = refl
  left-Move (write _ _ _ _ _) = refl

  pub left_all-Step :
      {ps : List Pusher} {b : SweepBuffer} {o : Offheap} {ps' : List Pusher} {b' : SweepBuffer}
      {o' : Offheap}
      → Step (Move checks) ps b o ps' b' o'
      → left_all ps ≡ suc (left_all ps')
  left_all-Step (here _ _ _ _ _ _ ps mv) = omega (arith, left-Move mv)
  left_all-Step (there _ _ _ _ _ _ _ st) = omega (arith, left_all-Step st)

  module _ (t base : ℕ) where
    pub place-tail :
        (p : Pusher) (ps : List Pusher) (b : SweepBuffer)
        → HasPlace t base (p ∷ ps) b
        → HasPlace t base ps b
    place-tail p ps b place =
        let to = place.to in
        record {
          in_spine = place.in_spine;
          allocated = place.allocated;
          from = place.from;
          to = omega arith;
          fits = place.fits;
        }

    -- The block found is the cursor's, and nothing else changes.
    find-same :
        (c n block : ℕ) {ps : List Pusher} (b : SweepBuffer) (o : Offheap) (b' : SweepBuffer)
        (o' : Offheap)
        → HasPlace t base ps b
        → InRange base b.index c
        → find_block checks n (c / 512) b o ≡ ok (block, b', o')
        → ◌≡◌ {A = ℕ × SweepBuffer × Offheap} (block, b', o') (b.spine + 8 * (c / 512), b, o)
    find-same c n block b o b' o' place (ge, lt) e =
        let known = place.in_spine in
        let from = place.from in
        let to = place.to in
        let found = find_block-spine checks n (c / 512) b o place.allocated (omega arith) in cc

    pub Move-buffer :
        {p : Pusher} {b : SweepBuffer} {o : Offheap} {p' : Pusher} {b' : SweepBuffer} {o' : Offheap}
        (ps : List Pusher) (mv : Move checks p b o p' b' o')
        → HasPlace t base (p ∷ ps) b
        → IsSound base b.spine b.index o.words p
        → b' ≡ record b { index = b.index + length (taken_by mv) }
    Move-buffer ps (claim x b o) place sound =
        let to = place.to in
        let fits = place.fits in
        let e : (b.index + 1) % word ≡ b.index + 1 = omega arith in rw e refl
    Move-buffer ps (observe x c n b o le) place sound = same_index b
    Move-buffer ps (find x c n block b o b' o' e) place sound =
        ap (λ (r : ℕ × SweepBuffer × Offheap). r.1) (find-same c n block b o b' o' place sound e)
        ∙ same_index b
    Move-buffer ps (write x c block b o) place sound = same_index b

    -- An access writes no entry but that of the thread's own cursor.
    pub Move-words :
        {p : Pusher} {b : SweepBuffer} {o : Offheap} {p' : Pusher} {b' : SweepBuffer} {o' : Offheap}
        (ps : List Pusher) (d : ℕ) (mv : Move checks p b o p' b' o')
        → HasPlace t base (p ∷ ps) b
        → IsSound base b.spine b.index o.words p
        → Absent cursor d p
        → 512 * t ≤ d
        → d < 512 * (t + 1)
        → o'.words (slot b.spine d) ≡ o.words (slot b.spine d)
    unfolding store
    Move-words ps d (claim x b o) place sound absent ge lt = refl
    Move-words ps d (observe x c n b o le) place sound absent ge lt = refl
    Move-words ps d (find x c n block b o b' o' e) place sound absent ge lt =
        ap (λ (r : ℕ × SweepBuffer × Offheap). r.2.words (slot b.spine d))
          (find-same c n block b o b' o' place sound e)
    Move-words ps d (write x c block b o) place ((from', below), at) absent ge lt =
        let to = place.to in
        let from = place.from in
        let other : d ≢ c = λ e. absent (rw e refl) in
        let apart : (slot b.spine d == block + 8 * (c % 512)) ≡ false = ground arith in
        rw apart refl

    pub Move-IsSound :
        {p : Pusher} {b : SweepBuffer} {o : Offheap} {p' : Pusher} {b' : SweepBuffer} {o' : Offheap}
        (ps : List Pusher) (mv : Move checks p b o p' b' o')
        → HasPlace t base (p ∷ ps) b
        → base ≤ b.index
        → IsSound base b.spine b.index o.words p
        → IsSound base b'.spine b'.index o'.words p'
    unfolding store
    Move-IsSound ps (claim x b o) place above sound =
        let to = place.to in let fits = place.fits in (above, omega arith)
    Move-IsSound ps (observe x c n b o le) place above sound = sound
    Move-IsSound ps (find x c n block b o b' o' e) place above sound =
        subst
          (λ (r : ℕ × SweepBuffer × Offheap).
            InRange base r.1.index c × (r.0 ≡ r.1.spine + 8 * (c / 512)))
          (sym (find-same c n block b o b' o' place sound e)) (sound, refl)
    Move-IsSound ps (write x c block b o) place above (range, at) =
        let same : (slot b.spine c == block + 8 * (c % 512)) ≡ true = ground arith in
        (range, rw same refl)

    -- A cursor that was given out before is given to no other thread.
    pub Move-Absent :
        {p : Pusher} {b : SweepBuffer} {o : Offheap} {p' : Pusher} {b' : SweepBuffer} {o' : Offheap}
        (d : ℕ) (mv : Move checks p b o p' b' o')
        → d < b.index
        → Absent cursor d p
        → Absent cursor d p'
    Move-Absent d (claim x b o) lt absent = λ e. let f : b.index ≡ d = cc in omega arith
    Move-Absent d (observe _ _ _ _ _ _) lt absent = absent
    Move-Absent d (find _ _ _ _ _ _ _ _ _) lt absent = absent
    Move-Absent d (write _ _ _ _ _) lt absent = absent
