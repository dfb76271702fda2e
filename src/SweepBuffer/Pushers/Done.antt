-- ===== src/SweepBuffer/Pushers/Done.antt =====
-- What the threads of concurrent calls of `push` leave when none has an access to make.
use mathlib.Core.List.{Perm}
use mathlib.Core.List.Perm
use mathlib.Core.List
use rust_go_gc.Prelude.{
  ℕ, ◌+◌, ◌≡◌, ◌∙◌, inl, inr, ap, refl, List, [], ◌∷◌, ◌++◌, some, arith, length, length-append,
}
use rust_go_gc.Span.{MemorySpan}
use rust_go_gc.SweepBuffer.{Offheap, SweepBuffer}
use rust_go_gc.SweepBuffer.Slot.{slot}
use rust_go_gc.SweepBuffer.Stack.{Contents}
use rust_go_gc.SweepBuffer.Pushers.{
  Pusher, arriving, claimed, observed, located, pushed, left, left_all,
}
use rust_go_gc.SweepBuffer.Threads.{}
use rust_go_gc.SweepBuffer.Pushers.Moves.{cursor, IsSound, Sound}
use rust_go_gc.SweepBuffer.Pushers.Log.{span_of_pusher, owned, Has, IsLog}

-- An entry is in its place once no access is left.
entry-written :
    (base spine index : ℕ) (words : ℕ → ℕ) (c : ℕ) (x : MemorySpan) (p : Pusher)
    → left p ≡ 0
    → IsSound base spine index words p
    → span_of_pusher p ≡ x
    → cursor p ≡ some c
    → words (slot spine c) ≡ x
entry-written base spine index words c x (arriving y) e h same at = absurd (omega arith)
entry-written base spine index words c x (claimed y d) e h same at = absurd (omega arith)
entry-written base spine index words c x (observed y d n) e h same at = absurd (omega arith)
entry-written base spine index words c x (located y d block) e h same at = absurd (omega arith)
entry-written base spine index words c x (pushed y d) e (_, h) same at =
    let f : d ≡ c = cc in rw f at (h ∙ same)

Has-written :
    (base : ℕ) (b : SweepBuffer) (o : Offheap) (c : ℕ) (x : MemorySpan) (ps : List Pusher)
    → left_all ps ≡ 0
    → Sound base b o ps
    → Has c x ps
    → o.words (slot b.spine c) ≡ x
Has-written base b o c x [] e h none = elim none [ ]
Has-written base b o c x (p ∷ ps) e (h, _) (inl (same, at)) =
    entry-written base b.spine b.index o.words c x p (omega arith) h same at
Has-written base b o c x (p ∷ ps) e (_, hs) (inr h) = Has-written base b o c x ps (omega arith) hs h

pub owned-done : (ps : List Pusher) → left_all ps ≡ 0 → owned ps ≡ List.map span_of_pusher ps
owned-done [] e = refl
owned-done (pushed y d ∷ ps) e = ap (λ (xs : List MemorySpan). y ∷ xs) (owned-done ps (omega arith))
owned-done (arriving y ∷ ps) e = absurd (omega arith)
owned-done (claimed y d ∷ ps) e = absurd (omega arith)
owned-done (observed y d n ∷ ps) e = absurd (omega arith)
owned-done (located y d block ∷ ps) e = absurd (omega arith)

pub IsLog-Contents :
    (low : ℕ) (ys log : List MemorySpan) (b : SweepBuffer) (o : Offheap) (ps : List Pusher)
    → left_all ps ≡ 0
    → Sound (low + length ys) b o ps
    → Contents o.words b.spine low ys
    → IsLog (low + length ys) log ps
    → Contents o.words b.spine low (log ++ ys)
IsLog-Contents low ys [] b o ps e sound below h = below
IsLog-Contents low ys (x ∷ log) b o ps e sound below (h, hs) =
    let at : low + length (log ++ ys) ≡ low + length ys + length log =
      omega (arith, length-append log ys) in
    (
      rw at (Has-written (low + length ys) b o (low + length ys + length log) x ps e sound h),
      IsLog-Contents low ys log b o ps e sound below hs,
    )
