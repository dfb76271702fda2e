-- ===== src/SweepBuffer/Pushers/Stack.antt =====
-- Concurrent calls of `push` within one block that the spine has: where they lead.
use mathlib.Core.List.{Perm}
use mathlib.Core.Path.{subst}
use rust_go_gc.Prelude.{
  ℕ, ◌+◌, ◌*◌, ◌/◌, ◌<◌, ◌≤◌, ◌≡◌, ◌∙◌, Bool, List, [], ◌∷◌, ◌++◌, arith, length, length-append,
}
use rust_go_gc.Span.{MemorySpan}
use rust_go_gc.SweepBuffer.{Offheap, SweepBuffer}
use rust_go_gc.SweepBuffer.Slot.{find_block-spine}
use rust_go_gc.SweepBuffer.Stack.{IsStack}
use rust_go_gc.SweepBuffer.Pushers.{
  Pusher, arriving, claimed, observed, located, pushed, claim, observe, find, write, arrivals,
  left_all, Move,
}
use rust_go_gc.SweepBuffer.Threads.{Step, here, there, Run, start, later}
use rust_go_gc.SweepBuffer.Pushers.Moves.{HasPlace, Sound, place-tail, left_all-Step}
use rust_go_gc.SweepBuffer.Pushers.Running.{Run-IsPushing, arrivals-start, start-IsPushing}
use rust_go_gc.SweepBuffer.Pushers.Done.{owned-done, IsLog-Contents}

module _ (checks : Bool) where
  Run-left :
      {ps : List Pusher} {b : SweepBuffer} {o : Offheap} {n : ℕ} {ps' : List Pusher}
      {b' : SweepBuffer} {o' : Offheap}
      → Run (Move checks) ps b o n ps' b' o'
      → n + left_all ps' ≡ left_all ps
  Run-left start = omega arith
  Run-left (later _ _ _ _ _ _ _ run st) = omega (arith, Run-left run, left_all-Step checks st)

  -- A step of some thread of `ps`.
  abbrev Goes : List Pusher → SweepBuffer → Offheap → Type 0
  Goes ps b o =
      (ps' : List Pusher) × (b' : SweepBuffer) × (o' : Offheap) × Step (Move checks) ps b o ps' b'
        o'

  goes :
      (t base : ℕ) (ps : List Pusher) (b : SweepBuffer) (o : Offheap)
      → HasPlace t base ps b
      → Sound base b o ps
      → 0 < left_all ps
      → Goes ps b o
  goes t base [] b o place sound more = absurd (omega arith)
  goes t base (arriving x ∷ ps) b o place sound more = (_, _, _, here _ _ _ _ _ _ ps (claim x b o))
  goes t base (claimed x c ∷ ps) b o place sound more =
      (_, _, _, here _ _ _ _ _ _ ps (observe x c b.spine_length b o (omega arith)))
  goes t base (observed x c n ∷ ps) b o place ((ge, lt), _) more =
      let known = place.in_spine in
      let from = place.from in
      let to = place.to in
      (
        _,
        _,
        _,
        here _ _ _ _ _ _ ps (
            find x c n (b.spine + 8 * (c / 512)) b o b o
              (find_block-spine checks n (c / 512) b o place.allocated (omega arith))),
      )
  goes t base (located x c block ∷ ps) b o place sound more =
      (_, _, _, here _ _ _ _ _ _ ps (write x c block b o))
  goes t base (pushed x c ∷ ps) b o place (_, sound) more =
      let (ps', b', o', st) =
        goes t base ps b o (place-tail checks t base (pushed x c) ps b place) sound (omega arith) in
      (pushed x c ∷ ps', b', o', there _ _ _ _ _ _ _ st)

-- Threads push spans at once into one block that the spine has, with room for them all on top of the
-- entries that lie there, in any interleaving of their accesses to the buffer. When none has an
-- access left, the buffer is the stack of the spans, in some order, on top of those entries: no
-- span is lost, none is there twice, and no other entry has changed.
pub pushers-IsStack :
    (checks : Bool) (t low : ℕ) (ys xs : List MemorySpan) (b : SweepBuffer) (o : Offheap)
    → IsStack t low b o ys
    → low + length ys + length xs ≤ 512 * (t + 1)
    → (n : ℕ) (ps : List Pusher) (b' : SweepBuffer) (o' : Offheap)
    → Run (Move checks) (arrivals xs) b o n ps b' o'
    → left_all ps ≡ 0
    → (log : List MemorySpan) × Perm log xs × IsStack t low b' o' (log ++ ys)
pushers-IsStack checks t low ys xs b o s room n ps b' o' run done =
    let (log, h) = Run-IsPushing checks t low ys xs run (start-IsPushing t low ys xs b o s room) in
    let at = h.at in
    let to = h.place.to in
    let sum = length-append log ys in
    (
      log,
      subst (λ (zs : List MemorySpan). Perm log zs) (owned-done ps done ∙ h.threads) h.perm,
      record {
        in_spine = h.place.in_spine;
        allocated = h.place.allocated;
        from = h.from;
        to = omega arith;
        fits = h.place.fits;
        at = omega arith;
        contents = IsLog-Contents low ys log b' o' ps done h.sound h.below h.logged;
      },
    )

-- Of threads that push at once into one block with room for them all, some thread can make its next
-- access until each has made its four, and then none has an access left.
pub pushers-finish :
    (checks : Bool) (t low : ℕ) (ys xs : List MemorySpan) (b : SweepBuffer) (o : Offheap)
    → IsStack t low b o ys
    → low + length ys + length xs ≤ 512 * (t + 1)
    → (n : ℕ) (ps : List Pusher) (b' : SweepBuffer) (o' : Offheap)
    → Run (Move checks) (arrivals xs) b o n ps b' o'
    → (n + left_all ps ≡ 4 * length xs)
      × (n < 4 * length xs
          → (ps' : List Pusher) × (b'' : SweepBuffer) × (o'' : Offheap) × Step
              (Move checks)
              ps
              b'
              o'
              ps'
              b''
              o'')
pushers-finish checks t low ys xs b o s room n ps b' o' run =
    let (_, h) = Run-IsPushing checks t low ys xs run (start-IsPushing t low ys xs b o s room) in
    let (_, _, _, _, _, work) = arrivals-start (low + length ys) b.spine b.index o.words xs in
    let done = Run-left checks run in
    (omega arith, λ lt. goes checks t (low + length ys) ps b' o' h.place h.sound (omega arith))
