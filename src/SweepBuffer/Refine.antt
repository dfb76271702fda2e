-- ===== src/SweepBuffer/Refine.antt =====
-- Sequences of `push` and `pop` of src/sweep_buffer.rs, beside the same calls on a list.
use rust_go_gc.Prelude.{◌<◌, ◌≡◌, refl, Bool, Option, none, some, List, [], ◌∷◌, arith, length}
use rust_go_gc.Prelude.Outcome.{Outcome, ok, ◌>>=◌}
use rust_go_gc.Span.{MemorySpan}
use rust_go_gc.SweepBuffer.{Offheap, SweepBuffer, push, pop}
use rust_go_gc.SweepBuffer.Slot.{pop-empty}
use rust_go_gc.SweepBuffer.Stack.{
  IsStack, AreSpans, push-moved, push-IsStack, pop-moved, pop-IsStack,
}

pub data Call : Type 0 where
  pushes : (span : MemorySpan) → Call
  pops : Call

-- The calls on the buffer, one after the other, and what the pops among them return.
unfoldable pub run :
    Bool
    → List Call
    → SweepBuffer
    → Offheap
    → Outcome (List (Option MemorySpan) × SweepBuffer × Offheap)
run checks [] b o = ok ([], b, o)
run checks (pushes x ∷ calls) b o = do (b', o') ← push checks x b o; run checks calls b' o'
run checks (pops ∷ calls) b o = do
  (x, b', o') ← pop b o
  (xs, b'', o'') ← run checks calls b' o'
  ok (x ∷ xs, b'', o'')

-- The calls on a list whose head is the top, with the list that is left.
abbrev pub run_stack : List Call → List MemorySpan → List (Option MemorySpan) × List MemorySpan
run_stack [] xs = ([], xs)
run_stack (pushes x ∷ calls) xs = run_stack calls (x ∷ xs)
run_stack (pops ∷ calls) [] = (let (ys, rest) = run_stack calls [] in (none ∷ ys, rest))
run_stack (pops ∷ calls) (x ∷ xs) = (let (ys, rest) = run_stack calls xs in (some x ∷ ys, rest))

-- No call pushes a null span, or pushes when the stack holds 512 spans.
abbrev pub Fits : List Call → List MemorySpan → Type 0
Fits [] xs = Unit {0}
Fits (pushes x ∷ calls) xs = (0 < x) × (length xs < 512) × Fits calls (x ∷ xs)
Fits (pops ∷ calls) [] = Fits calls []
Fits (pops ∷ calls) (x ∷ xs) = Fits calls xs

-- On a buffer whose entries are a stack of spans in the first block of the spine, any sequence of
-- pushes and pops returns what the same calls on that stack give, `None` of an empty buffer
-- included, and leaves the stack that they leave, if no push finds the block full.
pub run-refines :
    (checks : Bool) (calls : List Call) (xs : List MemorySpan) (b : SweepBuffer) (o : Offheap)
    → IsStack 0 0 b o xs
    → AreSpans xs
    → Fits calls xs
    → (b' : SweepBuffer) × (o' : Offheap) × (run checks calls b o
        ≡ ok ((run_stack calls xs).0, b', o'))
      × IsStack 0 0 b' o' (run_stack calls xs).1
unfolding run
run-refines checks [] xs b o s spans fits = (b, o, refl, s)
run-refines checks (pushes x ∷ calls) xs b o s spans (pos, room, fits) =
    let (b', o', e, s') =
      run-refines checks calls (x ∷ xs) _ _ (push-IsStack 0 0 b o checks x xs s (omega arith))
        (pos, spans) fits in
    (b', o', rw (push-moved 0 0 b o checks x xs s (omega arith)) e, s')
run-refines checks (pops ∷ calls) [] b o s spans fits =
    let at = s.at in
    let (b', o', e, s') = run-refines checks calls [] b o s spans fits in
    (b', o', rw (pop-empty b o at, e) refl, s')
run-refines checks (pops ∷ calls) (x ∷ xs) b o s (pos, spans) fits =
    let (b', o', e, s') = run-refines checks calls xs _ _ (pop-IsStack 0 0 b o x xs s) spans fits in
    (b', o', rw (pop-moved 0 0 b o x xs s pos, e) refl, s')
