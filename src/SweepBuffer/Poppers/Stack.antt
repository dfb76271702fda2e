-- ===== src/SweepBuffer/Poppers/Stack.antt =====
-- Concurrent calls of `pop` on a stack in one block with an entry for each of them: what they return.
use mathlib.Core.List.{Perm, append-nil, append_assoc}
use mathlib.Core.List.Perm
use mathlib.Core.List
use mathlib.Core.Path.{subst}
use rust_go_gc.Prelude.{
  ℕ, zero, suc, ◌≡◌, ◌∙◌, sym, ap, refl, Option, List, [], ◌∷◌, ◌++◌, arith, length,
}
use rust_go_gc.Span.{MemorySpan}
use rust_go_gc.SweepBuffer.{Offheap, SweepBuffer}
use rust_go_gc.SweepBuffer.Stack.{IsStack, AreSpans, somes}
use rust_go_gc.SweepBuffer.Threads.{Distinct, Run}
use rust_go_gc.SweepBuffer.Poppers.{
  Popper, calling, found, loaded, returned, Move, callers, result, left_all,
}
use rust_go_gc.SweepBuffer.Poppers.Moves.{cursor}
use rust_go_gc.SweepBuffer.Poppers.Apart.{waiting, Sound}
use rust_go_gc.SweepBuffer.Poppers.Values.{values}
use rust_go_gc.SweepBuffer.Poppers.Running.{IsPopping, Run-IsPopping}

callers-start :
    (t : ℕ) (words : ℕ → ℕ) (spine : ℕ) (b : SweepBuffer) (n : ℕ)
    → (waiting (callers n) ≡ n)
      × Sound t b (callers n)
      × Distinct cursor (callers n)
      × (values words spine (callers n) ≡ [])
callers-start t words spine b zero = (refl, tt, tt, refl)
callers-start t words spine b (suc n) =
    let (waits, sound, distinct, no_values) = callers-start t words spine b n in
    (omega arith, (tt, sound), ((λ d e. cc), distinct), no_values)

-- Threads that have all returned wait for nothing, and have what they return.
returned-values :
    (words : ℕ → ℕ) (spine : ℕ) (ps : List Popper)
    → left_all ps ≡ 0
    → (waiting ps ≡ 0) × (values words spine ps ≡ List.map result ps)
returned-values words spine [] e = (refl, refl)
returned-values words spine (calling ∷ ps) e = absurd (omega arith)
returned-values words spine (found old ∷ ps) e = absurd (omega arith)
returned-values words spine (loaded x c block ∷ ps) e = absurd (omega arith)
returned-values words spine (returned x ∷ ps) e =
    let (waits, same) = returned-values words spine ps (omega arith) in
    (omega arith, ap (λ (xs : List (Option MemorySpan)). x ∷ xs) same)

IsPopping-returned :
    (t low : ℕ) (ys xs rest : List MemorySpan) (ps : List Popper) (b : SweepBuffer) (o : Offheap)
    → left_all ps ≡ 0
    → IsPopping t low ys xs rest ps b o
    → Perm (List.map result ps) (somes xs) × IsStack t low b o ys
IsPopping-returned t low ys xs [] ps b o done h =
    let (_, same) = returned-values o.words b.spine ps done in
    (
      subst (λ (vs : List (Option MemorySpan)). Perm vs (somes xs))
          (append-nil (values o.words b.spine ps) ∙ same) h.perm,
      h.stack,
    )
IsPopping-returned t low ys xs (x ∷ rest) ps b o done h =
    let (waits, _) = returned-values o.words b.spine ps done in
    let enough = h.enough in absurd (omega arith)

-- Threads pop at once off a stack in one block of the spine that has an entry for each of them, in
-- any interleaving of their accesses to the buffer. When none has an access left, they have returned
-- the spans on top, each of them to one thread and in some order, and the buffer is the stack of the
-- entries below.
pub poppers-IsStack :
    (t low : ℕ) (ys xs : List MemorySpan) (b : SweepBuffer) (o : Offheap)
    → AreSpans xs
    → IsStack t low b o (xs ++ ys)
    → (n : ℕ) (ps : List Popper) (b' : SweepBuffer) (o' : Offheap)
    → Run Move (callers (length xs)) b o n ps b' o'
    → left_all ps ≡ 0
    → Perm (List.map result ps) (somes xs) × IsStack t low b' o' ys
poppers-IsStack t low ys xs b o spans s n ps b' o' run done =
    let (waits, sound, distinct, no_values) = callers-start t o.words b.spine b (length xs) in
    let (rest, h) = Run-IsPopping t low ys xs xs run (record {
      stack = s;
      enough = sym waits;
      spans = spans;
      sound = sound;
      distinct = distinct;
      perm = rw no_values (Perm.refl _);
    }) in
    IsPopping-returned t low ys xs rest ps b' o' done h
