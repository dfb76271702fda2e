-- ===== src/Gc/Sweeping/Buffers.antt =====
-- The two sweep buffers while a span goes from the one to the other.
use mathlib.Core.Path.{subst}
use rust_go_gc.Prelude.{
  ℕ, ◌+◌, ◌<◌, ◌≤◌, ◌≡◌, ◌⊎◌, inl, inr, refl, sym, true, false, List, ◌∷◌, arith, length, ◌==◌,
}
use rust_go_gc.Span.{MemorySpan}
use rust_go_gc.SweepBuffer.{Offheap, SweepBuffer, store}
use rust_go_gc.SweepBuffer.Slot.{slot}
use rust_go_gc.SweepBuffer.Stack.{Contents-keep, IsStack, push-IsStack}
use rust_go_gc.Sweep.Parts.{HasRoom}
use rust_go_gc.Gc.Sweeping.{AreApart}

-- The free memory is no matter of the stack.
pub IsStack-brk :
    (b : SweepBuffer) (o : Offheap) (xs : List MemorySpan) (k : ℕ)
    → IsStack 0 0 b o xs
    → IsStack 0 0 b (record o { brk = k }) xs
IsStack-brk b o xs k s = record {
  in_spine = s.in_spine;
  allocated = s.allocated;
  from = s.from;
  to = s.to;
  fits = s.fits;
  at = s.at;
  contents = s.contents;
}

-- A write outside the block leaves the stack.
pub IsStack-elsewhere :
    (b : SweepBuffer) (o : Offheap) (xs : List MemorySpan) (a v : ℕ)
    → IsStack 0 0 b o xs
    → (a < b.spine) ⊎ (b.spine + 4096 ≤ a)
    → IsStack 0 0 b (store a v o) xs
unfolding store
IsStack-elsewhere b o xs a v s outside =
    let to = s.to in
    record {
      in_spine = s.in_spine;
      allocated = s.allocated;
      from = s.from;
      to = s.to;
      fits = s.fits;
      at = s.at;
      contents =
          Contents-keep b.spine 0 o.words (store a v o).words xs
            (λ d ge lt. let other : (slot b.spine d == a) ≡ false = ground arith in rw other refl)
            s.contents;
    }

pub slot-outside :
    (b b' : SweepBuffer) (d : ℕ)
    → AreApart b b'
    → d < 512
    → (slot b'.spine d < b.spine) ⊎ (b.spine + 4096 ≤ slot b'.spine d)
slot-outside b b' d (inl below) lt = inr (omega arith)
slot-outside b b' d (inr above) lt = inl (omega arith)

pub AreApart-sym : (b b' : SweepBuffer) → AreApart b b' → AreApart b' b
AreApart-sym b b' (inl below) = inr below
AreApart-sym b b' (inr above) = inl above

pub IsStack-HasRoom :
    (b : SweepBuffer) (o : Offheap) (ys : List MemorySpan)
    → IsStack 0 0 b o ys
    → length ys < 512
    → HasRoom b
IsStack-HasRoom b o ys s lt =
    let at = s.at in let known = s.in_spine in (s.allocated, omega arith, omega arith)

-- The stack after a push, by the index that the buffer has.
pub IsStack-pushed :
    (b : SweepBuffer) (o : Offheap) (x : MemorySpan) (ys : List MemorySpan)
    → IsStack 0 0 b o ys
    → length ys < 512
    → IsStack 0 0 (record b { index = b.index + 1 }) (store (slot b.spine b.index) x o) (x ∷ ys)
IsStack-pushed b o x ys s lt =
    subst
      (λ (i : ℕ). IsStack 0 0 (record b { index = i + 1 }) (store (slot b.spine i) x o) (x ∷ ys))
      (sym s.at) (push-IsStack 0 0 b o true x ys s (omega arith))
