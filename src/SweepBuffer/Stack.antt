-- ===== src/SweepBuffer/Stack.antt =====
-- Within one block that the spine has, the buffer is a stack.
use rust_go_gc.Prelude.{
  ℕ, zero, suc, ◌+◌, ◌*◌, ◌<◌, ◌≤◌, ◌≡◌, ◌∙◌, refl, ap, Bool, Option, some, List, [], ◌∷◌, ◌++◌,
  reverse, arith, length, ◌==◌,
}
use mathlib.Core.List.{reverse_aux}
use mathlib.Core.List
use rust_go_gc.Prelude.Outcome.{Outcome, ok, ◌>>=◌}
use rust_go_gc.Prelude.Word.{word}
use rust_go_gc.Span.{MemorySpan}
use rust_go_gc.SweepBuffer.{Offheap, SweepBuffer, store, push, pop, as_option}
use rust_go_gc.SweepBuffer.Slot.{slot, push-spine, pop-spine}

-- The words at the cursors from `low` on are `xs`, the last cursor's first.
abbrev pub Contents : (ℕ → ℕ) → (spine low : ℕ) → List MemorySpan → Type 0
Contents words spine low [] = Unit {0}
Contents words spine low (x ∷ xs) =
    (words (slot spine (low + length xs)) ≡ x) × Contents words spine low xs

-- The entries from cursor `low` up are `xs`, top first, and all lie in block `t` of the spine.
pub record IsStack (t low : ℕ) (b : SweepBuffer) (o : Offheap) (xs : List MemorySpan) : Type 0 where
  pub in_spine : t < b.spine_length
  pub allocated : 0 < b.spine
  pub from : 512 * t ≤ low
  pub to : low + length xs ≤ 512 * (t + 1)
  pub fits : 512 * (t + 1) < word
  pub at : b.index ≡ low + length xs
  pub contents : Contents o.words b.spine low xs

abbrev pub AreSpans : List MemorySpan → Type 0
AreSpans [] = Unit {0}
AreSpans (x ∷ xs) = (0 < x) × AreSpans xs

-- Contents are of the words at the entries' cursors only.
pub Contents-keep :
    (spine low : ℕ) (words words' : ℕ → ℕ) (xs : List MemorySpan)
    → ((d : ℕ) → low ≤ d → d < low + length xs → words' (slot spine d) ≡ words (slot spine d))
    → Contents words spine low xs
    → Contents words' spine low xs
Contents-keep spine low words words' [] same h = tt
Contents-keep spine low words words' (x ∷ xs) same (h, hs) = (
  same (low + length xs) (omega arith) (omega arith) ∙ h,
  Contents-keep spine low words words' xs (λ d ge lt. same d ge (omega arith)) hs,
)

-- A write at a cursor above the entries, in the same block, leaves them.
Contents-store :
    (o : Offheap) (spine low t c v : ℕ) (xs : List MemorySpan)
    → 512 * t ≤ low
    → low + length xs ≤ c
    → c < 512 * (t + 1)
    → Contents o.words spine low xs
    → Contents (store (slot spine c) v o).words spine low xs
unfolding store
Contents-store o spine low t c v [] from le lt h = tt
Contents-store o spine low t c v (x ∷ xs) from le lt (h, rest) =
    let apart : (slot spine (low + length xs) == slot spine c) ≡ Bool.false = ground arith in
    (rw apart h, Contents-store o spine low t c v xs from (omega arith) lt rest)

-- The buffer and the memory with an entry written at a cursor, and the index moved.
abbrev moved : (cursor index value : ℕ) → SweepBuffer → Offheap → SweepBuffer × Offheap
moved cursor index value b o = (record b { index = index }, store (slot b.spine cursor) value o)

module _ (t low : ℕ) (b : SweepBuffer) (o : Offheap) where
  module _ (checks : Bool) (x : MemorySpan) (xs : List MemorySpan) (s : IsStack t low b o xs)
      (room : low + length xs < 512 * (t + 1)) where
    -- Pushing within the block returns, with the span on top.
    pub push-moved : push checks x b o ≡ ok (moved (low + length xs) (low + length xs + 1) x b o)
    push-moved =
        let at = s.at in
        let from = s.from in
        let fits = s.fits in
        let known = s.in_spine in
        push-spine checks x b o s.allocated (omega arith) (omega arith)
        ∙ ap (λ (i : ℕ). ok (moved i (i + 1) x b o)) at

    pub push-IsStack :
        IsStack t low
          (record b { index = low + length xs + 1 })
          (store (slot b.spine (low + length xs)) x o)
          (x ∷ xs)
    push-IsStack = record {
      in_spine = s.in_spine;
      allocated = s.allocated;
      from = s.from;
      to = omega arith;
      fits = s.fits;
      at = omega arith;
      contents = (
        unfold store in ground arith,
        Contents-store o b.spine low t (low + length xs) x xs s.from (omega arith) room s.contents,
      );
    }

  module _ (x : MemorySpan) (xs : List MemorySpan) (s : IsStack t low b o (x ∷ xs)) where
    -- Popping returns the span on top and removes it.
    pub pop-moved :
        0 < x
        → pop b o
          ≡ ok (
            some x,
            record b { index = low + length xs },
            store (slot b.spine (low + length xs)) 0 o,
          )
    pop-moved pos =
        let at = s.at in
        let to = s.to in
        let fits = s.fits in
        let top : as_option (o.words (slot b.spine (low + length xs))) ≡ some x =
          rw s.contents.0 (unfold as_option in ground arith) in
        rw top at (pop-spine b o (low + length xs) s.allocated (omega arith) (omega arith))

    pub pop-IsStack :
        IsStack t low
          (record b { index = low + length xs })
          (store (slot b.spine (low + length xs)) 0 o)
          xs
    pop-IsStack =
        let to = s.to in
        record {
          in_spine = s.in_spine;
          allocated = s.allocated;
          from = s.from;
          to = omega arith;
          fits = s.fits;
          at = refl;
          contents =
              Contents-store o b.spine low t (low + length xs) 0 xs s.from (omega arith)
                (omega arith) s.contents.1;
        }

-- Pushes in the order of the list, then as many pops as are asked for; the spans popped.
unfoldable pub push_all :
    Bool → List MemorySpan → SweepBuffer → Offheap → Outcome (SweepBuffer × Offheap)
push_all checks [] b o = ok (b, o)
push_all checks (x ∷ xs) b o = do (b', o') ← push checks x b o; push_all checks xs b' o'

unfoldable pub pop_times : ℕ → SweepBuffer → Offheap → Outcome (List (Option MemorySpan))
pop_times zero b o = ok []
pop_times (suc n) b o = do (x, b', o') ← pop b o; rest ← pop_times n b' o'; ok (x ∷ rest)

abbrev pub somes : List MemorySpan → List (Option MemorySpan)
somes = List.map some

pop_times-IsStack :
    (t low : ℕ) (xs ys : List MemorySpan) (b : SweepBuffer) (o : Offheap)
    → AreSpans xs
    → IsStack t low b o (xs ++ ys)
    → pop_times (length xs) b o ≡ ok (somes xs)
unfolding pop_times
pop_times-IsStack t low [] ys b o pos s = refl
pop_times-IsStack t low (x ∷ xs) ys b o (p, pos) s =
    rw
      (
        pop-moved t low b o x (xs ++ ys) s p,
        pop_times-IsStack t low xs ys _ _ pos (pop-IsStack t low b o x (xs ++ ys) s),
      )
      refl

AreSpans-reverse_aux :
    (xs ys : List MemorySpan) → AreSpans xs → AreSpans ys → AreSpans (reverse_aux xs ys)
AreSpans-reverse_aux [] ys h k = k
AreSpans-reverse_aux (x ∷ xs) ys (p, h) k = AreSpans-reverse_aux xs (x ∷ ys) h (p, k)

length-reverse_aux : (xs ys : List MemorySpan) → length (reverse_aux xs ys) ≡ length xs + length ys
length-reverse_aux [] ys = omega arith
length-reverse_aux (x ∷ xs) ys = omega (arith, length-reverse_aux xs (x ∷ ys))

push_all-pops :
    (checks : Bool) (t low : ℕ) (xs zs ys : List MemorySpan) (b : SweepBuffer) (o : Offheap)
    → AreSpans xs
    → AreSpans zs
    → IsStack t low b o (zs ++ ys)
    → low + length (zs ++ ys) + length xs ≤ 512 * (t + 1)
    → (push_all checks xs b o >>= λ r. pop_times (length xs + length zs) r.0 r.1)
      ≡ ok (somes (reverse_aux xs zs))
unfolding push_all
push_all-pops checks t low [] zs ys b o h k s room =
    let e : 0 + length zs ≡ length zs = omega arith in rw e (pop_times-IsStack t low zs ys b o k s)
push_all-pops checks t low (x ∷ xs) zs ys b o (p, h) k s room =
    let e : suc (length xs) + length zs ≡ length xs + suc (length zs) = omega arith in
    rw (push-moved t low b o checks x (zs ++ ys) s (omega arith), e)
      (push_all-pops checks t low xs (x ∷ zs) ys _ _ h (p, k)
        (push-IsStack t low b o checks x (zs ++ ys) s (omega arith)) (omega arith))

-- Spans, none of them null, pushed into one block that the spine has and that has room for them, on
-- top of what lies there, come out of as many pops in reverse order: no push and no pop panics, and
-- none loses or mixes up a span.
pub push_all-reversed :
    (checks : Bool) (t low : ℕ) (xs ys : List MemorySpan) (b : SweepBuffer) (o : Offheap)
    → AreSpans xs
    → IsStack t low b o ys
    → low + length ys + length xs ≤ 512 * (t + 1)
    → (push_all checks xs b o >>= λ r. pop_times (length xs) r.0 r.1) ≡ ok (somes (reverse xs))
push_all-reversed checks t low xs ys b o h s room =
    let e : length xs + 0 ≡ length xs = omega arith in
    rw e at (push_all-pops checks t low xs [] ys b o h tt s room)
