-- ===== src/SweepBuffer/Poppers/Running.antt =====
-- What holds at every point of concurrent calls of `pop` on a stack with an entry for each of them.
use mathlib.Core.List.{Perm, append_assoc}
use mathlib.Core.List.Perm
use mathlib.Core.Path.{subst}
use rust_go_gc.Prelude.{
  ℕ, zero, suc, ◌+◌, ◌-◌, ◌*◌, ◌≤◌, ◌≡◌, sym, refl, Option, some, List, [], ◌∷◌, ◌++◌, arith,
  length, length-append,
}
use rust_go_gc.Span.{MemorySpan}
use rust_go_gc.SweepBuffer.{Offheap, SweepBuffer, as_option}
use rust_go_gc.SweepBuffer.Stack.{Contents-keep, IsStack, AreSpans, somes}
use rust_go_gc.SweepBuffer.Threads.{Distinct, Step, Run, start, later, perm_between}
use rust_go_gc.SweepBuffer.Poppers.{Popper, Move}
use rust_go_gc.SweepBuffer.Poppers.Moves.{cursor, gained, HasEntries}
use rust_go_gc.SweepBuffer.Poppers.Apart.{
  waiting, Sound, taken, below-Absent, Step-waiting, Step-buffer, Step-words, Step-Distinct,
  Step-Sound,
}
use rust_go_gc.SweepBuffer.Poppers.Values.{values, Step-values}

-- Threads that pop `xs` off a stack that has `ys` below; `rest` is what no thread has a cursor of.
pub record IsPopping (t low : ℕ) (ys xs rest : List MemorySpan) (ps : List Popper) (b : SweepBuffer)
    (o : Offheap) : Type 0 where
  pub stack : IsStack t low b o (rest ++ ys)
  pub enough : length rest ≡ waiting ps
  pub spans : AreSpans rest
  pub sound : Sound t b ps
  pub distinct : Distinct cursor ps
  pub perm : Perm (values o.words b.spine ps ++ somes rest) (somes xs)

module _ (t low : ℕ) (ys xs : List MemorySpan) where
  HasEntries-IsPopping :
      (rest : List MemorySpan) {ps : List Popper} {b : SweepBuffer} {o : Offheap}
      → IsPopping t low ys xs rest ps b o
      → HasEntries t (waiting ps) b
  HasEntries-IsPopping rest h =
      let at = h.stack.at in
      let from = h.stack.from in
      let to = h.stack.to in
      let enough = h.enough in
      let sum = length-append rest ys in
      record {
        allocated = h.stack.allocated;
        from = omega arith;
        to = omega arith;
        fits = h.stack.fits;
      }

  -- The stack and the spans after `n` cursors are taken, none or one.
  abbrev Taken : ℕ → List MemorySpan → SweepBuffer → Offheap → Type 0
  Taken n rest b o =
      (rest' : List MemorySpan) × (length rest ≡ n + length rest')
      × IsStack t low (record b { index = b.index - n }) o (rest' ++ ys)
      × AreSpans rest'
      × (gained n b o ++ somes rest' ≡ somes rest)

  take_cursor :
      (n : ℕ) (rest : List MemorySpan) (b : SweepBuffer) (o : Offheap)
      → n ≤ 1
      → n ≤ length rest
      → IsStack t low b o (rest ++ ys)
      → AreSpans rest
      → Taken n rest b o
  unfolding as_option
  take_cursor zero rest b o le enough s spans =
      let at = s.at in
      (
        rest,
        omega arith,
        record {
          in_spine = s.in_spine;
          allocated = s.allocated;
          from = s.from;
          to = s.to;
          fits = s.fits;
          at = omega arith;
          contents = s.contents;
        },
        spans,
        refl,
      )
  take_cursor (suc zero) [] b o le enough s spans = absurd (omega arith)
  take_cursor (suc zero) (x ∷ rest) b o le enough s (pos, spans) =
      let at = s.at in
      let to = s.to in
      let before : b.index - 1 ≡ low + length (rest ++ ys) = omega arith in
      let some : as_option x ≡ some x = ground arith in
      (
        rest,
        omega arith,
        record {
          in_spine = s.in_spine;
          allocated = s.allocated;
          from = s.from;
          to = omega arith;
          fits = s.fits;
          at = before;
          contents = s.contents.1;
        },
        spans,
        rw (before, s.contents.0, some) refl,
      )
  take_cursor (suc (suc n)) rest b o le enough s spans = absurd (omega arith)

  IsPopping-Step :
      (rest : List MemorySpan) {ps : List Popper} {b : SweepBuffer} {o : Offheap}
      {ps' : List Popper} {b' : SweepBuffer} {o' : Offheap} (st : Step Move ps b o ps' b' o')
      → IsPopping t low ys xs rest ps b o
      → (rest' : List MemorySpan) × IsPopping t low ys xs rest' ps' b' o'
  IsPopping-Step rest {ps} {b} {o} {ps'} {b'} {o'} st h =
      let place = HasEntries-IsPopping rest h in
      let from = h.stack.from in
      let to = h.stack.to in
      let at = h.stack.at in
      let enough = h.enough in
      let (fewer, le) = Step-waiting t st in
      let (rest', shorter, s, spans, split) =
        take_cursor (taken st) rest b o le (omega arith) h.stack h.spans in
      let moved = Step-buffer t st place h.sound in
      let below = s.at in
      let under = s.to in
      (
        rest',
        record {
          stack =
              subst (λ (r : SweepBuffer). IsStack t low r o' (rest' ++ ys)) (sym moved)
                (record {
                  in_spine = s.in_spine;
                  allocated = s.allocated;
                  from = s.from;
                  to = s.to;
                  fits = s.fits;
                  at = s.at;
                  contents =
                      Contents-keep b.spine low o.words o'.words (rest' ++ ys)
                        (λ d ge lt.
                          Step-words t d st place h.sound
                            (below-Absent b.spine b.index (512 * (t + 1)) d ps (omega arith)
                              h.sound)
                            (omega arith) (omega arith))
                        s.contents;
                });
          enough = omega arith;
          spans = spans;
          sound = Step-Sound t st place h.sound;
          distinct = Step-Distinct t st place h.sound h.distinct;
          perm =
              Perm.trans
                (Perm.append_right (somes rest') (Step-values t st place h.sound h.distinct))
                (subst (λ (vs : List (Option MemorySpan)). Perm vs (somes xs))
                  (sym (
                    append_assoc (gained (taken st) b o) (values o.words b.spine ps) (somes rest')))
                  (Perm.trans
                    (perm_between (gained (taken st) b o) (values o.words b.spine ps) (somes rest'))
                    (subst
                      (λ (vs : List (Option MemorySpan)).
                        Perm (values o.words b.spine ps ++ vs) (somes xs))
                      (sym split) h.perm)));
        },
      )

  pub Run-IsPopping :
      (rest : List MemorySpan) {ps : List Popper} {b : SweepBuffer} {o : Offheap} {n : ℕ}
      {ps' : List Popper} {b' : SweepBuffer} {o' : Offheap}
      → Run Move ps b o n ps' b' o'
      → IsPopping t low ys xs rest ps b o
      → (rest' : List MemorySpan) × IsPopping t low ys xs rest' ps' b' o'
  Run-IsPopping rest start h = (rest, h)
  Run-IsPopping rest (later _ _ _ _ _ _ _ run st) h =
      let (rest', h') = Run-IsPopping rest run h in IsPopping-Step rest' st h'
