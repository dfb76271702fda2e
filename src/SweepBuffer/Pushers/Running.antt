-- ===== src/SweepBuffer/Pushers/Running.antt =====
-- What holds at every point of concurrent calls of `push` within one block.
use mathlib.Core.List.{Perm}
use mathlib.Core.List.Perm
use mathlib.Core.List
use rust_go_gc.Prelude.{
  ℕ, ◌+◌, ◌*◌, ◌≤◌, ◌≡◌, ◌∙◌, ap, refl, Bool, List, [], ◌∷◌, ◌++◌, arith, length, length-append,
  AllOf,
}
use rust_go_gc.Span.{MemorySpan}
use rust_go_gc.SweepBuffer.{Offheap, SweepBuffer}
use rust_go_gc.SweepBuffer.Stack.{Contents-keep, Contents, IsStack}
use rust_go_gc.SweepBuffer.Pushers.{Pusher, arrivals, left_all, Move}
use rust_go_gc.SweepBuffer.Threads.{Step, Run, start, later, Distinct}
use rust_go_gc.SweepBuffer.Pushers.Moves.{cursor, IsSound, HasPlace, taken, Sound, waiting}
use rust_go_gc.SweepBuffer.Pushers.Log.{
  span_of_pusher, owned, IsLog, Step-owned, Step-waiting, Step-IsLog,
}
use rust_go_gc.SweepBuffer.Pushers.Apart.{
  outside-Absent, Step-buffer, Step-words, Step-Distinct, Step-Sound,
}

-- Threads that push `spans` on top of the entries `ys`; those of `log` have a cursor.
pub record IsPushing (t low : ℕ) (ys spans log : List MemorySpan) (ps : List Pusher)
    (b : SweepBuffer) (o : Offheap) : Type 0 where
  pub place : HasPlace t (low + length ys) ps b
  pub from : 512 * t ≤ low
  pub at : b.index ≡ low + length ys + length log
  pub sound : Sound (low + length ys) b o ps
  pub distinct : Distinct cursor ps
  pub logged : IsLog (low + length ys) log ps
  pub perm : Perm log (owned ps)
  pub threads : List.map span_of_pusher ps ≡ spans
  pub below : Contents o.words b.spine low ys

pub arrivals-start :
    (base spine index : ℕ) (words : ℕ → ℕ) (xs : List MemorySpan)
    → AllOf (IsSound base spine index words) (arrivals xs)
      × Distinct cursor (arrivals xs)
      × (owned (arrivals xs) ≡ [])
      × (List.map span_of_pusher (arrivals xs) ≡ xs)
      × (waiting (arrivals xs) ≡ length xs)
      × (left_all (arrivals xs) ≡ 4 * length xs)
arrivals-start base spine index words [] = (tt, tt, refl, refl, refl, refl)
arrivals-start base spine index words (x ∷ xs) =
    let (sound, distinct, own, spans, waits, work) = arrivals-start base spine index words xs in
    (
      (tt, sound),
      ((λ d e. cc), distinct),
      own,
      ap (λ (l : List MemorySpan). x ∷ l) spans,
      omega arith,
      omega arith,
    )

module _ (checks : Bool) (t low : ℕ) (ys : List MemorySpan) (spans : List MemorySpan) where
  IsPushing-Step :
      (log : List MemorySpan) {ps : List Pusher} {b : SweepBuffer} {o : Offheap} {ps' : List Pusher}
      {b' : SweepBuffer} {o' : Offheap} (st : Step (Move checks) ps b o ps' b' o')
      → IsPushing t low ys spans log ps b o
      → IsPushing t low ys spans (taken checks st ++ log) ps' b' o'
  IsPushing-Step log {ps} {b} {o} {ps'} {b'} {o'} st h =
      let base = low + length ys in
      let at = h.at in
      let to = h.place.to in
      let from = h.from in
      let moved = Step-buffer checks t base st h.place h.sound in
      let spine : b'.spine ≡ b.spine = ap (λ (r : SweepBuffer). r.spine) moved in
      let known : b'.spine_length ≡ b.spine_length =
        ap (λ (r : SweepBuffer). r.spine_length) moved in
      let index : b'.index ≡ b.index + length (taken checks st) =
        ap (λ (r : SweepBuffer). r.index) moved in
      let in_spine = h.place.in_spine in
      let allocated = h.place.allocated in
      let (waits, le, same) = Step-waiting checks st in
      record {
        place = record {
          in_spine = omega arith;
          allocated = omega arith;
          from = h.place.from;
          to = omega arith;
          fits = h.place.fits;
        };
        from = h.from;
        at = omega (arith, length-append (taken checks st) log);
        sound = Step-Sound checks t base st h.place (omega arith) h.sound h.distinct;
        distinct = Step-Distinct checks t base st h.sound h.distinct;
        logged = Step-IsLog checks base log st at h.logged;
        perm = Perm.trans (Perm.append_left (taken checks st) h.perm) (Step-owned checks st);
        threads = same ∙ h.threads;
        below = rw spine (
            Contents-keep b.spine low o.words o'.words ys
              (λ d ge lt.
                Step-words checks t base d st h.place h.sound
                  (outside-Absent base b.spine b.index o.words d ps (λ (above, _). omega arith)
                    h.sound)
                  (omega arith) (omega arith))
              h.below);
      }

  pub Run-IsPushing :
      {ps : List Pusher} {b : SweepBuffer} {o : Offheap} {n : ℕ} {ps' : List Pusher}
      {b' : SweepBuffer} {o' : Offheap}
      → Run (Move checks) ps b o n ps' b' o'
      → IsPushing t low ys spans [] ps b o
      → (log : List MemorySpan) × IsPushing t low ys spans log ps' b' o'
  Run-IsPushing start h = ([], h)
  Run-IsPushing (later _ _ _ _ _ _ _ run st) h =
      let (log, h') = Run-IsPushing run h in (taken checks st ++ log, IsPushing-Step log st h')

pub start-IsPushing :
    (t low : ℕ) (ys xs : List MemorySpan) (b : SweepBuffer) (o : Offheap)
    → IsStack t low b o ys
    → low + length ys + length xs ≤ 512 * (t + 1)
    → IsPushing t low ys xs [] (arrivals xs) b o
start-IsPushing t low ys xs b o s room =
    let (sound, distinct, own, spans, waits, _) =
      arrivals-start (low + length ys) b.spine b.index o.words xs in
    let at = s.at in
    let from = s.from in
    record {
      place = record {
        in_spine = s.in_spine;
        allocated = s.allocated;
        from = omega arith;
        to = omega arith;
        fits = s.fits;
      };
      from = from;
      at = omega arith;
      sound = sound;
      distinct = distinct;
      logged = tt;
      perm = rw own (Perm.refl _);
      threads = spans;
      below = s.contents;
    }
