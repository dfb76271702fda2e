-- ===== src/Gc/Sweeping/Round.antt =====
-- One call of `sweep_one` that takes a span off the one buffer, sweeps it, and puts it on the other.
use mathlib.Core.Path.{subst}
use rust_go_gc.Prelude.{
  ℕ, zero, suc, ◌+◌, ◌<◌, ◌≤◌, ◌≡◌, ◌≢◌, ◌∙◌, refl, inl, inr, sym, ap, Bool, false, Option, some,
  List, [], ◌∷◌, arith, length, AllOf, ◌==◌, Bool-cases, if◌then◌else◌,
}
use rust_go_gc.Prelude.Outcome.{Outcome, ok, deref, ◌>>=◌}
use rust_go_gc.Prelude.Word.{word, atomic_add, atomic_sub}
use rust_go_gc.Span.{MemorySpan, MemorySpanData, Bytes, IsBytes}
use rust_go_gc.SweepBuffer.{Offheap, store}
use rust_go_gc.SweepBuffer.Slot.{slot}
use rust_go_gc.SweepBuffer.Stack.{IsStack}
use rust_go_gc.Heap.{Machine, Platform, Unwritten, MemoryCentral, put_span}
use rust_go_gc.Heap.Buffers.{
  popable_index, pushable_index, buffer, buffers_trade, buffer-set_buffer,
}
use rust_go_gc.Sweep.{sweep}
use rust_go_gc.Sweep.Parts.{with_brk, span_at-put_span_self}
use rust_go_gc.Sweep.InPlace.{WorksAt, swept}
use rust_go_gc.Sweep.Moved.{SweptTo, SameSweep-set_buffer, sweep-SweptTo}
use rust_go_gc.Gc.{
  Between, take_span, sweep_span, sweep_round, sweep_loop, sweep_one, with_sweepers,
}
use rust_go_gc.Gc.Waiting.{taken_off, take_span-cons, Queue-with_sweepers, sweep_one-loop}
use rust_go_gc.Gc.Sweeping.{AreApart, GivesBits, IsTaken, IsRound}
use rust_go_gc.Gc.Sweeping.Lost.{inspect-taken}
use rust_go_gc.Gc.Sweeping.Buffers.{
  IsStack-brk, IsStack-elsewhere, slot-outside, AreApart-sym, IsStack-HasRoom, IsStack-pushed,
}

module _ (w : Platform) (u : Unwritten) (between : Between) (g : ℕ) (big : 2 ≤ g) (fits : g < word)
    (bytes : Bytes) (small : IsBytes bytes) (central : List MemoryCentral)
    (gives : GivesBits u) where
  module _ (m : Machine) (x : MemorySpan) (xs ys : List MemorySpan)
      (r : IsRound w u between g bytes central m (x ∷ xs) ys) where
    abbrev pub started : Machine
    started = with_sweepers (atomic_add m.heap.sweepers 1) m

    abbrev pub off : Machine
    off = taken_off w g big fits (0 + length xs) started

    pub off-taken : IsTaken w u between g bytes central x (off.span_at x)
    unfolding taken_off
    off-taken = r.taken.0

    pub off-there : m.span_at x ≡ some off-taken.span
    unfolding taken_off
    off-there = off-taken.there

    abbrev pub lost : Machine
    lost = put_span x (between x off-taken.span) off

    queue : IsStack 0 0 (buffer (popable_index g) started.heap) started.offheap (x ∷ xs)
    queue = Queue-with_sweepers w g big fits (atomic_add m.heap.sweepers 1) m (x ∷ xs) r.waiting

    lost-generation : lost.heap.sweep_generation ≡ g
    unfolding taken_off put_span
    lost-generation = (SameSweep-set_buffer (popable_index g) _ started.heap).0 ∙ r.generation

    lost-bytes : lost.bytes ≡ bytes
    unfolding taken_off put_span
    lost-bytes = r.same_bytes

    lost-central : lost.heap.central ≡ central
    unfolding taken_off put_span
    lost-central = (SameSweep-set_buffer (popable_index g) _ started.heap).1 ∙ r.same_central

    lost-running : lost.heap.sweep_done ≡ false
    unfolding taken_off put_span
    lost-running = (SameSweep-set_buffer (popable_index g) _ started.heap).2 ∙ r.running

    -- The buffer of swept spans is as it was.
    lost-done : buffer (pushable_index g) lost.heap ≡ buffer (pushable_index g) m.heap
    unfolding taken_off put_span buffer
    lost-done = (buffers_trade started.heap g _).3

    lost-ys : IsStack 0 0 (buffer (pushable_index g) lost.heap) lost.offheap ys
    unfolding taken_off put_span buffer
    lost-ys =
        let from = buffer (popable_index g) m.heap in
        let to = buffer (pushable_index g) m.heap in
        let room = r.room in
        rw lost-done (
          IsStack-elsewhere to m.offheap ys (slot from.spine (0 + length xs)) 0 r.done
            (slot-outside to from (0 + length xs) (AreApart-sym from to r.apart) (omega arith)))

    taken_off-queue :
        (take_span g started ≡ ok (some x, off))
        × IsStack 0 0 (buffer (popable_index g) off.heap) off.offheap xs
    taken_off-queue = take_span-cons w g big fits started x xs queue r.spans.0

    lost-xs : IsStack 0 0 (buffer (popable_index g) lost.heap) lost.offheap xs
    unfolding put_span
    lost-xs = taken_off-queue.1

    lost-apart : AreApart (buffer (popable_index g) lost.heap) (buffer (pushable_index g) lost.heap)
    unfolding taken_off put_span buffer
    lost-apart =
        let from = buffer (popable_index g) m.heap in
        rw
          (
            lost-done,
            buffer-set_buffer (popable_index g) (record from { index = 0 + length xs })
                started.heap,
          )
          r.apart

    abbrev pub as_taken : MemorySpanData
    as_taken = between x off-taken.span

    few : length ys < 512
    few = let room = r.room in omega arith

    pub lost-brk : lost.offheap.brk ≡ m.offheap.brk
    unfolding taken_off put_span store
    lost-brk = refl

    -- The address of the new mark bits.
    abbrev pub new_bits : ℕ
    new_bits = gives.bits as_taken.number_of_elements m.offheap.brk

    abbrev pub works : WorksAt u x lost as_taken.number_of_elements new_bits
    works =
        let n = as_taken.number_of_elements in
        record {
          brk = gives.next n m.offheap.brk;
          no_specials = off-taken.no_specials;
          fresh = λ m' same.
              gives.fresh n m'
              ∙ ap (λ (k : ℕ). ok (gives.bits n k, with_brk (gives.next n k) m'))
                  (ap (λ (o : Offheap). o.brk) same ∙ lost-brk);
        }

    pub moved : SweptTo w u x lost as_taken off-taken.list new_bits works g
    moved =
        sweep-SweptTo w u x lost as_taken off-taken.list new_bits works g lost-generation
          (rw lost-bytes off-taken.searched) (span_at-put_span_self x as_taken off)
          (rw lost-bytes small) fits (rw lost-bytes off-taken.claimed)
          (rw lost-bytes off-taken.kept)
          (IsStack-HasRoom (buffer (pushable_index g) lost.heap) lost.offheap ys lost-ys few)
          (rw lost-central off-taken.central_at)

    sweep_span-moved : sweep_span w u x lost ≡ ok (0, moved.0)
    unfolding sweep_span
    sweep_span-moved =
        ap
          (λ (o : Outcome MemorySpanData). o >>= λ t.
            sweep w u x false lost >>= λ z. ok (if z.0 then t.number_of_pages else 0, z.1))
          (ap (λ (o : Option MemorySpanData). deref o) (span_at-put_span_self x as_taken off))
        ∙ ap
            (λ (o : Outcome (Bool × Machine)).
              o >>= λ z. ok (if z.0 then as_taken.number_of_pages else 0, z.1))
            moved.1

    loop-moved : (fuel : ℕ) → 0 < fuel → sweep_loop w u between g fuel started ≡ ok (0, moved.0)
    unfolding sweep_loop sweep_round
    loop-moved zero enough = absurd (omega arith)
    loop-moved (suc fuel) enough =
        rw (taken_off-queue.0, inspect-taken w u between g big fits bytes central x off off-taken)
          sweep_span-moved

    abbrev pub ended : Machine
    ended = with_sweepers (atomic_sub moved.0.heap.sweepers 1) (moved.0)

    pub sweep_one-ended : sweep_one w u between m ≡ ok (0, ended)
    sweep_one-ended = sweep_one-loop w u between m 0 (moved.0) r.running (
        subst
          (λ (i : ℕ).
            sweep_loop w u between i ((buffer (popable_index i) m.heap).index + 1) started
            ≡ ok (0, moved.0))
          (sym r.generation)
          (loop-moved ((buffer (popable_index g) m.heap).index + 1) (omega arith)))

    pub ended-brk : ended.offheap.brk ≡ gives.next as_taken.number_of_elements m.offheap.brk
    unfolding store
    ended-brk = let (m₃, _, _, (_, off₃), _, _, _) = moved in ap (λ (o : Offheap). o.brk) off₃

    pub ended-span_at :
        (q : MemorySpan)
        → ended.span_at q
          ≡ (if q == x then some (swept bytes g false new_bits as_taken) else m.span_at q)
    unfolding put_span taken_off
    ended-span_at q =
        let frame = moved.2 q in
        let now = ap (λ (y : Bytes). some (swept y g false new_bits as_taken)) lost-bytes in
        elim (Bool-cases (q == x)) [
          | inl self ↦ rw self (rw self at frame ∙ now)
          | inr other ↦ rw other (rw other at frame)
        ]

    ended-taken :
        (zs : List MemorySpan)
        → AllOf (λ z. z ≢ x) zs
        → AllOf (λ z. IsTaken w u between g bytes central z (m.span_at z)) zs
        → AllOf (λ z. IsTaken w u between g bytes central z (ended.span_at z)) zs
    ended-taken [] apart taken = tt
    ended-taken (z ∷ zs) (apart, aparts) (taken, takens) =
        let other : (z == x) ≡ false = ground arith in
        let same : ended.span_at z ≡ m.span_at z = rw other at (ended-span_at z) in
        (
          subst (λ (at : Option MemorySpanData). IsTaken w u between g bytes central z at)
              (sym same) taken,
          ended-taken zs aparts takens,
        )

    ended-waiting : IsStack 0 0 (buffer (popable_index g) ended.heap) ended.offheap xs
    unfolding buffer
    ended-waiting =
        let from = buffer (popable_index g) lost.heap in
        let to = buffer (pushable_index g) lost.heap in
        let at = lost-ys.at in
        let below = few in
        let (m₃, _, _, (_, off₃), from₃, _, _) = moved in
        rw (from₃, off₃)
          (IsStack-elsewhere from (record (lost.offheap) { brk = works.brk }) xs
            (slot to.spine to.index) x (IsStack-brk from lost.offheap xs works.brk lost-xs)
            (slot-outside from to to.index lost-apart (omega arith)))

    ended-done : IsStack 0 0 (buffer (pushable_index g) ended.heap) ended.offheap (x ∷ ys)
    unfolding buffer
    ended-done =
        let to = buffer (pushable_index g) lost.heap in
        let (m₃, _, _, (to₃, off₃), _, _, _) = moved in
        rw (to₃, off₃)
          (IsStack-pushed to (record (lost.offheap) { brk = works.brk }) x ys
            (IsStack-brk to lost.offheap ys works.brk lost-ys) few)

    ended-apart :
        AreApart (buffer (popable_index g) ended.heap) (buffer (pushable_index g) ended.heap)
    unfolding buffer
    ended-apart = let (m₃, _, _, (to₃, _), from₃, _, _) = moved in rw (to₃, from₃) lost-apart

    pub ended-IsRound : IsRound w u between g bytes central ended xs (x ∷ ys)
    ended-IsRound =
        let room = r.room in
        let (m₃, _, _, _, _, same_bytes, (generation, lists, done)) = moved in
        record {
          generation = generation ∙ lost-generation;
          running = done ∙ lost-running;
          same_bytes = same_bytes ∙ lost-bytes;
          same_central = lists ∙ lost-central;
          waiting = ended-waiting;
          done = ended-done;
          room = omega arith;
          apart = ended-apart;
          spans = r.spans.1;
          distinct = r.distinct.1;
          taken = ended-taken xs r.distinct.0 r.taken.1;
        }
