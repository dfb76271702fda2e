-- ===== src/Gc/Ends.antt =====
-- The end of the loop of `sweep_one` in src/gc.rs, with other threads at work on the spans.
pub mod Inspect
use rust_go_gc.Prelude.{
  ℕ, zero, suc, ◌+◌, ◌-◌, ◌<◌, ◌≤◌, ◌≡◌, ◌≢◌, ◌∙◌, ◌⊎◌, inl, inr, sym, ap, refl, Bool, true, false,
  not, Option, none, some, arith, ◌==◌, ==_iff, Bool-cases, if◌then◌else◌,
}
use mathlib.Core.Path.{subst}
use rust_go_gc.Prelude.Outcome.{
  Outcome, ok, out_of_fuel, panic, Panic, panic_if, ◌>>=◌, >>=-inv, Ends, >>=-Ends, if-Ends,
  ok-Ends, panic_if-Ends, deref-Ends, deref-eq-ok,
}
use rust_go_gc.Prelude.Word.{word, sub_word, sub_mod-Ends, atomic_add}
use rust_go_gc.Span.{MemorySpan, MemorySpanData}
use rust_go_gc.SweepBuffer.{SweepBuffer, pop}
use rust_go_gc.SweepBuffer.Ends.{pop-Ends, pop-index}
use rust_go_gc.Heap.{MemoryHeap, Machine, Platform, Unwritten, span_of, put_span}
use rust_go_gc.Heap.Buffers.{popable_index, buffer, set_buffer, buffer-set_buffer}
use rust_go_gc.Sweep.{is_in_use, sweep}
use rust_go_gc.Sweep.Ends.{AreSmall, AreEnding, sweep-Ends}
use rust_go_gc.Gc.{
  Between, take_span, compare_and_swap, try_acquire, inspect, sweep_span, sweep_round, sweep_loop,
  sweep_one, with_sweepers,
}
use rust_go_gc.Gc.Ends.Inspect.{KeepsElements, entries, take_span-Ends, inspect-Ends, inspect-Left}

-- What taking off an entry leaves.
abbrev After : (g : ℕ) → Machine → Option MemorySpan → Machine → Type 0
After g m x m' = AreSmall m' × ((x ≡ none) ⊎ (entries g m' + 1 ≡ entries g m))

take_span-After :
    (g : ℕ) (m : Machine) (x : Option MemorySpan) (m' : Machine)
    → AreSmall m
    → entries g m < word
    → take_span g m ≡ ok (x, m')
    → After g m x m'
unfolding take_span
take_span-After g m x m' small fits e =
    >>=-inv (pop (buffer (popable_index g) m.heap) m.offheap) _ e λ (y, b, o) popped last.
      let left = record m { heap = set_buffer (popable_index g) b m.heap; offheap = o } in
      let pair : ◌≡◌ {A = Option MemorySpan × Machine} (y, left) (x, m') = cc in
      let kept : buffer (popable_index g) left.heap ≡ b =
        buffer-set_buffer (popable_index g) b m.heap in
      subst (λ (r : Option MemorySpan × Machine). After g m r.0 r.1) pair
        (
          small,
          elim (pop-index (buffer (popable_index g) m.heap) m.offheap y b o fits popped) [
            | inl empty ↦ inl empty
            | inr lower ↦ inr (ap (λ (c : SweepBuffer). c.index + 1) kept ∙ lower)
          ],
        )

sweep_span-Ends :
    (w : Platform) (u : Unwritten) (p : MemorySpan) (m : Machine)
    → AreEnding u
    → AreSmall m
    → Ends (sweep_span w u p m)
unfolding sweep_span
sweep_span-Ends w u p m ending small =
    >>=-Ends _ _ (deref-Ends (m.span_at p))
      λ s _. >>=-Ends _ _ (sweep-Ends w u p false m ending small) λ r _. ok-Ends _

module _ (w : Platform) (u : Unwritten) (ending : AreEnding u) (between : Between)
    (keeps : KeepsElements between) (g : ℕ) where
  sweep_round-Ends :
      (next : Machine → Outcome (ℕ × Machine)) (x : Option MemorySpan) (m : Machine)
      → AreSmall m
      → ((m' : Machine) → x ≢ none → m'.heap ≡ m.heap → AreSmall m' → Ends (next m'))
      → Ends (sweep_round w u between g next x m)
  unfolding sweep_round
  sweep_round-Ends next none m small ih = ok-Ends _
  sweep_round-Ends next (some p) m small ih =
      >>=-Ends _ _ (inspect-Ends w between g p m) λ (skip, m') inspected.
        let (same, small') = inspect-Left w between g keeps p m skip m' small inspected in
        if-Ends skip (next m') (sweep_span w u p m') (ih m' (λ e. cc) same small')
          (sweep_span-Ends w u p m' ending small')

  sweep_loop-Ends :
      (fuel : ℕ) (m : Machine)
      → AreSmall m
      → entries g m < word
      → entries g m < fuel
      → Ends (sweep_loop w u between g fuel m)
  unfolding sweep_loop
  sweep_loop-Ends zero m small fits enough = absurd (omega arith)
  sweep_loop-Ends (suc fuel) m small fits enough =
      >>=-Ends _ _ (take_span-Ends g m) λ (x, m₁) taken.
        let (small₁, lower) = take_span-After g m x m₁ small fits taken in
        sweep_round-Ends _ x m₁ small₁ λ m₂ ne same small₂. elim lower [
          | inl empty ↦ absurd (ne empty)
          | inr less ↦
              let at : entries g m₂ ≡ entries g m₁ =
                ap (λ (h : MemoryHeap). (buffer (popable_index g) h).index) same in
              sweep_loop-Ends fuel m₂ small₂ (omega arith) (omega arith)
        ]

  with_sweepers-entries : (n : ℕ) (m : Machine) → entries g (with_sweepers n m) ≡ entries g m
  unfolding buffer
  with_sweepers-entries n m = refl

-- `sweep_one` ends for every machine whose spans have fewer than 2^64 - 64 objects, whatever spans
-- are in the buffer and whatever other threads do to a span between the read of its generation and
-- the swap, its number of objects apart; of the functions that are not written it asks that they
-- end, and that `free_specials` does not make a span too large. So the fuel of the loop, and that of
-- the search for a free object, are enough.
pub sweep_one-Ends :
    (w : Platform) (u : Unwritten) (between : Between) (m : Machine)
    → AreEnding u
    → KeepsElements between
    → AreSmall m
    → entries m.heap.sweep_generation m < word
    → sweep_one w u between m ≢ out_of_fuel
unfolding sweep_one
sweep_one-Ends w u between m ending keeps small fits =
    let g = m.heap.sweep_generation in
    let started = with_sweepers (atomic_add m.heap.sweepers 1) m in
    let same = with_sweepers-entries w u ending between keeps g (atomic_add m.heap.sweepers 1) m in
    if-Ends m.heap.sweep_done _ _ (ok-Ends _) (
      >>=-Ends _ _
        (sweep_loop-Ends w u ending between keeps g (entries g m + 1) started small (omega arith)
          (omega arith))
        λ r _. ok-Ends _)
