-- ===== src/Gc/Ends/Inspect.antt =====
-- The tests of `sweep_one` in src/gc.rs on a span that was taken off.
use rust_go_gc.Prelude.{
  ℕ, ◌+◌, ◌<◌, ◌≡◌, inl, inr, refl, Bool, true, not, some, arith, ◌==◌, Bool-cases,
}
use mathlib.Core.Path.{subst}
use rust_go_gc.Prelude.Outcome.{
  ok, Panic, panic_if, >>=-inv, Ends, >>=-Ends, if-Ends, ok-Ends, panic_if-Ends, deref-Ends,
  deref-eq-ok,
}
use rust_go_gc.Prelude.Word.{word, sub_word, sub_mod-Ends}
use rust_go_gc.Span.{MemorySpan, MemorySpanData}
use rust_go_gc.SweepBuffer.Ends.{pop-Ends}
use rust_go_gc.Heap.{Machine, Platform, span_of, put_span}
use rust_go_gc.Heap.Buffers.{popable_index, buffer}
use rust_go_gc.Sweep.{is_in_use}
use rust_go_gc.Sweep.Ends.{AreSmall}
use rust_go_gc.Gc.{Between, take_span, compare_and_swap, try_acquire, inspect}

-- Other threads do not change how many objects a span has.
abbrev pub KeepsElements : Between → Type 0
KeepsElements between =
    (p : MemorySpan) (s : MemorySpanData) → (between p s).number_of_elements ≡ s.number_of_elements

-- How many entries the buffer of unswept spans has.
abbrev pub entries : (g : ℕ) → Machine → ℕ
entries g m = (buffer (popable_index g) m.heap).index

put_span-AreSmall :
    (p : MemorySpan) (s : MemorySpanData) (m : Machine)
    → s.number_of_elements + 64 < word
    → AreSmall m
    → AreSmall (put_span p s m)
unfolding put_span
put_span-AreSmall p s m fits small q t at = elim (Bool-cases (q == p)) [
  | inl self ↦ let e : s ≡ t = (let h = rw self at at in cc) in rw e at fits
  | inr other ↦ small q t (rw other at at)
]

pub take_span-Ends : (g : ℕ) (m : Machine) → Ends (take_span g m)
unfolding take_span
take_span-Ends g m =
    >>=-Ends _ _ (pop-Ends (buffer (popable_index g) m.heap) m.offheap) λ (x, b, o) _. ok-Ends _

module _ (w : Platform) (between : Between) (g : ℕ) where
  try_acquire-Ends :
      (p : MemorySpan) (s : MemorySpanData) (m : Machine) → Ends (try_acquire w between g p s m)
  unfolding try_acquire
  try_acquire-Ends p s m = >>=-Ends _ _ (sub_mod-Ends word w.checks g 2) λ unswept _.
      if-Ends (not (s.sweep_generation == unswept)) (ok (true, m)) _ (ok-Ends (true, m))
        (>>=-Ends _ _ (sub_mod-Ends word w.checks g 1) λ sweeping _. ok-Ends _)

  pub inspect-Ends : (p : MemorySpan) (m : Machine) → Ends (inspect w between g p m)
  unfolding inspect
  inspect-Ends p m = >>=-Ends _ _ (deref-Ends (m.span_at p)) λ s _.
      if-Ends (is_in_use s.state) _ _ (try_acquire-Ends p s m) (
        >>=-Ends _ _
          (panic_if-Ends (not (s.sweep_generation == g)) Panic.non_in_use_span_in_unswept_list)
          λ _ _. ok-Ends (true, m))

  -- What is left of the machine by the tests on a span.
  abbrev pub Left : Machine → Machine → Type 0
  Left m m' = (m'.heap ≡ m.heap) × AreSmall m'

  Left-eq :
      (r : Bool × Machine) (m : Machine) (skip : Bool) (m' : Machine)
      → ok r ≡ ok (skip, m')
      → Left m r.1
      → Left m m'
  Left-eq r m skip m' e h =
      let pair : r ≡ (skip, m') = cc in subst (λ (x : Bool × Machine). Left m x.1) pair h

  module _ (keeps : KeepsElements between) where
    swap-Left :
        (expected replacement : ℕ) (p : MemorySpan) (s : MemorySpanData) (m : Machine)
        → m.span_at p ≡ some s
        → AreSmall m
        → Left m (compare_and_swap expected replacement p (between p s) m).1
    unfolding compare_and_swap put_span
    swap-Left expected replacement p s m there small =
        let fits : (between p s).number_of_elements + 64 < word =
          (let e = keeps p s in let h = small p s there in omega arith) in
        elim (Bool-cases ((between p s).sweep_generation == expected)) [
          | inl same ↦ rw same (
            refl,
            put_span-AreSmall p (record (between p s) { sweep_generation = replacement }) m fits
                small,
          )
          | inr other ↦ rw other (refl, put_span-AreSmall p (between p s) m fits small)
        ]

    try_acquire-Left :
        (p : MemorySpan) (s : MemorySpanData) (m : Machine) (skip : Bool) (m' : Machine)
        → m.span_at p ≡ some s
        → AreSmall m
        → try_acquire w between g p s m ≡ ok (skip, m')
        → Left m m'
    unfolding try_acquire
    try_acquire-Left p s m skip m' there small e =
        >>=-inv (sub_word w.checks g 2) _ e λ unswept _ rest.
          elim (Bool-cases (s.sweep_generation == unswept)) [
            | inl due ↦ >>=-inv (sub_word w.checks g 1) _ (rw due at rest) λ sweeping _ last.
                Left-eq _ m skip m' last (swap-Left unswept sweeping p s m there small)
            | inr other ↦ Left-eq (true, m) m skip m' (rw other at rest) (refl, small)
          ]

    pub inspect-Left :
        (p : MemorySpan) (m : Machine) (skip : Bool) (m' : Machine)
        → AreSmall m
        → inspect w between g p m ≡ ok (skip, m')
        → Left m m'
    unfolding inspect
    inspect-Left p m skip m' small e = >>=-inv (span_of p m) _ e λ s at rest.
        elim (Bool-cases (is_in_use s.state)) [
          | inl using ↦
              try_acquire-Left p s m skip m' (deref-eq-ok (m.span_at p) at) small (rw using at rest)
          | inr other ↦
              >>=-inv
                (panic_if (not (s.sweep_generation == g)) Panic.non_in_use_span_in_unswept_list) _
                (rw other at rest) λ _ _ last. Left-eq (true, m) m skip m' last (refl, small)
        ]
