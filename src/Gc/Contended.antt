-- ===== src/Gc/Contended.antt =====
-- What leads `sweep_one` to sweep a span: another thread that changes its generation.
use rust_go_gc.Prelude.{
  ℕ, ◌+◌, ◌-◌, ◌<◌, ◌≤◌, ◌≡◌, ◌≢◌, ap, sym, Bool, true, false, not, some, arith, ◌==◌, ==_iff,
  Bool-cases, inl, inr,
}
use rust_go_gc.Prelude.Outcome.{ok, Panic, panic_if, >>=-inv, deref-eq-ok, ok-eq}
use rust_go_gc.Prelude.Word.{word, sub_word-ok}
use rust_go_gc.Span.{MemorySpan, MemorySpanData}
use rust_go_gc.Heap.{Machine, Platform, span_of, put_span}
use rust_go_gc.Sweep.{is_in_use}
use rust_go_gc.Gc.{Between, compare_and_swap, try_acquire, inspect}

module _ (w : Platform) (between : Between) (g : ℕ) (big : 2 ≤ g) (fits : g < word) (p : MemorySpan)
    (m m' : Machine) where
  -- A span that was due when its generation was read, and had another one at the swap.
  abbrev pub Contended : MemorySpanData → Type 0
  Contended s =
      (s.sweep_generation + 2 ≡ g)
      × ((between p s).sweep_generation ≢ s.sweep_generation)
      × (m'.span_at p ≡ some (between p s))

  swap-Contended :
      (s : MemorySpanData)
      → s.sweep_generation ≡ g - 2
      → compare_and_swap (g - 2) (g - 1) p (between p s) m ≡ (false, m')
      → Contended s
  unfolding compare_and_swap put_span
  swap-Contended s due e =
      let t = between p s in
      let self : (p == p) ≡ true = ground arith in
      let failed : (g - 2 == t.sweep_generation) ≡ false = ap (λ (r : Bool × Machine). r.0) e in
      let other : t.sweep_generation ≢ s.sweep_generation = ground arith in
      let unchanged : (t.sweep_generation == g - 2) ≡ false = ground arith in
      let m'_at = ap (λ (r : Bool × Machine). r.1.span_at p) e in
      (omega arith, other, sym (rw (unchanged, self) at m'_at))

  try_acquire-Contended :
      (s : MemorySpanData) → try_acquire w between g p s m ≡ ok (false, m') → Contended s
  unfolding try_acquire
  try_acquire-Contended s e = elim (Bool-cases (s.sweep_generation == g - 2)) [
    | inl due ↦
        let at : s.sweep_generation ≡ g - 2 = (==_iff _ _).0 due in
        let swapped =
          rw (sub_word-ok w.checks g 2 big fits, due, sub_word-ok w.checks g 1 (omega arith) fits)
            at e in
        swap-Contended s at (ok-eq swapped)
    | inr other ↦ cc (rw (sub_word-ok w.checks g 2 big fits, other) at e)
  ]

-- Other threads may change a span between the read of its generation and the swap. `sweep_one` goes
-- on to sweep a span that it took off only if that span was in use and due when its generation was
-- read, and another thread changed the generation before the swap: the span is then as that thread
-- left it, so it was not this thread that claimed it.
pub inspect-Contended :
    (w : Platform) (between : Between) (g : ℕ) (p : MemorySpan) (m m' : Machine)
    → 2 ≤ g
    → g < word
    → inspect w between g p m ≡ ok (false, m')
    → (s : MemorySpanData) × (m.span_at p ≡ some s)
      × (is_in_use s.state ≡ true)
      × (s.sweep_generation + 2 ≡ g)
      × ((between p s).sweep_generation ≢ s.sweep_generation)
      × (m'.span_at p ≡ some (between p s))
unfolding inspect
inspect-Contended w between g p m m' big fits e = >>=-inv (span_of p m) _ e λ s at rest.
    elim (Bool-cases (is_in_use s.state)) [
      | inl using ↦
          let (due, changed, left) =
            try_acquire-Contended w between g big fits p m m' s (rw using at rest) in
          (s, deref-eq-ok (m.span_at p) at, using, due, changed, left)
      | inr other ↦
          >>=-inv (panic_if (not (s.sweep_generation == g)) Panic.non_in_use_span_in_unswept_list) _
            (rw other at rest) λ _ _ last. cc
    ]
