-- ===== src/Gc/Alone.antt =====
-- `sweep_one` where no other thread touches the spans.
use rust_go_gc.Prelude.{
  ℕ, zero, suc, ◌+◌, ◌≡◌, ◌∙◌, inl, inr, refl, ap, Bool, true, not, Option, none, some, arith, ◌==◌,
  ==_iff, Bool-cases, if-true, if-false,
}
use mathlib.Core.Path.{subst}
use rust_go_gc.Prelude.Outcome.{Outcome, ok, Panic, panic_if, >>=-inv, deref-eq-ok}
use rust_go_gc.Prelude.Word.{sub_word, atomic_add}
use rust_go_gc.Span.{MemorySpan, MemorySpanData}
use rust_go_gc.SweepBuffer.{pop}
use rust_go_gc.Heap.{Machine, Platform, Unwritten, span_of, put_span}
use rust_go_gc.Heap.Buffers.{popable_index, buffer}
use rust_go_gc.Sweep.{is_in_use}
use rust_go_gc.Gc.{
  Between, nothing_to_sweep, take_span, try_acquire, inspect, sweep_round, sweep_loop, sweep_one,
  with_sweepers,
}

abbrev pub alone : Between
alone p s = s

-- A span that differs at most in its generation.
abbrev pub SameBut : Option MemorySpanData → Option MemorySpanData → Type 0
SameBut (some s) (some t) = t ≡ record s { sweep_generation = t.sweep_generation }
SameBut none none = Unit {0}
SameBut _ _ = ⊥

abbrev pub SameSpans : Machine → Machine → Type 0
SameSpans m m' = (q : MemorySpan) → SameBut (m.span_at q) (m'.span_at q)

SameBut-refl : (o : Option MemorySpanData) → SameBut o o
SameBut-refl none = tt
SameBut-refl (some s) = refl

SameBut-trans : (a b c : Option MemorySpanData) → SameBut a b → SameBut b c → SameBut a c
SameBut-trans none none none h k = tt
SameBut-trans (some s) (some t) (some r) h k =
    k ∙ ap (λ (x : MemorySpanData). record x { sweep_generation = r.sweep_generation }) h
SameBut-trans none none (some r) h k = absurd k
SameBut-trans (some s) (some t) none h k = absurd k
SameBut-trans none (some t) c h k = absurd h
SameBut-trans (some s) none c h k = absurd h

put_generation-SameSpans :
    (p : MemorySpan) (s : MemorySpanData) (g : ℕ) (m : Machine)
    → m.span_at p ≡ some s
    → SameSpans m (put_span p (record s { sweep_generation = g }) m)
unfolding put_span
put_generation-SameSpans p s g m there q = elim (Bool-cases (q == p)) [
  | inl self ↦ let e : q ≡ p = (==_iff _ _).0 self in rw (self, e, there)
  | inr other ↦ rw other (SameBut-refl (m.span_at q))
]

SameBut-self : (m m' : Machine) → m ≡ m' → SameSpans m m'
SameBut-self m m' e q = rw (← e) (SameBut-refl (m.span_at q))

-- What one span does to the machine in a collector that runs alone: the loop goes on.
abbrev Passed : Bool → Machine → Machine → Type 0
Passed skip m m' = (skip ≡ true) × SameSpans m m' × (m'.heap ≡ m.heap) × (m'.offheap ≡ m.offheap)

Passed-eq :
    (r : Bool × Machine) (m : Machine) (skip : Bool) (m' : Machine)
    → ok r ≡ ok (skip, m')
    → Passed r.0 m r.1
    → Passed skip m m'
Passed-eq r m skip m' e h =
    let pair : r ≡ (skip, m') = cc in subst (λ (x : Bool × Machine). Passed x.0 m x.1) pair h

Passed-self : (m : Machine) → Passed true m m
Passed-self m = (refl, SameBut-self m m refl, refl, refl)

try_acquire-alone :
    (w : Platform) (g : ℕ) (p : MemorySpan) (s : MemorySpanData) (m : Machine) (skip : Bool)
    (m' : Machine)
    → m.span_at p ≡ some s
    → try_acquire w alone g p s m ≡ ok (skip, m')
    → Passed skip m m'
unfolding try_acquire put_span
try_acquire-alone w g p s m skip m' there e = >>=-inv (sub_word w.checks g 2) _ e λ unswept _ rest.
    elim (Bool-cases (s.sweep_generation == unswept)) [
      | inl due ↦ >>=-inv (sub_word w.checks g 1) _ (rw due at rest) λ sweeping _ last.
          Passed-eq _ m skip m' last
            (ground arith, put_generation-SameSpans p s sweeping m there, refl, refl)
      | inr other ↦ Passed-eq (true, m) m skip m' (rw other at rest) (Passed-self m)
    ]

inspect-alone :
    (w : Platform) (g : ℕ) (p : MemorySpan) (m : Machine) (skip : Bool) (m' : Machine)
    → inspect w alone g p m ≡ ok (skip, m')
    → Passed skip m m'
unfolding inspect
inspect-alone w g p m skip m' e = >>=-inv (span_of p m) _ e λ s at rest.
    elim (Bool-cases (is_in_use s.state)) [
      | inl using ↦
          try_acquire-alone w g p s m skip m' (deref-eq-ok (m.span_at p) at) (rw using at rest)
      | inr other ↦
          >>=-inv (panic_if (not (s.sweep_generation == g)) Panic.non_in_use_span_in_unswept_list) _
            (rw other at rest) λ _ _ last. Passed-eq (true, m) m skip m' last (Passed-self m)
    ]

abbrev OkSame : Machine → Outcome (Option MemorySpan × Machine) → Type 0
OkSame m (ok r) = SameSpans m r.1
OkSame m _ = Unit {0}

take_span-SameSpans :
    (g : ℕ) (m : Machine) (r : Option MemorySpan × Machine) → take_span g m ≡ ok r → SameSpans m r.1
unfolding take_span
take_span-SameSpans g m r e =
    >>=-inv (pop (buffer (popable_index g) m.heap) m.offheap) _ e λ t _ last.
      subst (λ (o : Outcome (Option MemorySpan × Machine)). OkSame m o) last (SameBut-self m m refl)

-- A call that found nothing to sweep, set the flag, and touched nothing of the spans but
-- generations.
abbrev pub SweptNothing : Machine → ℕ → Machine → Type 0
SweptNothing m pages m' = (pages ≡ nothing_to_sweep) × (m'.heap.sweep_done ≡ true) × SameSpans m m'

SweptNothing-trans :
    (m m₁ : Machine) (pages : ℕ) (m' : Machine)
    → SameSpans m m₁
    → SweptNothing m₁ pages m'
    → SweptNothing m pages m'
SweptNothing-trans m m₁ pages m' h (e, done, k) =
    (e, done, λ q. SameBut-trans (m.span_at q) (m₁.span_at q) (m'.span_at q) (h q) (k q))

abbrev OkNothing : Machine → Outcome (ℕ × Machine) → Type 0
OkNothing m (ok r) = SweptNothing m r.0 r.1
OkNothing m _ = Unit {0}

sweep_round-alone :
    (w : Platform) (u : Unwritten) (g : ℕ) (next : Machine → Outcome (ℕ × Machine))
    → ((m : Machine) (pages : ℕ) (m' : Machine) → next m ≡ ok (pages, m') → SweptNothing m pages m')
    → (x : Option MemorySpan) (m : Machine) (pages : ℕ) (m' : Machine)
    → sweep_round w u alone g next x m ≡ ok (pages, m')
    → SweptNothing m pages m'
unfolding sweep_round
sweep_round-alone w u g next ih none m pages m' e =
    subst (OkNothing m) e (refl, refl, SameBut-self m m refl)
sweep_round-alone w u g next ih (some p) m pages m' e =
    >>=-inv (inspect w alone g p m) _ e λ (skip, m₁) inspected rest.
      let (skips, same, _, _) = inspect-alone w g p m skip m₁ inspected in
      SweptNothing-trans m m₁ pages m' same (ih m₁ pages m' (rw skips at rest))

-- The loop alone: nothing is swept.
sweep_loop-alone :
    (w : Platform) (u : Unwritten) (g fuel : ℕ) (m : Machine) (pages : ℕ) (m' : Machine)
    → sweep_loop w u alone g fuel m ≡ ok (pages, m')
    → SweptNothing m pages m'
unfolding sweep_loop
sweep_loop-alone w u g zero m pages m' e = cc
sweep_loop-alone w u g (suc fuel) m pages m' e = >>=-inv (take_span g m) _ e λ r taken rest.
    SweptNothing-trans m r.1 pages m' (take_span-SameSpans g m r taken) (
      sweep_round-alone w u g (sweep_loop w u alone g fuel) (sweep_loop-alone w u g fuel) r.0 r.1
        pages m' rest)

-- Where the collector runs alone, a call of `sweep_one` that returns has swept no span, whatever
-- was waiting: it says that there was nothing to sweep, the sweep counts as done, and no span
-- differs from before in anything but its generation.
pub sweep_one-alone :
    (w : Platform) (u : Unwritten) (m : Machine) (pages : ℕ) (m' : Machine)
    → sweep_one w u alone m ≡ ok (pages, m')
    → SweptNothing m pages m'
unfolding sweep_one
sweep_one-alone w u m pages m' e = elim (Bool-cases m.heap.sweep_done) [
  | inl done ↦
      subst (OkNothing m) (if-true m.heap.sweep_done _ _ done e) (refl, done, SameBut-self m m refl)
  | inr running ↦
      >>=-inv
        (sweep_loop w u alone m.heap.sweep_generation
          ((buffer (popable_index m.heap.sweep_generation) m.heap).index + 1)
          (with_sweepers (atomic_add m.heap.sweepers 1) m))
        _ (if-false m.heap.sweep_done _ _ running e)
        λ (pages₁, m'') looped last.
          let (nothing, done, same) =
            sweep_loop-alone w u m.heap.sweep_generation
              ((buffer (popable_index m.heap.sweep_generation) m.heap).index + 1)
              (with_sweepers (atomic_add m.heap.sweepers 1) m) pages₁ m'' looped in
          subst (OkNothing m) last (nothing, done, same)
]
