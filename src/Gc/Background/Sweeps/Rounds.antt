-- ===== src/Gc/Background/Sweeps/Rounds.antt =====
-- The loop over the spans of the background task of src/gc.rs where other threads claim the spans that
-- it takes off.
use mathlib.Core.List.{reverse_aux}
use mathlib.Core.Path.{subst}
use rust_go_gc.Prelude.{
  ℕ, zero, suc, ◌+◌, ◌/◌, ◌%◌, ◌<◌, ◌≤◌, ◌≡◌, ◌≢◌, ◌∙◌, refl, sym, true, false, some, List, [], ◌∷◌,
  arith, length, AllOf, ◌==◌,
}
use rust_go_gc.Prelude.Outcome.{ok}
use rust_go_gc.Prelude.Word.{word, atomic_add, atomic_sub}
use rust_go_gc.Span.{MemorySpan, MemorySpanData, Bytes, IsBytes}
use rust_go_gc.SweepBuffer.Slot.{pop-empty}
use rust_go_gc.Heap.{Machine, Platform, Unwritten, MemoryCentral}
use rust_go_gc.Heap.Buffers.{popable_index, pushable_index, buffer, set_buffer, buffers_trade}
use rust_go_gc.Sweep.InPlace.{swept}
use rust_go_gc.Gc.{
  nothing_to_sweep, Between, take_span, sweep_loop, sweep_one, with_sweep_done, with_sweepers,
}
use rust_go_gc.Gc.Waiting.{sweep_one-loop}
use rust_go_gc.Gc.Sweeping.{GivesBits, IsRound}
use rust_go_gc.Gc.Sweeping.Round.{
  ended, off-taken, off-there, sweep_one-ended, ended-brk, ended-span_at, ended-IsRound,
}
use rust_go_gc.Gc.Background.{
  Gc, Others, sweeping, with_machine, counted_sweep, Reaches, step, swept_one,
}

module _ (between : Between) (g : ℕ) (bytes : Bytes) where
  -- From one machine to another the spans are swept, each as another thread left it before the swap,
  -- and in turn get their mark bits off the free memory, which starts at `k`: those of a span lie
  -- behind those of the span before it.
  abbrev pub SweptInTurn : (m m' : Machine) (k : ℕ) → List MemorySpan → Type 0
  SweptInTurn m m' k [] = m'.offheap.brk ≡ k
  SweptInTurn m m' k (x ∷ xs) =
      (s : MemorySpanData) × (bits : ℕ) × (k' : ℕ) × (m.span_at x ≡ some s)
      × (m'.span_at x ≡ some (swept bytes g false bits (between x s)))
      × (k ≤ bits)
      × (bits + ((between x s).number_of_elements + 7) / 8 ≤ k')
      × SweptInTurn m m' k' xs

  SweptInTurn-before :
      (m m₁ m' : Machine) (x : MemorySpan) (k : ℕ) (zs : List MemorySpan)
      → ((q : MemorySpan) → q ≢ x → m₁.span_at q ≡ m.span_at q)
      → AllOf (λ z. z ≢ x) zs
      → SweptInTurn m₁ m' k zs
      → SweptInTurn m m' k zs
  SweptInTurn-before m m₁ m' x k [] same apart all = all
  SweptInTurn-before m m₁ m' x k (z ∷ zs) same (apart, aparts)
        (s, bits, k', at, now, from, to, all) =
      (
        s,
        bits,
        k',
        sym (same z apart) ∙ at,
        now,
        from,
        to,
        SweptInTurn-before m m₁ m' x k' zs same aparts all,
      )

  pub SweptInTurn-after :
      (m m₁ m' : Machine) (k : ℕ) (xs : List MemorySpan)
      → ((q : MemorySpan) → m'.span_at q ≡ m₁.span_at q)
      → m'.offheap.brk ≡ m₁.offheap.brk
      → SweptInTurn m m₁ k xs
      → SweptInTurn m m' k xs
  SweptInTurn-after m m₁ m' k [] same brk all = brk ∙ all
  SweptInTurn-after m m₁ m' k (x ∷ xs) same brk (s, bits, k', at, now, from, to, all) =
      (s, bits, k', at, same x ∙ now, from, to, SweptInTurn-after m m₁ m' k' xs same brk all)

module _ (w : Platform) (u : Unwritten) (between : Between) (g : ℕ) (big : 2 ≤ g) (fits : g < word)
    (bytes : Bytes) (small : IsBytes bytes) (central : List MemoryCentral)
    (gives : GivesBits u) where
  module _ (others : Others) (c₀ : Gc) where
    -- The task has swept `xs`, and has counted them.
    abbrev pub Swept : Gc → (xs ys : List MemorySpan) → Type 0
    Swept c xs ys =
        (d : Gc) × Reaches w u between others c₀ sweeping d
        × IsRound w u between g bytes central d.machine [] (reverse_aux xs ys)
        × SweptInTurn between g bytes c.machine d.machine c.machine.offheap.brk xs
        × ((q : MemorySpan) → AllOf (λ x. x ≢ q) xs → d.machine.span_at q ≡ c.machine.span_at q)
        × (d.background_sweep.number ≡ (c.background_sweep.number + length xs) % word)
        × (d.phase ≡ c.phase)

    pub sweeping-Swept :
        (c : Gc) (xs ys : List MemorySpan)
        → Reaches w u between others c₀ sweeping c
        → c.background_sweep.number < word
        → IsRound w u between g bytes central c.machine xs ys
        → Swept c xs ys
    sweeping-Swept c [] ys reached below r = (c, reached, r, refl, λ q _. refl, omega arith, refl)
    sweeping-Swept c (x ∷ xs) ys reached below r =
        let m = c.machine in
        let m₁ = ended w u between g big fits bytes small central gives m x xs ys r in
        let h = off-taken w u between g big fits bytes small central gives m x xs ys r in
        let n = (between x h.span).number_of_elements in
        let bits = gives.bits n m.offheap.brk in
        let brk = ended-brk w u between g big fits bytes small central gives m x xs ys r in
        let from = gives.from n m.offheap.brk in
        let to = gives.to n m.offheap.brk in
        let c₁ = counted_sweep (with_machine m₁ c) in
        let frame : (q : MemorySpan) → q ≢ x → m₁.span_at q ≡ m.span_at q = λ q other.
          let apart : (q == x) ≡ false = ground arith in
          rw apart at
            (ended-span_at w u between g big fits bytes small central gives m x xs ys r q) in
        let self : (x == x) ≡ true = ground arith in
        let now : m₁.span_at x ≡ some (swept bytes g false bits (between x h.span)) =
          rw self at
            (ended-span_at w u between g big fits bytes small central gives m x xs ys r x) in
        let (d, to, round, all, same, number, phase) =
          sweeping-Swept c₁ xs (x ∷ ys)
            (step reached (
              swept_one
                (sweep_one-ended w u between g big fits bytes small central gives m x xs ys r)
                (λ e. cc)))
            (omega arith)
            (ended-IsRound w u between g big fits bytes small central gives m x xs ys r) in
        (
          d,
          to,
          round,
          (
            h.span,
            bits,
            m₁.offheap.brk,
            off-there w u between g big fits bytes small central gives m x xs ys r,
            same x r.distinct.0 ∙ now,
            from,
            omega arith,
            SweptInTurn-before between g bytes m m₁ d.machine x m₁.offheap.brk xs frame r.distinct.0
                all,
          ),
          λ q (apart, aparts). same q aparts ∙ frame q (λ e. apart (sym e)),
          omega arith,
          phase,
        )

  -- With the buffer empty, a call says that nothing is to be swept, and the sweep counts as done.
  abbrev pub Emptied : Machine → Type 0
  Emptied m =
      (m' : Machine) × (sweep_one w u between m ≡ ok (nothing_to_sweep, m'))
      × (m'.heap.sweep_done ≡ true)
      × ((q : MemorySpan) → m'.span_at q ≡ m.span_at q)
      × (buffer (pushable_index g) m'.heap ≡ buffer (pushable_index g) m.heap)
      × (m'.offheap ≡ m.offheap)

  loop-empty :
      (fuel : ℕ) (m : Machine)
      → 0 < fuel
      → (buffer (popable_index g) m.heap).index ≡ 0
      → sweep_loop w u between g fuel m
        ≡ ok (
          nothing_to_sweep,
          with_sweep_done (record m {
            heap = set_buffer (popable_index g) (buffer (popable_index g) m.heap) m.heap;
          }),
        )
  unfolding sweep_loop take_span
  loop-empty zero m enough none = absurd (omega arith)
  loop-empty (suc fuel) m enough none =
      rw (pop-empty (buffer (popable_index g) m.heap) m.offheap none)

  pub sweep_one-Emptied :
      (m : Machine) (ys : List MemorySpan) → IsRound w u between g bytes central m [] ys → Emptied m
  unfolding buffer
  sweep_one-Emptied m ys r =
      let at = r.waiting.at in
      let m₀ = with_sweepers (atomic_add m.heap.sweepers 1) m in
      let b = buffer (popable_index g) m₀.heap in
      let m₁ = with_sweep_done (record m₀ { heap = set_buffer (popable_index g) b m₀.heap }) in
      (
        with_sweepers (atomic_sub m₁.heap.sweepers 1) m₁,
        sweep_one-loop w u between m nothing_to_sweep m₁ r.running (
            subst
              (λ (i : ℕ).
                sweep_loop w u between i ((buffer (popable_index i) m.heap).index + 1) m₀
                ≡ ok (nothing_to_sweep, m₁))
              (sym r.generation)
              (loop-empty ((buffer (popable_index g) m.heap).index + 1) m₀ (omega arith)
                (omega arith))),
        refl,
        λ q. refl,
        (buffers_trade m₀.heap g b).3,
        refl,
      )
