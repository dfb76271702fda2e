-- ===== src/Gc/Waiting.antt =====
-- `sweep_one` alone over a buffer of spans that wait to be swept: what becomes of them.
pub mod Claim
pub use Claim.{IsWaiting, IsClaimed}
use rust_go_gc.Prelude.{
  AllOf, ℕ, zero, suc, ◌+◌, ◌-◌, ◌<◌, ◌≤◌, ◌≡◌, ◌∙◌, ◌⊎◌, inl, inr, refl, ap, Bool, true, false,
  some, List, [], ◌∷◌, arith, length, ◌==◌, Bool-cases, if◌then◌else◌,
}
use rust_go_gc.Prelude.Outcome.{Outcome, ok, ◌>>=◌}
use rust_go_gc.Prelude.Word.{word, sub_word-ok, atomic_add, atomic_sub}
use rust_go_gc.Span.{MemorySpan, MemorySpanData}
use rust_go_gc.SweepBuffer.{SweepBuffer, store}
use rust_go_gc.SweepBuffer.Slot.{slot, pop-empty}
use rust_go_gc.SweepBuffer.Stack.{IsStack, AreSpans, pop-moved, pop-IsStack}
use rust_go_gc.Heap.{Machine, Platform, Unwritten, put_span}
use rust_go_gc.Heap.Buffers.{popable_index, buffer, set_buffer, buffer-set_buffer}
use rust_go_gc.Sweep.{is_in_use}
use rust_go_gc.Gc.{
  Between, nothing_to_sweep, take_span, compare_and_swap, try_acquire, inspect, sweep_round,
  sweep_loop, sweep_one, with_sweep_done, with_sweepers,
}
use rust_go_gc.Gc.Alone.{alone}
use rust_go_gc.Gc.Waiting.Claim.{IsWaiting, IsClaimed, AllOf-map, Step, inspect-Step}

module _ (w : Platform) (g : ℕ) (big : 2 ≤ g) (fits : g < word) where
  -- The buffer that the spans are taken from.
  abbrev pub waiting_buffer : Machine → SweepBuffer
  waiting_buffer m = buffer (popable_index g) m.heap

  abbrev pub Queue : Machine → List MemorySpan → Type 0
  Queue m xs = IsStack 0 0 (waiting_buffer m) m.offheap xs

  -- The machine after a span is taken off: `n` entries are left.
  unfoldable pub taken_off : (n : ℕ) → Machine → Machine
  taken_off n m = record m {
    heap = set_buffer (popable_index g) (record (waiting_buffer m) { index = n }) m.heap;
    offheap = store (slot (waiting_buffer m).spine n) 0 m.offheap;
  }

  pub take_span-cons :
      (m : Machine) (x : MemorySpan) (xs : List MemorySpan)
      → Queue m (x ∷ xs)
      → 0 < x
      → (take_span g m ≡ ok (some x, taken_off (0 + length xs) m))
        × Queue (taken_off (0 + length xs) m) xs
  unfolding take_span taken_off
  take_span-cons m x xs q pos = (
    rw (pop-moved 0 0 (waiting_buffer m) m.offheap x xs q pos),
    rw
        (buffer-set_buffer (popable_index g) (record (waiting_buffer m) { index = 0 + length xs })
          m.heap)
        (pop-IsStack 0 0 (waiting_buffer m) m.offheap x xs q),
  )

  abbrev Ends : Unwritten → ℕ → Machine → List MemorySpan → Type 0
  Ends u fuel m xs =
      (m' : Machine) × (sweep_loop w u alone g fuel m ≡ ok (nothing_to_sweep, m'))
      × AllOf (IsClaimed g m') xs
      × ((q : MemorySpan) → IsClaimed g m q → IsClaimed g m' q)
      × (m'.heap.sweep_done ≡ true)

  Queue-same :
      (m m' : Machine) (xs : List MemorySpan)
      → m'.heap ≡ m.heap
      → m'.offheap ≡ m.offheap
      → Queue m xs
      → Queue m' xs
  Queue-same m m' xs h o q = rw (h, o) q

  Ends-nil : (u : Unwritten) (fuel : ℕ) (m : Machine) → Queue m [] → Ends u (suc fuel) m []
  unfolding sweep_loop take_span
  Ends-nil u fuel m q =
      let at = q.at in
      let kept = set_buffer (popable_index g) (waiting_buffer m) m.heap in
      (
        with_sweep_done (record m { heap = kept }),
        rw (pop-empty (waiting_buffer m) m.offheap (omega arith)),
        tt,
        λ p h. h,
        refl,
      )

  -- A span taken off, and the loop over the rest.
  Ends-cons :
      (u : Unwritten) (fuel : ℕ) (m m₁ : Machine) (x : MemorySpan) (xs : List MemorySpan)
      → take_span g m ≡ ok (some x, m₁)
      → ((q : MemorySpan) → IsClaimed g m q → IsClaimed g m₁ q)
      → (step : Step w g big fits m₁ x) → Ends u fuel step.0 xs
      → Ends u (suc fuel) m (x ∷ xs)
  unfolding sweep_loop sweep_round
  Ends-cons u fuel m m₁ x xs taken keep (m₂, passes, claimed, _, keep₂, _, _)
        (m', looped, all, keep', done) =
      (
        m',
        rw (taken, passes) looped,
        (keep' x claimed, all),
        λ q h. keep' q (keep₂ q (keep q h)),
        done,
      )

  sweep_loop-Ends :
      (u : Unwritten) (fuel : ℕ) (m : Machine) (xs : List MemorySpan)
      → Queue m xs
      → AreSpans xs
      → AllOf (IsWaiting g m) xs
      → length xs < fuel
      → Ends u fuel m xs
  unfolding taken_off
  sweep_loop-Ends u zero m xs q pos wait enough = absurd (omega arith)
  sweep_loop-Ends u (suc fuel) m [] q pos wait enough = Ends-nil u fuel m q
  sweep_loop-Ends u (suc fuel) m (x ∷ xs) q (p, pos) (wait, waits) enough =
      let m₁ = taken_off (0 + length xs) m in
      let (taken, q₁) = take_span-cons m x xs q p in
      let step = inspect-Step w g big fits m₁ x wait in
      Ends-cons u fuel m m₁ x xs taken (λ r h. h) step
        (sweep_loop-Ends u fuel step.0 xs (Queue-same m₁ step.0 xs step.5 step.6 q₁) pos
          (AllOf-map step.3 xs waits) (omega arith))

  pub Queue-with_sweepers :
      (n : ℕ) (m : Machine) (xs : List MemorySpan) → Queue m xs → Queue (with_sweepers n m) xs
  unfolding buffer
  Queue-with_sweepers n m xs q = q

-- The call where the sweep is not done, by what its loop gives.
pub sweep_one-loop :
    (w : Platform) (u : Unwritten) (between : Between) (m : Machine) (pages : ℕ) (m' : Machine)
    → m.heap.sweep_done ≡ false
    → sweep_loop w u between m.heap.sweep_generation
        ((buffer (popable_index m.heap.sweep_generation) m.heap).index + 1)
        (with_sweepers (atomic_add m.heap.sweepers 1) m)
      ≡ ok (pages, m')
    → sweep_one w u between m ≡ ok (pages, with_sweepers (atomic_sub m'.heap.sweepers 1) m')
unfolding sweep_one
sweep_one-loop w u between m pages m' running looped =
    ap
      (λ (c : Bool).
        if c
        then ok (nothing_to_sweep, m)
        else (sweep_loop w u between m.heap.sweep_generation
              ((buffer (popable_index m.heap.sweep_generation) m.heap).index + 1)
              (with_sweepers (atomic_add m.heap.sweepers 1) m)
            >>= λ r. ok (r.0, with_sweepers (atomic_sub r.1.heap.sweepers 1) r.1)))
      running
    ∙ ap
        (λ (o : Outcome (ℕ × Machine)).
          o >>= λ r. ok (r.0, with_sweepers (atomic_sub r.1.heap.sweepers 1) r.1))
        looped

-- In a generation from 2 on below 2^64 whose sweep is not done, with no other thread, and a queue
-- in the first block of spans in use that are due or marked as being swept: `sweep_one` returns and
-- says that nothing was to be swept; every span of the queue is marked as being swept, and the sweep
-- counts as done.
pub sweep_one-strands :
    (w : Platform) (u : Unwritten) (m : Machine) (xs : List MemorySpan)
    → 2 ≤ m.heap.sweep_generation
    → m.heap.sweep_generation < word
    → m.heap.sweep_done ≡ false
    → IsStack 0 0 (buffer (popable_index m.heap.sweep_generation) m.heap) m.offheap xs
    → AreSpans xs
    → AllOf (IsWaiting m.heap.sweep_generation m) xs
    → (m' : Machine) × (sweep_one w u alone m ≡ ok (nothing_to_sweep, m'))
      × AllOf (IsClaimed m.heap.sweep_generation m') xs
      × (m'.heap.sweep_done ≡ true)
sweep_one-strands w u m xs big fits running q pos wait =
    let g = m.heap.sweep_generation in
    let started = with_sweepers (atomic_add m.heap.sweepers 1) m in
    let at = q.at in
    let (m'', looped, all, _, done) =
      sweep_loop-Ends w g big fits u ((buffer (popable_index g) m.heap).index + 1) started xs
        (Queue-with_sweepers w g big fits (atomic_add m.heap.sweepers 1) m xs q) pos wait
        (omega arith) in
    (
      with_sweepers (atomic_sub m''.heap.sweepers 1) m'',
      sweep_one-loop w u alone m nothing_to_sweep m'' running looped,
      all,
      done,
    )
