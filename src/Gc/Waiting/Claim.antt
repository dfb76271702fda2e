-- ===== src/Gc/Waiting/Claim.antt =====
-- What `sweep_one` alone does to one span that waits to be swept.
use rust_go_gc.Prelude.{
  AllOf, ℕ, ◌+◌, ◌-◌, ◌<◌, ◌≤◌, ◌≡◌, ◌⊎◌, inl, inr, refl, true, false, some, List, [], ◌∷◌, arith,
  ◌==◌, Bool-cases,
}
use rust_go_gc.Prelude.Outcome.{ok}
use rust_go_gc.Prelude.Word.{word, sub_word-ok}
use rust_go_gc.Span.{MemorySpan, MemorySpanData}
use rust_go_gc.Heap.{Machine, Platform, put_span}
use rust_go_gc.Sweep.{is_in_use}
use rust_go_gc.Gc.{compare_and_swap, try_acquire, inspect}
use rust_go_gc.Gc.Alone.{alone}

-- An in-use span that waits to be swept in generation `g`, or is marked as being swept.
abbrev pub IsWaiting : (g : ℕ) → Machine → MemorySpan → Type 0
IsWaiting g m p =
    (s : MemorySpanData) × (m.span_at p ≡ some s)
    × (is_in_use s.state ≡ true)
    × ((s.sweep_generation + 2 ≡ g) ⊎ (s.sweep_generation + 1 ≡ g))

-- An in-use span that is marked as being swept.
abbrev pub IsClaimed : (g : ℕ) → Machine → MemorySpan → Type 0
IsClaimed g m p =
    (s : MemorySpanData) × (m.span_at p ≡ some s)
    × (is_in_use s.state ≡ true)
    × (s.sweep_generation + 1 ≡ g)

pub AllOf-map :
    {P Q : MemorySpan → Type 0}
    → ((p : MemorySpan) → P p → Q p)
    → (ps : List MemorySpan) → AllOf P ps
    → AllOf Q ps
AllOf-map f [] h = tt
AllOf-map f (p ∷ ps) (h, rest) = (f p h, AllOf-map f ps rest)

-- The machine after a span's generation is set.
abbrev claim : (g : ℕ) → MemorySpan → MemorySpanData → Machine → Machine
claim g p s m = put_span p (record s { sweep_generation = g - 1 }) m

module _ (w : Platform) (g : ℕ) (big : 2 ≤ g) (fits : g < word) where
  module _ (m : Machine) (p : MemorySpan) (s : MemorySpanData) (there : m.span_at p ≡ some s)
      (using : is_in_use s.state ≡ true) where
    inspect-due : s.sweep_generation + 2 ≡ g → inspect w alone g p m ≡ ok (true, claim g p s m)
    unfolding inspect try_acquire compare_and_swap
    inspect-due due =
        let e : s.sweep_generation ≡ g - 2 = omega arith in
        let same : (s.sweep_generation == g - 2) ≡ true = ground arith in
        let same' : (g - 2 == s.sweep_generation) ≡ true = ground arith in
        rw
          (
            there,
            using,
            sub_word-ok w.checks g 2 big fits,
            same,
            sub_word-ok w.checks g 1 (omega arith) fits,
            same',
          )
          refl

    inspect-claimed : s.sweep_generation + 1 ≡ g → inspect w alone g p m ≡ ok (true, m)
    unfolding inspect try_acquire
    inspect-claimed taken =
        let other : (s.sweep_generation == g - 2) ≡ false = ground arith in
        rw (there, using, sub_word-ok w.checks g 2 big fits, other)

    claim-IsClaimed : (q : MemorySpan) → IsClaimed g m q → IsClaimed g (claim g p s m) q
    unfolding put_span
    claim-IsClaimed q (t, at, use_q, gen) = elim (Bool-cases (q == p)) [
      | inl self ↦ rw self (record s { sweep_generation = g - 1 }, refl, using, omega arith)
      | inr other ↦ rw other (t, at, use_q, gen)
    ]

    claim-IsWaiting : (q : MemorySpan) → IsWaiting g m q → IsWaiting g (claim g p s m) q
    unfolding put_span
    claim-IsWaiting q (t, at, use_q, gen) = elim (Bool-cases (q == p)) [
      | inl self ↦ rw self (record s { sweep_generation = g - 1 }, refl, using, inr (omega arith))
      | inr other ↦ rw other (t, at, use_q, gen)
    ]

    claim-self : IsClaimed g (claim g p s m) p
    unfolding put_span
    claim-self =
        let self : (p == p) ≡ true = ground arith in
        rw self (record s { sweep_generation = g - 1 }, refl, using, omega arith)

  -- One waiting span: it is marked as being swept, and the loop goes on.
  abbrev pub Step : Machine → MemorySpan → Type 0
  Step m p =
      (m' : Machine) × (inspect w alone g p m ≡ ok (true, m'))
      × IsClaimed g m' p
      × ((q : MemorySpan) → IsWaiting g m q → IsWaiting g m' q)
      × ((q : MemorySpan) → IsClaimed g m q → IsClaimed g m' q)
      × (m'.heap ≡ m.heap)
      × (m'.offheap ≡ m.offheap)

  pub inspect-Step : (m : Machine) (p : MemorySpan) → IsWaiting g m p → Step m p
  unfolding put_span
  inspect-Step m p (s, there, using, inl due) = (
    claim g p s m,
    inspect-due m p s there using due,
    claim-self m p s there using,
    claim-IsWaiting m p s there using,
    claim-IsClaimed m p s there using,
    refl,
    refl,
  )
  inspect-Step m p (s, there, using, inr taken) = (
    m,
    inspect-claimed m p s there using taken,
    (s, there, using, taken),
    λ q h. h,
    λ q h. h,
    refl,
    refl,
  )
