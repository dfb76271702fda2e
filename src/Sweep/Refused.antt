-- ===== src/Sweep/Refused.antt =====
-- The panics of `sweep` of src/memory_span.rs.
use rust_go_gc.Prelude.{
  ℕ, ◌+◌, ◌-◌, ◌%◌, ◌^◌, ◌<◌, ◌≡◌, ◌≢◌, ◌⊎◌, inl, inr, refl, Bool, true, false, some, arith, ltb,
  ◌==◌, Bool-cases,
}
use rust_go_gc.Prelude.Outcome.{ok, panic, Panic}
use rust_go_gc.Prelude.Word.{word, sub_mod, sub_word-ok}
use rust_go_gc.Span.{MemorySpan, MemorySpanData, in_use, Bytes, IsBytes}
use rust_go_gc.Span.Count.Laws.{count_allocations-marked}
use rust_go_gc.Span.Cache.Take.{IsFirstFree}
use rust_go_gc.Span.Cache.Overflow.{EndsBlock, next_free_index-overflow}
use rust_go_gc.Heap.{Machine, Platform, Unwritten}
use rust_go_gc.Sweep.{is_in_use, is_bad, frees_to_heap, recount, with_pages_swept, sweep}
use rust_go_gc.Sweep.Parts.{marked, counted, counted-IsReady, is_bad-due, sub_mod-ok}
use rust_go_gc.Sweep.InPlace.{IsDue}

-- What a sweep in generation `g` of a build panics at, and how.
pub data Refused (checks : Bool) (g : ℕ) (bytes : Bytes) (s : MemorySpanData) : Panic → Type 0 where
  not_claimed :
      (is_in_use s.state ≡ false) ⊎ (s.sweep_generation + 1 ≢ g)
      → Refused checks g bytes s Panic.bad_span_state
  wraps :
      checks ≡ true
      → s.state ≡ in_use
      → s.sweep_generation + 1 ≡ g
      → s.allocations_count < marked bytes s
      → marked bytes s < 2 ^ 16
      → Refused checks g bytes s Panic.overflow
  increases :
      checks ≡ false
      → s.state ≡ in_use
      → s.sweep_generation + 1 ≡ g
      → s.allocations_count < marked bytes s
      → marked bytes s < 2 ^ 16
      → Refused checks g bytes s Panic.sweep_increased_allocation_count
  shifts_out :
      (r : ℕ)
      → checks ≡ true
      → IsDue g bytes s
      → IsFirstFree bytes s s.free_index r
      → r < s.number_of_elements
      → EndsBlock s.free_index r
      → Refused checks g bytes s Panic.overflow

module _ (w : Platform) (m : Machine) (small : IsBytes m.bytes) (s : MemorySpanData) where
  recount-panics :
      (why : Panic) (g : ℕ)
      → Refused w.checks g m.bytes s why
      → why ≢ Panic.bad_span_state
      → recount w s.span_class m s ≡ panic why
  unfolding recount sub_mod
  recount-panics _ g (not_claimed _) other = absurd (other refl)
  recount-panics _ g (wraps on _ _ more fits) other =
      let low : marked m.bytes s % 2 ^ 16 ≡ marked m.bytes s = omega arith in
      let below : ltb s.allocations_count (marked m.bytes s) ≡ true = ground arith in
      rw (count_allocations-marked m.bytes s small, low, on, below) refl
  recount-panics _ g (increases off _ _ more fits) other =
      let low : marked m.bytes s % 2 ^ 16 ≡ marked m.bytes s = omega arith in
      let below : ltb s.allocations_count (marked m.bytes s) ≡ true = ground arith in
      rw (count_allocations-marked m.bytes s small, low, off, below) refl
  recount-panics _ g (shifts_out r on claimed first lt ends) other =
      let fewer = claimed.fewer in
      let count = claimed.count in
      let low : marked m.bytes s % 2 ^ 16 ≡ marked m.bytes s = omega arith in
      let not_more : ltb s.allocations_count (marked m.bytes s) ≡ false = ground arith in
      let to_heap = frees_to_heap s.span_class (marked m.bytes s) in
      rw
        (
          count_allocations-marked m.bytes s small,
          low,
          sub_mod-ok w.checks s.allocations_count (marked m.bytes s) fewer count,
          not_more,
          on,
          next_free_index-overflow m.bytes small (counted m.bytes to_heap s) r
              (counted-IsReady m.bytes to_heap s claimed.ready) claimed.elements
              (record {
                from = first.from;
                to = first.to;
                allocated = first.allocated;
                free = first.free;
              })
              lt ends,
        )
        refl

is_bad-not_claimed :
    (w : Platform) (g : ℕ) (s : MemorySpanData)
    → 0 < g
    → g < word
    → (is_in_use s.state ≡ false) ⊎ (s.sweep_generation + 1 ≢ g)
    → is_bad w g s ≡ ok true
unfolding is_bad
is_bad-not_claimed w g s some_sweep fits why = elim (Bool-cases (is_in_use s.state)) [
  | inl using ↦ elim why [
    | inl unused ↦ cc
    | inr other ↦
        let not_before : (s.sweep_generation == g - 1) ≡ false = ground arith in
        rw (using, sub_word-ok w.checks g 1 (omega arith) fits, not_before) refl
  ]
  | inr unused ↦ rw unused refl
]

claimed-or :
    {checks : Bool} {g : ℕ} {bytes : Bytes} {s : MemorySpanData} {why : Panic}
    → Refused checks g bytes s why
    → (why ≡ Panic.bad_span_state)
      ⊎ ((s.state ≡ in_use) × (s.sweep_generation + 1 ≡ g) × (why ≢ Panic.bad_span_state))
claimed-or (not_claimed _) = inl refl
claimed-or (wraps _ using due _ _) = inr (using, due, λ e. cc)
claimed-or (increases _ using due _ _) = inr (using, due, λ e. cc)
claimed-or (shifts_out _ _ claimed _ _ _) = inr (claimed.using, claimed.due, λ e. cc)

unclaimed :
    {checks : Bool} {g : ℕ} {bytes : Bytes} {s : MemorySpanData} {why : Panic}
    → Refused checks g bytes s why
    → why ≡ Panic.bad_span_state
    → (is_in_use s.state ≡ false) ⊎ (s.sweep_generation + 1 ≢ g)
unclaimed (not_claimed why) e = why
unclaimed (wraps _ _ _ _ _) e = cc
unclaimed (increases _ _ _ _ _) e = cc
unclaimed (shifts_out _ _ _ _ _ _) e = cc

-- A sweep of a span, in a generation from 1 on, panics: at a span that is not in use or whose
-- generation is not the one before the heap's, because of that; and, where the span has no special
-- records and was claimed, at one with more marked than allocated objects, because of that in a build
-- without overflow checks and with an overflow in one with them, and in a build with checks at one
-- whose first free object is the last of a block of 64 that the search enters at its first.
pub sweep-Refused :
    (w : Platform) (u : Unwritten) (p : MemorySpan) (preserve : Bool) (m : Machine)
    (s : MemorySpanData) (why : Panic)
    → m.span_at p ≡ some s
    → IsBytes m.bytes
    → 0 < m.heap.sweep_generation
    → m.heap.sweep_generation < word
    → ((m' : Machine) → u.free_specials p m' ≡ ok m')
    → Refused w.checks m.heap.sweep_generation m.bytes s why
    → sweep w u p preserve m ≡ panic why
unfolding sweep
sweep-Refused w u p preserve m s why there small some_sweep fits no_specials refused =
    let g = m.heap.sweep_generation in
    elim (claimed-or refused) [
      | inl bad ↦
          let unfit = is_bad-not_claimed w g s some_sweep fits (unclaimed refused bad) in
          rw (there, unfit, bad) refl
      | inr (using, due, other) ↦
          rw
            (
              there,
              is_bad-due w g s fits using due,
              no_specials (with_pages_swept s.number_of_pages m),
              there,
              recount-panics w (with_pages_swept s.number_of_pages m) small s why g refused other,
            )
            refl
    ]
