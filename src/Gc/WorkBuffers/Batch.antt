-- ===== src/Gc/WorkBuffers/Batch.antt =====
-- What a call of `free_some_work_buffers` frees, over a list of free spans that works.
use rust_go_gc.Prelude.{
  ℕ, zero, suc, ◌<◌, ◌≡◌, ◌≢◌, ◌∙◌, refl, ap, sym, Bool, true, false, not, Option, none, some, List,
  [], ◌∷◌, length, AllOf, ltb, ◌==◌, arith,
}
use rust_go_gc.Prelude.Outcome.{Outcome, ok}
use rust_go_gc.Prelude.Word.{word}
use rust_go_gc.Span.{MemorySpan, MemorySpanData, manual, free}
use rust_go_gc.Heap.{Machine, Platform, Unwritten, put_span}
use rust_go_gc.Heap.Free.{free_manual_span, locked_free_span}
use rust_go_gc.Heap.Free.Branches.{IsFreeable, freed, pages_left, locked_free_span-freed}
use rust_go_gc.Gc.WorkBuffers.{phase_off, free_batch, free_some_work_buffers}

abbrev pub NotIn : MemorySpan → List MemorySpan → Type 0
NotIn q [] = Unit {0}
NotIn q (x ∷ xs) = (q ≢ x) × NotIn q xs

abbrev pub Distinct : List MemorySpan → Type 0
Distinct [] = Unit {0}
Distinct (x ∷ xs) = NotIn x xs × Distinct xs

abbrev pub take : ℕ → List MemorySpan → List MemorySpan
take zero xs = []
take (suc n) [] = []
take (suc n) (x ∷ xs) = x ∷ take n xs

abbrev pub drop : ℕ → List MemorySpan → List MemorySpan
drop zero xs = xs
drop (suc n) [] = []
drop (suc n) (x ∷ xs) = drop n xs

abbrev pub none_in : List MemorySpan → Bool
none_in [] = true
none_in (x ∷ xs) = false

-- A list of free spans that works: it holds the spans `xs`, tells whether there are any, gives the
-- first, and does not depend on the spans' fields that the model has.
pub record FreeList (u : Unwritten) : Type 1 where
  pub Holds : Machine → List MemorySpan → Type 0
  pub stable :
      (m : Machine) (f : MemorySpan → Option MemorySpanData) (xs : List MemorySpan)
      → Holds m xs
      → Holds (record m { span_at = f }) xs
  pub empties : (m : Machine) (xs : List MemorySpan) → Holds m xs → u.is_empty m ≡ ok (none_in xs)
  pub exhausted : (m : Machine) → Holds m [] → u.remove_first m ≡ ok (none, m)
  pub first :
      (m : Machine) (x : MemorySpan) (xs : List MemorySpan)
      → Holds m (x ∷ xs)
      → (m' : Machine) × (u.remove_first m ≡ ok (some x, m'))
        × Holds m' xs
        × (m'.span_at ≡ m.span_at)
        × (m'.heap ≡ m.heap)

-- A span of work buffers that has none: manual, without objects, and not scavenged.
abbrev pub IsUnused : Machine → MemorySpan → Type 0
IsUnused m p =
    (s : MemorySpanData) × (m.span_at p ≡ some s)
    × (s.state ≡ manual)
    × (s.allocations_count ≡ 0)
    × (s.scavenged ≡ false)

abbrev pub IsFreed : Machine → MemorySpan → Type 0
IsFreed m p = (s : MemorySpanData) × (m.span_at p ≡ some s) × (s.state ≡ free) × (s.need_zero ≡ 1)

module _ (w : Platform) (p : MemorySpan) (m : Machine) (s : MemorySpanData)
    (there : m.span_at p ≡ some s) (is_manual : s.state ≡ manual)
    (no_objects : s.allocations_count ≡ 0) (not_scavenged : s.scavenged ≡ false)
    (fits : m.heap.protected.pages_in_use < word) where
  abbrev dirty : MemorySpanData
  dirty = record s { need_zero = 1 }

  abbrev spans : MemorySpan → Option MemorySpanData
  spans = (put_span p (freed dirty none m) (put_span p dirty m)).span_at

  spans_other : (q : MemorySpan) → q ≢ p → spans q ≡ m.span_at q
  unfolding put_span
  spans_other q ne = let other : (q == p) ≡ false = ground arith in rw other refl

  spans_self : spans p ≡ some (freed dirty none m)
  unfolding put_span
  spans_self = let self : (p == p) ≡ true = ground arith in rw self refl

  dirty-at : (put_span p dirty m).span_at p ≡ some dirty
  unfolding put_span
  dirty-at = let self : (p == p) ≡ true = ground arith in rw self refl

  freed_after : Outcome Machine
  freed_after = ok (put_span p (freed dirty none m) (pages_left s.state dirty (put_span p dirty m)))

  freed_after-manual : freed_after ≡ ok (record m { span_at = spans })
  unfolding freed_after put_span
  freed_after-manual = rw is_manual refl

  free_manual_span-locked :
      free_manual_span w p m ≡ locked_free_span w p false true none (put_span p dirty m)
  unfolding free_manual_span
  free_manual_span-locked = rw there refl

  locked_free_span-after : locked_free_span w p false true none (put_span p dirty m) ≡ freed_after
  unfolding freed_after put_span
  locked_free_span-after =
      let ready : IsFreeable s.state dirty (put_span p dirty m) = rw is_manual no_objects in
      locked_free_span-freed w p false true none (put_span p dirty m) dirty dirty-at not_scavenged
        fits ready

  free_manual_span-frees : free_manual_span w p m ≡ ok (record m { span_at = spans })
  free_manual_span-frees = free_manual_span-locked ∙ locked_free_span-after ∙ freed_after-manual

module _ (w : Platform) (u : Unwritten) (l : FreeList u) where
  -- What a batch of `n` rounds does with the list `xs`.
  abbrev Frees : ℕ → Machine → List MemorySpan → Type 0
  Frees n m xs =
      (m' : Machine) × (free_batch w u n m ≡ ok m')
      × l.Holds m' (drop n xs)
      × AllOf (IsFreed m') (take n xs)
      × ((q : MemorySpan) → NotIn q xs → m'.span_at q ≡ m.span_at q)

  Unused-frame :
      (m m' : Machine) (x : MemorySpan) (xs : List MemorySpan)
      → ((q : MemorySpan) → q ≢ x → m'.span_at q ≡ m.span_at q)
      → NotIn x xs
      → AllOf (IsUnused m) xs
      → AllOf (IsUnused m') xs
  Unused-frame m m' x [] frame apart h = tt
  Unused-frame m m' x (y ∷ ys) frame (ne, apart) ((s, at, is_manual, no_objects, kept), h) = (
    (s, frame y (λ e. ne (sym e)) ∙ at, is_manual, no_objects, kept),
    Unused-frame m m' x ys frame apart h,
  )

  free_batch-Frees :
      (n : ℕ) (m : Machine) (xs : List MemorySpan)
      → l.Holds m xs
      → Distinct xs
      → AllOf (IsUnused m) xs
      → m.heap.protected.pages_in_use < word
      → Frees n m xs
  unfolding free_batch
  free_batch-Frees zero m xs holds apart unused fits = (m, refl, holds, tt, λ q h. refl)
  free_batch-Frees (suc n) m [] holds apart unused fits =
      (m, rw (l.exhausted m holds) refl, holds, tt, λ q h. refl)
  free_batch-Frees (suc n) m (x ∷ xs) holds (x_apart, apart)
        ((s, at, is_manual, no_objects, kept), unused) fits =
      let (m₁, first, holds₁, same, heap) = l.first m x xs holds in
      let there : m₁.span_at x ≡ some s =
        ap (λ (f : MemorySpan → Option MemorySpanData). f x) same ∙ at in
      let fits₁ : m₁.heap.protected.pages_in_use < word = rw heap fits in
      let m₂ = record m₁ { span_at = spans w x m₁ s there is_manual no_objects kept fits₁ } in
      let frame : (q : MemorySpan) → q ≢ x → m₂.span_at q ≡ m.span_at q = (λ q ne.
        spans_other w x m₁ s there is_manual no_objects kept fits₁ q ne
        ∙ ap (λ (f : MemorySpan → Option MemorySpanData). f q) same) in
      let (m₃, rest, holds₃, freed₃, frame₃) =
        free_batch-Frees n m₂ xs (l.stable m₁ m₂.span_at xs holds₁) apart
          (Unused-frame m m₂ x xs frame x_apart unused) fits₁ in
      (
        m₃,
        rw (first, free_manual_span-frees w x m₁ s there is_manual no_objects kept fits₁) rest,
        holds₃,
        (
          (
            freed (record s { need_zero = 1 }) none m₁,
            frame₃ x x_apart ∙ spans_self w x m₁ s there is_manual no_objects kept fits₁,
            refl,
            refl,
          ),
          freed₃,
        ),
        λ q (ne, h). frame₃ q h ∙ frame q ne,
      )

none_in-drop : (n : ℕ) (xs : List MemorySpan) → not (none_in (drop n xs)) ≡ ltb n (length xs)
none_in-drop zero [] = refl
none_in-drop zero (x ∷ xs) = ground arith
none_in-drop (suc n) [] = ground arith
none_in-drop (suc n) (x ∷ xs) = none_in-drop n xs ∙ (ground arith)

-- Over a list that works, of distinct unused spans, while no collection is going on: a call of
-- `free_some_work_buffers` returns, whether there are more than 64 spans. The first 64 are free and
-- to be zeroed then, the list holds the others, and no span outside the list has changed.
pub free_some_work_buffers-frees :
    (w : Platform) (u : Unwritten) (l : FreeList u) (preemptible : Bool) (m : Machine)
    (xs : List MemorySpan)
    → l.Holds m xs
    → Distinct xs
    → AllOf (IsUnused m) xs
    → m.heap.protected.pages_in_use < word
    → (m' : Machine) × (free_some_work_buffers w u phase_off preemptible m
        ≡ ok (ltb 64 (length xs), m'))
      × l.Holds m' (drop 64 xs)
      × AllOf (IsFreed m') (take 64 xs)
      × ((q : MemorySpan) → NotIn q xs → m'.span_at q ≡ m.span_at q)
unfolding free_some_work_buffers
free_some_work_buffers-frees w u l preemptible m [] holds apart unused fits =
    (m, rw (l.empties m [] holds) refl, holds, tt, λ q h. refl)
free_some_work_buffers-frees w u l preemptible m (x ∷ xs) holds apart unused fits =
    let (m', batch, holds', freed', frame) =
      free_batch-Frees w u l 64 m (x ∷ xs) holds apart unused fits in
    (
      m',
      rw (l.empties m (x ∷ xs) holds, batch, l.empties m' (drop 64 (x ∷ xs)) holds')
          (ap (λ (more : Bool). ok (more, m')) (none_in-drop 64 (x ∷ xs))),
      holds',
      freed',
      frame,
    )
