-- ===== src/Span/Cache/Drain.antt =====
-- Allocation from a span until it is full, by `next_free_index` of src/memory_span.rs.
use Prim.Native.Nat.add
use mathlib.Core.Path.{subst}
use rust_go_gc.Prelude.{
  ℕ, zero, suc, ◌+◌, ◌-◌, ◌<◌, ◌≤◌, ◌≡◌, ◌∙◌, refl, sym, ap, Bool, true, false, List, [], ◌∷◌,
  arith, ◌==◌, ==_iff, if◌then◌else◌, Bool-cases, inl, inr, length,
}
use rust_go_gc.Prelude.Outcome.{Outcome, ok, out_of_fuel, ◌>>=◌}
use rust_go_gc.Prelude.Word.{word}
use rust_go_gc.Span.{MemorySpanData, Bytes, IsBytes}
use rust_go_gc.Span.Count.Laws.{mark_bit, marked_from}
use rust_go_gc.Span.Cache.{next_free_index}
use rust_go_gc.Span.Cache.Take.{IsReady, IsFound, IsFirstFree}
use rust_go_gc.Span.Cache.Scan.{next_free_index-IsFound}

-- The indices that calls of `next_free_index` return, up to the one that returns the number of
-- elements.
unfoldable pub allocate_all :
    (checks : Bool) → Bytes → (fuel : ℕ) → MemorySpanData → Outcome (List ℕ × MemorySpanData)
allocate_all checks bytes zero s = out_of_fuel
allocate_all checks bytes (suc fuel) s = do
  (i, s') ← next_free_index checks bytes s
  let rest = allocate_all checks bytes fuel s'
  if i == s.number_of_elements then ok ([], s') else (do (is, full) ← rest; ok (i ∷ is, full))

-- The `n` objects from `i` on whose bit in the bitmap at `bits` is clear.
unfoldable pub clear_from : Bytes → (bits i n : ℕ) → List ℕ
clear_from bytes bits i zero = []
clear_from bytes bits i (suc n) =
    let rest = clear_from bytes bits (i + 1) n in if mark_bit bytes bits i then rest else i ∷ rest

-- Objects are marked or not.
pub length-clear_from :
    (bytes : Bytes) (bits i n : ℕ)
    → length (clear_from bytes bits i n) + marked_from bytes bits i n ≡ n
unfolding clear_from marked_from
length-clear_from bytes bits i zero = refl
length-clear_from bytes bits i (suc n) = ground (arith, length-clear_from bytes bits (i + 1) n)

-- Set bits are passed over.
clear_from-skip :
    (bytes : Bytes) (bits i k n : ℕ)
    → ((j : ℕ) → i ≤ j → j < i + k → mark_bit bytes bits j ≡ true)
    → clear_from bytes bits i (k + n) ≡ clear_from bytes bits (i + k) n
unfolding clear_from
clear_from-skip bytes bits i zero n h = let e : i + 0 ≡ i = omega arith in rw (e, add.zero n) refl
clear_from-skip bytes bits i (suc k) n h =
    let e : i + suc k ≡ i + 1 + k = omega arith in
    rw (add.suc k n, h i (omega arith) (omega arith), e)
      (clear_from-skip bytes bits (i + 1) k n (λ j ge lt. h j (omega arith) (omega arith)))

clear_from-first :
    (bytes : Bytes) (bits i n : ℕ)
    → 0 < n
    → mark_bit bytes bits i ≡ false
    → clear_from bytes bits i n ≡ i ∷ clear_from bytes bits (i + 1) (n - 1)
unfolding clear_from
clear_from-first bytes bits i zero lt h = absurd (omega arith)
clear_from-first bytes bits i (suc n) lt h = let e : suc n - 1 ≡ n = omega arith in rw (h, e) refl

module _ (bytes : Bytes) (small : IsBytes bytes) where
  -- The first free object is the first of the list, and the others come behind it.
  clear_from-IsFirstFree :
      (s : MemorySpanData) (f r : ℕ)
      → IsFirstFree bytes s f r
      → r < s.number_of_elements
      → clear_from bytes s.alloc_bits f (s.number_of_elements - f)
        ≡ r ∷ clear_from bytes s.alloc_bits (r + 1) (s.number_of_elements - (r + 1))
  clear_from-IsFirstFree s f r first lt =
      let n = s.number_of_elements in
      let from = first.from in
      let e : n - f ≡ (r - f) + (n - r) = omega arith in
      let at : f + (r - f) ≡ r = omega arith in
      let left : n - r - 1 ≡ n - (r + 1) = omega arith in
      rw
        (
          e,
          clear_from-skip bytes s.alloc_bits f (r - f) (n - r)
              (λ j ge below. first.allocated j ge (omega arith)),
          at,
          clear_from-first bytes s.alloc_bits r (n - r) (omega arith) (first.free lt),
          left,
        )
        refl

  clear_from-none :
      (s : MemorySpanData) (f : ℕ)
      → IsFirstFree bytes s f s.number_of_elements
      → clear_from bytes s.alloc_bits f (s.number_of_elements - f) ≡ []
  unfolding clear_from
  clear_from-none s f first =
      let from = first.from in
      let e : s.number_of_elements - f ≡ (s.number_of_elements - f) + 0 = omega arith in
      rw e (
        clear_from-skip bytes s.alloc_bits f (s.number_of_elements - f) 0
          (λ j ge below. first.allocated j ge (omega arith)))

  allocate_all-last :
      (fuel r : ℕ) (s next : MemorySpanData)
      → next_free_index false bytes s ≡ ok (r, next)
      → (r == s.number_of_elements) ≡ true
      → allocate_all false bytes (suc fuel) s ≡ ok ([], next)
  unfolding allocate_all
  allocate_all-last fuel r s next e full = rw (e, full) refl

  allocate_all-more :
      (fuel r : ℕ) (s next full : MemorySpanData) (is : List ℕ)
      → next_free_index false bytes s ≡ ok (r, next)
      → (r == s.number_of_elements) ≡ false
      → allocate_all false bytes fuel next ≡ ok (is, full)
      → allocate_all false bytes (suc fuel) s ≡ ok (r ∷ is, full)
  unfolding allocate_all
  allocate_all-more fuel r s next full is e more rest = rw (e, more, rest) refl

  -- The span behind a call that found the object `r`.
  abbrev taken_at : (r cache : ℕ) → MemorySpanData → MemorySpanData
  taken_at r cache s = record s { free_index = r; alloc_cache = cache }

  after-taken_at :
      (s : MemorySpanData) {f : ℕ} {outcome : Outcome (ℕ × MemorySpanData)} (r : ℕ)
      (found : IsFound bytes s f outcome)
      → found.after.free_index ≡ r
      → found.after ≡ taken_at r found.after.alloc_cache s
  after-taken_at s r found e = found.same ∙ ap (λ (i : ℕ). taken_at i found.after.alloc_cache s) e

  -- In a build without overflow checks, allocation from a ready span of fewer than 2^64 - 64
  -- objects hands out each free object from the free index on once, in order, and ends with the
  -- free index at the number of elements; the bitmaps are not touched.
  pub allocate_all-clear :
      (fuel : ℕ) (s : MemorySpanData)
      → IsReady bytes s
      → s.number_of_elements + 64 < word
      → s.number_of_elements < fuel + s.free_index
      → (cache : ℕ) × (allocate_all false bytes fuel s
          ≡ ok (
            clear_from bytes s.alloc_bits s.free_index (s.number_of_elements - s.free_index),
            record s { free_index = s.number_of_elements; alloc_cache = cache },
          ))
  unfolding allocate_all
  allocate_all-clear zero s ready fits enough = let le = ready.in_range in absurd (omega arith)
  allocate_all-clear (suc fuel) s ready fits enough =
      let found = next_free_index-IsFound bytes small s ready fits in
      let r = found.result in
      let cache = found.after.alloc_cache in
      let to = found.first.to in
      elim (Bool-cases (r == s.number_of_elements)) [
        | inl full ↦
            let e : r ≡ s.number_of_elements = (==_iff _ _).0 full in
            let at = after-taken_at s r found (found.none_left e) in
            let none =
              clear_from-none s s.free_index
                (subst (λ (i : ℕ). IsFirstFree bytes s s.free_index i) e found.first) in
            (
              cache,
              allocate_all-last fuel r s found.after found.returns full
                  ∙ ap (λ (t : MemorySpanData). ok ([], t))
                      (at ∙ ap (λ (i : ℕ). taken_at i cache s) e)
                  ∙ ap (λ (is : List ℕ). ok (is, taken_at s.number_of_elements cache s)) (sym none),
            )
        | inr more ↦
            let lt : r < s.number_of_elements = ground arith in
            let from = found.first.from in
            let at = after-taken_at s (r + 1) found (found.behind lt) in
            let (last, e) =
              allocate_all-clear fuel (taken_at (r + 1) cache s)
                (subst (IsReady bytes) at found.ready) fits (omega arith) in
            (
              last,
              allocate_all-more fuel r s (taken_at (r + 1) cache s)
                    (taken_at s.number_of_elements last s) _
                    (found.returns ∙ ap (λ (t : MemorySpanData). ok (r, t)) at) more e
                  ∙ ap (λ (is : List ℕ). ok (is, taken_at s.number_of_elements last s))
                      (sym (clear_from-IsFirstFree s s.free_index r found.first lt)),
            )
      ]

  whole :
      (s : MemorySpanData)
      → s.free_index ≡ 0
      → clear_from bytes s.alloc_bits s.free_index (s.number_of_elements - s.free_index)
        ≡ clear_from bytes s.alloc_bits 0 s.number_of_elements
  whole s start =
      let left : s.number_of_elements - s.free_index ≡ s.number_of_elements = omega arith in
      rw left (ap (λ (i : ℕ). clear_from bytes s.alloc_bits i s.number_of_elements) start)

  pub allocate_all-whole :
      (s : MemorySpanData)
      → IsReady bytes s
      → s.number_of_elements + 64 < word
      → s.free_index ≡ 0
      → (full : MemorySpanData) × (allocate_all false bytes (s.number_of_elements + 1) s
          ≡ ok (clear_from bytes s.alloc_bits 0 s.number_of_elements, full))
  allocate_all-whole s ready fits start =
      let (cache, e) = allocate_all-clear (s.number_of_elements + 1) s ready fits (omega arith) in
      let full = taken_at s.number_of_elements cache s in
      (full, e ∙ ap (λ (is : List ℕ). ok (is, full)) (whole s start))
