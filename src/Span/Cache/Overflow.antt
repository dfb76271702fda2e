-- ===== src/Span/Cache/Overflow.antt =====
-- `next_free_index` in a build with overflow checks: `self.alloc_cache >>= bit_index + 1` is a
-- shift by 64 where the object found is the last of its block and the cache began at the first.
pub mod Block
pub use Block.{EndsBlock}
use rust_go_gc.Prelude.{
  ℕ, zero, suc, ◌+◌, ◌-◌, ◌/◌, ◌%◌, ◌<◌, ◌≤◌, ◌≡◌, ◌≢◌, refl, true, false, arith, leb, ltb, ◌==◌,
  ==_iff, Bool-cases, ◌⊎◌, inl, inr,
}
use rust_go_gc.Prelude.Bits.{
  bit, trailing_zeros, trailing_zeros-le, bit-lt-trailing_zeros, bit-trailing_zeros,
}
use rust_go_gc.Prelude.Outcome.{panic, Panic}
use rust_go_gc.Prelude.Word.{word, add_word-ok}
use rust_go_gc.Span.{MemorySpanData, Bytes, IsBytes}
use rust_go_gc.Span.Cache.{refill_allocations_cache, shr_word, take_index, scan, next_free_index}
use rust_go_gc.Span.Cache.Refill.{IsCached, refill-IsCached}
use rust_go_gc.Span.Cache.Take.{
  IsFirstFree, IsReady, IsLowest, allocated_of_zeros, first_free, IsFirstFree-none, in_block,
}
use rust_go_gc.Span.Cache.Scan.{next_block, align_down}
use rust_go_gc.Span.Cache.Overflow.Block.{
  EndsBlock, first_free_unique, le_of_ltb, take_index-overflow, take_index-checked, behind_block,
  IsFirstFree-block, found_at,
}

module _ (bytes : Bytes) (small : IsBytes bytes) where
  scan-overflow :
      (fuel f r : ℕ) (s : MemorySpanData)
      → IsCached bytes s f
      → IsFirstFree bytes s f r
      → EndsBlock f r
      → r < s.number_of_elements
      → s.number_of_elements + 64 < word
      → s.number_of_elements < fuel + f
      → scan true bytes fuel f s ≡ panic Panic.overflow
  unfolding scan
  scan-overflow zero f r s cached first ends lt fits enough = absurd (omega (arith, first.from))
  scan-overflow (suc fuel) f r s cached first ends lt fits enough =
      elim (Bool-cases (trailing_zeros 64 s.alloc_cache == 64)) [
        | inl none ↦
            let e : trailing_zeros 64 s.alloc_cache ≡ 64 = (==_iff _ _).0 none in
            let zeros : (j : ℕ) → j < 64 → bit s.alloc_cache j ≡ false =
              λ j h. bit-lt-trailing_zeros 64 s.alloc_cache j (rw e h) in
            let behind = behind_block bytes small s f r cached zeros first lt in
            let inside : next_block f < s.number_of_elements = omega arith in
            let stays : leb s.number_of_elements (next_block f) ≡ false = ground arith in
            let rest = IsFirstFree-block bytes small s f r cached zeros first inside in
            let from = rest.from in
            rw (none, add_word-ok true f 64 (omega arith), align_down (f + 64) (omega arith), stays)
              (scan-overflow fuel (next_block f) r
                (refill_allocations_cache bytes (next_block f / 8) s)
                (refill-IsCached bytes small s (next_block f) (omega arith)) rest (omega arith)
                (unfold refill_allocations_cache in lt) (unfold refill_allocations_cache in fits)
                (unfold refill_allocations_cache in omega arith))
        | inr some ↦
            let le = trailing_zeros-le 64 s.alloc_cache in
            let b_lt : trailing_zeros 64 s.alloc_cache < 64 = ground arith in
            let lowest : IsLowest s (trailing_zeros 64 s.alloc_cache) = record {
              lt = b_lt;
              set = bit-trailing_zeros 64 s.alloc_cache b_lt;
              below = λ j h. bit-lt-trailing_zeros 64 s.alloc_cache j h;
            } in
            let last : trailing_zeros 64 s.alloc_cache ≡ 63 =
              omega (arith, found_at bytes small s f r cached _ lowest first lt) in
            rw (some, last) (take_index-overflow bytes f s (omega arith) fits)
      ]

  scan-checked :
      (fuel f r : ℕ) (s : MemorySpanData)
      → IsCached bytes s f
      → IsFirstFree bytes s f r
      → (s.number_of_elements ≤ r) ⊎ (r % 64 ≢ 63) ⊎ (r < f + 63)
      → f < s.number_of_elements
      → s.number_of_elements + 64 < word
      → scan true bytes fuel f s ≡ scan false bytes fuel f s
  unfolding scan
  scan-checked zero f r s cached first ends lt fits = refl
  scan-checked (suc fuel) f r s cached first ends lt fits =
      elim (Bool-cases (trailing_zeros 64 s.alloc_cache == 64)) [
        | inl none ↦
            let e : trailing_zeros 64 s.alloc_cache ≡ 64 = (==_iff _ _).0 none in
            let zeros : (j : ℕ) → j < 64 → bit s.alloc_cache j ≡ false =
              λ j h. bit-lt-trailing_zeros 64 s.alloc_cache j (rw e h) in
            rw
              (
                none,
                add_word-ok true f 64 (omega arith),
                add_word-ok false f 64 (omega arith),
                align_down (f + 64) (omega arith),
              )
              (elim (Bool-cases (leb s.number_of_elements (next_block f))) [
                | inl last ↦ rw last
                | inr more ↦
                    let inside : next_block f < s.number_of_elements = ground arith in
                    rw more (
                      scan-checked fuel (next_block f) r
                        (refill_allocations_cache bytes (next_block f / 8) s)
                        (refill-IsCached bytes small s (next_block f) (omega arith))
                        (IsFirstFree-block bytes small s f r cached zeros first inside)
                        (unfold refill_allocations_cache in omega arith)
                        (unfold refill_allocations_cache in inside)
                        (unfold refill_allocations_cache in fits))
              ])
        | inr some ↦
            let le = trailing_zeros-le 64 s.alloc_cache in
            let b_lt : trailing_zeros 64 s.alloc_cache < 64 = ground arith in
            let lowest : IsLowest s (trailing_zeros 64 s.alloc_cache) = record {
              lt = b_lt;
              set = bit-trailing_zeros 64 s.alloc_cache b_lt;
              below = λ j h. bit-lt-trailing_zeros 64 s.alloc_cache j h;
            } in
            rw some (
              take_index-checked bytes f (trailing_zeros 64 s.alloc_cache) s
                (elim (Bool-cases
                  (leb s.number_of_elements (f + trailing_zeros 64 s.alloc_cache))) [
                    | inl beyond ↦ inr (ground arith)
                    | inr within ↦
                        let below : f + trailing_zeros 64 s.alloc_cache < s.number_of_elements =
                          ground arith in
                        let at =
                          first_free_unique
                            (first_free bytes small s f cached _ lowest (omega arith)) first in
                        let block = in_block bytes small s f cached _ lowest in inl (omega arith)
                  ])
                (omega arith))
      ]

  -- In a build with overflow checks, `next_free_index` on a ready span of fewer than 2^64 - 64
  -- objects panics where the first free object `r` is the last of a block of 64 that the search
  -- enters at its first object.
  pub next_free_index-overflow :
      (s : MemorySpanData) (r : ℕ)
      → IsReady bytes s
      → s.number_of_elements + 64 < word
      → IsFirstFree bytes s s.free_index r
      → r < s.number_of_elements
      → EndsBlock s.free_index r
      → next_free_index true bytes s ≡ panic Panic.overflow
  unfolding next_free_index
  next_free_index-overflow s r ready fits first lt ends =
      let le = ready.in_range in
      let from = first.from in
      let left : (s.free_index == s.number_of_elements) ≡ false = ground arith in
      let ne : s.free_index ≢ s.number_of_elements = omega arith in
      let within : ltb s.number_of_elements s.free_index ≡ false = ground arith in
      rw (left, within)
        (scan-overflow (s.number_of_elements + 1) s.free_index r s (ready.cached ne) first ends lt
          fits (omega arith))

  -- Everywhere else on such spans a build with overflow checks does what one without them does.
  pub next_free_index-checked :
      (s : MemorySpanData) (r : ℕ)
      → IsReady bytes s
      → s.number_of_elements + 64 < word
      → IsFirstFree bytes s s.free_index r
      → (s.number_of_elements ≤ r) ⊎ (r % 64 ≢ 63) ⊎ (r < s.free_index + 63)
      → next_free_index true bytes s ≡ next_free_index false bytes s
  unfolding next_free_index
  next_free_index-checked s r ready fits first h =
      elim (Bool-cases (s.free_index == s.number_of_elements)) [
        | inl done ↦ rw done
        | inr left ↦
            let le = ready.in_range in
            let ne : s.free_index ≢ s.number_of_elements = ground arith in
            let within : ltb s.number_of_elements s.free_index ≡ false = ground arith in
            rw (left, within)
              (scan-checked (s.number_of_elements + 1) s.free_index r s (ready.cached ne) first h
                (omega arith) fits)
      ]
