-- ===== src/Span/Cache/Ends.antt =====
-- The fuel of `next_free_index` of src/memory_span.rs.
use rust_go_gc.Prelude.{
  ℕ, zero, suc, ◌+◌, ◌<◌, Bool, ◌&&◌, arith, ltb, leb, ◌==◌, Bool-cases, inl, inr,
}
use rust_go_gc.Prelude.Bits.{trailing_zeros}
use rust_go_gc.Prelude.Outcome.{ok, panic, Panic, Ends, >>=-Ends, if-Ends}
use rust_go_gc.Prelude.Word.{word, add_word, add_word-ok, add_word-Ends}
use rust_go_gc.Span.{MemorySpanData, Bytes}
use rust_go_gc.Span.Cache.{
  refill_allocations_cache, shr_word, exhausted, take_index, scan, next_free_index,
}
use rust_go_gc.Span.Cache.Scan.{align_down, next_block}

module _ (checks : Bool) (bytes : Bytes) where
  shr_word-Ends : (x k : ℕ) → Ends (shr_word checks x k)
  unfolding shr_word
  shr_word-Ends x k = if-Ends (checks && leb 64 k) (panic Panic.overflow) (ok _) (λ e. cc) (λ e. cc)

  take_index-Ends : (f b : ℕ) (s : MemorySpanData) → Ends (take_index checks bytes f b s)
  unfolding take_index
  take_index-Ends f b s = >>=-Ends (add_word checks f b) _ (add_word-Ends checks f b) λ result _.
      if-Ends (leb s.number_of_elements result) (ok (exhausted s)) _ (λ e. cc)
        (>>=-Ends (shr_word checks s.alloc_cache (b + 1)) _ (shr_word-Ends s.alloc_cache (b + 1))
          λ cache _.
            >>=-Ends (add_word checks result 1) _ (add_word-Ends checks result 1) λ next _ e. cc)

  -- Each round goes on to the next block.
  scan-Ends :
      (fuel f : ℕ) (s : MemorySpanData)
      → f < s.number_of_elements
      → s.number_of_elements + 64 < word
      → s.number_of_elements < fuel + f
      → Ends (scan checks bytes fuel f s)
  unfolding scan refill_allocations_cache
  scan-Ends zero f s lt fits enough = absurd (omega arith)
  scan-Ends (suc fuel) f s lt fits enough =
      elim (Bool-cases (trailing_zeros 64 s.alloc_cache == 64)) [
        | inl none ↦
            rw (none, add_word-ok checks f 64 (omega arith), align_down (f + 64) (omega arith))
              (elim (Bool-cases (leb s.number_of_elements (next_block f))) [
                | inl last ↦ rw last (λ e. cc)
                | inr more ↦
                    rw more (scan-Ends fuel (next_block f) _ (ground arith) fits (omega arith))
              ])
        | inr some ↦ rw some (take_index-Ends f (trailing_zeros 64 s.alloc_cache) s)
      ]

  pub next_free_index-Ends :
      (s : MemorySpanData)
      → s.number_of_elements + 64 < word
      → Ends (next_free_index checks bytes s)
  unfolding next_free_index
  next_free_index-Ends s fits = elim (Bool-cases (s.free_index == s.number_of_elements)) [
    | inl done ↦ rw done (λ e. cc)
    | inr left ↦ elim (Bool-cases (ltb s.number_of_elements s.free_index)) [
      | inl beyond ↦ rw (left, beyond) (λ e. cc)
      | inr within ↦
          rw (left, within)
            (scan-Ends (s.number_of_elements + 1) s.free_index s (ground arith) fits (omega arith))
    ]
  ]
