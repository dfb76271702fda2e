-- ===== src/Span/Cache/Scan.antt =====
-- The loop of `next_free_index`, and the whole of it in a build without overflow checks.
use rust_go_gc.Prelude.{
  ℕ, zero, suc, ◌+◌, ◌-◌, ◌*◌, ◌/◌, ◌%◌, ◌<◌, ◌≤◌, ◌≡◌, ◌≢◌, ◌∙◌, refl, bit_and, false, arith, leb,
  ltb, ◌==◌, ==_iff, Bool-cases, inl, inr,
}
use rust_go_gc.Prelude.Bits.{
  bit, trailing_zeros, trailing_zeros-le, bit-lt-trailing_zeros, bit-trailing_zeros, bit_and_high,
}
use rust_go_gc.Prelude.Outcome.{Outcome, ok}
use rust_go_gc.Prelude.Word.{word, not_word, add_word-ok}
use rust_go_gc.Span.{MemorySpanData, Bytes, IsBytes}
use rust_go_gc.Span.Cache.{refill_allocations_cache, exhausted, scan, next_free_index}
use rust_go_gc.Span.Cache.Refill.{IsCached, refill-IsCached}
use rust_go_gc.Span.Cache.Take.{IsReady, IsFound, allocated_of_zeros, take_index-IsFound}

-- `(a + 64) & !(64 - 1)` is the next border of a block of 64.
pub align_down : (a : ℕ) → a < word → bit_and a (not_word (64 - 1)) ≡ a / 64 * 64
align_down a h = bit_and_high 58 6 a ∙ omega arith

abbrev pub next_block : ℕ → ℕ
next_block f = (f + 64) / 64 * 64

module _ (bytes : Bytes) (small : IsBytes bytes) where
  -- What holds from the next block on, with a refilled cache, holds from `f` on where the rest of
  -- the block of `f` is allocated.
  IsFound-block :
      (s : MemorySpanData) (f : ℕ) {outcome : Outcome (ℕ × MemorySpanData)}
      → IsCached bytes s f
      → ((j : ℕ) → j < 64 → bit s.alloc_cache j ≡ false)
      → IsFound bytes (refill_allocations_cache bytes (next_block f / 8) s) (next_block f) outcome
      → IsFound bytes s f outcome
  unfolding refill_allocations_cache
  IsFound-block s f cached zeros found = record {
    result = found.result;
    after = found.after;
    returns = found.returns;
    first =
        let from = found.first.from in
        record {
          from = omega arith;
          to = found.first.to;
          allocated = λ i ge lt. elim (Bool-cases (ltb i (next_block f))) [
            | inl inside ↦
                allocated_of_zeros bytes small s f cached (64 - f % 64) i
                  (λ j h. zeros j (omega arith)) (omega arith) ge (ground arith)
            | inr beyond ↦ found.first.allocated i (ground arith) lt
          ];
          free = found.first.free;
        };
    ready = found.ready;
    behind = found.behind;
    none_left = found.none_left;
    same = found.same;
  }

  exhausted-IsFound :
      (s : MemorySpanData) (f : ℕ)
      → IsCached bytes s f
      → ((j : ℕ) → j < 64 → bit s.alloc_cache j ≡ false)
      → f ≤ s.number_of_elements
      → s.number_of_elements ≤ next_block f
      → IsFound bytes s f (ok (exhausted s))
  exhausted-IsFound s f cached zeros from le = record {
    result = s.number_of_elements;
    after = record s { free_index = s.number_of_elements };
    returns = refl;
    first = record {
      from = from;
      to = omega arith;
      allocated = λ i ge lt.
          allocated_of_zeros bytes small s f cached (64 - f % 64) i (λ j h. zeros j (omega arith))
            (omega arith) ge (omega arith);
      free = λ lt. absurd (omega arith);
    };
    ready = record { in_range = omega arith; cached = λ ne. absurd (ne refl) };
    behind = λ h. absurd (omega arith);
    none_left = λ e. refl;
    same = refl;
  }

  scan-IsFound :
      (fuel f : ℕ) (s : MemorySpanData)
      → IsCached bytes s f
      → f < s.number_of_elements
      → s.number_of_elements + 64 < word
      → s.number_of_elements < fuel + f
      → IsFound bytes s f (scan false bytes fuel f s)
  unfolding scan
  scan-IsFound zero f s cached lt fits enough = absurd (omega arith)
  scan-IsFound (suc fuel) f s cached lt fits enough =
      elim (Bool-cases (trailing_zeros 64 s.alloc_cache == 64)) [
        | inl none ↦
            let e : trailing_zeros 64 s.alloc_cache ≡ 64 = (==_iff _ _).0 none in
            let zeros : (j : ℕ) → j < 64 → bit s.alloc_cache j ≡ false =
              λ j h. bit-lt-trailing_zeros 64 s.alloc_cache j (rw e h) in
            rw (none, add_word-ok false f 64 (omega arith), align_down (f + 64) (omega arith))
              (elim (Bool-cases (leb s.number_of_elements (next_block f))) [
                | inl last ↦
                    rw last (exhausted-IsFound s f cached zeros (omega arith) (ground arith))
                | inr more ↦ rw more (
                    IsFound-block s f cached zeros (
                      scan-IsFound fuel (next_block f)
                        (refill_allocations_cache bytes (next_block f / 8) s)
                        (refill-IsCached bytes small s (next_block f) (omega arith))
                        (unfold refill_allocations_cache in ground arith)
                        (unfold refill_allocations_cache in fits)
                        (unfold refill_allocations_cache in omega arith)))
              ])
        | inr some ↦
            let le = trailing_zeros-le 64 s.alloc_cache in
            let b_lt : trailing_zeros 64 s.alloc_cache < 64 = ground arith in
            rw some (
              take_index-IsFound bytes small s f cached (trailing_zeros 64 s.alloc_cache)
                (record {
                  lt = b_lt;
                  set = bit-trailing_zeros 64 s.alloc_cache b_lt;
                  below = λ j h. bit-lt-trailing_zeros 64 s.alloc_cache j h;
                })
                lt fits)
      ]

  -- In a build without overflow checks, `next_free_index` on a ready span of fewer than 2^64 - 64
  -- objects returns: the first free object at or after the free index, or the number of elements
  -- if there is none. The span is ready again, its free index is behind the object, and nothing
  -- but the free index and the cache has changed.
  pub next_free_index-IsFound :
      (s : MemorySpanData)
      → IsReady bytes s
      → s.number_of_elements + 64 < word
      → IsFound bytes s s.free_index (next_free_index false bytes s)
  unfolding next_free_index
  next_free_index-IsFound s ready fits = elim (Bool-cases (s.free_index == s.number_of_elements)) [
    | inl done ↦
        let e : s.free_index ≡ s.number_of_elements = (==_iff _ _).0 done in
        rw done (record {
          result = s.free_index;
          after = s;
          returns = refl;
          first = record {
            from = omega arith;
            to = omega arith;
            allocated = λ i ge lt. absurd (omega arith);
            free = λ lt. absurd (omega arith);
          };
          ready = ready;
          behind = λ h. absurd (omega arith);
          none_left = λ h. refl;
          same = refl;
        })
    | inr left ↦
        let le = ready.in_range in
        let ne : s.free_index ≢ s.number_of_elements = ground arith in
        let within : ltb s.number_of_elements s.free_index ≡ false = ground arith in
        rw (left, within)
          (scan-IsFound (s.number_of_elements + 1) s.free_index s (ready.cached ne) (omega arith)
            fits (omega arith))
  ]
