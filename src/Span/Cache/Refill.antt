-- ===== src/Span/Cache/Refill.antt =====
-- What the cache of allocation bits holds, and that a refill makes it hold it.
use rust_go_gc.Prelude.{
  ℕ, zero, suc, ◌+◌, ◌-◌, ◌*◌, ◌/◌, ◌%◌, ◌^◌, ◌<◌, ◌≤◌, ◌≡◌, ◌∙◌, ap, Bool, false, not, arith, ltb,
  Bool-cases, inl, inr, ltb→lt,
}
use rust_go_gc.Prelude.Bits.{bit, bit_low, bit_high, bit_of_lt, bit_complement}
use rust_go_gc.Prelude.Word.{not_word}
use rust_go_gc.Span.{MemorySpanData, Bytes, IsBytes}
use rust_go_gc.Span.Cache.{le_bytes, from_le_bytes, refill_allocations_cache}
use native.Mathlib.Nat.{pow-suc}

-- Object `i` of the span is allocated: bit `i % 8` of byte `i / 8` of `alloc_bits`.
abbrev pub alloc_bit : Bytes → MemorySpanData → ℕ → Bool
alloc_bit bytes s i = bit (bytes (s.alloc_bits + i / 8)) (i % 8)

-- The cache, at index `f`, holds the complement of the allocation bits from `f` to the end of
-- the block of 64 that `f` lies in, and zeros above.
pub record IsCached (bytes : Bytes) (s : MemorySpanData) (f : ℕ) : Type 0 where
  pub within : (j : ℕ) → j + f % 64 < 64 → bit s.alloc_cache j ≡ not (alloc_bit bytes s (f + j))
  pub above : (j : ℕ) → 64 ≤ j + f % 64 → bit s.alloc_cache j ≡ false

module _ (bytes : Bytes) (small : IsBytes bytes) where
  le_bytes-lt : (k a : ℕ) → le_bytes bytes k a < 256 ^ k
  unfolding le_bytes
  le_bytes-lt zero a = omega arith
  le_bytes-lt (suc k) a = omega (arith, small a, le_bytes-lt k (a + 1), pow-suc 256 k)

  bit-le_bytes :
      (k a i : ℕ) → i < 8 * k → bit (le_bytes bytes k a) i ≡ bit (bytes (a + i / 8)) (i % 8)
  unfolding le_bytes
  bit-le_bytes zero a i h = absurd (omega arith)
  bit-le_bytes (suc k) a i h = elim (Bool-cases (ltb i 8)) [
    | inl low ↦
        let lt : i < 8 = ltb→lt _ _ low in
        let at : a + i / 8 ≡ a = omega arith in
        let of : i % 8 ≡ i = omega arith in
        rw (at, of) (bit_low 8 (bytes a) (le_bytes bytes k (a + 1)) i lt)
    | inr high ↦
        let ge : 8 ≤ i = ground arith in
        let split : 8 + (i - 8) ≡ i = omega arith in
        let at : a + 1 + (i - 8) / 8 ≡ a + i / 8 = omega arith in
        let of : (i - 8) % 8 ≡ i % 8 = omega arith in
        rw split at (bit_high 8 (bytes a) (le_bytes bytes k (a + 1)) (i - 8) (small a))
        ∙ rw (at, of) at (bit-le_bytes k (a + 1) (i - 8) (omega arith))
  ]

  -- After a refill at the byte of an index `f` that begins a block, the cache is in step with
  -- the allocation bits.
  pub refill-IsCached :
      (s : MemorySpanData) (f : ℕ)
      → f % 64 ≡ 0
      → IsCached bytes (refill_allocations_cache bytes (f / 8) s) f
  unfolding refill_allocations_cache
  refill-IsCached s f aligned = record {
    within = λ j h.
        let at : s.alloc_bits + f / 8 + j / 8 ≡ s.alloc_bits + (f + j) / 8 = omega arith in
        let of : j % 8 ≡ (f + j) % 8 = omega arith in
        bit_complement 64 (from_le_bytes bytes (s.alloc_bits + f / 8)) j
          (le_bytes-lt 8 (s.alloc_bits + f / 8)) (omega arith)
        ∙ ap not (rw (at, of) at (bit-le_bytes 8 (s.alloc_bits + f / 8) j (omega arith)));
    above = λ j h.
        bit_of_lt 64 (not_word (from_le_bytes bytes (s.alloc_bits + f / 8))) j (omega arith)
          (omega arith);
  }
