-- ===== src/Span/Cache.antt =====
-- `refill_allocations_cache` and `next_free_index` of src/memory_span.rs.
pub mod Refill
pub mod Take
pub mod Scan
pub mod Overflow
pub mod Drain
pub mod Ends
use rust_go_gc.Prelude.{
  ℕ, zero, suc, ◌+◌, ◌-◌, ◌*◌, ◌/◌, ◌%◌, ◌≤◌, bit_and, Bool, true, false, not, ◌&&◌, ltb, leb, ◌==◌,
  if◌then◌else◌,
}
use rust_go_gc.Prelude.Bits.{shr, trailing_zeros}
use rust_go_gc.Prelude.Outcome.{Outcome, ok, panic, Panic, out_of_fuel, ◌>>=◌, ◌>>◌}
use rust_go_gc.Prelude.Word.{add_word, not_word}
use rust_go_gc.Span.{MemorySpanData, Bytes}

-- The number whose `k` bytes, the lowest first, stand from `a` on.
unfoldable pub le_bytes : Bytes → (k a : ℕ) → ℕ
le_bytes bytes zero a = 0
le_bytes bytes (suc k) a = bytes a + 256 * le_bytes bytes k (a + 1)

-- `u64::from_le_bytes` of the eight bytes at `a`.
abbrev pub from_le_bytes : Bytes → ℕ → ℕ
from_le_bytes bytes a = le_bytes bytes 8 a

unfoldable pub refill_allocations_cache : Bytes → ℕ → MemorySpanData → MemorySpanData
refill_allocations_cache bytes which_byte s = record s {
  alloc_cache = not_word (from_le_bytes bytes (s.alloc_bits + which_byte));
}

-- `x >> k` of a `u64`: a build with overflow checks panics at 64 and above; another build takes
-- the amount modulo 64.
unfoldable pub shr_word : Bool → ℕ → ℕ → Outcome ℕ
shr_word checks x k = if checks && leb 64 k then panic Panic.overflow else ok (shr x (k % 64))

-- `self.free_index = span_number_of_elements; return span_number_of_elements;`
abbrev pub exhausted : MemorySpanData → ℕ × MemorySpanData
exhausted s = (s.number_of_elements, record s { free_index = s.number_of_elements })

-- The refill that follows a find, where the next index begins a block of 64 and is not the end.
unfoldable pub refill_at_block : Bytes → ℕ → MemorySpanData → MemorySpanData
refill_at_block bytes next s =
    if next % 64 == 0 && not (next == s.number_of_elements)
    then refill_allocations_cache bytes (next / 8) s
    else s

module _ (checks : Bool) (bytes : Bytes) where
  -- From the found bit on: bounds test, shift of the cache, refill at the end of a block.
  unfoldable pub take_index :
      (span_free_index bit_index : ℕ) → MemorySpanData → Outcome (ℕ × MemorySpanData)
  take_index span_free_index bit_index s = do
    result ← add_word checks span_free_index bit_index
    if leb s.number_of_elements result then ok (exhausted s) else do
      alloc_cache ← shr_word checks s.alloc_cache (bit_index + 1)
      next ← add_word checks result 1
      let shifted = record s { alloc_cache = alloc_cache }
      ok (result, record (refill_at_block bytes next shifted) { free_index = next })

  -- `while bit_index == 64`, with fuel; the bit index is that of the cache.
  unfoldable pub scan : (fuel span_free_index : ℕ) → MemorySpanData → Outcome (ℕ × MemorySpanData)
  scan zero span_free_index s = out_of_fuel
  scan (suc fuel) span_free_index s =
      let bit_index = trailing_zeros 64 s.alloc_cache in
      let advanced = (do
        raised ← add_word checks span_free_index 64
        let at = bit_and raised (not_word (64 - 1))
        let again = scan fuel at (refill_allocations_cache bytes (at / 8) s)
        if leb s.number_of_elements at then ok (exhausted s) else again) in
      if bit_index == 64 then advanced else take_index span_free_index bit_index s

  -- Each round of the loop moves on by a block of 64 elements, so the fuel covers the span.
  unfoldable pub next_free_index : MemorySpanData → Outcome (ℕ × MemorySpanData)
  next_free_index s =
      if s.free_index == s.number_of_elements
      then ok (s.free_index, s)
      else if ltb s.number_of_elements s.free_index
      then panic Panic.free_index_beyond_elements
      else scan (s.number_of_elements + 1) s.free_index s
