-- ===== src/Span/Cache/Take.antt =====
-- What `next_free_index` promises, and the part of it after a set bit of the cache is found.
use rust_go_gc.Prelude.{
  ℕ, ◌+◌, ◌-◌, ◌/◌, ◌%◌, ◌<◌, ◌≤◌, ◌≡◌, ◌≢◌, ◌∙◌, refl, ap, Bool, true, false, not, ◌&&◌, arith,
  leb, ◌==◌, ==_iff, Bool-cases, inl, inr, ◌⊎◌,
}
use rust_go_gc.Prelude.Bits.{bit, shr, bit-shr}
use rust_go_gc.Prelude.Outcome.{Outcome, ok}
use rust_go_gc.Prelude.Word.{word, add_word-ok}
use rust_go_gc.Span.{MemorySpanData, Bytes, IsBytes}
use rust_go_gc.Span.Cache.{
  shr_word, refill_allocations_cache, refill_at_block, take_index, exhausted,
}
use rust_go_gc.Span.Cache.Refill.{alloc_bit, IsCached, refill-IsCached}

-- `r` is the index of the first free object at or after `f`; the number of elements if none is.
pub record IsFirstFree (bytes : Bytes) (s : MemorySpanData) (f r : ℕ) : Type 0 where
  pub from : f ≤ r
  pub to : r ≤ s.number_of_elements
  pub allocated : (i : ℕ) → f ≤ i → i < r → alloc_bit bytes s i ≡ true
  pub free : r < s.number_of_elements → alloc_bit bytes s r ≡ false

-- A span that `next_free_index` may be called on: its free index is in range and its cache in
-- step, unless no object is left.
pub record IsReady (bytes : Bytes) (s : MemorySpanData) : Type 0 where
  pub in_range : s.free_index ≤ s.number_of_elements
  pub cached : s.free_index ≢ s.number_of_elements → IsCached bytes s s.free_index

-- `outcome` is a return of the first free index, with the span ready for the next call, which
-- begins behind that index, and changed in nothing but its free index and its cache.
pub record IsFound (bytes : Bytes) (s : MemorySpanData) (f : ℕ)
    (outcome : Outcome (ℕ × MemorySpanData)) : Type 0 where
  pub result : ℕ
  pub after : MemorySpanData
  pub returns : outcome ≡ ok (result, after)
  pub first : IsFirstFree bytes s f result
  pub ready : IsReady bytes after
  pub behind : result < s.number_of_elements → after.free_index ≡ result + 1
  pub none_left : result ≡ s.number_of_elements → after.free_index ≡ result
  pub same : after ≡ record s { free_index = after.free_index; alloc_cache = after.alloc_cache }

-- The bit that was found is the lowest one of the cache.
pub record IsLowest (s : MemorySpanData) (b : ℕ) : Type 0 where
  pub lt : b < 64
  pub set : bit s.alloc_cache b ≡ true
  pub below : (j : ℕ) → j < b → bit s.alloc_cache j ≡ false

eq_true_of_not : (b c : Bool) → c ≡ false → c ≡ not b → b ≡ true
eq_true_of_not true c h e = refl
eq_true_of_not false c h e = cc

eq_false_of_not : (b c : Bool) → c ≡ true → c ≡ not b → b ≡ false
eq_false_of_not true c h e = cc
eq_false_of_not false c h e = refl

refill_at_block-same :
    (bytes : Bytes) (next : ℕ) (s : MemorySpanData)
    → (next % 64 ≢ 0) ⊎ (next ≡ s.number_of_elements)
    → refill_at_block bytes next s ≡ s
unfolding refill_at_block
refill_at_block-same bytes next s h = ground arith

refill_at_block-cache :
    (bytes : Bytes) (next : ℕ) (s : MemorySpanData)
    → refill_at_block bytes next s
      ≡ record s { alloc_cache = (refill_at_block bytes next s).alloc_cache }
unfolding refill_at_block refill_allocations_cache
refill_at_block-cache bytes next s =
    elim (Bool-cases (next % 64 == 0 && not (next == s.number_of_elements))) [
      | inl refills ↦ rw refills
      | inr keeps ↦ rw keeps
    ]

refill_at_block-refills :
    (bytes : Bytes) (next : ℕ) (s : MemorySpanData)
    → next % 64 ≡ 0
    → next ≢ s.number_of_elements
    → refill_at_block bytes next s ≡ refill_allocations_cache bytes (next / 8) s
unfolding refill_at_block
refill_at_block-refills bytes next s h ne = ground arith

module _ (bytes : Bytes) (small : IsBytes bytes) (s : MemorySpanData) (f : ℕ)
    (cached : IsCached bytes s f) where
  -- The zeros of the cache, up to the end of the block, are allocated objects.
  pub allocated_of_zeros :
      (b i : ℕ)
      → ((j : ℕ) → j < b → bit s.alloc_cache j ≡ false)
      → b + f % 64 ≤ 64
      → f ≤ i
      → i < f + b
      → alloc_bit bytes s i ≡ true
  allocated_of_zeros b i zeros h from lt =
      let e : f + (i - f) ≡ i = omega arith in
      eq_true_of_not (alloc_bit bytes s i) (bit s.alloc_cache (i - f)) (zeros (i - f) (omega arith))
        (rw e at (cached.within (i - f) (omega arith)))

  module _ (b : ℕ) (lowest : IsLowest s b) where
    pub in_block : b + f % 64 < 64
    in_block = elim (Bool-cases (leb 64 (b + f % 64))) [
      | inl out ↦ cc (cached.above b (ground arith), lowest.set)
      | inr inside ↦ ground arith
    ]

    pub first_free : f + b ≤ s.number_of_elements → IsFirstFree bytes s f (f + b)
    first_free le = record {
      from = omega arith;
      to = le;
      allocated = λ i from lt.
          let inside = in_block in
          allocated_of_zeros b i lowest.below (omega (arith, inside)) from lt;
      free = λ lt. eq_false_of_not _ _ lowest.set (cached.within b in_block);
    }

    pub IsFirstFree-none :
        f ≤ s.number_of_elements
        → s.number_of_elements ≤ f + b
        → IsFirstFree bytes s f s.number_of_elements
    IsFirstFree-none from le = record {
      from = from;
      to = omega arith;
      allocated = λ i from' lt.
          let inside = in_block in
          allocated_of_zeros b i lowest.below (omega (arith, inside)) from' (omega arith);
      free = λ lt. absurd (omega arith);
    }

    -- The shifted cache is in step with the index behind the found bit, within the block.
    shifted-IsCached :
        (f + b + 1) % 64 ≢ 0
        → IsCached bytes (record s { alloc_cache = shr s.alloc_cache (b + 1) }) (f + b + 1)
    shifted-IsCached ne =
        let inside = in_block in
        record {
          within = λ j h.
              let e : f + (b + 1 + j) ≡ f + b + 1 + j = omega arith in
              bit-shr s.alloc_cache (b + 1) j
              ∙ rw e at (cached.within (b + 1 + j) (omega (arith, inside)));
          above = λ j h.
              bit-shr s.alloc_cache (b + 1) j ∙ cached.above (b + 1 + j) (omega (arith, inside));
        }

    shifted : MemorySpanData
    shifted = record s { alloc_cache = shr s.alloc_cache ((b + 1) % 64) }

    after_found : MemorySpanData
    unfolding shifted
    after_found = record s {
      free_index = f + b + 1;
      alloc_cache = (refill_at_block bytes (f + b + 1) shifted).alloc_cache;
    }

    after_found-IsCached : f + b + 1 ≢ s.number_of_elements → IsCached bytes after_found (f + b + 1)
    unfolding after_found refill_allocations_cache
    after_found-IsCached ne = elim (Bool-cases ((f + b + 1) % 64 == 0)) [
      | inl aligned ↦
          let at : (f + b + 1) % 64 ≡ 0 = (==_iff _ _).0 aligned in
          let c = refill-IsCached bytes small shifted (f + b + 1) at in
          rw (refill_at_block-refills bytes (f + b + 1) shifted at ne)
            (record { within = c.within; above = c.above })
      | inr inner ↦
          let off : (f + b + 1) % 64 ≢ 0 = ground arith in
          let block = in_block in
          let amount : (b + 1) % 64 ≡ b + 1 = omega (arith, block) in
          let c = shifted-IsCached off in
          rw (refill_at_block-same bytes (f + b + 1) shifted (inl off), amount)
            (record { within = c.within; above = c.above })
    ]

    take_index-after_found :
        f + b < s.number_of_elements
        → s.number_of_elements + 64 < word
        → take_index false bytes f b s ≡ ok (f + b, after_found)
    unfolding take_index shr_word after_found shifted
    take_index-after_found lt fits =
        let stays : leb s.number_of_elements (f + b) ≡ false = ground arith in
        rw (add_word-ok false f b (omega arith), stays, add_word-ok false (f + b) 1 (omega arith))
          (ap (λ (t : MemorySpanData). ok (f + b, record t { free_index = f + b + 1 }))
            (refill_at_block-cache bytes (f + b + 1) shifted))

    take_index-none :
        s.number_of_elements ≤ f + b
        → f + b < word
        → take_index false bytes f b s ≡ ok (exhausted s)
    unfolding take_index
    take_index-none le fits = rw (add_word-ok false f b fits) (ground arith)

    -- The index returned, from a set bit of the cache on.
    pub take_index-IsFound :
        f < s.number_of_elements
        → s.number_of_elements + 64 < word
        → IsFound bytes s f (take_index false bytes f b s)
    unfolding after_found refill_allocations_cache
    take_index-IsFound lt fits = elim (Bool-cases (leb s.number_of_elements (f + b))) [
      | inl beyond ↦
          let le : s.number_of_elements ≤ f + b = ground arith in
          let b_lt = lowest.lt in
          record {
            result = s.number_of_elements;
            after = record s { free_index = s.number_of_elements };
            returns = take_index-none le (omega (arith, b_lt));
            first = IsFirstFree-none (omega arith) le;
            ready = record { in_range = omega arith; cached = λ ne. absurd (ne refl) };
            behind = λ h. absurd (omega arith);
            none_left = λ e. refl;
            same = refl;
          }
      | inr inside ↦
          let below : f + b < s.number_of_elements = ground arith in
          record {
            result = f + b;
            after = after_found;
            returns = take_index-after_found below fits;
            first = first_free (omega arith);
            ready = record { in_range = omega arith; cached = after_found-IsCached };
            behind = λ h. refl;
            none_left = λ e. absurd (omega arith);
            same = refl;
          }
    ]
