-- ===== src/Span/Cache/Overflow/Block.antt =====
-- Where the first free object lies in its block of 64, and what `take_index` does at its end.
use rust_go_gc.Prelude.{
  ℕ, ◌+◌, ◌-◌, ◌/◌, ◌%◌, ◌<◌, ◌≤◌, ◌≡◌, true, false, arith, leb, ltb, Bool-cases, ◌⊎◌, inl, inr,
}
use rust_go_gc.Prelude.Bits.{bit}
use rust_go_gc.Prelude.Outcome.{panic, Panic}
use rust_go_gc.Prelude.Word.{word, add_word-ok}
use rust_go_gc.Span.{MemorySpanData, Bytes, IsBytes}
use rust_go_gc.Span.Cache.{refill_allocations_cache, shr_word, take_index}
use rust_go_gc.Span.Cache.Refill.{IsCached}
use rust_go_gc.Span.Cache.Take.{
  IsFirstFree, IsLowest, allocated_of_zeros, first_free, IsFirstFree-none,
}
use rust_go_gc.Span.Cache.Scan.{next_block}

-- The object at `r` is the last of a block that the scan from `f` enters at its first.
abbrev pub EndsBlock : (f r : ℕ) → Type 0
EndsBlock f r = (r % 64 ≡ 63) × (f + 63 ≤ r)

pub first_free_unique :
    {bytes : Bytes} {s : MemorySpanData} {f r q : ℕ}
    → IsFirstFree bytes s f r
    → IsFirstFree bytes s f q
    → r ≡ q
first_free_unique {r} {q} a b = elim (Bool-cases (ltb r q)) [
  | inl less ↦
      let lt : r < q = ground arith in
      let to = b.to in let from = a.from in cc (b.allocated r from lt, a.free (omega arith))
  | inr le ↦ elim (Bool-cases (ltb q r)) [
    | inl less ↦
        let lt : q < r = ground arith in
        let to = a.to in let from = b.from in cc (a.allocated q from lt, b.free (omega arith))
    | inr ge ↦ ground arith
  ]
]

pub le_of_ltb : (a b : ℕ) → ltb a b ≡ false → b ≤ a
le_of_ltb a b h = ground arith

pub take_index-overflow :
    (bytes : Bytes) (f : ℕ) (s : MemorySpanData)
    → f + 63 < s.number_of_elements
    → s.number_of_elements + 64 < word
    → take_index true bytes f 63 s ≡ panic Panic.overflow
unfolding take_index shr_word
take_index-overflow bytes f s lt fits =
    let stays : leb s.number_of_elements (f + 63) ≡ false = ground arith in
    rw (add_word-ok true f 63 (omega arith), stays)

pub take_index-checked :
    (bytes : Bytes) (f b : ℕ) (s : MemorySpanData)
    → (b < 63) ⊎ (s.number_of_elements ≤ f + b)
    → f + b + 1 < word
    → take_index true bytes f b s ≡ take_index false bytes f b s
unfolding take_index shr_word
take_index-checked bytes f b s h fits =
    rw
      (
        add_word-ok true f b (omega arith),
        add_word-ok false f b (omega arith),
        add_word-ok true (f + b) 1 (omega arith),
        add_word-ok false (f + b) 1 (omega arith),
      )
      (elim (Bool-cases (leb s.number_of_elements (f + b))) [
        | inl beyond ↦ rw beyond
        | inr within ↦ let small : leb 64 (b + 1) ≡ false = ground arith in rw (within, small)
      ])

module _ (bytes : Bytes) (small : IsBytes bytes) where
  pub behind_block :
      (s : MemorySpanData) (f r : ℕ)
      → IsCached bytes s f
      → ((j : ℕ) → j < 64 → bit s.alloc_cache j ≡ false)
      → IsFirstFree bytes s f r
      → r < s.number_of_elements
      → next_block f ≤ r
  behind_block s f r cached zeros first lt =
      let from = first.from in
      elim (Bool-cases (ltb r (next_block f))) [
        | inl before ↦
            let used =
              allocated_of_zeros bytes small s f cached (64 - f % 64) r
                (λ j h. zeros j (omega arith)) (omega arith) from (ground arith) in
            cc (used, first.free lt)
        | inr behind ↦ ground arith
      ]

  -- Where the rest of the block of `f` is allocated, the first free object lies behind it.
  pub IsFirstFree-block :
      (s : MemorySpanData) (f r : ℕ)
      → IsCached bytes s f
      → ((j : ℕ) → j < 64 → bit s.alloc_cache j ≡ false)
      → IsFirstFree bytes s f r
      → next_block f < s.number_of_elements
      → IsFirstFree bytes (refill_allocations_cache bytes (next_block f / 8) s) (next_block f) r
  unfolding refill_allocations_cache
  IsFirstFree-block s f r cached zeros first inside =
      let from = first.from in
      let to = first.to in
      record {
        from = elim (Bool-cases (ltb r s.number_of_elements)) [
          | inl some ↦ behind_block s f r cached zeros first (ground arith)
          | inr none ↦ omega (arith, le_of_ltb r s.number_of_elements none)
        ];
        to = to;
        allocated = λ i ge lt. first.allocated i (omega arith) lt;
        free = first.free;
      }

  -- The lowest one of the cache is the first free object, where there is one.
  pub found_at :
      (s : MemorySpanData) (f r : ℕ)
      → IsCached bytes s f
      → (b : ℕ) → IsLowest s b
      → IsFirstFree bytes s f r
      → r < s.number_of_elements
      → f + b ≡ r
  found_at s f r cached b lowest first lt =
      let from = first.from in
      elim (Bool-cases (leb (f + b) s.number_of_elements)) [
        | inl inside ↦
            first_free_unique (first_free bytes small s f cached b lowest (ground arith)) first
        | inr beyond ↦
            let none =
              IsFirstFree-none bytes small s f cached b lowest (omega arith) (ground arith) in
            absurd (omega (arith, first_free_unique none first))
      ]
