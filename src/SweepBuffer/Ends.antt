-- ===== src/SweepBuffer/Ends.antt =====
-- The end of `push` and `pop` of src/sweep_buffer.rs, and what `pop` does to the index.
use rust_go_gc.Prelude.{
  ℕ, ◌+◌, ◌-◌, ◌/◌, ◌%◌, ◌*◌, ◌^◌, ◌<◌, ◌≡◌, ◌⊎◌, inl, inr, Bool, Option, none, arith, ltb, leb,
  ◌==◌, if◌then◌else◌, Bool-cases,
}
use rust_go_gc.Prelude.Outcome.{
  ok, panic, Panic, Ends, >>=-Ends, >>=-inv, if-Ends, ok-Ends, panic_if-Ends, undefined_behaviour,
}
use rust_go_gc.Prelude.Word.{word, atomic_add, mul_word, mul_word-Ends}
use rust_go_gc.Span.{MemorySpan}
use rust_go_gc.SweepBuffer.{
  gc_sweep_buf_init_spine_cap, gc_sweep_block_entries, Offheap, SweepBuffer, alloc, realloc,
  get_spine_block, grow_spine, allocate_block, find_block, push_observing, push, pop,
}

get_spine_block-Ends : (top : ℕ) (b : SweepBuffer) → Ends (get_spine_block top b)
unfolding get_spine_block
get_spine_block-Ends top b =
    if-Ends (b.spine + 8 * top == 0) (panic Panic.null_block) (ok _) (λ e. cc) (λ e. cc)

realloc-Ends : (p n m k : ℕ) (o : Offheap) → Ends (realloc p n m k o)
unfolding realloc
realloc-Ends p n m k o = if-Ends (n == m) (ok _) undefined_behaviour (λ e. cc) (λ e. cc)

module _ (checks : Bool) where
  grow_spine-Ends : (b : SweepBuffer) (o : Offheap) → Ends (grow_spine checks b o)
  unfolding grow_spine
  grow_spine-Ends b o =
      >>=-Ends
        (if b.spine_cap == 0 then ok gc_sweep_buf_init_spine_cap else mul_word checks b.spine_cap 2)
        _
        (if-Ends (b.spine_cap == 0) (ok gc_sweep_buf_init_spine_cap) (mul_word checks b.spine_cap 2)
          (λ e. cc) (mul_word-Ends checks b.spine_cap 2))
        λ new_cap _.
          >>=-Ends _ _ (panic_if-Ends (leb (2 ^ 63) (new_cap * 8)) Panic.no_spine_layout) λ _ _.
            >>=-Ends _ _
              (if-Ends (b.spine_cap == 0) (ok (alloc (new_cap * 8) o))
                (realloc b.spine (b.spine_cap * 8) (new_cap * 8) new_cap o) (λ e. cc)
                (realloc-Ends b.spine (b.spine_cap * 8) (new_cap * 8) new_cap o))
              λ _ _ e. cc

  allocate_block-Ends : (n : ℕ) (b : SweepBuffer) (o : Offheap) → Ends (allocate_block checks n b o)
  unfolding allocate_block
  allocate_block-Ends n b o =
      >>=-Ends (if n == b.spine_cap then grow_spine checks b o else ok (b, o)) _
        (if-Ends (n == b.spine_cap) (grow_spine checks b o) (ok (b, o)) (grow_spine-Ends b o)
          (λ e. cc))
        λ (b', o') _.
          if-Ends ((alloc (gc_sweep_block_entries * 8) o').0 == 0) (panic Panic.no_block) (ok _)
            (λ e. cc) (λ e. cc)

  find_block-Ends :
      (observed top : ℕ) (b : SweepBuffer) (o : Offheap) → Ends (find_block checks observed top b o)
  unfolding find_block
  find_block-Ends observed top b o =
      let there =
        >>=-Ends (get_spine_block top b) (λ block. ok (block, b, o)) (get_spine_block-Ends top b)
          (λ block _. ok-Ends (block, b, o)) in
      if-Ends (ltb top observed) _ _ there (
        if-Ends (ltb top b.spine_length) _ (allocate_block checks b.spine_length b o) there
          (allocate_block-Ends b.spine_length b o))

  pub push-Ends : (span : MemorySpan) (b : SweepBuffer) (o : Offheap) → Ends (push checks span b o)
  unfolding push push_observing
  push-Ends span b o =
      >>=-Ends _ _
        (find_block-Ends b.spine_length (b.index / 512) (record b { index = atomic_add b.index 1 })
          o)
        λ _ _ e. cc

pub pop-Ends : (b : SweepBuffer) (o : Offheap) → Ends (pop b o)
unfolding pop
pop-Ends b o =
    if-Ends (b.index == 0) (ok _) _ (λ e. cc)
      (>>=-Ends _ _
        (get_spine_block-Ends ((b.index - 1) / 512)
          (record b { index = (b.index + word - 1) % word }))
        λ block _ e. cc)

-- A pop that returns a span has lowered the index by one.
pub pop-index :
    (b : SweepBuffer) (o : Offheap) (x : Option MemorySpan) (b' : SweepBuffer) (o' : Offheap)
    → b.index < word
    → pop b o ≡ ok (x, b', o')
    → (x ≡ none) ⊎ (b'.index + 1 ≡ b.index)
unfolding pop
pop-index b o x b' o' fits e = elim (Bool-cases (b.index == 0)) [
  | inl empty ↦ let r = rw empty at e in inl (cc)
  | inr more ↦
      >>=-inv
        (get_spine_block ((b.index - 1) / 512) (record b { index = (b.index + word - 1) % word })) _
        (rw more at e)
        λ block _ last.
          let at : (b.index + word - 1) % word ≡ b'.index = cc in
          let pos : 0 < b.index = ground arith in inr (omega arith)
]
