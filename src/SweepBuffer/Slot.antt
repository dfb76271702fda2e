-- ===== src/SweepBuffer/Slot.antt =====
-- Where `push` and `pop` find the entry of a cursor whose block the spine already has.
use rust_go_gc.Prelude.{
  ℕ, ◌+◌, ◌-◌, ◌*◌, ◌/◌, ◌%◌, ◌<◌, ◌≤◌, ◌≡◌, refl, Bool, true, false, Option, some, none, arith,
  ltb, ◌==◌, Bool-cases, inl, inr,
}
use rust_go_gc.Prelude.Outcome.{Outcome, ok, ◌>>=◌}
use rust_go_gc.Prelude.Word.{word, atomic_add}
use rust_go_gc.Span.{MemorySpan}
use rust_go_gc.SweepBuffer.{
  Offheap, SweepBuffer, store, get_spine_block, find_block, push_observing, push, pop, as_option,
}

-- The address that a cursor stands for.
abbrev pub slot : (spine cursor : ℕ) → ℕ
slot spine cursor = spine + 8 * (cursor / 512) + 8 * (cursor % 512)

pub get_spine_block-ok :
    (top : ℕ) (b : SweepBuffer) → 0 < b.spine → get_spine_block top b ≡ ok (b.spine + 8 * top)
unfolding get_spine_block
get_spine_block-ok top b h = ground arith

module _ (checks : Bool) where
  pub find_block-spine :
      (observed top : ℕ) (b : SweepBuffer) (o : Offheap)
      → 0 < b.spine
      → top < b.spine_length
      → find_block checks observed top b o ≡ ok (b.spine + 8 * top, b, o)
  unfolding find_block
  find_block-spine observed top b o pos lt =
      let known : ltb top b.spine_length ≡ true = ground arith in
      rw (known, get_spine_block-ok top b pos)
        (elim (Bool-cases (ltb top observed)) [ inl e ↦ rw e | inr e ↦ rw e ])

  pub push-spine :
      (span : ℕ) (b : SweepBuffer) (o : Offheap)
      → 0 < b.spine
      → b.index / 512 < b.spine_length
      → b.index + 1 < word
      → push checks span b o
        ≡ ok (record b { index = b.index + 1 }, store (slot b.spine b.index) span o)
  unfolding push push_observing
  push-spine span b o pos known fits =
      let next : (b.index + 1) % word ≡ b.index + 1 = omega arith in
      rw (
        find_block-spine b.spine_length (b.index / 512) (record b { index = atomic_add b.index 1 })
            o pos known,
        next,
      )

  -- A stale first read of the spine's length does not matter: whatever length not above the
  -- buffer's was seen, `push` does the same, since the length is read again under the lock.
  pub push_observing-stale :
      (observed span : ℕ) (b : SweepBuffer) (o : Offheap)
      → observed ≤ b.spine_length
      → push_observing checks observed span b o ≡ push checks span b o
  unfolding push push_observing find_block
  push_observing-stale observed span b o le = elim (Bool-cases (ltb (b.index / 512) observed)) [
    | inl seen ↦
        let known : ltb (b.index / 512) b.spine_length ≡ true = ground arith in rw (seen, known)
    | inr unseen ↦ elim (Bool-cases (ltb (b.index / 512) b.spine_length)) [
      | inl known ↦ rw (unseen, known)
      | inr unknown ↦ rw (unseen, unknown)
    ]
  ]

pub pop-spine :
    (b : SweepBuffer) (o : Offheap) (cursor : ℕ)
    → 0 < b.spine
    → b.index ≡ cursor + 1
    → cursor + 1 < word
    → pop b o
      ≡ ok (
        as_option (o.words (slot b.spine cursor)),
        record b { index = cursor },
        store (slot b.spine cursor) 0 o,
      )
unfolding pop
pop-spine b o cursor pos at fits =
    let some : (b.index == 0) ≡ false = ground arith in
    let before : b.index - 1 ≡ cursor = omega arith in
    let wraps : (b.index + word - 1) % word ≡ cursor = omega arith in
    rw (some, before, wraps, get_spine_block-ok (cursor / 512) (record b { index = cursor }) pos)

-- `pop` of a buffer with nothing in it returns `None` and changes nothing.
pub pop-empty : (b : SweepBuffer) (o : Offheap) → b.index ≡ 0 → pop b o ≡ ok (none, b, o)
unfolding pop
pop-empty b o e =
    let empty : (b.index == 0) ≡ true = ground arith in
    let back : ((b.index + word - 1) % word + 1) % word ≡ b.index = omega arith in rw (empty, back)

-- What a `pop` would return after a push if the buffer's index were `index`.
unfoldable pub push_pop_at :
    Bool → MemorySpan → ℕ → SweepBuffer → Offheap → Outcome (Option MemorySpan)
push_pop_at checks span index b o = do
  (b', o') ← push checks span b o
  (x, _, _) ← pop (record b' { index = index }) o'
  ok x

-- Blocks overlap: from the second block that the spine has on, a push is written over the entry of
-- the cursor 511 below, if the place in the block is not the last. A pop of that entry returns the
-- span just pushed, whatever span was pushed there before.
pub push_pop_at-overwritten :
    (checks : Bool) (span : MemorySpan) (b : SweepBuffer) (o : Offheap)
    → 0 < span
    → 0 < b.spine
    → 512 ≤ b.index
    → b.index % 512 < 511
    → b.index / 512 < b.spine_length
    → b.index + 1 < word
    → push_pop_at checks span (b.index - 511 + 1) b o ≡ ok (some span)
unfolding push_pop_at
push_pop_at-overwritten checks span b o p pos second place known fits =
    let same : slot b.spine (b.index - 511) ≡ slot b.spine b.index = omega arith in
    let o' = store (slot b.spine b.index) span o in
    let written : o'.words (slot b.spine b.index) ≡ span = unfold store in ground arith in
    let read : as_option span ≡ some span = unfold as_option in ground arith in
    rw
      (
        push-spine checks span b o pos known fits,
        pop-spine (record b { index = b.index - 511 + 1 }) o' (b.index - 511) pos refl
            (omega arith),
        same,
        written,
        read,
      )
      refl
