-- ===== src/SweepBuffer/Fresh.antt =====
-- The first push into a new buffer: the block that it allocates is not recorded in the spine.
use rust_go_gc.Prelude.{ℕ, ◌+◌, ◌<◌, ◌≤◌, ◌≡◌, refl, Bool, true, false, Option, arith, leb, ◌==◌}
use rust_go_gc.Prelude.Outcome.{Outcome, ok, ◌>>=◌}
use rust_go_gc.Span.{MemorySpan}
use rust_go_gc.SweepBuffer
use rust_go_gc.SweepBuffer.{
  Offheap, SweepBuffer, alloc, store, get_spine_block, grow_spine, allocate_block, push, pop,
  as_option,
}
use rust_go_gc.SweepBuffer.Slot.{slot, pop-spine}

-- What a `pop` right behind a `push` returns.
unfoldable pub push_pop : Bool → MemorySpan → SweepBuffer → Offheap → Outcome (Option MemorySpan)
push_pop checks span b o = do (b', o') ← push checks span b o; (x, _, _) ← pop b' o'; ok x

abbrev first_buffer : Offheap → SweepBuffer
first_buffer o = record { index = 1; spine_length = 1; spine_cap = 256; spine = o.brk }

alloc-ok :
    (size : ℕ) (o : Offheap)
    → o.brk + size ≤ o.limit
    → alloc size o ≡ (o.brk, record o { brk = o.brk + size })
unfolding alloc
alloc-ok size o h = let fits : leb (o.brk + size) o.limit ≡ true = ground arith in rw fits

-- The spine lies at the first address handed out, the block behind it.
push-new :
    (checks : Bool) (span : ℕ) (o : Offheap)
    → o.brk + 6144 ≤ o.limit
    → push checks span SweepBuffer.new o
      ≡ ok (first_buffer o, store (o.brk + 2048 + 0) span (record o { brk = o.brk + 2048 + 4096 }))
unfolding push SweepBuffer.new
push-new checks span o room =
    let some : (o.brk + 2048 == 0) ≡ false = ground arith in
    rw (
      alloc-ok 2048 o (omega arith),
      alloc-ok 4096 (record o { brk = o.brk + 2048 }) (omega arith),
      some,
    )

store_ne : (a q v : ℕ) (o : Offheap) → (q == a) ≡ false → (store a v o).words q ≡ o.words q
unfolding store
store_ne a q v o h = rw h

-- The first span pushed into a new buffer is lost: a `pop` right behind returns what lay at the
-- spine's address before, whatever span was pushed.
pub push_pop-new :
    (checks : Bool) (span : MemorySpan) (o : Offheap)
    → 0 < o.brk
    → o.brk + 6144 ≤ o.limit
    → push_pop checks span SweepBuffer.new o ≡ ok (as_option (o.words o.brk))
unfolding push_pop
push_pop-new checks span o pos room =
    let at : slot o.brk 0 ≡ o.brk = omega arith in
    let other : (o.brk == o.brk + 2048 + 0) ≡ false = ground arith in
    rw
      (
        push-new checks span o room,
        pop-spine (first_buffer o)
            (store (o.brk + 2048 + 0) span (record o { brk = o.brk + 2048 + 4096 })) 0 pos refl
            (omega arith),
      )
      (rw
        (at, store_ne (o.brk + 2048 + 0) o.brk span (record o { brk = o.brk + 2048 + 4096 }) other))
