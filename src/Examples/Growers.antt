-- ===== src/Examples/Growers.antt =====
-- Runs and instances for calls of `push` of src/sweep_buffer.rs that make the spine grow at once.
use rust_go_gc.Prelude.{
  Bool, inl, ℕ, suc, ◌+◌, ◌*◌, ◌<◌, ◌≤◌, ◌≡◌, refl, true, List, [], ◌∷◌, arith, AllOf,
}
use rust_go_gc.Prelude.Outcome.{ok}
use rust_go_gc.SweepBuffer.{Offheap, SweepBuffer, store, alloc, get_spine_block}
use rust_go_gc.SweepBuffer.Threads.{here, there, Run, start, later}
use rust_go_gc.SweepBuffer.Growers.{
  open_lock, held, poisoned, LockedBuffer, with_buffer, Grower, arriving, observed, holding, grown,
  extended, located, pushed, panicked, ensure_cap, Move, claim, observe, find, acquire, refuse,
  look, again, grow, allocate, extend, release, no_block, write, arrivals, holders, owned, left_all,
}
use rust_go_gc.SweepBuffer.Growers.Exclusion.{growers-exclude}
use rust_go_gc.SweepBuffer.Growers.Bound.{growers-bound}
use rust_go_gc.SweepBuffer.Growers.OneBlock.{IsNext, room}
use rust_go_gc.SweepBuffer.Growers.Progress.{Goes}
use rust_go_gc.SweepBuffer.Growers.Landed.{counts}
use rust_go_gc.SweepBuffer.Growers.Astray.{AllAt, growers-one_astray}
use rust_go_gc.SweepBuffer.Growers.Done.{IsPushed, growers-one_block, growers-finish}
use rust_go_gc.SweepBuffer.Growers.Poisoned.{IsFrozen, growers-poisoned}

-- A spine with room for blocks, and none yet.
abbrev spine_of : (index spine_length : ℕ) → SweepBuffer
spine_of index spine_length = record {
  index = index;
  spine_length = spine_length;
  spine_cap = 256;
  spine = 4096;
}

abbrev memory : (brk limit : ℕ) → Offheap
memory brk limit = record { words = λ q. 0; brk = brk; limit = limit }

abbrev empty_spine : LockedBuffer
empty_spine = with_buffer (spine_of 0 0) open_lock

module _ {ps₀ : List Grower} {s₀ : LockedBuffer} {o₀ : Offheap} {n : ℕ} {p q : Grower}
    {s : LockedBuffer} {o : Offheap} {p' : Grower} {s' : LockedBuffer} {o' : Offheap} where
  first :
      Run (Move true) ps₀ s₀ o₀ n (p ∷ q ∷ []) s o
      → Move true p s o p' s' o'
      → Run (Move true) ps₀ s₀ o₀ (suc n) (p' ∷ q ∷ []) s' o'
  first run mv = later _ _ _ _ _ _ _ run (here _ _ _ _ _ _ _ mv)

  second :
      Run (Move true) ps₀ s₀ o₀ n (q ∷ p ∷ []) s o
      → Move true p s o p' s' o'
      → Run (Move true) ps₀ s₀ o₀ (suc n) (q ∷ p' ∷ []) s' o'
  second run mv = later _ _ _ _ _ _ _ run (there _ _ _ _ _ _ _ (here _ _ _ _ _ _ _ mv))

-- Both threads see an empty spine; the first one has the lock.
both_see :
    (o : Offheap)
    → Run
        (Move true)
        (arrivals (16 ∷ 24 ∷ []))
        empty_spine
        o
        5
        (holding 16 0 ∷ observed 24 1 0 ∷ [])
        (with_buffer (spine_of 2 0) held)
        o
both_see o =
    first
      (second
        (first
          (second (first start (claim 16 (spine_of 0 0) open_lock o))
            (claim 24 (spine_of 1 0) open_lock o))
          (observe 16 0 0 (with_buffer (spine_of 2 0) open_lock) o (omega arith)))
        (observe 24 1 0 (with_buffer (spine_of 2 0) open_lock) o (omega arith)))
      (acquire 16 0 0 (spine_of 2 0) o (omega arith))

no_growth : (o : Offheap) → ensure_cap true 0 (spine_of 2 0) o ≡ ok (spine_of 2 0, o)
unfolding ensure_cap
no_growth o = refl

-- The first one looks again, and finds that the spine has the capacity.
has_cap :
    (o : Offheap)
    → Run
        (Move true)
        (arrivals (16 ∷ 24 ∷ []))
        empty_spine
        o
        7
        (grown 16 0 ∷ observed 24 1 0 ∷ [])
        (with_buffer (spine_of 2 0) held)
        o
has_cap o =
    first (first (both_see o) (look 16 0 (with_buffer (spine_of 2 0) held) o))
      (grow 16 0 0 (spine_of 2 0) held o (spine_of 2 0) o (omega arith) (no_growth o))

adds_block :
    Run
      (Move true)
      (arrivals (16 ∷ 24 ∷ []))
      empty_spine
      (memory 8192 16384)
      9
      (extended 16 0 8192 ∷ observed 24 1 0 ∷ [])
      (with_buffer (spine_of 2 1) held)
      (memory 12288 16384)
unfolding alloc
adds_block =
    first
      (first (has_cap (memory 8192 16384))
        (allocate 16 0 (with_buffer (spine_of 2 0) held) (memory 8192 16384)))
      (extend 16 0 8192 (spine_of 2 0) held (memory 12288 16384))

block_found : get_spine_block 0 (spine_of 2 1) ≡ ok 4096
unfolding get_spine_block
block_found = refl

-- The second one gets the lock after that, and adds none.
second_finds :
    Run
      (Move true)
      (arrivals (16 ∷ 24 ∷ []))
      empty_spine
      (memory 8192 16384)
      14
      (located 16 0 8192 ∷ located 24 1 4096 ∷ [])
      (with_buffer (spine_of 2 1) open_lock)
      (memory 12288 16384)
second_finds =
    let o = memory 12288 16384 in
    let b = spine_of 2 1 in
    second
      (second
        (second
          (second (first adds_block (release 16 0 8192 b held o (omega arith)))
            (acquire 24 1 0 b o (omega arith)))
          (look 24 1 (with_buffer b held) o))
        (again 24 1 1 b held o (omega arith)))
      (find 24 1 1 4096 (with_buffer b open_lock) o (omega arith) block_found)

abbrev both_written : Offheap
both_written = store 4104 24 (store 8192 16 (memory 12288 16384))

both_pushed :
    Run
      (Move true)
      (arrivals (16 ∷ 24 ∷ []))
      empty_spine
      (memory 8192 16384)
      16
      (pushed 16 0 ∷ pushed 24 1 ∷ [])
      (with_buffer (spine_of 2 1) open_lock)
      both_written
both_pushed =
    second
      (first second_finds
        (write 16 0 8192 (with_buffer (spine_of 2 1) open_lock) (memory 12288 16384)))
      (write 24 1 4096 (with_buffer (spine_of 2 1) open_lock) (store 8192 16 (memory 12288 16384)))

-- Without memory for the block, the first one is about to panic with the guard.
no_memory_left :
    Run
      (Move true)
      (arrivals (16 ∷ 24 ∷ []))
      empty_spine
      (memory 8192 8192)
      9
      (extended 16 0 0 ∷ observed 24 1 0 ∷ [])
      (with_buffer (spine_of 2 1) held)
      (memory 8192 8192)
unfolding alloc
no_memory_left =
    let o = memory 8192 8192 in
    first (first (has_cap o) (allocate 16 0 (with_buffer (spine_of 2 0) held) o))
      (extend 16 0 0 (spine_of 2 0) held o)

no_growth_alone :
    ensure_cap true 0 (spine_of 1 0) (memory 8192 8192) ≡ ok (spine_of 1 0, memory 8192 8192)
unfolding ensure_cap
no_growth_alone = refl

-- The first one panics before the second one arrives.
panics_alone :
    Run
      (Move true)
      (arrivals (16 ∷ 24 ∷ []))
      empty_spine
      (memory 8192 8192)
      8
      (panicked 16 0 ∷ arriving 24 ∷ [])
      (with_buffer (spine_of 1 1) poisoned)
      (memory 8192 8192)
unfolding alloc
panics_alone =
    let o = memory 8192 8192 in
    let b = spine_of 1 0 in
    first
      (first
        (first
          (first
            (first
              (first
                (first (first start (claim 16 (spine_of 0 0) open_lock o))
                  (observe 16 0 0 (with_buffer b open_lock) o (omega arith)))
                (acquire 16 0 0 b o (omega arith)))
              (look 16 0 (with_buffer b held) o))
            (grow 16 0 0 b held o b o (omega arith) no_growth_alone))
          (allocate 16 0 (with_buffer b held) o))
        (extend 16 0 0 b held o))
      (no_block 16 0 (spine_of 1 1) held o)

-- The second one then finds the block that was counted, and returns.
pushed_nowhere :
    Run
      (Move true)
      (arrivals (16 ∷ 24 ∷ []))
      empty_spine
      (memory 8192 8192)
      12
      (panicked 16 0 ∷ pushed 24 1 ∷ [])
      (with_buffer (spine_of 2 1) poisoned)
      (store 4104 24 (memory 8192 8192))
pushed_nowhere =
    let o = memory 8192 8192 in
    let s = with_buffer (spine_of 2 1) poisoned in
    second
      (second
        (second (second panics_alone (claim 24 (spine_of 1 1) poisoned o))
          (observe 24 1 1 s o (omega arith)))
        (find 24 1 1 4096 s o (omega arith) block_found))
      (write 24 1 4096 s o)

empty_spine-IsNext : IsNext 0 2 empty_spine (memory 8192 16384)
empty_spine-IsNext = record {
  opened = refl;
  next = refl;
  from = omega arith;
  to = omega arith;
  fits = omega arith;
  below = omega arith;
  placed = omega arith;
  mapped = omega arith;
  enough = omega arith;
}

growers-exclude_example : holders (extended 16 0 8192 ∷ observed 24 1 0 ∷ []) ≡ owned held
growers-exclude_example =
    growers-exclude true (16 ∷ 24 ∷ []) empty_spine (memory 8192 16384) refl 9
      (extended 16 0 8192 ∷ observed 24 1 0 ∷ []) (with_buffer (spine_of 2 1) held)
      (memory 12288 16384) adds_block

growers-bound_example : 512 * 1 < 2 + 512
growers-bound_example =
    growers-bound true (16 ∷ 24 ∷ []) empty_spine (memory 8192 16384)
      (record {
        opened = refl;
        above = omega arith;
        from = omega arith;
        reached = omega arith;
        under = refl;
        fits = omega arith;
      })
      14 (located 16 0 8192 ∷ located 24 1 4096 ∷ []) (with_buffer (spine_of 2 1) open_lock)
      (memory 12288 16384) second_finds

growers-one_block_example :
    AllOf IsPushed (pushed 16 0 ∷ pushed 24 1 ∷ [])
    × (spine_of 2 1 ≡ record (spine_of 0 0) { index = 0 + 2; spine_length = 0 + 1 })
    × (both_written.brk ≡ 8192 + 4096)
growers-one_block_example =
    growers-one_block true 0 16 (24 ∷ []) empty_spine (memory 8192 16384) empty_spine-IsNext 16
      (pushed 16 0) (pushed 24 1 ∷ []) (with_buffer (spine_of 2 1) open_lock) both_written
      both_pushed refl

growers-finish_example :
    (9 + left_all (extended 16 0 8192 ∷ observed 24 1 0 ∷ []) ≤ 9 * 2)
    × (0 < left_all (extended 16 0 8192 ∷ observed 24 1 0 ∷ [])
        → Goes true
            (extended 16 0 8192 ∷ observed 24 1 0 ∷ [])
            (with_buffer (spine_of 2 1) held)
            (memory 12288 16384))
growers-finish_example =
    growers-finish true 0 (16 ∷ 24 ∷ []) empty_spine (memory 8192 16384) empty_spine-IsNext 9
      (extended 16 0 8192 ∷ observed 24 1 0 ∷ []) (with_buffer (spine_of 2 1) held)
      (memory 12288 16384) adds_block

growers-poisoned_example :
    IsFrozen
      (with_buffer (spine_of 2 1) held)
      (memory 8192 8192)
      (with_buffer (spine_of 2 1) poisoned)
      (memory 8192 8192)
    × IsFrozen
        (with_buffer (spine_of 2 1) held)
        (memory 8192 8192)
        (with_buffer (spine_of 2 1) poisoned)
        (memory 8192 8192)
growers-poisoned_example =
    growers-poisoned true (16 ∷ 24 ∷ []) empty_spine (memory 8192 8192) refl 9 [] (extended 16 0 0)
      (observed 24 1 0 ∷ []) (with_buffer (spine_of 2 1) held) (memory 8192 8192) no_memory_left
      refl 16 0 (with_buffer (spine_of 2 1) poisoned) (memory 8192 8192)
      (here _ _ _ _ _ _ _ (no_block 16 0 (spine_of 2 1) held (memory 8192 8192))) 1
      (panicked 16 0 ∷ panicked 24 1 ∷ []) (with_buffer (spine_of 2 1) poisoned) (memory 8192 8192)
      (later _ _ _ _ _ _ _ start (
        there _ _ _ _ _ _ _
          (here _ _ _ _ _ _ _ (refuse 24 1 0 (spine_of 2 1) (memory 8192 8192) (omega arith)))))

-- The span of the first thread lies in the new block, where no pop looks for it.
growers-one_astray_example :
    (fs : List Bool) × (counts (room empty_spine-IsNext) fs ≡ 1)
    × AllAt both_written.words 4096 8192 fs (pushed 16 0 ∷ pushed 24 1 ∷ [])
growers-one_astray_example =
    growers-one_astray true 0 16 (24 ∷ []) empty_spine (memory 8192 16384) empty_spine-IsNext
      (inl (omega arith)) 16 (pushed 16 0) (pushed 24 1 ∷ []) (with_buffer (spine_of 2 1) open_lock)
      both_written both_pushed refl
