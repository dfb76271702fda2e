-- ===== src/SweepBuffer.antt =====
-- The sweep buffer of src/sweep_buffer.rs over off-heap memory: `SweepBuffer::new`,
-- `get_spine_block`, `push` with `allocate_block` and `grow_spine`, and `pop`.
pub mod Slot
pub mod Stack
pub mod Fresh
pub mod Growth
pub mod Refine
pub mod Ends
pub mod Threads
pub mod Pushers
pub mod Poppers
pub mod Growers
use rust_go_gc.Prelude.{
  ℕ, min, ◌+◌, ◌-◌, ◌*◌, ◌/◌, ◌%◌, ◌^◌, ◌&&◌, Bool, Option, none, some, ltb, leb, ◌==◌,
  if◌then◌else◌,
}
use rust_go_gc.Prelude.Outcome.{
  Outcome, ok, panic, Panic, undefined_behaviour, ◌>>=◌, ◌>>◌, panic_if,
}
use rust_go_gc.Prelude.Word.{word, mul_word, atomic_add, atomic_sub}
use rust_go_gc.Span.{MemorySpan}

abbrev pub gc_sweep_block_entries : ℕ
gc_sweep_block_entries = 512

abbrev pub gc_sweep_buf_init_spine_cap : ℕ
gc_sweep_buf_init_spine_cap = 256

-- Memory outside the heap: the 8-byte word at each address, and the allocator of `std::alloc`,
-- which hands out the addresses from `brk` on, up to `limit`, with what words lie there.
pub record Offheap : Type 0 where
  pub words : ℕ → ℕ
  pub brk : ℕ
  pub limit : ℕ

unfoldable pub store : ℕ → ℕ → Offheap → Offheap
store a v o = record o { words = λ q. if q == a then v else o.words q }

-- `alloc`: null if the memory is exhausted.
unfoldable pub alloc : ℕ → Offheap → ℕ × Offheap
alloc size o =
    if leb (o.brk + size) o.limit then (o.brk, record o { brk = o.brk + size }) else (0, o)

-- `realloc(ptr, layout, new_size)`, of a block allocated with `original` bytes: undefined unless
-- the layout is the one that the block was allocated with.
unfoldable pub realloc : (ptr original layout new_size : ℕ) → Offheap → Outcome (ℕ × Offheap)
unfolding alloc
realloc ptr original layout new_size o =
    if original == layout
    then (let (p, o') = alloc new_size o in
        ok (
          p,
          record o' {
            words = λ q.
                if leb p q && ltb (q - p) (min layout new_size)
                then o.words (ptr + (q - p))
                else o.words q;
          },
        ))
    else undefined_behaviour

-- The fields of a buffer. The atomics and the mutex hold these numbers; `spine` is an address.
pub record SweepBuffer : Type 0 where
  pub index : ℕ
  pub spine_length : ℕ
  pub spine_cap : ℕ
  pub spine : ℕ

unfoldable pub new : SweepBuffer
new = record { index = 0; spine_length = 0; spine_cap = 0; spine = 0 }

-- `get_spine_block`: the address of the slot is transmuted into an `AtomicPtr`, whose `load` gives
-- that same address; the slot is not read.
unfoldable pub get_spine_block : ℕ → SweepBuffer → Outcome ℕ
get_spine_block top b =
    let block = b.spine + 8 * top in if block == 0 then panic Panic.null_block else ok block

module _ (checks : Bool) where
  -- `grow_spine`, with the store of the new capacity that its caller makes.
  unfoldable pub grow_spine : SweepBuffer → Offheap → Outcome (SweepBuffer × Offheap)
  unfolding mul_word alloc realloc
  grow_spine b o = do
    new_cap ←
        if b.spine_cap == 0 then ok gc_sweep_buf_init_spine_cap else mul_word checks b.spine_cap 2
    panic_if (leb (2 ^ 63) (new_cap * 8)) Panic.no_spine_layout
    (new_spine, o') ←
        if b.spine_cap == 0
        then ok (alloc (new_cap * 8) o)
        else realloc b.spine (b.spine_cap * 8) (new_cap * 8) new_cap o
    ok (record b { spine = new_spine; spine_cap = new_cap }, o')

  -- `allocate_block`: the new block's address is stored into a local `AtomicPtr` that was
  -- transmuted from the slot's address, so the slot itself is not written.
  unfoldable pub allocate_block : ℕ → SweepBuffer → Offheap → Outcome (ℕ × SweepBuffer × Offheap)
  unfolding grow_spine
  allocate_block spine_length b o = do
    (b', o') ← if spine_length == b.spine_cap then grow_spine b o else ok (b, o)
    let (block, o'') = alloc (gc_sweep_block_entries * 8) o'
    let grown = record b' { spine_length = atomic_add b'.spine_length 1 }
    if block == 0 then panic Panic.no_block else ok (block, grown, o'')

  -- The loop that finds the block. `observed` is the spine's length as the first load saw it; the
  -- load under the lock sees the length that the buffer has.
  unfoldable pub find_block :
      (observed top : ℕ) → SweepBuffer → Offheap → Outcome (ℕ × SweepBuffer × Offheap)
  unfolding allocate_block get_spine_block
  find_block observed top b o =
      if ltb top observed
      then (do block ← get_spine_block top b; ok (block, b, o))
      else if ltb top b.spine_length
      then (do block ← get_spine_block top b; ok (block, b, o))
      else allocate_block b.spine_length b o

  unfoldable pub push_observing :
      (observed : ℕ) → MemorySpan → SweepBuffer → Offheap → Outcome (SweepBuffer × Offheap)
  unfolding find_block store
  push_observing observed span b o = do
    let cursor = b.index
    let top = cursor / gc_sweep_block_entries
    let bottom = cursor % gc_sweep_block_entries
    (block, b', o') ← find_block observed top (record b { index = atomic_add cursor 1 }) o
    ok (b', store (block + 8 * bottom) span o')

  -- `push` with no other thread at work.
  unfoldable pub push : MemorySpan → SweepBuffer → Offheap → Outcome (SweepBuffer × Offheap)
  unfolding push_observing
  push span b o = push_observing b.spine_length span b o

-- `Option<MemorySpan>` is one word, 0 for `None`.
unfoldable pub as_option : ℕ → Option MemorySpan
as_option w = if w == 0 then none else some w

unfoldable pub pop : SweepBuffer → Offheap → Outcome (Option MemorySpan × SweepBuffer × Offheap)
unfolding get_spine_block store as_option
pop b o =
    let decremented = record b { index = atomic_sub b.index 1 } in
    if b.index == 0
    then ok (none, record decremented { index = atomic_add decremented.index 1 }, o)
    else (do
      let cursor = b.index - 1
      let top = cursor / gc_sweep_block_entries
      let bottom = cursor % gc_sweep_block_entries
      block ← get_spine_block top decremented
      ok (as_option (o.words (block + 8 * bottom)), decremented, store (block + 8 * bottom) 0 o))
