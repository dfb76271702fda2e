-- ===== src/Heap/Buffers.antt =====
-- `get_pushable_sweep_buffer` and `get_popable_sweep_buffer`: the two buffers trade roles.
use rust_go_gc.Prelude.{ℕ, ◌+◌, ◌-◌, ◌/◌, ◌%◌, ◌≡◌, arith, ◌==◌, if◌then◌else◌}
use rust_go_gc.Prelude.Word.{word}
use rust_go_gc.SweepBuffer.{SweepBuffer}
use rust_go_gc.Heap.{MemoryHeap}

-- The index of the buffer for pushes, `generation / 2 % 2`, and of that for pops,
-- `1 - generation / 2 % 2`.
unfoldable pub pushable_index : ℕ → ℕ
pushable_index generation = generation / 2 % 2

unfoldable pub popable_index : ℕ → ℕ
popable_index generation = 1 - generation / 2 % 2

-- `self.sweep_buffers[i]`, for reading and for writing through the shared reference.
unfoldable pub buffer : ℕ → MemoryHeap → SweepBuffer
buffer i h = if i == 0 then h.sweep_buffer_0 else h.sweep_buffer_1

unfoldable pub set_buffer : ℕ → SweepBuffer → MemoryHeap → MemoryHeap
set_buffer i b h =
    if i == 0 then record h { sweep_buffer_0 = b } else record h { sweep_buffer_1 = b }

pub buffer-set_buffer : (i : ℕ) (b : SweepBuffer) (h : MemoryHeap) → buffer i (set_buffer i b h) ≡ b
unfolding buffer set_buffer
buffer-set_buffer i b h = ground arith

-- In every generation one buffer is for pushes and the other for pops, a write to either leaves the
-- other, and two generations on, which is one collection, the wrap of the counter included, each
-- has the other's role.
pub buffers_trade :
    (h : MemoryHeap) (g : ℕ) (b : SweepBuffer)
    → (buffer (pushable_index g) (set_buffer (pushable_index g) b h) ≡ b)
      × (buffer (popable_index g) (set_buffer (pushable_index g) b h) ≡ buffer (popable_index g) h)
      × (buffer (popable_index g) (set_buffer (popable_index g) b h) ≡ b)
      × (buffer (pushable_index g) (set_buffer (popable_index g) b h) ≡ buffer (pushable_index g) h)
      × (pushable_index ((g + 2) % word) ≡ popable_index g)
      × (popable_index ((g + 2) % word) ≡ pushable_index g)
unfolding pushable_index popable_index buffer set_buffer
buffers_trade h g b = ground arith
