-- ===== src/Heap/New.antt =====
-- `StaticVec::new` of src/static_vec.rs and `MemoryHeap::new`. Mapping memory is the crate
-- memmap's: `map_anon n` is the address of a map of `n` bytes, or none where that is refused.
use rust_go_gc.Prelude.{ℕ, ◌-◌, ◌*◌, ◌/◌, ◌^◌, ◌<◌, ◌≡◌, Bool, false, Option, none, some}
use rust_go_gc.Prelude.Outcome.{Outcome, ok, panic, Panic, ◌>>=◌}
use rust_go_gc.Prelude.Word.{word, mul_word, mul_word-ok}
use rust_go_gc.SweepBuffer
use rust_go_gc.Span.Class.{num_span_classes, page_shift}
use rust_go_gc.Span.Pages.{page_size}
use rust_go_gc.Heap.{StaticVec, MemoryHeap, memory_span_list, memory_central, filled}

-- The result is none for an error. The size that is computed is not used.
unfoldable pub static_vec_new :
    Bool → (element_size : ℕ) → (ℕ → Option ℕ) → (minimum_capacity : ℕ) → Outcome (Option StaticVec)
unfolding mul_word
static_vec_new checks element_size map_anon minimum_capacity = do
  minimum_size ← mul_word checks minimum_capacity element_size
  let size = minimum_size / page_size
  elim (map_anon 0) [
    | some buf ↦ ok (some (record { buffer = buf; capacity = 0; vec_length = 0 }))
    | none ↦ ok none
  ]

-- `.expect(..)` of a result.
abbrev expect : Option StaticVec → Outcome StaticVec
expect (some v) = ok v
expect none = panic Panic.no_heap_spans

-- `MAX_MEMORY_HEAP_LIST`.
abbrev pub max_memory_heap_list : ℕ
max_memory_heap_list = 2 ^ (20 - page_shift)

unfoldable pub new_heap : Bool → (ℕ → Option ℕ) → Outcome MemoryHeap
unfolding static_vec_new SweepBuffer.new num_span_classes
new_heap checks map_anon = do
  v ← static_vec_new checks 8 map_anon 0
  spans ← expect v
  ok (record {
    protected = record {
      free = record { treap = 0 };
      scav = record { treap = 0 };
      busy = filled max_memory_heap_list memory_span_list;
      busy_large = memory_span_list;
      static_spans = spans;
      pages_in_use = 0;
      arenas = λ i. none;
    };
    sweep_generation = 0;
    sweep_done = false;
    sweepers = 0;
    sweep_buffer_0 = SweepBuffer.new;
    sweep_buffer_1 = SweepBuffer.new;
    pages_swept = 0;
    arena_start = 0;
    arena_used = 0;
    central = filled num_span_classes memory_central;
  })

-- The capacity that is asked for plays no part: any two requests whose size in bytes is a word have
-- the same result, whatever mapping memory gives.
pub static_vec_new-same :
    (checks : Bool) (element_size : ℕ) (map_anon : ℕ → Option ℕ) (n k : ℕ)
    → n * element_size < word
    → k * element_size < word
    → static_vec_new checks element_size map_anon n ≡ static_vec_new checks element_size map_anon k
unfolding static_vec_new
static_vec_new-same checks element_size map_anon n k hn hk =
    rw (mul_word-ok checks n element_size hn, mul_word-ok checks k element_size hk)
