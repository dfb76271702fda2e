-- ===== src/Span/Class.antt =====
-- `SpanClass` of src/memory_span.rs, and the constants of src/size_classes.rs.
use Prim.Native.Nat.{bit_and, bit_or}
pub mod Laws
use rust_go_gc.Prelude.{
  ℕ, ◌+◌, ◌*◌, ◌/◌, ◌%◌, ◌^◌, ◌<◌, ◌≡◌, refl, Bool, true, false, not, arith, ◌==◌, if◌then◌else◌,
}
use rust_go_gc.Prelude.Bits.{bit_and_mask}

abbrev pub max_small_size : ℕ
max_small_size = 32768

abbrev pub small_size_div : ℕ
small_size_div = 8

abbrev pub small_size_max : ℕ
small_size_max = 1024

abbrev pub large_size_div : ℕ
large_size_div = 128

abbrev pub page_shift : ℕ
page_shift = 13

abbrev pub num_size_classes : ℕ
num_size_classes = 67

abbrev pub tiny_size_class : ℕ
tiny_size_class = 2

-- `(self.0 >> 1) as i8`: a class is a `u8`, so the shifted value is below 128 and keeps its value.
unfoldable pub size_class : ℕ → ℕ
size_class class = class / 2

-- `(self.0 & 1) != 0`.
unfoldable pub no_scan : ℕ → Bool
no_scan class = not (bit_and class 1 == 0)

-- `NUM_SPAN_CLASSES` and `TINY_SPAN_CLASS`: shifts of a `u8`.
unfoldable pub num_span_classes : ℕ
num_span_classes = num_size_classes * 2 % 2 ^ 8

unfoldable pub tiny_span_class : ℕ
tiny_span_class = bit_or (tiny_size_class * 2 % 2 ^ 8) 1
