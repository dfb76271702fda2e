-- ===== src/Span/Class/Laws.antt =====
-- Decoding a span class.
use rust_go_gc.Prelude.{ℕ, ◌+◌, ◌*◌, ◌<◌, ◌≡◌, ◌↔◌, refl, true, arith, if◌then◌else◌}
use rust_go_gc.Prelude.Bits.{bit_and_mask}
use rust_go_gc.Span.Class.{
  size_class, no_scan, num_span_classes, num_size_classes, tiny_span_class, tiny_size_class,
}

-- A span class is told by its size class and its scan bit; it is one of the `NUM_SPAN_CLASSES`
-- exactly if its size class is one of the `NUM_SIZE_CLASSES`, and two classes with the same parts
-- are the same. The tiny class is the tiny size class without scanning.
pub span_class_parts :
    (class : ℕ)
    → (class ≡ size_class class * 2 + (if no_scan class then 1 else 0))
      × ((class < num_span_classes) ↔ (size_class class < num_size_classes))
      × (size_class tiny_span_class ≡ tiny_size_class)
      × (no_scan tiny_span_class ≡ true)
unfolding size_class no_scan num_span_classes tiny_span_class
span_class_parts class = (ground (arith, bit_and_mask 1 class), ground arith, refl, refl)
