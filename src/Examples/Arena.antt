-- ===== src/Examples/Arena.antt =====
-- Instances for the address arithmetic of src/memory_allocator.rs and src/memory_heap.rs.
use rust_go_gc.Prelude.{
  ◌/◌, none, ◌-◌, ◌*◌, ◌^◌, ◌<◌, ◌≤◌, ◌≡◌, ◌≢◌, ◌↔◌, ◌⊎◌, inr, refl, true, false, some, arith,
  if◌then◌else◌,
}
use rust_go_gc.Prelude.Outcome.{ok, panic, Panic}
use rust_go_gc.Prelude.Word.{word, add_word}
use rust_go_gc.Arena.{
  Target, bits_64, bits_32, linux, windows, aix, other_arch, is_64, ArenaConstants, arena_constants,
  constants_64, heap_address_bits, log_heap_arena_bytes, arena_level_1_bits, arena_base_offset,
  heap_arena_bitmap_bytes, max_allocation_size, is_mips, is_aix, heap_arena_bytes, pages_per_arena,
  level_2_bits, arena_index, arena_level_2,
}
use rust_go_gc.Arena.Targets.{IsDefined, arena_constants-IsDefined, row_of, arena_constants-Row}
use rust_go_gc.Arena.Index.{arena_index_bounds, arena_index-overflow, arena_level_2-one_bit}

abbrev linux_64 : Target
linux_64 = record { pointer_width = bits_64; os = linux; arch = other_arch }

run_constants : arena_constants linux_64 ≡ some constants_64
unfolding arena_constants heap_address_bits log_heap_arena_bytes arena_level_1_bits
    arena_base_offset
run_constants = refl

-- The values that 64-bit Windows means to have.
abbrev two_levels : ArenaConstants
two_levels = record {
  address_bits = 48;
  log_arena_bytes = 22;
  level_1_bits = 6;
  base_offset = 2 ^ 47;
}

arena_constants-IsDefined_example :
    IsDefined linux_64
    ↔ ((linux_64.pointer_width ≡ bits_32) ⊎ ((linux_64.os ≢ windows) × (linux_64.os ≢ aix)))
arena_constants-IsDefined_example = arena_constants-IsDefined linux_64

linux_row : row_of linux_64 ≡ record {
  address_bits = 48;
  arena_bytes = 2 ^ 26;
  level_1_entries = 1;
  level_2_entries = 2 ^ 22;
}
linux_row = refl

arena_constants-Row_example :
    (48 ≡ (row_of linux_64).address_bits)
    × (heap_arena_bytes constants_64
        ≡ (if is_64 linux_64.pointer_width then (row_of linux_64).arena_bytes else 1))
    × (2 ^ 0 ≡ (if is_aix linux_64.os then 4096 else (row_of linux_64).level_1_entries))
    × (2 ^ level_2_bits constants_64 ≡ (
        if is_64 linux_64.pointer_width
        then (row_of linux_64).level_2_entries
        else (row_of linux_64).arena_bytes * (row_of linux_64).level_2_entries / 2 ^ 0))
    × (pages_per_arena constants_64 * 8192
        ≡ (if is_64 linux_64.pointer_width then (row_of linux_64).arena_bytes else 0))
    × (heap_arena_bitmap_bytes linux_64.pointer_width constants_64 * 32
        ≡ (if is_64 linux_64.pointer_width then (row_of linux_64).arena_bytes else 0))
    × (max_allocation_size linux_64.pointer_width constants_64 ≡ (
        if is_64 linux_64.pointer_width
        then some (2 ^ (row_of linux_64).address_bits)
        else (if is_mips linux_64.arch then some (2 ^ 31 - 1) else none)))
arena_constants-Row_example =
    arena_constants-Row linux_64 constants_64 run_constants (inr (λ e. cc))

run_index : arena_index constants_64 false 1048576 ≡ ok (2 ^ 21)
unfolding arena_index add_word heap_arena_bytes
run_index = refl

arena_index_bounds_example :
    (arena_level_2 constants_64 (2 ^ 21) < 2 ^ level_2_bits constants_64)
    ↔ ((1048576 < 2 ^ 47) ⊎ (word - 2 ^ 47 ≤ 1048576))
arena_index_bounds_example = arena_index_bounds 1048576 (2 ^ 21) (omega arith) run_index

arena_index-overflow_example : arena_index constants_64 true (2 ^ 64 - 4096) ≡ panic Panic.overflow
arena_index-overflow_example = arena_index-overflow (2 ^ 64 - 4096) (omega arith) (omega arith)

five_has_one_bit :
    (arena_level_2 two_levels 5 ≡ 0)
    ⊎ (arena_level_2 two_levels 5 ≡ 2 ^ (level_2_bits two_levels - 1))
five_has_one_bit = arena_level_2-one_bit two_levels 5 (omega arith)
