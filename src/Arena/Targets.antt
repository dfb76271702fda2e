-- ===== src/Arena/Targets.antt =====
-- Which targets have the arena constants, and what those say.
use rust_go_gc.Prelude.{
  ℕ, ◌/◌, ◌-◌, ◌*◌, ◌^◌, ◌≡◌, ◌≢◌, ◌↔◌, ◌⊎◌, [], ◌∷◌, none, some, arith, if◌then◌else◌,
}
use mathlib.Core.List
use rust_go_gc.Arena.{
  log_heap_arena_bytes, arena_level_1_bits, Target, PointerWidth, bits_32, bits_64, is_64, Os,
  linux, windows, aix, other_os, Arch, wasm32, mips, other_arch, arena_constants, ArenaConstants,
  heap_arena_bytes, level_2_bits, pages_per_arena, heap_arena_bitmap_bytes, max_allocation_size,
  is_mips, is_aix,
}

abbrev target : PointerWidth → Os → Arch → Target
target w o a = record { pointer_width = w; os = o; arch = a }

-- Whether one value of every constant is defined.
abbrev pub IsDefined : Target → Type 0
IsDefined t = arena_constants t ≢ none

-- Every constant has one definition exactly on the targets with 32-bit pointers and on those that
-- are neither Windows nor AIX; the two are told apart in a build for the others by a second
-- definition, or by a missing one.
pub arena_constants-IsDefined :
    (t : Target) → IsDefined t ↔ ((t.pointer_width ≡ bits_32) ⊎ ((t.os ≢ windows) × (t.os ≢ aix)))
unfolding arena_constants
arena_constants-IsDefined t = ground arith

-- A row of the table in the comment above `HEAP_ARENA_BYTES`: the bits of an address, the bytes of an
-- arena, and the entries of the two levels of the arena map.
pub record Row : Type 0 where
  pub address_bits : ℕ
  pub arena_bytes : ℕ
  pub level_1_entries : ℕ
  pub level_2_entries : ℕ

abbrev row : (address_bits arena_bytes level_1_entries level_2_entries : ℕ) → Row
row a b c d = record { address_bits = a; arena_bytes = b; level_1_entries = c; level_2_entries = d }

-- `4MB` and `4M` of the table.
abbrev mega : ℕ
mega = 2 ^ 20

abbrev row_64 : Os → Row
row_64 linux = row 48 (64 * mega) 1 (4 * mega)
row_64 other_os = row 48 (64 * mega) 1 (4 * mega)
row_64 aix = row 60 (256 * mega) 4096 (4 * mega)
row_64 windows = row 48 (4 * mega) 64 (1 * mega)

abbrev row_32 : Arch → Row
row_32 wasm32 = row 32 (4 * mega) 1 1024
row_32 other_arch = row 32 (4 * mega) 1 1024
row_32 mips = row 31 (4 * mega) 1 512

-- The row of a target.
abbrev pub row_of : Target → Row
row_of t = if is_64 t.pointer_width then row_64 t.os else row_32 t.arch

-- On 64-bit Windows and AIX, where the crate does not compile, the size of an arena has two
-- definitions, the table's and that of the other 64-bit targets; the first level has the table's.
log_heap_arena_bytes-twice :
    (t : Target)
    → t.pointer_width ≡ bits_64
    → (t.os ≡ windows) ⊎ (t.os ≡ aix)
    → (List.map (λ (n : ℕ). 2 ^ n) (log_heap_arena_bytes t)
        ≡ (row_of t).arena_bytes ∷ 64 * mega ∷ [])
      × (List.map (λ (n : ℕ). 2 ^ n) (arena_level_1_bits t) ≡ (row_of t).level_1_entries ∷ [])
unfolding log_heap_arena_bytes arena_level_1_bits
log_heap_arena_bytes-twice t wide twice = ground arith

-- The table against the constants, on a target for which the crate has one value of each, where
-- wasm32 has 32-bit pointers. The bits of an address are those of the table. With 64-bit pointers the
-- size of an arena and the entries of both levels are those of the table too. With 32-bit pointers an
-- arena is one byte where the table has 4 MB, and holds no page and no bitmap; the first level has the
-- entries of the table, but on AIX 4096; and the second level has as many as make up the address space
-- of the table. The largest allocation is that address space with 64-bit pointers, one byte less on
-- 32-bit MIPS, and does not compile on any other 32-bit target.
pub arena_constants-Row :
    (t : Target) (c : ArenaConstants)
    → arena_constants t ≡ some c
    → (t.pointer_width ≡ bits_32) ⊎ (t.arch ≢ wasm32)
    → (c.address_bits ≡ (row_of t).address_bits)
      × (heap_arena_bytes c ≡ (if is_64 t.pointer_width then (row_of t).arena_bytes else 1))
      × (2 ^ c.level_1_bits ≡ (if is_aix t.os then 4096 else (row_of t).level_1_entries))
      × (2 ^ level_2_bits c ≡ (
          if is_64 t.pointer_width
          then (row_of t).level_2_entries
          else (row_of t).arena_bytes * (row_of t).level_2_entries / 2 ^ c.level_1_bits))
      × (pages_per_arena c * 8192 ≡ (if is_64 t.pointer_width then (row_of t).arena_bytes else 0))
      × (heap_arena_bitmap_bytes t.pointer_width c * 32
          ≡ (if is_64 t.pointer_width then (row_of t).arena_bytes else 0))
      × (max_allocation_size t.pointer_width c ≡ (
          if is_64 t.pointer_width
          then some (2 ^ (row_of t).address_bits)
          else (if is_mips t.arch then some (2 ^ 31 - 1) else none)))
unfolding arena_constants heap_arena_bytes level_2_bits pages_per_arena heap_arena_bitmap_bytes
    max_allocation_size
arena_constants-Row t c h real = ground arith
