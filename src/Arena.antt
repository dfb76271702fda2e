-- ===== src/Arena.antt =====
-- The arena constants of src/memory_allocator.rs, which depend on the target, and the arithmetic
-- on addresses of src/memory_heap.rs. Each `#[cfg(..)] const` is an entry of a list that is there
-- where its condition holds: Rust needs exactly one.
pub mod Targets
pub mod Index
use Prim.Native.Nat.{bit_and}
use rust_go_gc.Prelude.{
  ℕ, ◌+◌, ◌-◌, ◌*◌, ◌/◌, ◌%◌, ◌^◌, Bool, true, false, not, ◌&&◌, ◌||◌, Option, none, some, List, [],
  ◌∷◌, ◌++◌, ◌==◌, ltb, if◌then◌else◌,
}
use mathlib.Core.Option
use rust_go_gc.Prelude.Outcome.{Outcome, ok, panic, Panic, ◌>>=◌}
use rust_go_gc.Prelude.Word.{add_word}
use rust_go_gc.Span.Pages.{page_size}

-- `target_pointer_width`, `target_os` and `target_arch`; no architecture is called "aix".
pub data PointerWidth : Type 0 where
  bits_32 bits_64 : PointerWidth

pub data Os : Type 0 where
  linux windows aix other_os : Os

pub data Arch : Type 0 where
  wasm32 mips other_arch : Arch

pub record Target : Type 0 where
  pub pointer_width : PointerWidth
  pub os : Os
  pub arch : Arch

abbrev pub is_64 : PointerWidth → Bool
is_64 bits_64 = true
is_64 bits_32 = false

abbrev is_windows : Os → Bool
is_windows windows = true
is_windows _ = false

abbrev pub is_aix : Os → Bool
is_aix aix = true
is_aix _ = false

abbrev is_wasm32 : Arch → Bool
is_wasm32 wasm32 = true
is_wasm32 _ = false

abbrev pub is_mips : Arch → Bool
is_mips mips = true
is_mips _ = false

-- `#[cfg(condition)] const NAME: usize = value`.
abbrev cfg : Bool → ℕ → List ℕ
cfg true value = value ∷ []
cfg false value = []

unfoldable pub heap_address_bits : Target → List ℕ
heap_address_bits t =
    cfg (is_64 t.pointer_width && (not (is_wasm32 t.arch) && not (is_aix t.os))) 48
    ++ (cfg ((not (is_64 t.pointer_width) || is_wasm32 t.arch) && not (is_mips t.arch)) 32
        ++ (cfg (is_mips t.arch && not (is_64 t.pointer_width)) 31 ++ cfg false 60))

unfoldable pub log_heap_arena_bytes : Target → List ℕ
log_heap_arena_bytes t =
    cfg (is_64 t.pointer_width && is_windows t.os) (2 + 20)
    ++ (cfg (is_64 t.pointer_width && is_aix t.os) (8 + 20)
        ++ (cfg (is_64 t.pointer_width && not (is_aix t.os && is_windows t.os)) (6 + 20)
            ++ cfg (not (is_64 t.pointer_width)) 0))

unfoldable pub arena_level_1_bits : Target → List ℕ
arena_level_1_bits t =
    cfg (is_64 t.pointer_width && is_windows t.os) 6
    ++ (cfg (is_aix t.os) 12
        ++ cfg (not (is_aix t.os) && not (is_windows t.os && is_64 t.pointer_width)) 0)

unfoldable pub arena_base_offset : Target → List ℕ
arena_base_offset t = cfg (is_64 t.pointer_width) (2 ^ 47) ++ cfg (not (is_64 t.pointer_width)) 0

-- The constants of a target for which the crate compiles.
pub record ArenaConstants : Type 0 where
  pub address_bits : ℕ
  pub log_arena_bytes : ℕ
  pub level_1_bits : ℕ
  pub base_offset : ℕ

-- `HEAP_ARENA_BYTES`, `PAGES_PER_ARENA` and `ARENA_LEVEL_2_BITS`, which is also
-- `ARENA_LEVEL_1_SHIFT`.
unfoldable pub heap_arena_bytes : ArenaConstants → ℕ
heap_arena_bytes c = 2 ^ c.log_arena_bytes

unfoldable pub pages_per_arena : ArenaConstants → ℕ
unfolding heap_arena_bytes
pages_per_arena c = heap_arena_bytes c / page_size

unfoldable pub level_2_bits : ArenaConstants → ℕ
level_2_bits c = c.address_bits - c.log_arena_bytes - c.level_1_bits

-- `POINTER_SIZE`, the bytes of a reference, and `IS_64_BIT`.
abbrev pub pointer_size : PointerWidth → ℕ
pointer_size bits_64 = 8
pointer_size bits_32 = 4

abbrev pub is_64_bit : PointerWidth → Bool
is_64_bit w = pointer_size w == 8

-- `HEAP_ARENA_BITMAP_BYTES` and `ARENA_BITS`.
unfoldable pub heap_arena_bitmap_bytes : PointerWidth → ArenaConstants → ℕ
unfolding heap_arena_bytes
heap_arena_bitmap_bytes w c = heap_arena_bytes c / (pointer_size w * 8 / 2)

unfoldable pub arena_bits : ArenaConstants → ℕ
unfolding level_2_bits
arena_bits c = c.level_1_bits + level_2_bits c

-- `1 << k` of a constant; a shift by the width of a word or more does not compile.
abbrev pub one_shl : PointerWidth → ℕ → Option ℕ
one_shl w k = if ltb k (8 * pointer_size w) then some (2 ^ k) else none

-- `MAX_ALLOCATION_SIZE`, where it compiles.
unfoldable pub max_allocation_size : PointerWidth → ArenaConstants → Option ℕ
max_allocation_size bits_64 c = one_shl bits_64 c.address_bits
max_allocation_size bits_32 c = Option.map (λ (n : ℕ). n - 1) (one_shl bits_32 c.address_bits)

-- The one value that is defined; none where there is no definition, or more than one.
abbrev pub the_one : List ℕ → Option ℕ
the_one (value ∷ []) = some value
the_one _ = none

abbrev combine : Option ℕ → Option ℕ → Option ℕ → Option ℕ → Option ArenaConstants
combine (some a) (some b) (some c) (some d) =
    some (record { address_bits = a; log_arena_bytes = b; level_1_bits = c; base_offset = d })
combine _ _ _ _ = none

unfoldable pub arena_constants : Target → Option ArenaConstants
unfolding heap_address_bits log_heap_arena_bytes arena_level_1_bits arena_base_offset
arena_constants t =
    combine (the_one (heap_address_bits t)) (the_one (log_heap_arena_bytes t))
      (the_one (arena_level_1_bits t)) (the_one (arena_base_offset t))

-- The constants of a 64-bit target other than Windows and AIX.
abbrev pub constants_64 : ArenaConstants
constants_64 = record {
  address_bits = 48;
  log_arena_bytes = 26;
  level_1_bits = 0;
  base_offset = 2 ^ 47;
}

module _ (c : ArenaConstants) where
  -- `arena_index`: the sum is checked in a build with overflow checks.
  unfoldable pub arena_index : Bool → ℕ → Outcome ℕ
  unfolding add_word heap_arena_bytes
  arena_index checks p = do sum ← add_word checks p c.base_offset; ok (sum / heap_arena_bytes c)

  unfoldable pub arena_level_1 : ℕ → ℕ
  unfolding level_2_bits
  arena_level_1 i = if c.level_1_bits == 0 then 0 else i / 2 ^ level_2_bits c

  -- `(i as usize) & (1 << ARENA_LEVEL_2_BITS - 1)`: in Rust the shift takes the difference.
  unfoldable pub arena_level_2 : ℕ → ℕ
  unfolding level_2_bits
  arena_level_2 i = if c.level_1_bits == 0 then i else bit_and i (2 ^ (level_2_bits c - 1))
