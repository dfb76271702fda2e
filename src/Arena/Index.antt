-- ===== src/Arena/Index.antt =====
-- The arena, the entry of its span table and the two levels of the arena map for an address.
use Prim.Native.Nat.{bit_and}
use rust_go_gc.Prelude.{
  ℕ, ◌-◌, ◌*◌, ◌/◌, ◌%◌, ◌^◌, ◌<◌, ◌≤◌, ◌≡◌, ◌≢◌, ◌↔◌, ◌⊎◌, true, false, arith, Bool-cases, inl,
  inr, ◌==◌,
}
use rust_go_gc.Prelude.Bits.{bit_and_high}
use rust_go_gc.Prelude.Outcome.{ok, panic, Panic}
use rust_go_gc.Prelude.Word.{word}
use rust_go_gc.Arena.{ArenaConstants, constants_64, arena_index, arena_level_2, level_2_bits}

-- Of the 64-bit addresses exactly those of the two ends of the address space, below 2^47 and from
-- 2^64 - 2^47 on, have their arena's index in the second level of the arena map, in a build
-- without overflow checks.
pub arena_index_bounds :
    (p i : ℕ)
    → p < word
    → arena_index constants_64 false p ≡ ok i
    → (arena_level_2 constants_64 i < 2 ^ level_2_bits constants_64)
      ↔ ((p < 2 ^ 47) ⊎ (word - 2 ^ 47 ≤ p))
unfolding arena_index arena_level_2
arena_index_bounds p i lt e = ground arith

-- A build with overflow checks panics on the index of an address at the upper end.
pub arena_index-overflow :
    (p : ℕ) → p < word → word - 2 ^ 47 ≤ p → arena_index constants_64 true p ≡ panic Panic.overflow
unfolding arena_index
arena_index-overflow p lt h = ground arith

times_bit : (q m : ℕ) → (q % 2 ^ 1 * m ≡ 0) ⊎ (q % 2 ^ 1 * m ≡ m)
times_bit q m = elim (Bool-cases (q % 2 == 0)) [
  | inl even ↦ let e : q % 2 ^ 1 ≡ 0 = ground arith in inl (rw e (omega arith))
  | inr odd ↦ let e : q % 2 ^ 1 ≡ 1 = ground arith in inr (rw e (omega arith))
]

-- Where both levels of the map are in use, the mask of `arena_level_2` is one bit, so it gives no
-- more than two indices, and arenas that differ in lower bits share one.
pub arena_level_2-one_bit :
    (c : ArenaConstants) (i : ℕ)
    → c.level_1_bits ≢ 0
    → (arena_level_2 c i ≡ 0) ⊎ (arena_level_2 c i ≡ 2 ^ (level_2_bits c - 1))
unfolding arena_level_2
arena_level_2-one_bit c i h =
    let two_levels : (c.level_1_bits == 0) ≡ false = ground arith in
    let k = level_2_bits c - 1 in
    let mask : (2 ^ 1 - 1) * 2 ^ k ≡ 2 ^ k = omega arith in
    let e : bit_and i (2 ^ k) ≡ i / 2 ^ k % 2 ^ 1 * 2 ^ k = rw mask at (bit_and_high 1 k i) in
    rw (two_levels, e) (times_bit (i / 2 ^ k) (2 ^ k))
