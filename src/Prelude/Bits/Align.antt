-- ===== src/Prelude/Bits/Align.antt =====
-- Rounding down to a multiple of a power of two, written with a mask.
use Prim.Native.Nat.{ℕ, zero, suc, ◌+◌, ◌-◌, ◌*◌, ◌/◌, ◌^◌, ◌≤◌, ◌<◌, bit_and}
use Prim.Native.Nat.add
use mathlib.Core.Path.{◌≡◌, ap}
use native.Mathlib.Nat.{pow-suc, one-le-pow, mod-eq_of_lt, div-lt_iff_lt-mul}
use native.Mathlib.Omega.{arith}
use rust_go_gc.Prelude.Bits.Masks.{bit_and_high}

two-pow-add : (j k : ℕ) → 2 ^ (j + k) ≡ 2 ^ j * 2 ^ k
two-pow-add zero k = rw (add.zero k) (omega arith)
two-pow-add (suc j) k =
    rw (add.suc j k)
      (omega (arith, pow-suc 2 (j + k), two-pow-add j k, ap (λ (t : ℕ). t * 2 ^ k) (pow-suc 2 j)))

pred_mul : (x y : ℕ) → 1 ≤ x → (x - 1) * y + y ≡ x * y
pred_mul zero y h = absurd (omega arith)
pred_mul (suc x) y h = let e : suc x - 1 ≡ x = omega arith in rw e (omega arith)

-- `a & !(2^k - 1)` of a word.
pub bit_and_align :
    (k a : ℕ) → k ≤ 64 → a < 2 ^ 64 → bit_and a (2 ^ 64 - 1 - (2 ^ k - 1)) ≡ a / 2 ^ k * 2 ^ k
bit_and_align k a h lt =
    let split : 2 ^ 64 ≡ 2 ^ (64 - k) * 2 ^ k =
      let e : 64 - k + k ≡ 64 = omega arith in rw e at (two-pow-add (64 - k) k) in
    let pos = one-le-pow k 2 (omega arith) in
    let mask : 2 ^ 64 - 1 - (2 ^ k - 1) ≡ (2 ^ (64 - k) - 1) * 2 ^ k =
      omega (arith, split, pred_mul (2 ^ (64 - k)) (2 ^ k) (one-le-pow (64 - k) 2 (omega arith))) in
    let quotient : a / 2 ^ k < 2 ^ (64 - k) =
      (div-lt_iff_lt-mul {k = 2 ^ k} pos).1 (omega (arith, split)) in
    rw (mask, bit_and_high (64 - k) k a, mod-eq_of_lt quotient)
