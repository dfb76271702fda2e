-- ===== src/Prelude/Bits/Masks.antt =====
-- `&` with a mask of low bits, or with one whose low bits are clear, as arithmetic.
use Prim.Native.Nat.{ℕ, zero, suc, ◌+◌, ◌-◌, ◌*◌, ◌/◌, ◌%◌, ◌^◌, ◌≤◌, min}
use Prim.Native.Nat.{bit_and, digits, bit_and-bitwise}
use mathlib.Core.Path.{◌≡◌, refl, sym, ap}
use native.Mathlib.Nat.{pow-suc, one-le-pow, le_refl, mul_comm, div-div-eq-div-mul}
use native.Mathlib.Nat.{mod-eq-sub-div-mul, div-add-mod', div-one}
use native.Mathlib.Omega.{arith}

abbrev no_digits : ℕ → ℕ
no_digits y = 0

-- The native `bit_and` stands for a digit recursion on fuel; any fuel from `a` on serves.
digits_any_fuel :
    (n m a b : ℕ) → a ≤ n → a ≤ m → digits no_digits min n a b ≡ digits no_digits min m a b
digits_any_fuel zero zero a b p q = refl
digits_any_fuel zero (suc m) zero b p q = refl
digits_any_fuel zero (suc m) (suc a) b p q = absurd (omega arith)
digits_any_fuel (suc n) zero zero b p q = refl
digits_any_fuel (suc n) zero (suc a) b p q = absurd (omega arith)
digits_any_fuel (suc n) (suc m) zero b p q = refl
digits_any_fuel (suc n) (suc m) (suc a) b p q =
    rw (digits_any_fuel n m (suc a / 2) (b / 2) (omega arith) (omega arith))

bit_and_digit : (a b : ℕ) → bit_and a b ≡ bit_and (a / 2) (b / 2) * 2 + min (a % 2) (b % 2)
bit_and_digit zero b = simp bit_and-bitwise (omega arith)
bit_and_digit (suc a) b = omega (
  arith,
  bit_and-bitwise (suc a) b,
  bit_and-bitwise (suc a / 2) (b / 2),
  digits_any_fuel a (suc a / 2) (suc a / 2) (b / 2) (omega arith) (le_refl _),
)

bit_and-zero_le : (n a : ℕ) → a ≤ n → bit_and a 0 ≡ 0
bit_and-zero_le n zero h = refl
bit_and-zero_le zero (suc a) h = absurd (omega arith)
bit_and-zero_le (suc n) (suc a) h =
    omega (arith, bit_and_digit (suc a) 0, bit_and-zero_le n (suc a / 2) (omega arith))

div-pow-suc : (a k : ℕ) → a / 2 ^ suc k ≡ a / 2 / 2 ^ k
div-pow-suc a k = rw (pow-suc 2 k, mul_comm (2 ^ k) 2) (sym (div-div-eq-div-mul a 2 (2 ^ k)))

pub mod-pow-suc : (a k : ℕ) → a % 2 ^ suc k ≡ a / 2 % 2 ^ k * 2 + a % 2
mod-pow-suc a k = omega (
  arith,
  mod-eq-sub-div-mul a (2 ^ suc k),
  div-add-mod' (a / 2) (2 ^ k),
  div-add-mod' a (2 ^ suc k),
  div-pow-suc a k,
  ap (λ (t : ℕ). a / 2 / 2 ^ k * t) (pow-suc 2 k),
  ap (λ (t : ℕ). t * 2 ^ suc k) (div-pow-suc a k),
)

-- `a & (2^k - 1)` is the remainder.
pub bit_and_mask : (k a : ℕ) → bit_and a (2 ^ k - 1) ≡ a % 2 ^ k
bit_and_mask zero a = omega (arith, bit_and-zero_le a a (le_refl _))
bit_and_mask (suc k) a =
    let half : (2 ^ suc k - 1) / 2 ≡ 2 ^ k - 1 = omega (arith, pow-suc 2 k) in
    let odd : (2 ^ suc k - 1) % 2 ≡ 1 = omega (arith, pow-suc 2 k, one-le-pow k 2 (omega arith)) in
    rw (bit_and_digit a (2 ^ suc k - 1), half, odd, bit_and_mask k (a / 2), mod-pow-suc)
      (omega arith)

-- `a & mask`, where the mask is `j` ones above `k` zeros.
pub bit_and_high : (j k a : ℕ) → bit_and a ((2 ^ j - 1) * 2 ^ k) ≡ a / 2 ^ k % 2 ^ j * 2 ^ k
bit_and_high j zero a =
    let e : (2 ^ j - 1) * 2 ^ 0 ≡ 2 ^ j - 1 = omega arith in
    let one : a / 2 ^ 0 ≡ a = div-one a in rw (e, bit_and_mask j a, one) (omega arith)
bit_and_high j (suc k) a =
    let half : (2 ^ j - 1) * 2 ^ suc k / 2 ≡ (2 ^ j - 1) * 2 ^ k =
      omega (arith, ap (λ (t : ℕ). (2 ^ j - 1) * t) (pow-suc 2 k)) in
    let even : (2 ^ j - 1) * 2 ^ suc k % 2 ≡ 0 =
      omega (arith, ap (λ (t : ℕ). (2 ^ j - 1) * t) (pow-suc 2 k)) in
    rw (bit_and_digit a ((2 ^ j - 1) * 2 ^ suc k), half, even, bit_and_high j k (a / 2))
      (omega (
        arith,
        div-pow-suc a k,
        ap (λ (t : ℕ). a / 2 / 2 ^ k % 2 ^ j * t) (pow-suc 2 k),
        ap (λ (t : ℕ). t % 2 ^ j * 2 ^ suc k) (div-pow-suc a k),
      ))
