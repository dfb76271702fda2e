-- ===== src/Prelude/Bits.antt =====
-- Binary digits of words: single bits, shifts, complements, masks, trailing zeros.
mod Masks
mod Align
pub use Align.{bit_and_align}
pub use Masks.{bit_and_mask, bit_and_high, mod-pow-suc}
use mathlib.Core.Path.{◌∙◌}
use Prim.Native.Nat.{ℕ, zero, suc, ◌+◌, ◌-◌, ◌*◌, ◌/◌, ◌%◌, ◌^◌, ◌≤◌, ◌<◌}
use Prim.Native.Nat.add
use mathlib.Core.Path.{◌≡◌, refl, ap}
use mathlib.Core.Bool.{Bool, true, false, not}
use native.Mathlib.Nat.{pow-suc}
use native.Mathlib.Omega.{arith}
use rust_go_gc.Prelude.Tests.{◌==◌, if◌then◌else◌}

-- Bit `i` of `x`.
unfoldable pub bit : ℕ → ℕ → Bool
bit x zero = x % 2 == 1
bit x (suc i) = bit (x / 2) i

-- `x >> k`.
unfoldable pub shr : ℕ → ℕ → ℕ
shr x zero = x
shr x (suc k) = shr (x / 2) k

-- The number of zeros below the lowest one among the `k` low bits of `x`; `k` if there is none.
unfoldable pub trailing_zeros : ℕ → ℕ → ℕ
trailing_zeros zero x = 0
trailing_zeros (suc k) x = if x % 2 == 1 then 0 else suc (trailing_zeros k (x / 2))

-- The number of ones among the `k` low bits of `x`.
unfoldable pub ones : ℕ → ℕ → ℕ
ones zero x = 0
ones (suc k) x = x % 2 + ones k (x / 2)

pub bit-shr : (x k i : ℕ) → bit (shr x k) i ≡ bit x (k + i)
unfolding bit shr
bit-shr x zero i = rw add.zero
bit-shr x (suc k) i = rw (add.suc k i) (bit-shr (x / 2) k i)

pub shr-lt : (x k m : ℕ) → x < m → shr x k < m
unfolding shr
shr-lt x zero m h = h
shr-lt x (suc k) m h = shr-lt (x / 2) k m (omega arith)

pub trailing_zeros-le : (k x : ℕ) → trailing_zeros k x ≤ k
unfolding trailing_zeros
trailing_zeros-le zero x = omega arith
trailing_zeros-le (suc k) x = ground (arith, trailing_zeros-le k (x / 2))

pub bit-lt-trailing_zeros : (k x i : ℕ) → i < trailing_zeros k x → bit x i ≡ false
unfolding bit trailing_zeros
bit-lt-trailing_zeros zero x i h = absurd (omega arith)
bit-lt-trailing_zeros (suc k) x zero h = ground arith
bit-lt-trailing_zeros (suc k) x (suc i) h = ground (arith, bit-lt-trailing_zeros k (x / 2) i)

pub bit-trailing_zeros : (k x : ℕ) → trailing_zeros k x < k → bit x (trailing_zeros k x) ≡ true
unfolding bit trailing_zeros
bit-trailing_zeros zero x h = absurd (omega arith)
bit-trailing_zeros (suc k) x h = ground (arith, bit-trailing_zeros k (x / 2))

pow_mul : (k r : ℕ) → 2 ^ suc k * r ≡ 2 * (2 ^ k * r)
pow_mul k r = omega (arith, ap (λ (t : ℕ). t * r) (pow-suc 2 k))

-- The bits of `b`, with `r` above the lowest `k` of them.
pub bit_low : (k b r i : ℕ) → i < k → bit (b + 2 ^ k * r) i ≡ bit b i
unfolding bit
bit_low zero b r i h = absurd (omega arith)
bit_low (suc k) b r zero h = ground (arith, pow_mul k r)
bit_low (suc k) b r (suc i) h =
    let e : (b + 2 ^ suc k * r) / 2 ≡ b / 2 + 2 ^ k * r = omega (arith, pow_mul k r) in
    rw e (bit_low k (b / 2) r i (omega arith))

pub bit_high : (k b r i : ℕ) → b < 2 ^ k → bit (b + 2 ^ k * r) (k + i) ≡ bit r i
unfolding bit
bit_high zero b r i h = let e : b + 2 ^ 0 * r ≡ r = omega arith in rw (e, add.zero)
bit_high (suc k) b r i h =
    let e : (b + 2 ^ suc k * r) / 2 ≡ b / 2 + 2 ^ k * r = omega (arith, pow_mul k r) in
    rw (add.suc k i, bit, e) (bit_high k (b / 2) r i (omega (arith, pow-suc 2 k)))

pub bit_of_lt : (k x i : ℕ) → x < 2 ^ k → k ≤ i → bit x i ≡ false
unfolding bit
bit_of_lt zero x zero h le = ground arith
bit_of_lt zero x (suc i) h le = bit_of_lt zero (x / 2) i (omega arith) (omega arith)
bit_of_lt (suc k) x zero h le = absurd (omega arith)
bit_of_lt (suc k) x (suc i) h le = bit_of_lt k (x / 2) i (omega (arith, pow-suc 2 k)) (omega arith)

-- The complement within `k` bits turns each of them over.
pub bit_complement : (k x i : ℕ) → x < 2 ^ k → i < k → bit (2 ^ k - 1 - x) i ≡ not (bit x i)
unfolding bit
bit_complement zero x i h lt = absurd (omega arith)
bit_complement (suc k) x zero h lt = ground (arith, pow-suc 2 k)
bit_complement (suc k) x (suc i) h lt =
    let e : (2 ^ suc k - 1 - x) / 2 ≡ 2 ^ k - 1 - x / 2 = omega (arith, pow-suc 2 k) in
    rw e (bit_complement k (x / 2) i (omega (arith, pow-suc 2 k)) (omega arith))

pub shr-suc : (x k : ℕ) → shr x (suc k) ≡ shr x k / 2
unfolding shr
shr-suc x zero = refl
shr-suc x (suc k) = shr-suc (x / 2) k

pub shr_odd : (x k : ℕ) → (shr x k % 2 == 1) ≡ bit x k
unfolding bit
shr_odd x k = let e : k + 0 ≡ k = omega arith in rw e at (bit-shr x k 0)

ones-zero : (m : ℕ) → ones m 0 ≡ 0
unfolding ones
ones-zero zero = refl
ones-zero (suc m) = omega (arith, ones-zero m)

-- Cutting a number to its low `k` bits leaves the ones among those.
pub ones-mod : (k m b : ℕ) → k ≤ m → ones m (b % 2 ^ k) ≡ ones k b
unfolding ones
ones-mod zero m b h = let e : b % 2 ^ 0 ≡ 0 = omega arith in rw e (ones-zero m)
ones-mod (suc k) zero b h = absurd (omega arith)
ones-mod (suc k) (suc m) b h =
    let low : b % 2 ^ suc k % 2 ≡ b % 2 = omega (arith, mod-pow-suc b k) in
    let high : b % 2 ^ suc k / 2 ≡ b / 2 % 2 ^ k = omega (arith, mod-pow-suc b k) in
    rw (low, high, ones-mod k m (b / 2) (omega arith)) refl
