-- ===== src/Prelude/Word.antt =====
-- Machine arithmetic of Rust. `checks` is the build's overflow checks: a debug build, which is
-- what `cargo build` makes, panics where a release build wraps round.
use Prim.Native.Nat.{ℕ, ◌+◌, ◌-◌, ◌*◌, ◌%◌, ◌^◌, ◌≤◌, ◌<◌}
use mathlib.Core.Path.{◌≡◌}
use mathlib.Core.Bool.{Bool, ◌&&◌}
use native.Mathlib.Omega.{arith}
use rust_go_gc.Prelude.Tests.{ltb, leb, if◌then◌else◌}
use rust_go_gc.Prelude.Outcome.{Outcome, ok, panic, Panic, Ends, if-Ends}

-- Values of `usize` and `u64`, of a target with 64-bit pointers, lie below this.
abbrev pub word : ℕ
word = 2 ^ 64

-- The result of an operation whose mathematical value is `n`, at `m` values of the type.
abbrev pub wrapped : Bool → ℕ → ℕ → Outcome ℕ
wrapped checks m n = if checks && leb m n then panic Panic.overflow else ok (n % m)

-- `a + b`, `a * b` and `a << k` of a word. A shift checks the amount only.
unfoldable pub add_word : Bool → ℕ → ℕ → Outcome ℕ
add_word checks a b = wrapped checks word (a + b)

unfoldable pub mul_word : Bool → ℕ → ℕ → Outcome ℕ
mul_word checks a b = wrapped checks word (a * b)

abbrev pub shl_word : ℕ → ℕ → ℕ
shl_word a k = a * 2 ^ k % word

-- `a - b` at `m` values; 2 ^ w is added first, since `-` on numbers stops at 0.
unfoldable pub sub_mod : ℕ → Bool → ℕ → ℕ → Outcome ℕ
sub_mod m checks a b = if checks && ltb a b then panic Panic.overflow else ok ((a + m - b) % m)

abbrev pub sub_word : Bool → ℕ → ℕ → Outcome ℕ
sub_word = sub_mod word

-- `fetch_add` and `fetch_sub` of an atomic wrap in every build.
abbrev pub atomic_add : ℕ → ℕ → ℕ
atomic_add a b = (a + b) % word

abbrev pub atomic_sub : ℕ → ℕ → ℕ
atomic_sub a b = (a + word - b) % word

-- `!a`, the complement of the bits of a word.
abbrev pub not_word : ℕ → ℕ
not_word a = word - 1 - a

pub add_word-ok : (checks : Bool) (a b : ℕ) → a + b < word → add_word checks a b ≡ ok (a + b)
unfolding add_word
add_word-ok checks a b h = ground arith

pub sub_word-ok : (checks : Bool) (a b : ℕ) → b ≤ a → a < word → sub_word checks a b ≡ ok (a - b)
unfolding sub_mod
sub_word-ok checks a b h lt = ground arith

pub mul_word-ok : (checks : Bool) (a b : ℕ) → a * b < word → mul_word checks a b ≡ ok (a * b)
unfolding mul_word
mul_word-ok checks a b h = ground arith

-- Arithmetic runs no loop.
pub add_word-Ends : (checks : Bool) (a b : ℕ) → Ends (add_word checks a b)
unfolding add_word
add_word-Ends checks a b =
    if-Ends (checks && leb word (a + b)) (panic Panic.overflow) (ok ((a + b) % word)) (λ e. cc)
      (λ e. cc)

pub mul_word-Ends : (checks : Bool) (a b : ℕ) → Ends (mul_word checks a b)
unfolding mul_word
mul_word-Ends checks a b =
    if-Ends (checks && leb word (a * b)) (panic Panic.overflow) (ok ((a * b) % word)) (λ e. cc)
      (λ e. cc)

pub sub_mod-Ends : (m : ℕ) (checks : Bool) (a b : ℕ) → Ends (sub_mod m checks a b)
unfolding sub_mod
sub_mod-Ends m checks a b =
    if-Ends (checks && ltb a b) (panic Panic.overflow) (ok ((a + m - b) % m)) (λ e. cc) (λ e. cc)
