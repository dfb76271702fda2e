-- ===== src/Span/Count/Laws.antt =====
-- The table and the byte loop count exactly the set mark bits of the span's objects.
use Prim.Native.Nat.add
use rust_go_gc.Prelude.{
  ℕ, zero, suc, ◌+◌, ◌*◌, ◌/◌, ◌%◌, ◌^◌, ◌<◌, ◌≤◌, ◌≡◌, refl, ap, Bool, true, ◌&&◌, ◌==◌, ==_iff,
  if◌then◌else◌, arith, Bool-cases, inl, inr,
}
use rust_go_gc.Prelude.Bits.{bit, ones, shr, bit_and_mask, shr-suc, shr_odd, ones-mod}
use native.Mathlib.Nat.{mod-le}
use rust_go_gc.Prelude.Outcome.{Outcome, ok}
use rust_go_gc.Span.{MemorySpanData, Bytes, IsBytes}
use rust_go_gc.Span.Count.{table_entry, count_bytes, count_allocations}

-- Object `i` of the span is marked: bit `i % 8` of byte `i / 8` of the bitmap at `bits`.
abbrev pub mark_bit : Bytes → ℕ → ℕ → Bool
mark_bit bytes bits i = bit (bytes (bits + i / 8)) (i % 8)

-- How many of the `n` objects from `i` on are marked.
unfoldable pub marked_from : Bytes → ℕ → (i n : ℕ) → ℕ
marked_from bytes bits i zero = 0
marked_from bytes bits i (suc n) =
    (if mark_bit bytes bits i then 1 else 0) + marked_from bytes bits (i + 1) n

holds_at : Outcome ℕ → ℕ → Bool
holds_at (ok a) n = a == n
holds_at _ n = Bool.false

all_entries : ℕ → Bool
all_entries zero = true
all_entries (suc n) = holds_at (table_entry n) (ones 8 n) && all_entries n

entries_checked : all_entries 256 ≡ true
unfolding all_entries holds_at table_entry ones
entries_checked = refl

entry_of_all : (n x : ℕ) → all_entries n ≡ true → x < n → holds_at (table_entry x) (ones 8 x) ≡ true
unfolding all_entries
entry_of_all zero x h lt = absurd (omega arith)
entry_of_all (suc n) x h lt = ground (arith, entry_of_all n x)

eq_of_holds : (o : Outcome ℕ) (n : ℕ) → holds_at o n ≡ true → o ≡ ok n
unfolding holds_at
eq_of_holds (ok a) n h = ground arith
eq_of_holds _ n h = cc

-- Every entry of the table is the number of ones of its index.
pub table_entry-ones : (x : ℕ) → x < 256 → table_entry x ≡ ok (ones 8 x)
table_entry-ones x h = eq_of_holds _ _ (entry_of_all 256 x entries_checked h)

module _ (bytes : Bytes) (bits : ℕ) where
  marked_from-none : (i : ℕ) → marked_from bytes bits i 0 ≡ 0
  unfolding marked_from
  marked_from-none i = refl

  -- The low `k` bits of a byte, from its bit `j` on, are the marks of `k` objects.
  marked_in_byte :
      (i j k : ℕ)
      → j + k ≤ 8
      → marked_from bytes bits (8 * i + j) k ≡ ones k (shr (bytes (bits + i)) j)
  unfolding marked_from ones
  marked_in_byte i j zero h = refl
  marked_in_byte i j (suc k) h =
      let at : (8 * i + j) / 8 ≡ i = omega arith in
      let of : (8 * i + j) % 8 ≡ j = omega arith in
      let next : 8 * i + j + 1 ≡ 8 * i + suc j = omega arith in
      rw (at, of, next, marked_in_byte i (suc j) k (omega arith), shr-suc (bytes (bits + i)) j)
        (ground (arith, shr_odd (bytes (bits + i)) j))

  marked_from-add :
      (m n i : ℕ)
      → marked_from bytes bits i (m + n)
        ≡ marked_from bytes bits i m + marked_from bytes bits (i + m) n
  unfolding marked_from
  marked_from-add zero n i = let e : i + 0 ≡ i = omega arith in rw (add.zero n, e) (omega arith)
  marked_from-add (suc m) n i =
      let e : i + suc m ≡ i + 1 + m = omega arith in
      rw (add.suc m n, marked_from-add m n (i + 1), e) (omega arith)

  -- The marks of the first `k` objects of byte `i`, as one entry of the table.
  byte_entry :
      (i k : ℕ)
      → IsBytes bytes
      → k ≤ 8
      → table_entry (bytes (bits + i) % 2 ^ k) ≡ ok (marked_from bytes bits (8 * i) k)
  unfolding shr
  byte_entry i k small h =
      let e : 8 * i ≡ 8 * i + 0 = omega arith in
      let low : bytes (bits + i) % 2 ^ k < 256 =
        omega (arith, small (bits + i), mod-le (bytes (bits + i)) (2 ^ k)) in
      rw (
        table_entry-ones _ low,
        ones-mod k 8 (bytes (bits + i)) h,
        e,
        marked_in_byte i 0 k (omega arith),
      )

  count_bytes-marked :
      (left i count : ℕ)
      → IsBytes bytes
      → count_bytes bytes bits left i count ≡ ok (count + marked_from bytes bits (8 * i) (8 * left))
  unfolding count_bytes marked_from
  count_bytes-marked zero i count small = ap ok (omega arith)
  count_bytes-marked (suc left) i count small =
      let whole : bytes (bits + i) % 2 ^ 8 ≡ bytes (bits + i) = omega (arith, small (bits + i)) in
      let entry : table_entry (bytes (bits + i)) ≡ ok (marked_from bytes bits (8 * i) 8) =
        rw whole at (byte_entry i 8 small (omega arith)) in
      let e : 8 * suc left ≡ 8 + 8 * left = omega arith in
      let f : 8 * i + 8 ≡ 8 * (i + 1) = omega arith in
      rw
        (
          entry,
          count_bytes-marked left (i + 1) (count + marked_from bytes bits (8 * i) 8) small,
          e,
          marked_from-add 8 (8 * left) (8 * i),
          f,
        )
        (ap ok (omega arith))

-- On memory that holds bytes, `count_allocations` returns, without a panic, the number of
-- indices below `number_of_elements` whose mark bit is set: bits of the last byte that stand
-- for no object do not count.
pub count_allocations-marked :
    (bytes : Bytes) (s : MemorySpanData)
    → IsBytes bytes
    → count_allocations bytes s ≡ ok (marked_from bytes s.gc_mark_bits 0 s.number_of_elements)
unfolding count_allocations
count_allocations-marked bytes s small =
    let bits = s.gc_mark_bits in
    let n = s.number_of_elements in
    let whole : 8 * (n / 8) + n % 8 ≡ n = omega arith in
    let from : 0 + 8 * (n / 8) ≡ 8 * (n / 8) = omega arith in
    let split = rw (whole, from) at (marked_from-add bytes bits (8 * (n / 8)) (n % 8) 0) in
    rw (count_bytes-marked bytes bits (n / 8) 0 0 small) (elim (Bool-cases (n % 8 == 0)) [
      | inl none ↦
          let e : n % 8 ≡ 0 = (==_iff _ _).0 none in
          rw none (ap ok (omega (arith, rw e at split, marked_from-none bytes bits (8 * (n / 8)))))
      | inr some ↦
          rw (some, bit_and_mask (n % 8), byte_entry bytes bits (n / 8) (n % 8) small (omega arith))
            (ap ok (omega (arith, split)))
    ])
