-- ===== src/SweepBuffer/Growers/Room.antt =====
-- What one access of a thread in `push` changes, where the threads need one block more than the spine
-- has, the spine has the capacity for it, and the memory has room.
use rust_go_gc.Prelude.{
  ℕ, ◌+◌, ◌*◌, ◌/◌, ◌%◌, ◌<◌, ◌≤◌, ◌≡◌, ◌≢◌, ◌∙◌, refl, sym, Bool, true, false, List, [], ◌∷◌,
  arith, leb, ◌==◌,
}
use mathlib.Core.Path.{subst}
use rust_go_gc.Prelude.Outcome.{ok, ok-eq}
use rust_go_gc.Prelude.Word.{word}
use rust_go_gc.Span.{MemorySpan}
use rust_go_gc.SweepBuffer.{Offheap, SweepBuffer, alloc, store, get_spine_block}
use rust_go_gc.SweepBuffer.Growers.{
  with_buffer, Lock, open_lock, held, poisoned, LockedBuffer, Grower, arriving, claimed, observed,
  holding, looked, grown, allocated, extended, located, pushed, panicked, ensure_cap, Move, claim,
  observe, find, find_fail, acquire, refuse, look, again, grow, grow_fail, allocate, extend,
  release, no_block, write, holds, holders,
}
use rust_go_gc.SweepBuffer.Growers.Moves.{IsSound}

-- The threads that have a block which the spine's length does not count yet.
abbrev pub pends : Grower → ℕ
pends (arriving x) = 0
pends (claimed x c) = 0
pends (observed x c n) = 0
pends (holding x c) = 0
pends (looked x c n) = 0
pends (grown x c) = 0
pends (allocated x c block) = 1
pends (extended x c block) = 0
pends (located x c block) = 0
pends (pushed x c) = 0
pends (panicked x c) = 0

abbrev pub pending : List Grower → ℕ
pending [] = 0
pending (p ∷ ps) = pends p + pending ps

pub pending-le : (ps : List Grower) → pending ps ≤ holders ps
pending-le [] = omega arith
pending-le (arriving x ∷ ps) = omega (arith, pending-le ps)
pending-le (claimed x c ∷ ps) = omega (arith, pending-le ps)
pending-le (observed x c n ∷ ps) = omega (arith, pending-le ps)
pending-le (holding x c ∷ ps) = omega (arith, pending-le ps)
pending-le (looked x c n ∷ ps) = omega (arith, pending-le ps)
pending-le (grown x c ∷ ps) = omega (arith, pending-le ps)
pending-le (allocated x c block ∷ ps) = omega (arith, pending-le ps)
pending-le (extended x c block ∷ ps) = omega (arith, pending-le ps)
pending-le (located x c block ∷ ps) = omega (arith, pending-le ps)
pending-le (pushed x c ∷ ps) = omega (arith, pending-le ps)
pending-le (panicked x c ∷ ps) = omega (arith, pending-le ps)

-- A thread that has not panicked, and whose own block is one.
abbrev pub IsFine : Grower → Type 0
IsFine (allocated x c block) = 0 < block
IsFine (extended x c block) = 0 < block
IsFine (panicked x c) = ⊥
IsFine _ = Unit {0}

-- The capacity and the place of the spine, and the memory before the block.
pub record Room (t : ℕ) : Type 0 where
  pub spine_cap : ℕ
  pub spine : ℕ
  pub brk : ℕ
  pub limit : ℕ
  pub below : t < spine_cap
  pub placed : 0 < spine
  pub mapped : 0 < brk
  pub enough : brk + 4096 ≤ limit

-- The buffer and the memory while the threads push: the spine stays where it is, and each block that
-- it gained or is to gain was allocated.
pub record IsWithin {t : ℕ} (r : Room t) (pending : ℕ) (s : LockedBuffer) (o : Offheap)
    : Type 0 where
  pub cap : s.buffer.spine_cap ≡ r.spine_cap
  pub at : s.buffer.spine ≡ r.spine
  pub limit : o.limit ≡ r.limit
  pub brk : o.brk + 4096 * t ≡ r.brk + 4096 * (s.buffer.spine_length + pending)
  pub unpoisoned : s.lock ≢ poisoned

-- What is known when a thread makes an access: `guards` of the others have the guard, and `rest` of
-- them a block that does not count yet.
pub record Before (t guards rest : ℕ) (p : Grower) (s : LockedBuffer) : Type 0 where
  pub sound : IsSound t s.buffer.index s.buffer.spine_length p
  pub above : t ≤ s.buffer.spine_length
  pub to : s.buffer.index ≤ 512 * (t + 1)
  pub few : rest ≤ guards
  pub single : holds p + guards ≤ 1
  pub fits : s.buffer.spine_length + 1 < word
  pub fine : IsFine p

pub ensure_cap-enough :
    (checks : Bool) (n : ℕ) (b : SweepBuffer) (o : Offheap)
    → n < b.spine_cap
    → ensure_cap checks n b o ≡ ok (b, o)
unfolding ensure_cap
ensure_cap-enough checks n b o lt = let e : (n == b.spine_cap) ≡ false = ground arith in rw e

pub get_spine_block-ok :
    (top : ℕ) (b : SweepBuffer) → 0 < b.spine → get_spine_block top b ≡ ok (b.spine + 8 * top)
unfolding get_spine_block
get_spine_block-ok top b lt = let e : (b.spine + 8 * top == 0) ≡ false = ground arith in rw e

pub alloc-enough :
    (o : Offheap) → o.brk + 4096 ≤ o.limit → alloc 4096 o ≡ (o.brk, record o { brk = o.brk + 4096 })
unfolding alloc
alloc-enough o le = let e : leb (o.brk + 4096) o.limit ≡ true = ground arith in rw e

module _ {t : ℕ} (r : Room t) where
  -- Accesses that leave the spine, and the memory but for its words.
  keep-IsWithin :
      (n n' : ℕ) (s : LockedBuffer) (o : Offheap) (s' : LockedBuffer) (o' : Offheap)
      → n + s.buffer.spine_length ≡ n' + s'.buffer.spine_length
      → s'.buffer.spine_cap ≡ s.buffer.spine_cap
      → s'.buffer.spine ≡ s.buffer.spine
      → o'.brk ≡ o.brk
      → o'.limit ≡ o.limit
      → s'.lock ≢ poisoned
      → IsWithin r n s o
      → IsWithin r n' s' o'
  keep-IsWithin n n' s o s' o' len cap at brk limit fine h =
      let before = h.brk in
      record {
        cap = cap ∙ h.cap;
        at = at ∙ h.at;
        limit = limit ∙ h.limit;
        brk = omega arith;
        unpoisoned = fine;
      }

  same-IsWithin :
      (n : ℕ) (s : LockedBuffer) (o : Offheap) (b : SweepBuffer) (l : Lock)
      → b.spine_length ≡ s.buffer.spine_length
      → b.spine_cap ≡ s.buffer.spine_cap
      → b.spine ≡ s.buffer.spine
      → l ≢ poisoned
      → IsWithin r n s o
      → IsWithin r n (record { buffer = b; lock = l }) o
  same-IsWithin n s o b l len cap at fine h =
      keep-IsWithin n n s o (record { buffer = b; lock = l }) o (omega arith) cap at refl refl fine
        h

  allocate-IsWithin :
      (guards rest : ℕ) (x : MemorySpan) (c : ℕ) (s : LockedBuffer) (o : Offheap)
      → Before t guards rest (grown x c) s
      → IsWithin r (0 + rest) s o
      → IsWithin r (1 + rest) s ((alloc 4096 o).1) × (0 < (alloc 4096 o).0)
  allocate-IsWithin guards rest x c s o m h =
      let ((ge, lt), at) = m.sound in
      let to = m.to in
      let few = m.few in
      let single = m.single in
      let above = m.above in
      let brk = h.brk in
      let limit = h.limit in
      let enough = r.enough in
      let mapped = r.mapped in
      rw (alloc-enough o (omega arith)) (
        record {
          cap = h.cap;
          at = h.at;
          limit = h.limit;
          brk = omega arith;
          unpoisoned = h.unpoisoned;
        },
        omega arith,
      )

  pub looked-lt :
      (guards rest : ℕ) (x : MemorySpan) (c n : ℕ) (s : LockedBuffer) (o : Offheap)
      → Before t guards rest (looked x c n) s
      → n ≤ c / 512
      → IsWithin r (0 + rest) s o
      → n < s.buffer.spine_cap
  looked-lt guards rest x c n s o m le h =
      let ((ge, lt), at) = m.sound in
      let to = m.to in let below = r.below in let cap = h.cap in omega arith

module _ (checks : Bool) {t : ℕ} (r : Room t) where
  pub Move-IsWithin :
      (guards rest : ℕ) {p : Grower} {s : LockedBuffer} {o : Offheap} {p' : Grower}
      {s' : LockedBuffer} {o' : Offheap}
      → Move checks p s o p' s' o'
      → Before t guards rest p s
      → IsWithin r (pends p + rest) s o
      → IsWithin r (pends p' + rest) s' o' × IsFine p'
  unfolding store
  Move-IsWithin guards rest (claim _ b l o) m h =
      (same-IsWithin r (0 + rest) (with_buffer b l) o _ l refl refl refl h.unpoisoned h, tt)
  Move-IsWithin guards rest (observe _ _ _ _ _ _) m h = (h, tt)
  Move-IsWithin guards rest (find _ _ _ _ _ _ _ _) m h = (h, tt)
  Move-IsWithin guards rest (find_fail _ c _ s _ _ _ e) m h =
      let placed = r.placed in
      let at = h.at in
      let found = get_spine_block-ok (c / 512) s.buffer (omega arith) in absurd (cc)
  Move-IsWithin guards rest (acquire _ _ _ b o _) m h =
      (same-IsWithin r (0 + rest) (with_buffer b open_lock) o b held refl refl refl (λ e. cc) h, tt)
  Move-IsWithin guards rest (refuse _ _ _ _ _ _) m h = absurd (h.unpoisoned refl)
  Move-IsWithin guards rest (look _ _ _ _) m h = (h, tt)
  Move-IsWithin guards rest (again _ _ _ b l o _) m h =
      (same-IsWithin r (0 + rest) (with_buffer b l) o b open_lock refl refl refl (λ e. cc) h, tt)
  Move-IsWithin guards rest (grow x c n b l o b' o' le e) m h =
      let enough =
        ensure_cap-enough checks n b o (looked-lt r guards rest x c n (with_buffer b l) o m le h) in
      (
        subst (λ (z : SweepBuffer × Offheap). IsWithin r (0 + rest) (with_buffer z.0 l) z.1)
            (ok-eq (sym enough ∙ e)) h,
        tt,
      )
  Move-IsWithin guards rest (grow_fail x c n b l o _ le e) m h =
      let enough : ensure_cap checks n b o ≡ ok (b, o) =
        ensure_cap-enough checks n b o (looked-lt r guards rest x c n (with_buffer b l) o m le h) in
      absurd (cc)
  Move-IsWithin guards rest (allocate x c s o) m h = allocate-IsWithin r guards rest x c s o m h
  Move-IsWithin guards rest (extend _ _ _ b l o) m h =
      let fits = m.fits in
      let e : (b.spine_length + 1) % word ≡ b.spine_length + 1 = omega arith in
      (
        keep-IsWithin r (1 + rest) (0 + rest) (with_buffer b l) o _ o (omega arith) refl refl refl
            refl h.unpoisoned h,
        m.fine,
      )
  Move-IsWithin guards rest (release _ _ _ b l o _) m h =
      (same-IsWithin r (0 + rest) (with_buffer b l) o b open_lock refl refl refl (λ e. cc) h, tt)
  Move-IsWithin guards rest (no_block _ _ _ _ _) m h = let fine = m.fine in absurd (omega arith)
  Move-IsWithin guards rest (write _ _ _ s o) m h =
      (keep-IsWithin r (0 + rest) (0 + rest) s o s _ refl refl refl refl refl h.unpoisoned h, tt)
