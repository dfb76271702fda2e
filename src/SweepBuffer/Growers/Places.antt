-- ===== src/SweepBuffer/Growers/Places.antt =====
-- Where the spans of concurrent calls of `push` are written that make the spine grow by one block.
use rust_go_gc.Prelude.{
  ℕ, ◌+◌, ◌*◌, ◌/◌, ◌%◌, ◌<◌, ◌≤◌, ◌≡◌, ◌≢◌, ◌⊎◌, ◌∙◌, inl, inr, refl, ap, sym, Bool, true, false,
  Option, none, some, arith, ◌==◌,
}
use mathlib.Core.Path.{subst}
use rust_go_gc.Prelude.Outcome.{ok-eq}
use rust_go_gc.Prelude.Word.{word}
use rust_go_gc.SweepBuffer.{Offheap, SweepBuffer, store}
use rust_go_gc.SweepBuffer.Growers.{
  LockedBuffer, with_buffer, Grower, arriving, claimed, observed, holding, looked, grown, allocated,
  extended, located, pushed, panicked, Move, claim, observe, find, find_fail, acquire, refuse, look,
  again, grow, grow_fail, allocate, extend, release, no_block, write,
}
use rust_go_gc.SweepBuffer.Growers.Moves.{IsSound}
use rust_go_gc.SweepBuffer.Growers.Room.{
  pends, Room, IsWithin, Before, ensure_cap-enough, get_spine_block-ok, alloc-enough, looked-lt,
}

abbrev pub cursor : Grower → Option ℕ
cursor (arriving x) = none
cursor (claimed x c) = some c
cursor (observed x c n) = some c
cursor (holding x c) = some c
cursor (looked x c n) = some c
cursor (grown x c) = some c
cursor (allocated x c block) = some c
cursor (extended x c block) = some c
cursor (located x c block) = some c
cursor (pushed x c) = some c
cursor (panicked x c) = some c

pub sound-cursor :
    (t index spine_length : ℕ) (p : Grower)
    → IsSound t index spine_length p
    → (d : ℕ) → cursor p ≡ some d
    → (512 * t ≤ d) × (d < index)
sound-cursor t index n (arriving x) h d e = cc
sound-cursor t index n (claimed x c) (ge, lt) d e = let f : c ≡ d = cc in (omega arith, omega arith)
sound-cursor t index n (observed x c k) ((ge, lt), _) d e =
    let f : c ≡ d = cc in (omega arith, omega arith)
sound-cursor t index n (holding x c) (ge, lt) d e = let f : c ≡ d = cc in (omega arith, omega arith)
sound-cursor t index n (looked x c k) ((ge, lt), _) d e =
    let f : c ≡ d = cc in (omega arith, omega arith)
sound-cursor t index n (grown x c) ((ge, lt), _) d e =
    let f : c ≡ d = cc in (omega arith, omega arith)
sound-cursor t index n (allocated x c block) ((ge, lt), _) d e =
    let f : c ≡ d = cc in (omega arith, omega arith)
sound-cursor t index n (extended x c block) ((ge, lt), _) d e =
    let f : c ≡ d = cc in (omega arith, omega arith)
sound-cursor t index n (located x c block) ((ge, lt), _) d e =
    let f : c ≡ d = cc in (omega arith, omega arith)
sound-cursor t index n (pushed x c) ((ge, lt), _) d e =
    let f : c ≡ d = cc in (omega arith, omega arith)
sound-cursor t index n (panicked x c) (ge, lt) d e =
    let f : c ≡ d = cc in (omega arith, omega arith)

-- A block in which a thread writes: the new one, or the place of its slot in the spine.
abbrev pub base : {t : ℕ} → Room t → (new : Bool) → ℕ
base r true = r.brk
base {t} r false = r.spine + 8 * t

abbrev pub place : {t : ℕ} → Room t → (new : Bool) → (cursor : ℕ) → ℕ
place r new c = base r new + 8 * (c % 512)

-- The block of a thread is the one that its flag says, and its span, once written, is there.
abbrev pub Lands : {t : ℕ} → Room t → (ℕ → ℕ) → (new : Bool) → Grower → Type 0
Lands r words new (arriving x) = new ≡ false
Lands r words new (claimed x c) = new ≡ false
Lands r words new (observed x c n) = new ≡ false
Lands r words new (holding x c) = new ≡ false
Lands r words new (looked x c n) = new ≡ false
Lands r words new (grown x c) = new ≡ false
Lands r words new (allocated x c block) = (new ≡ true) × (block ≡ r.brk)
Lands r words new (extended x c block) = (new ≡ true) × (block ≡ r.brk)
Lands r words new (located x c block) = block ≡ base r new
Lands r words new (pushed x c) = words (place r new c) ≡ x
Lands r words new (panicked x c) = new ≡ false

abbrev pub count : Bool → ℕ
count true = 1
count false = 0

module _ (checks : Bool) where
  pub Move-cursor :
      (d : ℕ) {p : Grower} {s : LockedBuffer} {o : Offheap} {p' : Grower} {s' : LockedBuffer}
      {o' : Offheap}
      → Move checks p s o p' s' o'
      → cursor p' ≡ some d
      → (cursor p ≡ some d) ⊎ (s.buffer.index ≡ d)
  Move-cursor d (claim _ _ _ _) e = inr (cc)
  Move-cursor d (observe _ _ _ _ _ _) e = inl e
  Move-cursor d (find _ _ _ _ _ _ _ _) e = inl e
  Move-cursor d (find_fail _ _ _ _ _ _ _ _) e = inl e
  Move-cursor d (acquire _ _ _ _ _ _) e = inl e
  Move-cursor d (refuse _ _ _ _ _ _) e = inl e
  Move-cursor d (look _ _ _ _) e = inl e
  Move-cursor d (again _ _ _ _ _ _ _) e = inl e
  Move-cursor d (grow _ _ _ _ _ _ _ _ _ _) e = inl e
  Move-cursor d (grow_fail _ _ _ _ _ _ _ _ _) e = inl e
  Move-cursor d (allocate _ _ _ _) e = inl e
  Move-cursor d (extend _ _ _ _ _ _) e = inl e
  Move-cursor d (release _ _ _ _ _ _ _) e = inl e
  Move-cursor d (no_block _ _ _ _ _) e = inl e
  Move-cursor d (write _ _ _ _ _) e = inl e

  module _ {t : ℕ} (r : Room t) where
    -- What an access leaves in memory, and where it puts the thread.
    abbrev pub Landed : (new : Bool) (p p' : Grower) (s s' : LockedBuffer) (o o' : Offheap) → Type 0
    Landed new p p' s s' o o' =
        (new' : Bool) × Lands r o'.words new' p'
        × (count new' + (s.buffer.spine_length + pends p)
            ≡ count new + (s'.buffer.spine_length + pends p'))
        × ((a : ℕ) → ((d : ℕ) → cursor p ≡ some d → a ≢ place r new d) → o'.words a ≡ o.words a)

    pub Move-Landed :
        (guards rest : ℕ) (new : Bool) {p : Grower} {s : LockedBuffer} {o : Offheap} {p' : Grower}
        {s' : LockedBuffer} {o' : Offheap}
        → Move checks p s o p' s' o'
        → Before t guards rest p s
        → IsWithin r (pends p + rest) s o
        → Lands r o.words new p
        → Landed new p p' s s' o o'
    unfolding store
    Move-Landed guards rest new (claim _ _ _ _) m h at = (new, at, refl, λ a _. refl)
    Move-Landed guards rest new (observe _ _ _ _ _ _) m h at = (new, at, refl, λ a _. refl)
    Move-Landed guards rest new (find _ c n block s _ _ e) m h at =
        let placed = r.placed in
        let same = h.at in
        let ((ge, lt), _) = m.sound in
        let to = m.to in
        let found = get_spine_block-ok (c / 512) s.buffer (omega arith) in
        let there : block ≡ s.buffer.spine + 8 * (c / 512) = ok-eq (sym e ∙ found) in
        (false, omega arith, rw at refl, λ a _. refl)
    Move-Landed guards rest new (find_fail _ _ _ _ _ _ _ _) m h at = (new, at, refl, λ a _. refl)
    Move-Landed guards rest new (acquire _ _ _ _ _ _) m h at = (new, at, refl, λ a _. refl)
    Move-Landed guards rest new (refuse _ _ _ _ _ _) m h at = (new, at, refl, λ a _. refl)
    Move-Landed guards rest new (look _ _ _ _) m h at = (new, at, refl, λ a _. refl)
    Move-Landed guards rest new (again _ _ _ _ _ _ _) m h at = (new, at, refl, λ a _. refl)
    Move-Landed guards rest new (grow x c n b l o b' o' le e) m h at =
        let enough =
          ensure_cap-enough checks n b o
            (looked-lt r guards rest x c n (with_buffer b l) o m le h) in
        subst
          (λ (z : SweepBuffer × Offheap).
            Landed new (looked x c n) (grown x c) (with_buffer b l) (with_buffer z.0 l) o z.1)
          (ok-eq (sym enough ∙ e)) (new, at, refl, λ a _. refl)
    Move-Landed guards rest new (grow_fail _ _ _ _ _ _ _ _ _) m h at = (new, at, refl, λ a _. refl)
    Move-Landed guards rest new (allocate x c s o) m h at =
        let ((ge, lt), above') = m.sound in
        let to = m.to in
        let few = m.few in
        let single = m.single in
        let above = m.above in
        let brk = h.brk in
        let limit = h.limit in
        let enough = r.enough in
        let fresh = alloc-enough o (omega arith) in
        (
          true,
          (refl, ap (λ (z : ℕ × Offheap). z.0) fresh ∙ omega arith),
          rw at (omega arith),
          λ a _. ap (λ (z : ℕ × Offheap). z.1.words a) fresh,
        )
    Move-Landed guards rest new (extend _ _ _ b _ _) m h at =
        let fits = m.fits in
        let e : (b.spine_length + 1) % word ≡ b.spine_length + 1 = omega arith in
        (new, at, omega arith, λ a _. refl)
    Move-Landed guards rest new (release _ _ _ _ _ _ _) m h (e, at) =
        (true, at, rw e refl, λ a _. refl)
    Move-Landed guards rest new (no_block _ _ _ _ _) m h at =
        let fine = m.fine in absurd (omega arith)
    Move-Landed guards rest new (write x c block s o) m h at =
        let self : (place r new c == block + 8 * (c % 512)) ≡ true = ground arith in
        (
          new,
          rw self refl,
          refl,
          λ a away.
              let apart = away c refl in
              let other : (a == block + 8 * (c % 512)) ≡ false = ground arith in rw other refl,
        )
