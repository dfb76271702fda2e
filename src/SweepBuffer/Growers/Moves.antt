-- ===== src/SweepBuffer/Growers/Moves.antt =====
-- What one access of a thread in `push` changes, where the spine may grow.
use rust_go_gc.Prelude.{
  ℕ, ◌+◌, ◌*◌, ◌/◌, ◌%◌, ◌<◌, ◌≤◌, ◌≡◌, refl, ap, sym, Bool, List, [], ◌∷◌, arith, Bool-cases, leb,
  ◌^◌, if◌then◌else◌, inl, inr, ◌==◌,
}
use rust_go_gc.Prelude.Outcome.{ok, Panic, panic_if, >>=-inv, ok-eq}
use rust_go_gc.Prelude.Word.{word, mul_word}
use rust_go_gc.SweepBuffer.{
  Offheap, SweepBuffer, grow_spine, alloc, realloc, gc_sweep_buf_init_spine_cap,
}
use rust_go_gc.SweepBuffer.Growers.{
  LockedBuffer, Grower, arriving, claimed, observed, holding, looked, grown, allocated, extended,
  located, pushed, panicked, ensure_cap, Move, claim, observe, find, find_fail, acquire, refuse,
  look, again, grow, grow_fail, allocate, extend, release, no_block, write, holds,
}

-- The threads that have no cursor yet.
abbrev pub waits : Grower → ℕ
waits (arriving x) = 1
waits (claimed x c) = 0
waits (observed x c n) = 0
waits (holding x c) = 0
waits (looked x c n) = 0
waits (grown x c) = 0
waits (allocated x c block) = 0
waits (extended x c block) = 0
waits (located x c block) = 0
waits (pushed x c) = 0
waits (panicked x c) = 0

abbrev pub waiting : List Grower → ℕ
waiting [] = 0
waiting (p ∷ ps) = waits p + waiting ps

-- A cursor lies from that of the block `t` up to the index.
abbrev pub InRange : (t index c : ℕ) → Type 0
InRange t index c = (512 * t ≤ c) × (c < index)

-- What the variables of a thread say of a spine of `spine_length` blocks.
abbrev pub IsSound : (t index spine_length : ℕ) → Grower → Type 0
IsSound t index spine_length (arriving x) = Unit {0}
IsSound t index spine_length (claimed x c) = InRange t index c
IsSound t index spine_length (observed x c n) = InRange t index c × (n ≤ spine_length)
IsSound t index spine_length (holding x c) = InRange t index c
IsSound t index spine_length (looked x c n) = InRange t index c × (n ≡ spine_length)
IsSound t index spine_length (grown x c) = InRange t index c × (spine_length ≤ c / 512)
IsSound t index spine_length (allocated x c block) = InRange t index c × (spine_length ≤ c / 512)
IsSound t index spine_length (extended x c block) = InRange t index c × (t < spine_length)
IsSound t index spine_length (located x c block) = InRange t index c × (t < spine_length)
IsSound t index spine_length (pushed x c) = InRange t index c × (t < spine_length)
IsSound t index spine_length (panicked x c) = InRange t index c

-- The threads that wait get the cursors up to `top`, and the index does not wrap; the last block of
-- the spine is one that a cursor has reached.
abbrev pub Reached : (t top index spine_length waiting : ℕ) → Type 0
Reached t top index spine_length waiting =
    (t ≤ spine_length)
    × (512 * t ≤ index)
    × (512 * spine_length < index + 512)
    × (index + waiting ≡ top)
    × (top + 512 < word)

abbrev pub SameSize : SweepBuffer → SweepBuffer → Type 0
SameSize b b' = (b'.spine_length ≡ b.spine_length) × (b'.index ≡ b.index)

grow_spine-SameSize :
    (checks : Bool) (b : SweepBuffer) (o : Offheap) (b' : SweepBuffer) (o' : Offheap)
    → grow_spine checks b o ≡ ok (b', o')
    → SameSize b b'
unfolding grow_spine
grow_spine-SameSize checks b o b' o' e =
    >>=-inv
      (if b.spine_cap == 0 then ok gc_sweep_buf_init_spine_cap else mul_word checks b.spine_cap 2) _
      e
      λ new_cap _ e₁.
        >>=-inv (panic_if (leb (2 ^ 63) (new_cap * 8)) Panic.no_spine_layout) _ e₁ λ _ _ e₂.
          >>=-inv
            (if b.spine_cap == 0
              then ok (alloc (new_cap * 8) o)
              else realloc b.spine (b.spine_cap * 8) (new_cap * 8) new_cap o)
            _ e₂
            λ _ _ e₃.
              let same = ok-eq e₃ in
              (
                sym (ap (λ (r : SweepBuffer × Offheap). r.0.spine_length) same),
                sym (ap (λ (r : SweepBuffer × Offheap). r.0.index) same),
              )

ensure_cap-SameSize :
    (checks : Bool) (n : ℕ) (b : SweepBuffer) (o : Offheap) (b' : SweepBuffer) (o' : Offheap)
    → ensure_cap checks n b o ≡ ok (b', o')
    → SameSize b b'
unfolding ensure_cap
ensure_cap-SameSize checks n b o b' o' e = elim (Bool-cases (n == b.spine_cap)) [
  | inl full ↦ grow_spine-SameSize checks b o b' o' (rw full at e)
  | inr other ↦
      (let same = ok-eq (rw other at e) in
        (
          sym (ap (λ (r : SweepBuffer × Offheap). r.0.spine_length) same),
          sym (ap (λ (r : SweepBuffer × Offheap). r.0.index) same),
        ))
]

-- The index and the spine's length only grow, and the length only by the thread with the lock.
abbrev pub Grows : (guards : ℕ) → SweepBuffer → SweepBuffer → Type 0
Grows guards b b' =
    (b.index ≤ b'.index)
    × (b.spine_length ≤ b'.spine_length)
    × (guards ≡ 0 → b'.spine_length ≡ b.spine_length)

Grows-same : (guards : ℕ) (b b' : SweepBuffer) → SameSize b b' → Grows guards b b'
Grows-same guards b b' (e, f) = (omega arith, omega arith, λ _. e)

module _ (checks : Bool) (t top : ℕ) where
  pub Move-Grows :
      (others : ℕ) {p : Grower} {s : LockedBuffer} {o : Offheap} {p' : Grower} {s' : LockedBuffer}
      {o' : Offheap}
      → Move checks p s o p' s' o'
      → Reached t top s.buffer.index s.buffer.spine_length (others + waits p)
      → Grows (holds p) s.buffer s'.buffer
  Move-Grows others (claim _ _ _ _) (_, _, _, under, fits) = (omega arith, omega arith, λ _. refl)
  Move-Grows others (observe _ _ _ s _ _) r = Grows-same _ s.buffer s.buffer (refl, refl)
  Move-Grows others (find _ _ _ _ s _ _ _) r = Grows-same _ s.buffer s.buffer (refl, refl)
  Move-Grows others (find_fail _ _ _ s _ _ _ _) r = Grows-same _ s.buffer s.buffer (refl, refl)
  Move-Grows others (acquire _ _ _ b _ _) r = Grows-same _ b b (refl, refl)
  Move-Grows others (refuse _ _ _ b _ _) r = Grows-same _ b b (refl, refl)
  Move-Grows others (look _ _ s _) r = Grows-same _ s.buffer s.buffer (refl, refl)
  Move-Grows others (again _ _ _ b _ _ _) r = Grows-same _ b b (refl, refl)
  Move-Grows others (grow _ _ n b _ o b' o' _ e) r =
      Grows-same _ b b' (ensure_cap-SameSize checks n b o b' o' e)
  Move-Grows others (grow_fail _ _ _ b _ _ _ _ _) r = Grows-same _ b b (refl, refl)
  Move-Grows others (allocate _ _ s _) r = Grows-same _ s.buffer s.buffer (refl, refl)
  Move-Grows others (extend _ _ _ _ _ _) (_, _, reached, under, fits) =
      (omega arith, omega arith, λ e. absurd (omega arith))
  Move-Grows others (release _ _ _ b _ _ _) r = Grows-same _ b b (refl, refl)
  Move-Grows others (no_block _ _ b _ _) r = Grows-same _ b b (refl, refl)
  Move-Grows others (write _ _ _ s _) r = Grows-same _ s.buffer s.buffer (refl, refl)

  pub Move-Reached :
      (others : ℕ) {p : Grower} {s : LockedBuffer} {o : Offheap} {p' : Grower} {s' : LockedBuffer}
      {o' : Offheap}
      → Move checks p s o p' s' o'
      → IsSound t s.buffer.index s.buffer.spine_length p
      → Reached t top s.buffer.index s.buffer.spine_length (others + waits p)
      → Reached t top s'.buffer.index s'.buffer.spine_length (others + waits p')
  Move-Reached others (claim _ b _ _) sound (above, from, reached, under, fits) =
      let e : (b.index + 1) % word ≡ b.index + 1 = omega arith in
      (above, omega arith, omega arith, omega arith, fits)
  Move-Reached others (observe _ _ _ _ _ _) sound r = r
  Move-Reached others (find _ _ _ _ _ _ _ _) sound r = r
  Move-Reached others (find_fail _ _ _ _ _ _ _ _) sound r = r
  Move-Reached others (acquire _ _ _ _ _ _) sound r = r
  Move-Reached others (refuse _ _ _ _ _ _) sound r = r
  Move-Reached others (look _ _ _ _) sound r = r
  Move-Reached others (again _ _ _ _ _ _ _) sound r = r
  Move-Reached others (grow _ _ n b _ o b' o' _ e) sound (above, from, reached, under, fits) =
      let (same, index) = ensure_cap-SameSize checks n b o b' o' e in
      (omega arith, omega arith, omega arith, omega arith, fits)
  Move-Reached others (grow_fail _ _ _ _ _ _ _ _ _) sound r = r
  Move-Reached others (allocate _ _ _ _) sound r = r
  Move-Reached others (extend _ _ _ b _ _) ((ge, lt), below) (above, from, reached, under, fits) =
      let e : (b.spine_length + 1) % word ≡ b.spine_length + 1 = omega arith in
      (omega arith, omega arith, omega arith, omega arith, fits)
  Move-Reached others (release _ _ _ _ _ _ _) sound r = r
  Move-Reached others (no_block _ _ _ _ _) sound r = r
  Move-Reached others (write _ _ _ _ _) sound r = r

  pub Move-IsSound :
      (others : ℕ) {p : Grower} {s : LockedBuffer} {o : Offheap} {p' : Grower} {s' : LockedBuffer}
      {o' : Offheap}
      → Move checks p s o p' s' o'
      → IsSound t s.buffer.index s.buffer.spine_length p
      → Reached t top s.buffer.index s.buffer.spine_length (others + waits p)
      → IsSound t s'.buffer.index s'.buffer.spine_length p'
  Move-IsSound others (claim _ b _ _) sound (above, from, reached, under, fits) =
      (omega arith, omega arith)
  Move-IsSound others (observe _ _ _ _ _ le) sound r = (sound, le)
  Move-IsSound others (find _ _ _ _ _ _ known _) ((ge, lt), le) r = ((ge, lt), omega arith)
  Move-IsSound others (find_fail _ _ _ _ _ _ _ _) (range, le) r = range
  Move-IsSound others (acquire _ _ _ _ _ _) (range, le) r = range
  Move-IsSound others (refuse _ _ _ _ _ _) (range, le) r = range
  Move-IsSound others (look _ _ _ _) sound r = (sound, refl)
  Move-IsSound others (again _ _ _ _ _ _ _) (range, same) r = (range, omega arith)
  Move-IsSound others (grow _ _ n b _ o b' o' le e) ((ge, lt), at) r =
      let (same, index) = ensure_cap-SameSize checks n b o b' o' e in
      ((ge, omega arith), omega arith)
  Move-IsSound others (grow_fail _ _ _ _ _ _ _ _ _) (range, at) r = range
  Move-IsSound others (allocate _ _ _ _) sound r = sound
  Move-IsSound others (extend _ _ _ b _ _) (range, below) (above, from, reached, under, fits) =
      (range, omega arith)
  Move-IsSound others (release _ _ _ _ _ _ _) sound r = sound
  Move-IsSound others (no_block _ _ _ _ _) (range, _) r = range
  Move-IsSound others (write _ _ _ _ _) sound r = sound
