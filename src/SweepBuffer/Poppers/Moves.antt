-- ===== src/SweepBuffer/Poppers/Moves.antt =====
-- What one access of a thread in `pop` changes, where the buffer has entries for all the threads, in
-- one block that the spine has.
use rust_go_gc.Prelude.{
  ℕ, zero, suc, ◌+◌, ◌-◌, ◌*◌, ◌/◌, ◌%◌, ◌<◌, ◌≤◌, ◌≡◌, ◌≢◌, ◌⊎◌, inl, inr, ◌∙◌, sym, ap, refl,
  false, Option, none, some, List, [], ◌∷◌, ◌++◌, ◌==◌, arith,
}
use rust_go_gc.Prelude.Outcome.{ok-eq}
use rust_go_gc.Prelude.Word.{word}
use rust_go_gc.Span.{MemorySpan}
use rust_go_gc.SweepBuffer.{Offheap, SweepBuffer, store, as_option}
use rust_go_gc.SweepBuffer.Slot.{slot, get_spine_block-ok}
use rust_go_gc.SweepBuffer.Threads.{Absent}
use rust_go_gc.SweepBuffer.Poppers.{
  Popper, calling, found, loaded, returned, Move, take, give_back, load, clear,
}

abbrev pub cursor : Popper → Option ℕ
cursor calling = none
cursor (found old) = some (old - 1)
cursor (loaded x c block) = some c
cursor (returned x) = none

-- The cursor of a thread lies from the index up to `top`, and its block is the cursor's.
abbrev pub IsSound : (spine index top : ℕ) → Popper → Type 0
IsSound spine index top calling = Unit {0}
IsSound spine index top (found old) = (index < old) × (old ≤ top)
IsSound spine index top (loaded x c block) =
    (index ≤ c) × (c < top) × (block ≡ spine + 8 * (c / 512))
IsSound spine index top (returned x) = Unit {0}

-- What a thread with a cursor returns, if nobody writes its entry.
abbrev pub value : (ℕ → ℕ) → (spine : ℕ) → Popper → List (Option MemorySpan)
value words spine calling = []
value words spine (found old) = as_option (words (slot spine (old - 1))) ∷ []
value words spine (loaded x c block) = x ∷ []
value words spine (returned x) = x ∷ []

abbrev pub waits : Popper → ℕ
waits calling = 1
waits (found old) = 0
waits (loaded x c block) = 0
waits (returned x) = 0

-- The entry below the index, where a cursor is taken.
abbrev pub gained : ℕ → SweepBuffer → Offheap → List (Option MemorySpan)
gained zero b o = []
gained (suc n) b o = as_option (o.words (slot b.spine (b.index - 1))) ∷ []

-- How many cursors a move takes.
abbrev pub taken_by :
    {p : Popper} {b : SweepBuffer} {o : Offheap} {p' : Popper} {b' : SweepBuffer} {o' : Offheap}
    → Move p b o p' b' o'
    → ℕ
taken_by (take _ _) = 1
taken_by (give_back _ _ _ _) = 0
taken_by (load _ _ _ _ _ _ _) = 0
taken_by (clear _ _ _ _ _ _) = 0

-- The block `t` is the spine's, its entries lie below the index, and there is one for each of the
-- threads that wait.
pub record HasEntries (t n : ℕ) (b : SweepBuffer) : Type 0 where
  pub allocated : 0 < b.spine
  pub from : 512 * t + n ≤ b.index
  pub to : b.index ≤ 512 * (t + 1)
  pub fits : 512 * (t + 1) < word

same_index : (b : SweepBuffer) → b ≡ record b { index = b.index - 0 }
same_index b = let e : b.index - 0 ≡ b.index = omega arith in rw e refl

module _ (t : ℕ) where
  pub Move-waits :
      {p : Popper} {b : SweepBuffer} {o : Offheap} {p' : Popper} {b' : SweepBuffer} {o' : Offheap}
      (mv : Move p b o p' b' o')
      → (taken_by mv + waits p' ≡ waits p) × (taken_by mv ≤ 1)
  Move-waits (take _ _) = (refl, omega arith)
  Move-waits (give_back _ _ _ _) = (refl, omega arith)
  Move-waits (load _ _ _ _ _ _ _) = (refl, omega arith)
  Move-waits (clear _ _ _ _ _ _) = (refl, omega arith)

  pub Move-buffer :
      {p : Popper} {b : SweepBuffer} {o : Offheap} {p' : Popper} {b' : SweepBuffer} {o' : Offheap}
      (n : ℕ) (mv : Move p b o p' b' o')
      → HasEntries t (waits p + n) b
      → IsSound b.spine b.index (512 * (t + 1)) p
      → b' ≡ record b { index = b.index - taken_by mv }
  Move-buffer n (take b o) place sound =
      let from = place.from in
      let to = place.to in
      let fits = place.fits in
      let e : (b.index + word - 1) % word ≡ b.index - 1 = omega arith in rw e refl
  Move-buffer n (give_back old b o none_there) place (lt, le) = absurd (omega arith)
  Move-buffer n (load old block b o some_there e _) place sound = same_index b
  Move-buffer n (clear x c block b o _) place sound = same_index b

  -- An access writes no entry but that of the thread's own cursor.
  pub Move-words :
      {p : Popper} {b : SweepBuffer} {o : Offheap} {p' : Popper} {b' : SweepBuffer} {o' : Offheap}
      (n d : ℕ) (mv : Move p b o p' b' o')
      → HasEntries t n b
      → IsSound b.spine b.index (512 * (t + 1)) p
      → Absent cursor d p
      → 512 * t ≤ d
      → d < 512 * (t + 1)
      → o'.words (slot b.spine d) ≡ o.words (slot b.spine d)
  unfolding store
  Move-words n d (take b o) place sound absent ge lt = refl
  Move-words n d (give_back old b o none_there) place sound absent ge lt = refl
  Move-words n d (load old block b o some_there e _) place sound absent ge lt = refl
  Move-words n d (clear x c block b o _) place (above, below, at) absent ge lt =
      let from = place.from in
      let other : d ≢ c = λ e. absent (rw e refl) in
      let apart : (slot b.spine d == block + 8 * (c % 512)) ≡ false = ground arith in rw apart refl

  pub Move-IsSound :
      {p : Popper} {b : SweepBuffer} {o : Offheap} {p' : Popper} {b' : SweepBuffer} {o' : Offheap}
      (n : ℕ) (mv : Move p b o p' b' o')
      → HasEntries t (waits p + n) b
      → IsSound b.spine b.index (512 * (t + 1)) p
      → IsSound b'.spine b'.index (512 * (t + 1)) p'
  Move-IsSound n (take b o) place sound =
      let from = place.from in
      let to = place.to in let fits = place.fits in (omega arith, omega arith)
  Move-IsSound n (give_back old b o none_there) place sound = tt
  Move-IsSound n (load old block b o some_there e _) place (lt, le) =
      let at = ok-eq (sym (get_spine_block-ok ((old - 1) / 512) b place.allocated) ∙ e) in
      (omega arith, omega arith, omega arith)
  Move-IsSound n (clear x c block b o _) place sound = tt

  -- A thread gets the entry below the index, and what it returns does not change from then on.
  pub Move-value :
      {p : Popper} {b : SweepBuffer} {o : Offheap} {p' : Popper} {b' : SweepBuffer} {o' : Offheap}
      (n : ℕ) (mv : Move p b o p' b' o')
      → HasEntries t n b
      → IsSound b.spine b.index (512 * (t + 1)) p
      → value o'.words b'.spine p' ≡ gained (taken_by mv) b o ++ value o.words b.spine p
  Move-value n (take b o) place sound = refl
  Move-value n (give_back old b o none_there) place (lt, le) = absurd (omega arith)
  Move-value n (load old block b o some_there e _) place sound =
      let at = ok-eq (sym (get_spine_block-ok ((old - 1) / 512) b place.allocated) ∙ e) in
      ap (λ (q : ℕ). as_option (o.words (q + 8 * ((old - 1) % 512))) ∷ []) (sym at)
  Move-value n (clear x c block b o _) place sound = refl

  -- A cursor from the index up that no thread has is given to none.
  pub Move-Absent :
      {p : Popper} {b : SweepBuffer} {o : Offheap} {p' : Popper} {b' : SweepBuffer} {o' : Offheap}
      (n d : ℕ) (mv : Move p b o p' b' o')
      → HasEntries t (waits p + n) b
      → b.index ≤ d
      → Absent cursor d p
      → Absent cursor d p'
  Move-Absent n d (take b o) place le absent =
      let from = place.from in λ e. let f : b.index - 1 ≡ d = cc in omega arith
  Move-Absent n d (give_back old b o none_there) place le absent = λ e. cc
  Move-Absent n d (load _ _ _ _ _ _ _) place le absent = absent
  Move-Absent n d (clear _ _ _ _ _ _) place le absent = λ e. cc

  pub Move-cursor :
      {p : Popper} {b : SweepBuffer} {o : Offheap} {p' : Popper} {b' : SweepBuffer} {o' : Offheap}
      (d : ℕ) (mv : Move p b o p' b' o')
      → cursor p' ≡ some d
      → (cursor p ≡ some d) ⊎ ((b.index - 1 ≡ d) × (waits p ≡ 1))
  Move-cursor d (take b o) e = inr (cc, refl)
  Move-cursor d (give_back _ _ _ _) e = cc
  Move-cursor d (load _ _ _ _ _ _ _) e = inl e
  Move-cursor d (clear _ _ _ _ _ _) e = cc
