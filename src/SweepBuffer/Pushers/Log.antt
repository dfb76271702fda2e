-- ===== src/SweepBuffer/Pushers/Log.antt =====
-- The order in which the threads of concurrent calls of `push` get their cursors.
use mathlib.Core.List.{Perm, perm_middle}
use mathlib.Core.List.Perm
use mathlib.Core.List
use mathlib.Core.Path.{subst}
use rust_go_gc.Prelude.{
  ℕ, ◌+◌, ◌≤◌, ◌≡◌, ◌⊎◌, inl, inr, ap, refl, Bool, List, [], ◌∷◌, ◌++◌, some, arith, length, AllOf,
}
use rust_go_gc.Span.{MemorySpan}
use rust_go_gc.SweepBuffer.{Offheap, SweepBuffer}
use rust_go_gc.SweepBuffer.Pushers.{
  Pusher, arriving, claimed, observed, located, pushed, Move, claim, observe, find, write,
}
use rust_go_gc.SweepBuffer.Threads.{perm_between, Step, here, there}
use rust_go_gc.SweepBuffer.Pushers.Moves.{cursor, waits, waiting, taken_by, taken}

-- The span of a thread, and that of a thread with a cursor.
abbrev pub span_of_pusher : Pusher → MemorySpan
span_of_pusher (arriving x) = x
span_of_pusher (claimed x c) = x
span_of_pusher (observed x c n) = x
span_of_pusher (located x c block) = x
span_of_pusher (pushed x c) = x

abbrev own : Pusher → List MemorySpan
own (arriving x) = []
own (claimed x c) = x ∷ []
own (observed x c n) = x ∷ []
own (located x c block) = x ∷ []
own (pushed x c) = x ∷ []

abbrev pub owned : List Pusher → List MemorySpan
owned [] = []
owned (p ∷ ps) = own p ++ owned ps

-- Some thread pushes the span `x` at cursor `c`.
abbrev pub Has : (c : ℕ) (x : MemorySpan) → List Pusher → Type 0
Has c x [] = ⊥
Has c x (p ∷ ps) = ((span_of_pusher p ≡ x) × (cursor p ≡ some c)) ⊎ Has c x ps

-- The cursors from `base` on went to threads with the spans of `log`, the last one's first.
abbrev pub IsLog : (base : ℕ) → List MemorySpan → List Pusher → Type 0
IsLog base [] ps = Unit {0}
IsLog base (x ∷ log) ps = Has (base + length log) x ps × IsLog base log ps

Has-there :
    (c : ℕ) (p : Pusher) (ps : List Pusher) (xs : List MemorySpan)
    → AllOf (λ x. Has c x ps) xs
    → AllOf (λ x. Has c x (p ∷ ps)) xs
Has-there c p ps [] h = tt
Has-there c p ps (x ∷ xs) (h, hs) = (inr h, Has-there c p ps xs hs)

IsLog-append :
    (base : ℕ) {index : ℕ} (log : List MemorySpan) (ps : List Pusher) (xs : List MemorySpan)
    → length xs ≤ 1
    → index ≡ base + length log
    → AllOf (λ x. Has index x ps) xs
    → IsLog base log ps
    → IsLog base (xs ++ log) ps
IsLog-append base log ps [] le at h hs = hs
IsLog-append base log ps (x ∷ []) le at (h, _) hs = (subst (λ (c : ℕ). Has c x ps) at h, hs)
IsLog-append base log ps (x ∷ y ∷ xs) le at h hs = absurd (omega arith)

module _ (checks : Bool) where
  Move-Pushes :
      (c : ℕ) (x : MemorySpan) {p : Pusher} {b : SweepBuffer} {o : Offheap} {p' : Pusher}
      {b' : SweepBuffer} {o' : Offheap}
      → Move checks p b o p' b' o'
      → (span_of_pusher p ≡ x) × (cursor p ≡ some c)
      → (span_of_pusher p' ≡ x) × (cursor p' ≡ some c)
  Move-Pushes c x (claim _ _ _) (_, e) = cc
  Move-Pushes c x (observe _ _ _ _ _ _) h = h
  Move-Pushes c x (find _ _ _ _ _ _ _ _ _) h = h
  Move-Pushes c x (write _ _ _ _ _) h = h

  Move-own :
      {p : Pusher} {b : SweepBuffer} {o : Offheap} {p' : Pusher} {b' : SweepBuffer} {o' : Offheap}
      → (ps : List Pusher) (mv : Move checks p b o p' b' o')
      → Perm (taken_by checks mv ++ (own p ++ owned ps)) (own p' ++ owned ps)
  Move-own ps (claim _ _ _) = Perm.refl _
  Move-own ps (observe _ _ _ _ _ _) = Perm.refl _
  Move-own ps (find _ _ _ _ _ _ _ _ _) = Perm.refl _
  Move-own ps (write _ _ _ _ _) = Perm.refl _

  Move-waits :
      {p : Pusher} {b : SweepBuffer} {o : Offheap} {p' : Pusher} {b' : SweepBuffer} {o' : Offheap}
      (mv : Move checks p b o p' b' o')
      → (length (taken_by checks mv) + waits p' ≡ waits p)
        × (length (taken_by checks mv) ≤ 1)
        × (span_of_pusher p' ≡ span_of_pusher p)
  Move-waits (claim _ _ _) = (refl, omega arith, refl)
  Move-waits (observe _ _ _ _ _ _) = (refl, omega arith, refl)
  Move-waits (find _ _ _ _ _ _ _ _ _) = (refl, omega arith, refl)
  Move-waits (write _ _ _ _ _) = (refl, omega arith, refl)

module _ (checks : Bool) where
  Has-Step :
      (c : ℕ) (x : MemorySpan) {ps : List Pusher} {b : SweepBuffer} {o : Offheap}
      {ps' : List Pusher} {b' : SweepBuffer} {o' : Offheap}
      → Step (Move checks) ps b o ps' b' o'
      → Has c x ps
      → Has c x ps'
  Has-Step c x (here _ _ _ _ _ _ ps mv) (inl h) = inl (Move-Pushes checks c x mv h)
  Has-Step c x (here _ _ _ _ _ _ ps mv) (inr h) = inr h
  Has-Step c x (there _ _ _ _ _ _ _ st) (inl h) = inl h
  Has-Step c x (there _ _ _ _ _ _ _ st) (inr h) = inr (Has-Step c x st h)

  IsLog-Step :
      (base : ℕ) (log : List MemorySpan) {ps : List Pusher} {b : SweepBuffer} {o : Offheap}
      {ps' : List Pusher} {b' : SweepBuffer} {o' : Offheap}
      → Step (Move checks) ps b o ps' b' o'
      → IsLog base log ps
      → IsLog base log ps'
  IsLog-Step base [] st h = tt
  IsLog-Step base (x ∷ log) st (h, hs) =
      (Has-Step (base + length log) x st h, IsLog-Step base log st hs)

  -- The thread that gets a cursor gets the index.
  Has-taken :
      {ps : List Pusher} {b : SweepBuffer} {o : Offheap} {ps' : List Pusher} {b' : SweepBuffer}
      {o' : Offheap} (st : Step (Move checks) ps b o ps' b' o')
      → AllOf (λ x. Has b.index x ps') (taken checks st)
  Has-taken (here _ _ _ _ _ _ ps (claim x b o)) = (inl (refl, refl), tt)
  Has-taken (here _ _ _ _ _ _ ps (observe _ _ _ _ _ _)) = tt
  Has-taken (here _ _ _ _ _ _ ps (find _ _ _ _ _ _ _ _ _)) = tt
  Has-taken (here _ _ _ _ _ _ ps (write _ _ _ _ _)) = tt
  Has-taken (there p _ b _ ps' _ _ st) = Has-there b.index p ps' (taken checks st) (Has-taken st)

  pub Step-owned :
      {ps : List Pusher} {b : SweepBuffer} {o : Offheap} {ps' : List Pusher} {b' : SweepBuffer}
      {o' : Offheap} (st : Step (Move checks) ps b o ps' b' o')
      → Perm (taken checks st ++ owned ps) (owned ps')
  Step-owned (here _ _ _ _ _ _ ps mv) = Move-own checks ps mv
  Step-owned (there p ps _ _ _ _ _ st) =
      Perm.trans (perm_between (taken checks st) (own p) (owned ps))
        (Perm.append_left (own p) (Step-owned st))

  pub Step-waiting :
      {ps : List Pusher} {b : SweepBuffer} {o : Offheap} {ps' : List Pusher} {b' : SweepBuffer}
      {o' : Offheap} (st : Step (Move checks) ps b o ps' b' o')
      → (length (taken checks st) + waiting ps' ≡ waiting ps)
        × (length (taken checks st) ≤ 1)
        × (List.map span_of_pusher ps' ≡ List.map span_of_pusher ps)
  Step-waiting (here _ _ _ _ _ _ ps mv) =
      let (e, le, same) = Move-waits checks mv in
      (omega arith, le, ap (λ (x : MemorySpan). x ∷ List.map span_of_pusher ps) same)
  Step-waiting (there p ps _ _ _ _ _ st) =
      let (e, le, same) = Step-waiting st in
      (omega arith, le, ap (λ (xs : List MemorySpan). span_of_pusher p ∷ xs) same)

  pub Step-IsLog :
      (base : ℕ) (log : List MemorySpan) {ps : List Pusher} {b : SweepBuffer} {o : Offheap}
      {ps' : List Pusher} {b' : SweepBuffer} {o' : Offheap}
      (st : Step (Move checks) ps b o ps' b' o')
      → b.index ≡ base + length log
      → IsLog base log ps
      → IsLog base (taken checks st ++ log) ps'
  Step-IsLog base log {ps' = ps'} st at h =
      IsLog-append base log ps' (taken checks st) (Step-waiting st).1 at (Has-taken st)
        (IsLog-Step base log st h)
