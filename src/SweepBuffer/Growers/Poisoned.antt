-- ===== src/SweepBuffer/Growers/Poisoned.antt =====
-- Concurrent calls of `push` after a thread has panicked with the guard of the spine's mutex.
use rust_go_gc.Prelude.{ℕ, ◌+◌, ◌<◌, ◌≤◌, ◌≡◌, ◌∙◌, refl, Bool, List, [], ◌∷◌, ◌++◌, arith}
use rust_go_gc.Span.{MemorySpan}
use rust_go_gc.SweepBuffer.{Offheap, store}
use rust_go_gc.SweepBuffer.Threads.{Step, here, there, Run, start, later}
use rust_go_gc.SweepBuffer.Growers.{
  open_lock, poisoned, LockedBuffer, Grower, Move, claim, observe, find, find_fail, acquire, refuse,
  look, again, grow, grow_fail, allocate, extend, release, no_block, write, arrivals, holds,
  holders, owned, arriving, claimed, observed, holding, looked, grown, allocated, extended, located,
  pushed, panicked,
}
use rust_go_gc.SweepBuffer.Growers.Exclusion.{Step-holders, growers-exclude}

-- The lock is poisoned, and the spine and the allocator are as before.
pub record IsFrozen (s : LockedBuffer) (o : Offheap) (s' : LockedBuffer) (o' : Offheap)
    : Type 0 where
  pub lock : s'.lock ≡ poisoned
  pub spine_length : s'.buffer.spine_length ≡ s.buffer.spine_length
  pub spine_cap : s'.buffer.spine_cap ≡ s.buffer.spine_cap
  pub spine : s'.buffer.spine ≡ s.buffer.spine
  pub brk : o'.brk ≡ o.brk

IsFrozen-trans :
    {s : LockedBuffer} {o : Offheap} {s' : LockedBuffer} {o' : Offheap} {s'' : LockedBuffer}
    {o'' : Offheap}
    → IsFrozen s o s' o'
    → IsFrozen s' o' s'' o''
    → IsFrozen s o s'' o''
IsFrozen-trans h h' = record {
  lock = h'.lock;
  spine_length = h'.spine_length ∙ h.spine_length;
  spine_cap = h'.spine_cap ∙ h.spine_cap;
  spine = h'.spine ∙ h.spine;
  brk = h'.brk ∙ h.brk;
}

IsFrozen-self :
    (s : LockedBuffer) (o o' : Offheap) → s.lock ≡ poisoned → o'.brk ≡ o.brk → IsFrozen s o s o'
IsFrozen-self s o o' lock brk = record {
  lock = lock;
  spine_length = refl;
  spine_cap = refl;
  spine = refl;
  brk = brk;
}

-- The threads that have panicked.
abbrev fails : Grower → ℕ
fails (arriving x) = 0
fails (claimed x c) = 0
fails (observed x c n) = 0
fails (holding x c) = 0
fails (looked x c n) = 0
fails (grown x c) = 0
fails (allocated x c block) = 0
fails (extended x c block) = 0
fails (located x c block) = 0
fails (pushed x c) = 0
fails (panicked x c) = 1

abbrev failures : List Grower → ℕ
failures [] = 0
failures (p ∷ ps) = fails p + failures ps

holds-fails : (p : Grower) → holds p + fails p ≤ 1
holds-fails p = ground arith

-- Putting one thread in the place of another changes the counts by what they count for the two.
holders-replaced :
    (p q : Grower) (ps qs : List Grower)
    → holders (ps ++ p ∷ qs) + holds q ≡ holders (ps ++ q ∷ qs) + holds p
holders-replaced p q [] qs = omega arith
holders-replaced p q (r ∷ ps) qs = omega (arith, holders-replaced p q ps qs)

failures-replaced :
    (p q : Grower) (ps qs : List Grower)
    → failures (ps ++ p ∷ qs) + fails q ≡ failures (ps ++ q ∷ qs) + fails p
failures-replaced p q [] qs = omega arith
failures-replaced p q (r ∷ ps) qs = omega (arith, failures-replaced p q ps qs)

module _ (checks : Bool) where
  Move-IsFrozen :
      {p : Grower} {s : LockedBuffer} {o : Offheap} {p' : Grower} {s' : LockedBuffer} {o' : Offheap}
      → Move checks p s o p' s' o'
      → holds p ≡ 0
      → s.lock ≡ poisoned
      → IsFrozen s o s' o'
  unfolding store
  Move-IsFrozen (claim _ b l o) none e = record {
    lock = e;
    spine_length = refl;
    spine_cap = refl;
    spine = refl;
    brk = refl;
  }
  Move-IsFrozen (observe _ _ _ s o _) none e = IsFrozen-self s o o e refl
  Move-IsFrozen (find _ _ _ _ s o _ _) none e = IsFrozen-self s o o e refl
  Move-IsFrozen (find_fail _ _ _ s o _ _ _) none e = IsFrozen-self s o o e refl
  Move-IsFrozen (acquire _ _ _ _ _ _) none e = cc
  Move-IsFrozen (refuse _ _ _ b o _) none e = IsFrozen-self _ o o e refl
  Move-IsFrozen (look _ _ _ _) none e = absurd (omega arith)
  Move-IsFrozen (again _ _ _ _ _ _ _) none e = absurd (omega arith)
  Move-IsFrozen (grow _ _ _ _ _ _ _ _ _ _) none e = absurd (omega arith)
  Move-IsFrozen (grow_fail _ _ _ _ _ _ _ _ _) none e = absurd (omega arith)
  Move-IsFrozen (allocate _ _ _ _) none e = absurd (omega arith)
  Move-IsFrozen (extend _ _ _ _ _ _) none e = absurd (omega arith)
  Move-IsFrozen (release _ _ _ _ _ _ _) none e = absurd (omega arith)
  Move-IsFrozen (no_block _ _ _ _ _) none e = absurd (omega arith)
  Move-IsFrozen (write _ _ _ s o) none e = IsFrozen-self s o _ e refl

  Step-IsFrozen :
      {ps : List Grower} {s : LockedBuffer} {o : Offheap} {ps' : List Grower} {s' : LockedBuffer}
      {o' : Offheap}
      → Step (Move checks) ps s o ps' s' o'
      → holders ps ≡ 0
      → s.lock ≡ poisoned
      → IsFrozen s o s' o'
  Step-IsFrozen (here _ _ _ _ _ _ _ mv) none e = Move-IsFrozen mv (omega arith) e
  Step-IsFrozen (there _ _ _ _ _ _ _ st) none e = Step-IsFrozen st (omega arith) e

  Run-IsFrozen :
      {ps : List Grower} {s : LockedBuffer} {o : Offheap} {n : ℕ} {ps' : List Grower}
      {s' : LockedBuffer} {o' : Offheap}
      → Run (Move checks) ps s o n ps' s' o'
      → holders ps ≡ 0
      → s.lock ≡ poisoned
      → IsFrozen s o s' o' × (holders ps' ≡ 0)
  Run-IsFrozen {s} {o} start none e = (IsFrozen-self s o o e refl, none)
  Run-IsFrozen (later _ ps' s' _ ps'' s'' _ run st) none e =
      let (h, none') = Run-IsFrozen run none e in
      let step = Step-IsFrozen st none' h.lock in
      let guarded : 0 + holders ps' ≡ owned s'.lock = rw (h.lock, none') refl in
      let kept : 0 + holders ps'' ≡ 0 = rw step.lock at (Step-holders checks 0 st guarded) in
      (IsFrozen-trans h step, omega arith)

  -- A thread that has the guard before the access and has panicked after it.
  Move-panics :
      {p : Grower} {s : LockedBuffer} {o : Offheap} {p' : Grower} {s' : LockedBuffer} {o' : Offheap}
      → Move checks p s o p' s' o'
      → holds p' < holds p
      → fails p < fails p'
      → IsFrozen s o s' o'
  Move-panics (claim _ _ _ _) drops rises = absurd (omega arith)
  Move-panics (observe _ _ _ _ _ _) drops rises = absurd (omega arith)
  Move-panics (find _ _ _ _ _ _ _ _) drops rises = absurd (omega arith)
  Move-panics (find_fail _ _ _ _ _ _ _ _) drops rises = absurd (omega arith)
  Move-panics (acquire _ _ _ _ _ _) drops rises = absurd (omega arith)
  Move-panics (refuse _ _ _ _ _ _) drops rises = absurd (omega arith)
  Move-panics (look _ _ _ _) drops rises = absurd (omega arith)
  Move-panics (again _ _ _ _ _ _ _) drops rises = absurd (omega arith)
  Move-panics (grow _ _ _ _ _ _ _ _ _ _) drops rises = absurd (omega arith)
  Move-panics (grow_fail _ _ _ _ _ _ _ _ _) drops rises = record {
    lock = refl;
    spine_length = refl;
    spine_cap = refl;
    spine = refl;
    brk = refl;
  }
  Move-panics (allocate _ _ _ _) drops rises = absurd (omega arith)
  Move-panics (extend _ _ _ _ _ _) drops rises = absurd (omega arith)
  Move-panics (release _ _ _ _ _ _ _) drops rises = absurd (omega arith)
  Move-panics (no_block _ _ _ _ _) drops rises = record {
    lock = refl;
    spine_length = refl;
    spine_cap = refl;
    spine = refl;
    brk = refl;
  }
  Move-panics (write _ _ _ _ _) drops rises = absurd (omega arith)

  Step-panics :
      {ps : List Grower} {s : LockedBuffer} {o : Offheap} {ps' : List Grower} {s' : LockedBuffer}
      {o' : Offheap}
      → Step (Move checks) ps s o ps' s' o'
      → holders ps' < holders ps
      → failures ps < failures ps'
      → IsFrozen s o s' o'
  Step-panics (here _ _ _ _ _ _ _ mv) drops rises = Move-panics mv (omega arith) (omega arith)
  Step-panics (there _ _ _ _ _ _ _ st) drops rises = Step-panics st (omega arith) (omega arith)

-- Threads push spans at once, in any interleaving of their accesses, on any buffer whose lock is open
-- at first, and at some point one of them, which has the guard of the lock, panics: the size of the
-- spine overflows, or there is no memory for the block. That access poisons the lock, and however the
-- threads go on after it, the lock stays poisoned, and no thread grows the spine, adds a block to it,
-- or allocates memory: all of these are as they were before the panic.
pub growers-poisoned :
    (checks : Bool) (xs : List MemorySpan) (s : LockedBuffer) (o : Offheap)
    → s.lock ≡ open_lock
    → (n : ℕ) (ps : List Grower) (p : Grower) (qs : List Grower) (s₁ : LockedBuffer) (o₁ : Offheap)
    → Run (Move checks) (arrivals xs) s o n (ps ++ p ∷ qs) s₁ o₁
    → holds p ≡ 1
    → (x : MemorySpan) (c : ℕ) (s₂ : LockedBuffer) (o₂ : Offheap)
    → Step (Move checks) (ps ++ p ∷ qs) s₁ o₁ (ps ++ panicked x c ∷ qs) s₂ o₂
    → (k : ℕ) (rs : List Grower) (s₃ : LockedBuffer) (o₃ : Offheap)
    → Run (Move checks) (ps ++ panicked x c ∷ qs) s₂ o₂ k rs s₃ o₃
    → IsFrozen s₁ o₁ s₂ o₂ × IsFrozen s₁ o₁ s₃ o₃
growers-poisoned checks xs s o opened n ps p qs s₁ o₁ run guard x c s₂ o₂ panics k rs s₃ o₃ more =
    let q = panicked x c in
    let alive = holds-fails p in
    let held_by = holders-replaced p q ps qs in
    let failed = failures-replaced p q ps qs in
    let guarded = growers-exclude checks xs s o opened n (ps ++ p ∷ qs) s₁ o₁ run in
    let frozen = Step-panics checks panics (omega arith) (omega arith) in
    let after = rw frozen.lock at (Step-holders checks 0 panics (omega arith)) in
    let free : holders (ps ++ q ∷ qs) ≡ 0 = omega arith in
    (frozen, IsFrozen-trans frozen (Run-IsFrozen checks more free frozen.lock).0)
