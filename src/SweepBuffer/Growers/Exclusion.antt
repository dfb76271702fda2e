-- ===== src/SweepBuffer/Growers/Exclusion.antt =====
-- The mutex of the spine in concurrent calls of `push`.
use rust_go_gc.Prelude.{ℕ, ◌+◌, ◌≤◌, ◌≡◌, refl, Bool, List, [], ◌∷◌, arith}
use rust_go_gc.Span.{MemorySpan}
use rust_go_gc.SweepBuffer.{Offheap}
use rust_go_gc.SweepBuffer.Threads.{Step, here, there, Run, start, later}
use rust_go_gc.SweepBuffer.Growers.{
  Lock, open_lock, held, poisoned, LockedBuffer, Grower, Move, claim, observe, find, find_fail,
  acquire, refuse, look, again, grow, grow_fail, allocate, extend, release, no_block, write,
  arrivals, holds, holders, owned,
}

pub owned-le : (l : Lock) → owned l ≤ 1
owned-le open_lock = omega arith
owned-le held = omega arith
owned-le poisoned = omega arith

pub holders-arrivals : (xs : List MemorySpan) → holders (arrivals xs) ≡ 0
holders-arrivals [] = refl
holders-arrivals (x ∷ xs) = omega (arith, holders-arrivals xs)

module _ (checks : Bool) where
  -- `others` is the number of the other threads that have the guard.
  Move-holds :
      (others : ℕ) {p : Grower} {s : LockedBuffer} {o : Offheap} {p' : Grower} {s' : LockedBuffer}
      {o' : Offheap}
      → Move checks p s o p' s' o'
      → holds p + others ≡ owned s.lock
      → holds p' + others ≡ owned s'.lock
  Move-holds others (claim _ _ _ _) e = e
  Move-holds others (observe _ _ _ _ _ _) e = e
  Move-holds others (find _ _ _ _ _ _ _ _) e = e
  Move-holds others (find_fail _ _ _ _ _ _ _ _) e = e
  Move-holds others (acquire _ _ _ _ _ _) e = omega arith
  Move-holds others (refuse _ _ _ _ _ _) e = e
  Move-holds others (look _ _ _ _) e = e
  Move-holds others (again _ _ _ _ l _ _) e = omega (arith, owned-le l)
  Move-holds others (grow _ _ _ _ _ _ _ _ _ _) e = e
  Move-holds others (grow_fail _ _ _ _ l _ _ _ _) e = omega (arith, owned-le l)
  Move-holds others (allocate _ _ _ _) e = e
  Move-holds others (extend _ _ _ _ _ _) e = e
  Move-holds others (release _ _ _ _ l _ _) e = omega (arith, owned-le l)
  Move-holds others (no_block _ _ _ l _) e = omega (arith, owned-le l)
  Move-holds others (write _ _ _ _ _) e = e

  pub Step-holders :
      (others : ℕ) {ps : List Grower} {s : LockedBuffer} {o : Offheap} {ps' : List Grower}
      {s' : LockedBuffer} {o' : Offheap}
      → Step (Move checks) ps s o ps' s' o'
      → others + holders ps ≡ owned s.lock
      → others + holders ps' ≡ owned s'.lock
  Step-holders others (here p _ _ p' _ _ ps mv) e =
      let kept = Move-holds (others + holders ps) mv (omega arith) in omega arith
  Step-holders others (there p _ _ _ _ _ _ st) e =
      let kept = Step-holders (others + holds p) st (omega arith) in omega arith

  Run-holders :
      {ps : List Grower} {s : LockedBuffer} {o : Offheap} {n : ℕ} {ps' : List Grower}
      {s' : LockedBuffer} {o' : Offheap}
      → Run (Move checks) ps s o n ps' s' o'
      → holders ps ≡ owned s.lock
      → holders ps' ≡ owned s'.lock
  Run-holders start e = e
  Run-holders (later _ _ _ _ _ _ _ run st) e =
      let before = Run-holders run e in let after = Step-holders 0 st (omega arith) in omega arith

-- Threads push spans at once, in any interleaving of their accesses, on any buffer whose lock is open
-- at first; one with no spine yet gets its first one on the way. At every point one thread has the
-- guard of the lock if the lock is held, and none has it if the lock is open or poisoned: never do two
-- threads grow the spine at the same time. A thread that comes to grow a spine with a capacity makes no
-- further access, since that is undefined behaviour.
pub growers-exclude :
    (checks : Bool) (xs : List MemorySpan) (s : LockedBuffer) (o : Offheap)
    → s.lock ≡ open_lock
    → (n : ℕ) (ps : List Grower) (s' : LockedBuffer) (o' : Offheap)
    → Run (Move checks) (arrivals xs) s o n ps s' o'
    → holders ps ≡ owned s'.lock
growers-exclude checks xs s o e n ps s' o' run =
    let none_at_first = holders-arrivals xs in Run-holders checks run (rw (e, none_at_first) refl)
