-- ===== src/SweepBuffer/Threads.antt =====
-- Threads that each make a call on one buffer of src/sweep_buffer.rs, interleaved in any order; what
-- one access of a thread does to the buffer and the memory is a relation of its own.
use mathlib.Core.List.{Perm, perm_middle}
use mathlib.Core.List.Perm
use rust_go_gc.Prelude.{◌++◌, ℕ, suc, ◌≡◌, ◌≢◌, Option, some, List, [], ◌∷◌, AllOf}

module _ {T S O : Type 0} where
  module _ (Move : T → S → O → T → S → O → Type 0) where
    -- One thread makes an access.
    pub data Step : List T → S → O → List T → S → O → Type 0 where
      here :
          (p : T) (b : S) (o : O) (p' : T) (b' : S) (o' : O) (ps : List T)
          → Move p b o p' b' o'
          → Step (p ∷ ps) b o (p' ∷ ps) b' o'
      there :
          (p : T) (ps : List T) (b : S) (o : O) (ps' : List T) (b' : S) (o' : O)
          → Step ps b o ps' b' o'
          → Step (p ∷ ps) b o (p ∷ ps') b' o'

    -- `n` accesses.
    pub data Run (ps : List T) (b : S) (o : O) : ℕ → List T → S → O → Type 0 where
      start : Run ps b o 0 ps b o
      later :
          (n : ℕ) (ps' : List T) (b' : S) (o' : O) (ps'' : List T) (b'' : S) (o'' : O)
          → Run ps b o n ps' b' o'
          → Step ps' b' o' ps'' b'' o''
          → Run ps b o (suc n) ps'' b'' o''

module _ {T : Type 0} where
  -- No thread has the cursor `d`; no two threads have one cursor.
  abbrev pub Absent : (T → Option ℕ) → ℕ → T → Type 0
  Absent cursor d p = cursor p ≢ some d

  abbrev pub Distinct : (T → Option ℕ) → List T → Type 0
  Distinct cursor [] = Unit {0}
  Distinct cursor (p ∷ ps) =
      ((d : ℕ) → cursor p ≡ some d → AllOf (Absent cursor d) ps) × Distinct cursor ps

  pub perm_between : (xs ys zs : List T) → Perm (xs ++ (ys ++ zs)) (ys ++ (xs ++ zs))
  perm_between [] ys zs = Perm.refl _
  perm_between (x ∷ xs) ys zs =
      Perm.trans (Perm.cons x (perm_between xs ys zs)) (Perm.symm (perm_middle ys (xs ++ zs)))
