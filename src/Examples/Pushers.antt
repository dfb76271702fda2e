-- ===== src/Examples/Pushers.antt =====
-- Runs and instances for the calls of `push` and `pop` by several threads of src/sweep_buffer.rs.
use mathlib.Core.List.{Perm}
use rust_go_gc.Prelude.{ℕ, ◌+◌, ◌*◌, ◌<◌, ◌≡◌, refl, true, List, none, some, [], ◌∷◌, ◌++◌, arith}
use rust_go_gc.Prelude.Outcome.{ok}
use rust_go_gc.Span.{MemorySpan}
use rust_go_gc.SweepBuffer.{Offheap, SweepBuffer, store, find_block, get_spine_block}
use rust_go_gc.SweepBuffer.Refine.{pushes, pops, run, run-refines}
use rust_go_gc.SweepBuffer.Stack.{IsStack}
use rust_go_gc.SweepBuffer.Pushers.{
  Pusher, located, pushed, claim, observe, find, write, arrivals, left_all, Move,
}
use rust_go_gc.SweepBuffer.Threads.{Step, here, there, Run, start, later}
use rust_go_gc.SweepBuffer.Pushers.Stack.{pushers-IsStack, pushers-finish}
use rust_go_gc.Examples.SweepBuffer.{sevens, one_block, one_block-IsStack}

abbrev pub index_at : ℕ → SweepBuffer
index_at i = record one_block { index = i }

found : (i : ℕ) → find_block true 0 0 (index_at i) sevens ≡ ok (4096, index_at i, sevens)
unfolding find_block get_spine_block
found i = refl

-- The second thread gets its cursor first and reads an old length; the first one finishes first.
abbrev pub second_first : Offheap
second_first = store (4096 + 8 * 1) 24 (store (4096 + 8 * 2) 16 sevens)

two_found :
    Run
      (Move true)
      (arrivals (16 ∷ 24 ∷ []))
      one_block
      sevens
      6
      (located 16 2 4096 ∷ located 24 1 4096 ∷ [])
      (index_at 3)
      sevens
two_found =
    later _ _ _ _ _ _ _
      (later _ _ _ _ _ _ _
        (later _ _ _ _ _ _ _
          (later _ _ _ _ _ _ _
            (later _ _ _ _ _ _ _
              (later _ _ _ _ _ _ _ start
                (there _ _ _ _ _ _ _ (here _ _ _ _ _ _ _ (claim 24 one_block sevens))))
              (here _ _ _ _ _ _ _ (claim 16 (index_at 2) sevens)))
            (there _ _ _ _ _ _ _
              (here _ _ _ _ _ _ _ (observe 24 1 0 (index_at 3) sevens (omega arith)))))
          (here _ _ _ _ _ _ _ (observe 16 2 0 (index_at 3) sevens (omega arith))))
        (here _ _ _ _ _ _ _ (find 16 2 0 4096 (index_at 3) sevens (index_at 3) sevens (found 3))))
      (there _ _ _ _ _ _ _
        (here _ _ _ _ _ _ _ (find 24 1 0 4096 (index_at 3) sevens (index_at 3) sevens (found 3))))

two_pushed :
    Run
      (Move true)
      (arrivals (16 ∷ 24 ∷ []))
      one_block
      sevens
      8
      (pushed 16 2 ∷ pushed 24 1 ∷ [])
      (index_at 3)
      second_first
two_pushed =
    later _ _ _ _ _ _ _
      (later _ _ _ _ _ _ _ two_found (here _ _ _ _ _ _ _ (write 16 2 4096 (index_at 3) sevens)))
      (there _ _ _ _ _ _ _
        (here _ _ _ _ _ _ _ (write 24 1 4096 (index_at 3) (store (4096 + 8 * 2) 16 sevens))))

pushers-IsStack_example :
    (log : List MemorySpan) × Perm log (16 ∷ 24 ∷ [])
    × IsStack 0 0 (index_at 3) second_first (log ++ (7 ∷ []))
pushers-IsStack_example =
    pushers-IsStack true 0 0 (7 ∷ []) (16 ∷ 24 ∷ []) one_block sevens one_block-IsStack
      (omega arith) 8 (pushed 16 2 ∷ pushed 24 1 ∷ []) (index_at 3) second_first two_pushed refl

two_finish :
    (6 + left_all (located 16 2 4096 ∷ located 24 1 4096 ∷ []) ≡ 4 * 2)
    × (6 < 4 * 2
        → (ps' : List Pusher) × (b' : SweepBuffer) × (o' : Offheap) × Step
            (Move true)
            (located 16 2 4096 ∷ located 24 1 4096 ∷ [])
            (index_at 3)
            sevens
            ps'
            b'
            o')
two_finish =
    pushers-finish true 0 0 (7 ∷ []) (16 ∷ 24 ∷ []) one_block sevens one_block-IsStack (omega arith)
      6 (located 16 2 4096 ∷ located 24 1 4096 ∷ []) (index_at 3) sevens two_found

run-refines_example :
    (b' : SweepBuffer) × (o' : Offheap) × (run true
        (pops ∷ pops ∷ pushes 16 ∷ pushes 24 ∷ pops ∷ [])
        one_block
        sevens
      ≡ ok (some 7 ∷ none ∷ some 24 ∷ [], b', o'))
    × IsStack 0 0 b' o' (16 ∷ [])
run-refines_example =
    run-refines true (pops ∷ pops ∷ pushes 16 ∷ pushes 24 ∷ pops ∷ []) (7 ∷ []) one_block sevens
      one_block-IsStack (omega arith, tt) (omega arith, omega arith, (omega arith, omega arith, tt))
