-- ===== src/Examples/Poppers.antt =====
-- Instances for the calls of `pop` by several threads of src/sweep_buffer.rs.
use mathlib.Core.List.{Perm}
use mathlib.Core.List
use rust_go_gc.Prelude.{◌+◌, ◌*◌, refl, some, [], ◌∷◌, arith}
use rust_go_gc.SweepBuffer.{Offheap, store, get_spine_block, as_option}
use rust_go_gc.SweepBuffer.Stack.{IsStack, somes}
use rust_go_gc.SweepBuffer.Threads.{Run, start, later, here, there}
use rust_go_gc.SweepBuffer.Poppers.{returned, Move, take, load, clear, callers, result}
use rust_go_gc.SweepBuffer.Poppers.Stack.{poppers-IsStack}
use rust_go_gc.Examples.Pushers.{index_at, second_first}

three-IsStack : IsStack 0 0 (index_at 3) second_first (16 ∷ 24 ∷ 7 ∷ [])
unfolding store
three-IsStack = record {
  in_spine = omega arith;
  allocated = omega arith;
  from = omega arith;
  to = omega arith;
  fits = omega arith;
  at = refl;
  contents = (refl, (refl, (refl, tt)));
}

-- The second thread takes its cursor last and returns first.
abbrev cleared : Offheap
cleared = store (4096 + 8 * 2) 0 (store (4096 + 8 * 1) 0 second_first)

two_popped :
    Run Move
      (callers 2)
      (index_at 3)
      second_first
      6
      (returned (some 16) ∷ returned (some 24) ∷ [])
      (index_at 1)
      cleared
unfolding store as_option get_spine_block
two_popped =
    later _ _ _ _ _ _ _
      (later _ _ _ _ _ _ _
        (later _ _ _ _ _ _ _
          (later _ _ _ _ _ _ _
            (later _ _ _ _ _ _ _
              (later _ _ _ _ _ _ _ start (here _ _ _ _ _ _ _ (take (index_at 3) second_first)))
              (there _ _ _ _ _ _ _ (here _ _ _ _ _ _ _ (take (index_at 2) second_first))))
            (there _ _ _ _ _ _ _ (
              here _ _ _ _ _ _ _ (
                load 2 4096 (index_at 1) second_first (λ e. absurd (omega arith)) refl
                  (omega arith)))))
          (there _ _ _ _ _ _ _
            (here _ _ _ _ _ _ _ (clear (some 24) 1 4096 (index_at 1) second_first (omega arith)))))
        (here _ _ _ _ _ _ _ (
          load 3 4096 (index_at 1) (store (4096 + 8 * 1) 0 second_first) (λ e. absurd (omega arith))
            refl (omega arith))))
      (here _ _ _ _ _ _ _
        (clear (some 16) 2 4096 (index_at 1) (store (4096 + 8 * 1) 0 second_first) (omega arith)))

poppers-IsStack_example :
    Perm (List.map result (returned (some 16) ∷ returned (some 24) ∷ [])) (somes (16 ∷ 24 ∷ []))
    × IsStack 0 0 (index_at 1) cleared (7 ∷ [])
poppers-IsStack_example =
    poppers-IsStack 0 0 (7 ∷ []) (16 ∷ 24 ∷ []) (index_at 3) second_first
      (omega arith, (omega arith, tt)) three-IsStack 6
      (returned (some 16) ∷ returned (some 24) ∷ []) (index_at 1) cleared two_popped refl
