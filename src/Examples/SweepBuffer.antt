-- ===== src/Examples/SweepBuffer.antt =====
-- Runs and instances for the code of src/sweep_buffer.rs.
use rust_go_gc.Prelude.{◌+◌, ◌-◌, ◌≡◌, refl, true, none, some, [], ◌∷◌, reverse, arith}
use rust_go_gc.Prelude.Outcome.{ok, undefined_behaviour, ◌>>=◌}
use rust_go_gc.SweepBuffer
use rust_go_gc.SweepBuffer.{
  Offheap, SweepBuffer, as_option, push, push_observing, find_block, get_spine_block, store, pop,
}
use rust_go_gc.SweepBuffer.Slot.{push_observing-stale, push_pop_at, push_pop_at-overwritten}
use rust_go_gc.SweepBuffer.Stack.{IsStack, push_all, pop_times, somes, push_all-reversed}
use rust_go_gc.SweepBuffer.Fresh.{push_pop, push_pop-new}
use rust_go_gc.SweepBuffer.Growth.{push-full_spine}

-- Off-heap memory with 7 in every word.
abbrev pub sevens : Offheap
sevens = record { words = λ a. 7; brk = 4096; limit = 1000000 }

-- A buffer whose spine has one block, with a span in it.
abbrev pub one_block : SweepBuffer
one_block = record { index = 1; spine_length = 1; spine_cap = 256; spine = 4096 }

pub one_block-IsStack : IsStack 0 0 one_block sevens (7 ∷ [])
one_block-IsStack = record {
  in_spine = omega arith;
  allocated = omega arith;
  from = omega arith;
  to = omega arith;
  fits = omega arith;
  at = refl;
  contents = (refl, tt);
}

abbrev full : SweepBuffer
full = record { index = 131072; spine_length = 256; spine_cap = 256; spine = 4096 }

push_all-reversed_example :
    (push_all true (16 ∷ 24 ∷ 32 ∷ []) one_block sevens >>= λ r. pop_times 3 r.0 r.1)
    ≡ ok (somes (reverse (16 ∷ 24 ∷ 32 ∷ [])))
push_all-reversed_example =
    push_all-reversed true 0 0 (16 ∷ 24 ∷ 32 ∷ []) (7 ∷ []) one_block sevens
      (omega arith, (omega arith, (omega arith, tt))) one_block-IsStack (omega arith)

run_pops :
    (push_all true (16 ∷ 24 ∷ []) one_block sevens >>= λ r. pop_times 4 r.0 r.1)
    ≡ ok (some 24 ∷ some 16 ∷ some 7 ∷ none ∷ [])
unfolding push_all pop_times push push_observing find_block get_spine_block store pop as_option
run_pops = refl

push_pop-new_example : push_pop true 16 SweepBuffer.new sevens ≡ ok (as_option 7)
push_pop-new_example = push_pop-new true 16 sevens (omega arith) (omega arith)

observing_zero : push_observing true 0 16 one_block sevens ≡ push true 16 one_block sevens
observing_zero = push_observing-stale true 0 16 one_block sevens (omega arith)

push-full_spine_example : push true 16 full sevens ≡ undefined_behaviour
push-full_spine_example =
    push-full_spine true 16 full sevens (omega arith) (omega arith) refl (omega arith)

abbrev two_blocks : SweepBuffer
two_blocks = record { index = 512; spine_length = 2; spine_cap = 256; spine = 4096 }

push_pop_at-overwritten_example :
    push_pop_at true 16 (two_blocks.index - 511 + 1) two_blocks sevens ≡ ok (some 16)
push_pop_at-overwritten_example =
    push_pop_at-overwritten true 16 two_blocks sevens (omega arith) (omega arith) (omega arith)
      (omega arith) (omega arith) (omega arith)
