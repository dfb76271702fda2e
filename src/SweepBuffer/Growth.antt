-- ===== src/SweepBuffer/Growth.antt =====
-- Growing a spine that is full.
use rust_go_gc.Prelude.{ℕ, ◌*◌, ◌/◌, ◌^◌, ◌<◌, ◌≤◌, ◌≡◌, Bool, true, false, arith, leb, ltb, ◌==◌}
use rust_go_gc.Prelude.Outcome.{undefined_behaviour}
use rust_go_gc.Prelude.Word.{mul_word-ok}
use rust_go_gc.SweepBuffer.{Offheap, SweepBuffer, push}

-- The layout passed to `realloc` is that of the new spine, so growing a spine that is there is
-- undefined behaviour, in every build.
pub push-full_spine :
    (checks : Bool) (span : ℕ) (b : SweepBuffer) (o : Offheap)
    → 0 < b.spine_cap
    → b.spine_cap * 16 < 2 ^ 63
    → b.spine_length ≡ b.spine_cap
    → b.spine_length ≤ b.index / 512
    → push checks span b o ≡ undefined_behaviour
unfolding push
push-full_spine checks span b o pos small full beyond =
    let grown : (b.spine_cap == 0) ≡ false = ground arith in
    let fits : leb (2 ^ 63) (b.spine_cap * 2 * 8) ≡ false = ground arith in
    let wrong : (b.spine_cap * 8 == b.spine_cap * 2 * 8) ≡ false = ground arith in
    let unknown : ltb (b.index / 512) b.spine_length ≡ false = ground arith in
    let at_cap : (b.spine_length == b.spine_cap) ≡ true = ground arith in
    rw (unknown, at_cap, grown, mul_word-ok checks b.spine_cap 2 (omega arith), fits, wrong)
