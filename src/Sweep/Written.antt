-- ===== src/Sweep/Written.antt =====
-- `sweep` with the functions that the source leaves unimplemented.
use rust_go_gc.Prelude.{◌≢◌, Bool}
use rust_go_gc.Prelude.Outcome.{ok, Panic, panic_if, >>=-eq-ok}
use rust_go_gc.Span.{MemorySpan}
use rust_go_gc.Heap.{Machine, Platform, as_written, span_of}
use rust_go_gc.Sweep.{sweep, is_bad}

-- No call of `sweep` returns: its first step on a span that is due is `free_specials`.
pub sweep-as_written :
    (w : Platform) (p : MemorySpan) (preserve : Bool) (m : Machine) (r : Bool × Machine)
    → sweep w as_written p preserve m ≢ ok r
unfolding sweep
sweep-as_written w p preserve m r e =
    let (s, _, rest) = >>=-eq-ok (span_of p m) _ e in
    let (bad, _, rest') = >>=-eq-ok (is_bad w m.heap.sweep_generation s) _ rest in
    let (_, _, rest'') = >>=-eq-ok (panic_if bad Panic.bad_span_state) _ rest' in cc
