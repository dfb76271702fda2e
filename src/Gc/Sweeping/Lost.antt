-- ===== src/Gc/Sweeping/Lost.antt =====
-- The tests of `sweep_one` on a span that another thread claims before the swap.
use rust_go_gc.Prelude.{ℕ, ◌-◌, ◌<◌, ◌≤◌, ◌≡◌, refl, true, false, List, arith, ◌==◌}
use rust_go_gc.Prelude.Outcome.{ok}
use rust_go_gc.Prelude.Word.{word, sub_word-ok}
use rust_go_gc.Span.{MemorySpan, Bytes}
use rust_go_gc.Heap.{Machine, Platform, Unwritten, MemoryCentral, put_span}
use rust_go_gc.Gc.{Between, compare_and_swap, try_acquire, inspect}
use rust_go_gc.Gc.Sweeping.{IsTaken}

module _ (w : Platform) (u : Unwritten) (between : Between) (g : ℕ) (big : 2 ≤ g) (fits : g < word)
    (bytes : Bytes) (central : List MemoryCentral) where
  -- The thread loses the swap, and goes on to sweep the span as the other thread left it.
  pub inspect-taken :
      (x : MemorySpan) (m : Machine) (h : IsTaken w u between g bytes central x (m.span_at x))
      → inspect w between g x m ≡ ok (false, put_span x (between x h.span) m)
  unfolding inspect try_acquire compare_and_swap
  inspect-taken x m h =
      let due = h.due in
      let claimed = h.claimed.due in
      let t = between x h.span in
      let e : (h.span.sweep_generation == g - 2) ≡ true = ground arith in
      let lost : (g - 2 == t.sweep_generation) ≡ false = ground arith in
      let lost' : (t.sweep_generation == g - 2) ≡ false = ground arith in
      rw
        (
          h.there,
          h.using,
          sub_word-ok w.checks g 2 big fits,
          e,
          sub_word-ok w.checks g 1 (omega arith) fits,
          lost,
          lost',
        )
        refl
