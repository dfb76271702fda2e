-- ===== src/Heap/Free/Branches.antt =====
-- When freeing a span returns, with what, and what freeing it again does.
use rust_go_gc.Prelude.{
  ℕ, ◌-◌, ◌<◌, ◌≤◌, ◌≡◌, refl, Bool, true, false, Option, none, some, arith, ◌==◌,
}
use rust_go_gc.Prelude.Outcome.{ok, panic, Panic, >>=-eq-ok}
use rust_go_gc.Prelude.Word.{word, sub_word-ok, sub_mod}
use rust_go_gc.Span.{State, dead, in_use, manual, free, MemorySpan, MemorySpanData}
use rust_go_gc.Span.Pages.{released}
use rust_go_gc.Heap.{Machine, Platform, span_of, put_span}
use rust_go_gc.Heap.Free.{coalesce, with_pages_in_use, check_state, instant, locked_free_span}

-- What `free_span` wants of a span: manual without objects, or in use without objects, swept in
-- the heap's generation and counted among the pages in use.
abbrev pub IsFreeable : State → MemorySpanData → Machine → Type 0
IsFreeable manual s m = s.allocations_count ≡ 0
IsFreeable in_use s m =
    (s.allocations_count ≡ 0)
    × (s.sweep_generation ≡ m.heap.sweep_generation)
    × (s.number_of_pages ≤ m.heap.protected.pages_in_use)
IsFreeable dead s m = ⊥
IsFreeable free s m = ⊥

-- The pages in use after the span is freed.
abbrev pub pages_left : State → MemorySpanData → Machine → Machine
pages_left in_use s m = with_pages_in_use (m.heap.protected.pages_in_use - s.number_of_pages) m
pages_left _ s m = m

abbrev pub freed : MemorySpanData → Option ℕ → Machine → MemorySpanData
freed s unused_since m = record s { state = free; unused_since = instant unused_since m }

check_state-ok :
    (w : Platform) (state : State) (s : MemorySpanData) (m : Machine)
    → m.heap.protected.pages_in_use < word
    → IsFreeable state s m
    → check_state w state s m ≡ ok (pages_left state s m)
unfolding check_state
check_state-ok w dead s m fits h = absurd h
check_state-ok w free s m fits h = absurd h
check_state-ok w manual s m fits h =
    let e : (s.allocations_count == 0) ≡ true = ground arith in rw e
check_state-ok w in_use s m fits h =
    let e : (s.allocations_count == 0) ≡ true = ground arith in
    let g : (s.sweep_generation == m.heap.sweep_generation) ≡ true = ground arith in
    let le = h.2 in
    rw (e, g, sub_word-ok w.checks m.heap.protected.pages_in_use s.number_of_pages le fits)

IsFreeable-of_ok :
    (w : Platform) (state : State) (s : MemorySpanData) (m m' : Machine)
    → w.checks ≡ true
    → check_state w state s m ≡ ok m'
    → IsFreeable state s m
unfolding check_state sub_mod
IsFreeable-of_ok w dead s m m' on e = cc
IsFreeable-of_ok w free s m m' on e = cc
IsFreeable-of_ok w manual s m m' on e = ground arith
IsFreeable-of_ok w in_use s m m' on e = ground arith

clock-pages_left :
    (state : State) (s : MemorySpanData) (m : Machine) → (pages_left state s m).clock ≡ m.clock
clock-pages_left in_use s m = refl
clock-pages_left manual s m = refl
clock-pages_left _ s m = refl

instant-pages_left :
    (u : Option ℕ) (state : State) (s : MemorySpanData) (m : Machine)
    → instant u (pages_left state s m) ≡ instant u m
instant-pages_left none state s m = clock-pages_left state s m
instant-pages_left (some t) state s m = refl

span_at-put_span :
    (p : MemorySpan) (s : MemorySpanData) (m : Machine) → (put_span p s m).span_at p ≡ some s
unfolding put_span
span_at-put_span p s m = let self : (p == p) ≡ true = ground arith in rw self

coalesce-unscavenged :
    (w : Platform) (p : MemorySpan) (s : MemorySpanData) (m : Machine)
    → m.span_at p ≡ some s
    → s.scavenged ≡ false
    → coalesce w p m ≡ ok m
unfolding coalesce
coalesce-unscavenged w p s m there not_scavenged = rw (there, not_scavenged)

-- Coalescing changes nothing.
coalesce-same : (w : Platform) (p : MemorySpan) (m m' : Machine) → coalesce w p m ≡ ok m' → m ≡ m'
unfolding coalesce
coalesce-same w p m m' e =
    let (s, there, rest) = >>=-eq-ok (span_of p m) _ e in
    let (n, counted, same) = >>=-eq-ok (released w.checks w.physical_page_size s) _ rest in cc

-- A span that may be freed and is not scavenged is freed, with fewer than 2^64 pages in use: it is marked free and
-- stamped with the given instant or the clock's, an in-use span's pages are no longer counted, and
-- all else is as before.
pub locked_free_span-freed :
    (w : Platform) (p : MemorySpan) (a b : Bool) (u : Option ℕ) (m : Machine) (s : MemorySpanData)
    → m.span_at p ≡ some s
    → s.scavenged ≡ false
    → m.heap.protected.pages_in_use < word
    → IsFreeable s.state s m
    → locked_free_span w p a b u m ≡ ok (put_span p (freed s u m) (pages_left s.state s m))
unfolding locked_free_span
locked_free_span-freed w p a b u m s there not_scavenged fits ready = rw (
  there,
  check_state-ok w s.state s m fits ready,
  instant-pages_left u s.state s m,
  coalesce-unscavenged w p (freed s u m) (put_span p (freed s u m) (pages_left s.state s m))
      (span_at-put_span p (freed s u m) (pages_left s.state s m)) not_scavenged,
)

-- In a build with overflow checks, only a span that may be freed is: whatever else is passed, the
-- call does not return.
pub IsFreeable-of_locked_free_span :
    (w : Platform) (p : MemorySpan) (a b : Bool) (u : Option ℕ) (m m' : Machine)
    (s : MemorySpanData)
    → w.checks ≡ true
    → m.span_at p ≡ some s
    → locked_free_span w p a b u m ≡ ok m'
    → IsFreeable s.state s m
unfolding locked_free_span
IsFreeable-of_locked_free_span w p a b u m m' s on there e =
    let (s', at, rest) = >>=-eq-ok (span_of p m) _ e in
    let (m₁, checked, _) = >>=-eq-ok (check_state w s'.state s' m) _ rest in
    let same : s' ≡ s = cc in IsFreeable-of_ok w s.state s m m₁ on (rw same at checked)

-- Freeing a span a second time panics, in every build.
pub locked_free_span-twice :
    (w : Platform) (p : MemorySpan) (a b a' b' : Bool) (u u' : Option ℕ) (m m' : Machine)
    → locked_free_span w p a b u m ≡ ok m'
    → locked_free_span w p a' b' u' m' ≡ panic Panic.invalid_span_state
unfolding locked_free_span
locked_free_span-twice w p a b a' b' u u' m m' e =
    let (s, at, rest) = >>=-eq-ok (span_of p m) _ e in
    let (m₁, checked, last) = >>=-eq-ok (check_state w s.state s m) _ rest in
    let s' : MemorySpanData = record s { state = free; unused_since = instant u m₁ } in
    let same = coalesce-same w p (put_span p s' m₁) m' last in
    rw (← same, span_at-put_span p s' m₁) (unfold check_state in refl)
