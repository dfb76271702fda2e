-- ===== src/Sweep/Moved.antt =====
-- What `sweep` of a span that stays in use leaves as it was.
use mathlib.Core.Path.{subst}
use rust_go_gc.Prelude.{
  ℕ, ◌+◌, ◌<◌, ◌≡◌, refl, false, some, ◌==◌, get_elem?, if◌then◌else◌, Bool-cases, inl, inr,
}
use rust_go_gc.Prelude.Outcome.{ok}
use rust_go_gc.Prelude.Word.{word}
use rust_go_gc.Span.{MemorySpan, MemorySpanData, IsBytes}
use rust_go_gc.SweepBuffer.{SweepBuffer, store}
use rust_go_gc.SweepBuffer.Slot.{slot}
use rust_go_gc.Heap.{MemoryHeap, Machine, Platform, Unwritten, MemoryCentral, put_span}
use rust_go_gc.Heap.Buffers.{popable_index, pushable_index, buffer, set_buffer}
use rust_go_gc.Sweep.{sweep, frees_to_heap}
use rust_go_gc.Sweep.Parts.{marked, Searches, HasRoom}
use rust_go_gc.Sweep.InPlace.{WorksAt, IsDue, swept, swept_in_place-span_at}
use rust_go_gc.Sweep.Kept.{
  swept_at, sweep-swept_at, swept_at-buffer, swept_at-waiting, swept_at-offheap,
}

-- The generation, the lists of spans and the end of the sweep are the same.
abbrev pub SameSweep : MemoryHeap → MemoryHeap → Type 0
SameSweep h h' =
    (h'.sweep_generation ≡ h.sweep_generation)
    × (h'.central ≡ h.central)
    × (h'.sweep_done ≡ h.sweep_done)

pub SameSweep-set_buffer :
    (i : ℕ) (b : SweepBuffer) (h : MemoryHeap) → SameSweep h (set_buffer i b h)
unfolding set_buffer
SameSweep-set_buffer i b h = elim (Bool-cases (i == 0)) [
  | inl e ↦ rw e (refl, refl, refl)
  | inr e ↦ rw e (refl, refl, refl)
]

module _ (w : Platform) (u : Unwritten) (p : MemorySpan) (m : Machine) (s : MemorySpanData)
    (c : MemoryCentral) (bits : ℕ) (works : WorksAt u p m s.number_of_elements bits) where
  -- The sweep of the span in generation `g`, and what it changes.
  abbrev pub SweptTo : (g : ℕ) → Type 0
  SweptTo g =
      (m' : Machine) × (sweep w u p false m ≡ ok (false, m'))
      × ((q : MemorySpan)
          → m'.span_at q ≡ (if q == p then some (swept m.bytes g false bits s) else m.span_at q))
      × (let b = buffer (pushable_index g) m.heap in
          (buffer (pushable_index g) m'.heap ≡ record b { index = b.index + 1 })
          × (m'.offheap ≡ store (slot b.spine b.index) p (record (m.offheap) { brk = works.brk })))
      × (buffer (popable_index g) m'.heap ≡ buffer (popable_index g) m.heap)
      × (m'.bytes ≡ m.bytes)
      × SameSweep m.heap m'.heap

  pub sweep-SweptTo :
      (g : ℕ)
      → m.heap.sweep_generation ≡ g
      → Searches w.checks m.bytes s
      → m.span_at p ≡ some s
      → IsBytes m.bytes
      → g < word
      → IsDue g m.bytes s
      → frees_to_heap s.span_class (marked m.bytes s) ≡ false
      → HasRoom (buffer (pushable_index g) m.heap)
      → get_elem? m.heap.central s.span_class ≡ some c
      → SweptTo g
  unfolding swept_at put_span
  sweep-SweptTo g e searched there small fits claimed kept room central =
      subst
        (λ (i : ℕ).
          i < word → IsDue i m.bytes s → HasRoom (buffer (pushable_index i) m.heap) → SweptTo i)
        e
        (λ fits' claimed' room'. (
          swept_at w u p m s searched there small fits' claimed' kept room' c central bits works,
          sweep-swept_at w u p m s searched there small fits' claimed' kept room' c central bits
              works,
          swept_in_place-span_at w u p m s searched there small fits' claimed' false kept bits
              works,
          (
            swept_at-buffer w u p m s searched there small fits' claimed' kept room' c central bits
                works,
            swept_at-offheap w u p m s searched there small fits' claimed' kept room' c central bits
                works,
          ),
          swept_at-waiting w u p m s searched there small fits' claimed' kept room' c central bits
              works,
          refl,
          SameSweep-set_buffer _ _ _,
        ))
        fits claimed room
