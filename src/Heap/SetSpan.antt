-- ===== src/Heap/SetSpan.antt =====
-- `set_span`: the entry of an address in the span table of its arena.
pub mod Entry
use rust_go_gc.Prelude.{
  ℕ, ◌+◌, ◌-◌, ◌*◌, ◌/◌, ◌%◌, ◌^◌, ◌<◌, ◌≤◌, ◌≡◌, ◌≢◌, ◌↔◌, refl, ap, not, Bool, true, false,
  Option, none, some, arith, ltb, ◌==◌, if◌then◌else◌,
}
use rust_go_gc.Prelude.Outcome.{Outcome, ok, panic, Panic, ◌>>=◌, ◌>>◌, panic_if, deref}
use rust_go_gc.Prelude.Word.{word, add_word, add_word-ok}
use rust_go_gc.Span.{MemorySpan}
use rust_go_gc.Span.Pages.{page_size}
use rust_go_gc.Arena.{
  ArenaConstants, constants_64, arena_index, arena_level_1, arena_level_2, heap_arena_bytes,
  pages_per_arena, level_2_bits,
}
use rust_go_gc.Heap.{
  Machine, Platform, HeapArena, ArenaMap, ProtectedMemoryHeap, MemoryHeap, with_heap,
}

-- `(base as usize / PAGE_SIZE) % PAGES_PER_ARENA`.
unfoldable pub span_index : ArenaConstants → ℕ → ℕ
unfolding pages_per_arena
span_index c base = base / page_size % pages_per_arena c

-- The arena map with the entry of one arena changed.
unfoldable pub update_arena :
    (level_1 level_2 : ℕ) → HeapArena → (ℕ → Option ArenaMap) → ℕ → Option ArenaMap
update_arena l1 l2 arena arenas i =
    if i == l1
    then elim (arenas i) [
      | none ↦ none
      | some level ↦ some (λ j. if j == l2 then some arena else level j)
    ]
    else arenas i

unfoldable pub write_entry : ℕ → MemorySpan → HeapArena → HeapArena
write_entry index span a = record a {
  span_table = λ i. if i == index then span else a.span_table i;
}

-- The arena of an index, with its places in both levels of the map. The arrays are indexed with a
-- test; a null pointer is followed without one.
unfoldable pub find_arena : ArenaConstants → ℕ → Machine → Outcome (HeapArena × ℕ × ℕ)
unfolding arena_level_1 arena_level_2
find_arena c i m = do
  let l1 = arena_level_1 c i
  let l2 = arena_level_2 c i
  panic_if (not (ltb l1 (2 ^ c.level_1_bits))) Panic.index_out_of_bounds
  level ← deref (m.heap.protected.arenas l1)
  panic_if (not (ltb l2 (2 ^ level_2_bits c))) Panic.index_out_of_bounds
  arena ← deref (level l2)
  ok (arena, l1, l2)

abbrev pub with_arenas : (ℕ → Option ArenaMap) → Machine → Machine
with_arenas arenas m =
    with_heap (record (m.heap) { protected = record (m.heap.protected) { arenas = arenas } }) m

unfoldable pub set_span : Platform → ℕ → MemorySpan → Machine → Outcome Machine
unfolding arena_index find_arena span_index update_arena write_entry
set_span w base span m = do
  i ← arena_index w.constants w.checks base
  panic_if (pages_per_arena w.constants == 0) Panic.division_by_zero
  (arena, l1, l2) ← find_arena w.constants i m
  let written = write_entry (span_index w.constants base) span arena
  ok (with_arenas (update_arena l1 l2 written m.heap.protected.arenas) m)
