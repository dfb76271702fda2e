-- ===== src/Heap/SetSpan/Entry.antt =====
-- The entries of the span tables after `set_span`, on a 64-bit target.
use rust_go_gc.Prelude.{
  ℕ, ◌+◌, ◌/◌, ◌%◌, ◌^◌, ◌<◌, ◌≡◌, refl, Bool, true, false, Option, none, some, arith, ltb, ◌==◌,
  ==_iff, Bool-cases, inl, inr, if◌then◌else◌,
}
use rust_go_gc.Prelude.Outcome.{Outcome, ok, undefined_behaviour, ◌>>=◌, deref}
use rust_go_gc.Prelude.Word.{add_word-ok}
use rust_go_gc.Span.{MemorySpan}
use rust_go_gc.Span.Pages.{page_size}
use rust_go_gc.Arena.{constants_64}
use rust_go_gc.Heap.{Machine, Platform, HeapArena, ArenaMap}
use rust_go_gc.Heap.SetSpan.{
  span_index, update_arena, write_entry, find_arena, with_arenas, set_span,
}

abbrev pub platform_64 : Bool → ℕ → Platform
platform_64 checks physical = record {
  checks = checks;
  physical_page_size = physical;
  constants = constants_64;
}

-- The place of an address below 2^47 in the second level of the map.
abbrev pub place : ℕ → ℕ
place p = (p + 2 ^ 47) / 2 ^ 26

-- The entry that the span tables have for an address: what a lookup of its span would read.
unfoldable pub span_entry : ℕ → Machine → Outcome MemorySpan
span_entry p m = do
  (arena, _, _) ← find_arena constants_64 (place p) m
  ok (arena.span_table (span_index constants_64 p))

abbrev arena_entry : HeapArena × ℕ × ℕ → ℕ → Outcome MemorySpan
arena_entry r q = ok (r.0.span_table (span_index constants_64 q))

entry_of :
    (o : Option HeapArena) (q : ℕ)
    → ((deref o >>= λ a. let r : HeapArena × ℕ × ℕ = (a, 0, place q) in ok r) >>= λ r.
        arena_entry r q)
      ≡ (deref o >>= λ a. ok (a.span_table (span_index constants_64 q)))
entry_of none q = refl
entry_of (some a) q = refl

module _ (m : Machine) (level : ArenaMap) (mapped : m.heap.protected.arenas 0 ≡ some level) where
  find_arena-mapped :
      (i : ℕ) → i < 2 ^ 22 → find_arena constants_64 i m ≡ (deref (level i) >>= λ a. ok (a, 0, i))
  unfolding find_arena
  find_arena-mapped i lt = let inside : ltb i (2 ^ 22) ≡ true = ground arith in rw (mapped, inside)

  span_entry-mapped :
      (q : ℕ)
      → q < 2 ^ 47
      → span_entry q m
        ≡ (deref (level (place q)) >>= λ a. ok (a.span_table (span_index constants_64 q)))
  unfolding span_entry
  span_entry-mapped q lt =
      rw (find_arena-mapped (place q) (omega arith)) (entry_of (level (place q)) q)

  set_span-mapped :
      (checks : Bool) (physical p span : ℕ) (arena : HeapArena)
      → p < 2 ^ 47
      → level (place p) ≡ some arena
      → set_span (platform_64 checks physical) p span m
        ≡ ok (
            with_arenas
              (update_arena 0
                (place p)
                (write_entry (span_index constants_64 p) span arena)
                m.heap.protected.arenas)
              m)
  unfolding set_span
  set_span-mapped checks physical p span arena lt there = rw (
    add_word-ok checks p (2 ^ 47) (omega arith),
    find_arena-mapped (place p) (omega arith),
    there,
  )

module _ (m : Machine) (level : ArenaMap) (mapped : m.heap.protected.arenas 0 ≡ some level)
    (p span : ℕ) (arena : HeapArena) (there : level (place p) ≡ some arena) where
  written : HeapArena
  written = write_entry (span_index constants_64 p) span arena

  level_written : ArenaMap
  level_written j = if j == place p then some written else level j

  machine_written : Machine
  machine_written = with_arenas (update_arena 0 (place p) written m.heap.protected.arenas) m

  arenas_written : machine_written.heap.protected.arenas 0 ≡ some level_written
  unfolding machine_written update_arena level_written
  arenas_written = rw mapped

  -- The span tables after the write, by pages.
  entry_written :
      (q : ℕ)
      → q < 2 ^ 47
      → p < 2 ^ 47
      → span_entry q machine_written
        ≡ (if q / page_size == p / page_size then ok span else span_entry q m)
  unfolding span_index written level_written write_entry
  entry_written q q_lt p_lt =
      rw
        (
          span_entry-mapped machine_written level_written arenas_written q q_lt,
          span_entry-mapped m level mapped q q_lt,
        )
        (elim (Bool-cases (place q == place p)) [
          | inl same_arena ↦
              let e : place q ≡ place p = (==_iff _ _).0 same_arena in
              let there_q : level (place q) ≡ some arena = rw e there in
              let index : (q / page_size % 8192 == p / page_size % 8192)
                  ≡ (q / page_size == p / page_size) =
                ground arith in
              rw (same_arena, there_q, index)
                (elim (Bool-cases (q / page_size == p / page_size)) [
                  | inl same ↦ rw same
                  | inr other ↦ rw other
                ])
          | inr other ↦
              let far : (q / page_size == p / page_size) ≡ false = ground arith in rw (other, far)
        ])

-- On a 64-bit target, where the arena of an address below 2^47 is mapped, `set_span` returns, and
-- an address `q` below 2^47 then has the span for its entry if it lies in the same page, and the
-- entry that it had if not.
pub set_span-entry :
    (checks : Bool) (physical : ℕ) (m : Machine) (level : ArenaMap) (arena : HeapArena)
    (p span q : ℕ)
    → p < 2 ^ 47
    → q < 2 ^ 47
    → m.heap.protected.arenas 0 ≡ some level
    → level (place p) ≡ some arena
    → (m' : Machine) × (set_span (platform_64 checks physical) p span m ≡ ok m')
      × (span_entry q m' ≡ (if q / page_size == p / page_size then ok span else span_entry q m))
unfolding machine_written written
set_span-entry checks physical m level arena p span q p_lt q_lt mapped there = (
  machine_written m level mapped p span arena there,
  set_span-mapped m level mapped checks physical p span arena p_lt there,
  entry_written m level mapped p span arena there q q_lt p_lt,
)

-- While the first level of the arena map is null, `set_span` of an address below 2^47 follows a
-- null pointer.
pub set_span-unmapped :
    (checks : Bool) (physical : ℕ) (m : Machine) (p span : ℕ)
    → p < 2 ^ 47
    → m.heap.protected.arenas 0 ≡ none
    → set_span (platform_64 checks physical) p span m ≡ undefined_behaviour
unfolding set_span find_arena
set_span-unmapped checks physical m p span lt unmapped =
    rw (add_word-ok checks p (2 ^ 47) (omega arith), unmapped)
