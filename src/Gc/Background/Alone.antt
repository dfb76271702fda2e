-- ===== src/Gc/Background/Alone.antt =====
-- The background sweeper where no other thread gets in before a compare-and-swap.
use rust_go_gc.Prelude.{◌≡◌, ◌∙◌, refl}
use rust_go_gc.Heap.{Platform, Unwritten}
use rust_go_gc.Gc.Alone.{alone, sweep_one-alone}
use rust_go_gc.Gc.Background.{
  Gc, Place, Step, sets_up, unparked, swept_one, none_left, freed_some, not_done, parks, meanwhile,
  Others, Reaches, start, step,
}

-- What a step keeps: the number of spans swept, and the phase.
abbrev Keeps : Gc → Gc → Type 0
Keeps c d = (d.background_sweep.number ≡ c.background_sweep.number) × (d.phase ≡ c.phase)

Step-Keeps :
    (w : Platform) (u : Unwritten) (others : Others) {p q : Place} {c d : Gc}
    → Step w u alone others p c q d
    → Keeps c d
Step-Keeps w u others sets_up = (refl, refl)
Step-Keeps w u others unparked = (refl, refl)
Step-Keeps w u others (swept_one {c} {pages} {m} e some_pages) =
    absurd (some_pages (sweep_one-alone w u c.machine pages m e).0)
Step-Keeps w u others (none_left e) = (refl, refl)
Step-Keeps w u others (freed_some e) = (refl, refl)
Step-Keeps w u others (not_done e running) = (refl, refl)
Step-Keeps w u others (parks e done) = (refl, refl)
Step-Keeps w u others (meanwhile moved) = (refl, refl)

-- Where no other thread touches a span between the read of its generation and the swap, the
-- background task never counts a swept span, however long it runs, whatever waits to be swept, and
-- whatever other threads do to the machine between its steps; nor does it change the phase.
pub Reaches-number :
    (w : Platform) (u : Unwritten) (others : Others) (c d : Gc) (p : Place)
    → Reaches w u alone others c p d
    → (d.background_sweep.number ≡ c.background_sweep.number) × (d.phase ≡ c.phase)
Reaches-number w u others c₀ d₀ p₀ start = (refl, refl)
Reaches-number w u others c₀ d₀ p₀ (step {p} {c} r s) =
    let (number, phase) = Reaches-number w u others c₀ c p r in
    let (number', phase') = Step-Keeps w u others s in (number' ∙ number, phase' ∙ phase)
