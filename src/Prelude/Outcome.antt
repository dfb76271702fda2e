-- ===== src/Prelude/Outcome.antt =====
-- What a Rust call can end in: a value, a panic, undefined behaviour, or a loop that the fuel of
-- the model does not see to its end.
use mathlib.Core.Path.{◌≡◌, refl}
use mathlib.Core.Logic.{◌≢◌}
use rust_go_gc.Prelude.Tests.{if◌then◌else◌}
use mathlib.Core.Option.{Option, none, some}
use mathlib.Core.Bool.{Bool, true, false}

-- Why a call panics. `overflow` is an arithmetic check of a build with overflow checks.
pub data Panic : Type 0 where
  overflow index_out_of_bounds division_by_zero unimplemented : Panic
  bad_span_state bad_span_state_after_sweep sweep_increased_allocation_count : Panic
  free_index_beyond_elements : Panic
  null_block no_block no_spine_layout : Panic
  invalid_stack_free invalid_free invalid_span_state non_in_use_span_in_unswept_list : Panic
  no_heap_spans : Panic

pub data Outcome {ℓ} (A : Type ℓ) : Type ℓ where
  ok : A → Outcome A
  panic : Panic → Outcome A
  -- A read or write through a null or dangling pointer.
  undefined_behaviour : Outcome A
  out_of_fuel : Outcome A

infixl 5 ◌>>=◌ ◌>>◌
abbrev pub ◌>>=◌ {ℓ κ} : {A : Type ℓ} {B : Type κ} → Outcome A → (A → Outcome B) → Outcome B
ok a >>= f = f a
panic p >>= f = panic p
undefined_behaviour >>= f = undefined_behaviour
out_of_fuel >>= f = out_of_fuel

abbrev pub ◌>>◌ {ℓ} : {B : Type ℓ} → Outcome (Unit {0}) → Outcome B → Outcome B
m >> k = m >>= λ _. k

-- `if c { panic!(..) }`.
abbrev pub panic_if : Bool → Panic → Outcome (Unit {0})
panic_if true p = panic p
panic_if false p = ok tt

-- Dereferencing: `none` is an address with nothing behind it.
abbrev pub deref {ℓ} : {A : Type ℓ} → Option A → Outcome A
deref none = undefined_behaviour
deref (some a) = ok a

-- Indexing of a fixed array.
abbrev pub in_bounds {ℓ} : {A : Type ℓ} → Option A → Outcome A
in_bounds none = panic index_out_of_bounds
in_bounds (some a) = ok a

-- What a bind that returns has computed on the way, for a proof that goes on with the parts as
-- variables, and as a tuple.
pub >>=-inv {ℓ κ ι} :
    {A : Type ℓ} {B : Type κ} {P : Type ι} (o : Outcome A) (next : A → Outcome B) {r : B}
    → (o >>= next) ≡ ok r
    → ((a : A) → o ≡ ok a → next a ≡ ok r → P)
    → P
>>=-inv (ok a) next e k = k a refl e
>>=-inv (panic p) next e k = cc
>>=-inv undefined_behaviour next e k = cc
>>=-inv out_of_fuel next e k = cc

pub >>=-eq-ok {ℓ κ} :
    {A : Type ℓ} {B : Type κ} (o : Outcome A) (next : A → Outcome B) {r : B}
    → (o >>= next) ≡ ok r
    → (a : A) × (o ≡ ok a) × (next a ≡ ok r)
>>=-eq-ok o next e = >>=-inv o next e λ a at rest. (a, at, rest)

pub deref-eq-ok {ℓ} : {A : Type ℓ} (o : Option A) {a : A} → deref o ≡ ok a → o ≡ some a
deref-eq-ok none e = cc
deref-eq-ok (some a) e = cc

pub ok-eq {ℓ} : {A : Type ℓ} {a b : A} → ok a ≡ ok b → a ≡ b
ok-eq e = cc

-- A call whose fuel is enough: it returns, panics, or does what is undefined.
abbrev pub Ends {ℓ} : {A : Type ℓ} → Outcome A → Type ℓ
Ends o = o ≢ out_of_fuel

pub >>=-Ends {ℓ κ} :
    {A : Type ℓ} {B : Type κ} (o : Outcome A) (next : A → Outcome B)
    → Ends o
    → ((a : A) → o ≡ ok a → Ends (next a))
    → Ends (o >>= next)
>>=-Ends (ok a) next h k = k a refl
>>=-Ends (panic p) next h k = λ e. cc
>>=-Ends undefined_behaviour next h k = λ e. cc
>>=-Ends out_of_fuel next h k = absurd (h refl)

pub if-Ends {ℓ} :
    {A : Type ℓ} (b : Bool) (x y : Outcome A) → Ends x → Ends y → Ends (if b then x else y)
if-Ends true x y h k = h
if-Ends false x y h k = k

pub ok-Ends {ℓ} : {A : Type ℓ} (a : A) → Ends (ok a)
ok-Ends a = λ e. cc

pub panic_if-Ends : (b : Bool) (p : Panic) → Ends (panic_if b p)
panic_if-Ends true p = λ e. cc
panic_if-Ends false p = λ e. cc

pub deref-Ends {ℓ} : {A : Type ℓ} (o : Option A) → Ends (deref o)
deref-Ends none = λ e. cc
deref-Ends (some a) = λ e. cc

pub in_bounds-Ends {ℓ} : {A : Type ℓ} (o : Option A) → Ends (in_bounds o)
in_bounds-Ends none = λ e. cc
in_bounds-Ends (some a) = λ e. cc
