-- ===== src/Prelude/Options.antt =====
-- `Option::and_then` and `Option::map` of the standard library.
use mathlib.Core.Option.{Option, none, some}
use mathlib.Core.Bool.{Bool, true, false}
use mathlib.Core.Logic.{◌≢◌}
use mathlib.Core.Path.{◌≡◌, refl, ap}
use native.Mathlib.Omega.{arith}
use timely_mirror.Prelude.Tests.{if◌then◌else◌}

module _ {ℓ κ} {A : Type ℓ} {B : Type κ} where
  abbrev pub and_then : Option A → (A → Option B) → Option B
  and_then none f = none
  and_then (some a) f = f a

  abbrev pub map_option : (A → B) → Option A → Option B
  map_option f none = none
  map_option f (some a) = some (f a)

module _ {ℓ} {A : Type ℓ} where
  pub some_injective : (a b : A) → some a ≡ some b → a ≡ b
  some_injective a b h = ap (λ o. elim o [ none ↦ a | some c ↦ c ]) h

  pub some_not_none : (a : A) → some a ≢ none
  some_not_none a h = ground arith

  -- A guarded result was given.
  pub some_of_guard :
      (test : Bool) (a b : A) → (if test then some a else none) ≡ some b → (test ≡ true) × (a ≡ b)
  some_of_guard true a b h = (refl, some_injective a b h)
  some_of_guard false a b h = absurd (ground arith)
