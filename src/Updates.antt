-- ===== src/Updates.antt =====
-- Sequences of updates `(T, i64)`, and their consolidation: the sort, the loop and the `retain` that
-- `ChangeBatch::compact` (timely/src/progress/change_batch.rs) and `MutableAntichain::rebuild`
-- (timely/src/progress/frontier.rs) share word for word.
pub mod Counts
pub mod Compact
pub mod Canonical
pub mod Members
pub mod Linear
pub mod Keys
use timely_mirror.Prelude.{ℕ, ◌≡◌, Bool, List, [], ◌∷◌, map, if◌then◌else◌, ◌==◌, not, retain}
use timely_mirror.Order.{Eq, Ord}
use timely_mirror.Int64.{wrapping_add}

abbrev pub Updates {ℓ} : Type ℓ → Type ℓ
Updates A = List (A × ℕ)

module _ {ℓ} {A : Type ℓ} where
  -- One update with the value for each element.
  abbrev pub each : List A → ℕ → Updates A
  each xs v = map (λ x. (x, v)) xs

module _ {ℓ} {A : Type ℓ} ⦃o : Ord A⦄ where
  -- `sort_by(|x, y| x.0.cmp(&y.0))`, which is stable: an update stays in front of the later ones
  -- with its key.
  unfoldable pub sort_insert : A × ℕ → Updates A → Updates A
  sort_insert x [] = x ∷ []
  sort_insert x (y ∷ ys) = if o.le x.0 y.0 then x ∷ y ∷ ys else y ∷ sort_insert x ys

  unfoldable pub sort_by_key : Updates A → Updates A
  unfolding sort_insert
  sort_by_key [] = []
  sort_by_key (x ∷ xs) = sort_insert x (sort_by_key xs)

module _ {ℓ} {A : Type ℓ} ⦃e : Eq A⦄ where
  -- The loop over neighbours: `k` and `v` are the update at the loop's index, which has taken up
  -- those before it, and the list is what stands behind it.
  unfoldable pub carry_runs : A → ℕ → Updates A → Updates A
  carry_runs k v [] = (k, v) ∷ []
  carry_runs k v ((j, w) ∷ us) =
      (k, if e.eq k j then 0 else v) ∷ carry_runs j (if e.eq k j then wrapping_add w v else w) us

  unfoldable pub accumulate_runs : Updates A → Updates A
  unfolding carry_runs
  accumulate_runs [] = []
  accumulate_runs ((k, v) ∷ us) = carry_runs k v us

  abbrev pub is_nonzero : A × ℕ → Bool
  is_nonzero u = not (u.1 == 0)

  module _ ⦃o : Ord A⦄ where
    unfoldable pub consolidate : Updates A → Updates A
    unfolding sort_by_key accumulate_runs
    consolidate us = retain is_nonzero (accumulate_runs (sort_by_key us))

  -- What a sequence of updates adds up to at a key, modulo 2^64.
  unfoldable pub count : A → Updates A → ℕ
  count t [] = 0
  count t ((k, v) ∷ us) = if e.eq k t then wrapping_add v (count t us) else count t us
