-- ===== src/Sorting.antt =====
-- `sort_by_key` of the standard library, which is stable, and `dedup_by_key`.
pub mod Laws
use timely_mirror.Prelude.{ℕ, Bool, List, [], ◌∷◌, if◌then◌else◌}
use timely_mirror.Order.{Eq, Ord}

module _ {ℓ κ} {A : Type ℓ} {K : Type κ} ⦃o : Ord K⦄ (key : A → K) where
  -- Before the first element whose key is not less.
  unfoldable pub insert_on : A → List A → List A
  insert_on x [] = x ∷ []
  insert_on x (y ∷ ys) = if o.le (key x) (key y) then x ∷ y ∷ ys else y ∷ insert_on x ys

  unfoldable pub sort_on : List A → List A
  unfolding insert_on
  sort_on [] = []
  sort_on (x ∷ xs) = insert_on x (sort_on xs)

module _ {ℓ κ} {A : Type ℓ} {K : Type κ} ⦃e : Eq K⦄ (key : A → K) where
  -- The elements after `x`, without those at the front of a run that have the key of the one before.
  unfoldable pub dedup_after : A → List A → List A
  dedup_after x [] = []
  dedup_after x (y ∷ ys) =
      let kept = dedup_after y ys in
      let dropped = dedup_after x ys in if e.eq (key y) (key x) then dropped else y ∷ kept

  unfoldable pub dedup_on : List A → List A
  unfolding dedup_after
  dedup_on [] = []
  dedup_on (x ∷ xs) = x ∷ dedup_after x xs
