-- ===== src/ChangeBatch.antt =====
-- timely/src/progress/change_batch.rs: a batch of updates that is consolidated lazily.
pub mod Totals
pub mod Valid
pub mod Empty
pub mod Bounds
pub mod Keys
pub mod History
use timely_mirror.Prelude.{
  ℕ, ◌/◌, Bool, false, List, [], ◌∷◌, ◌++◌, if◌then◌else◌, ltb, leb, ◌&&◌, length, is_empty_list,
}
use timely_mirror.Order.{Eq, Ord}
use timely_mirror.Updates.{Updates, consolidate}

pub record ChangeBatch {ℓ} (A : Type ℓ) : Type ℓ where
  -- The updates, to which new ones are appended.
  pub updates : Updates A
  -- The length of the prefix that is known to be compact.
  pub clean : ℕ

module _ {ℓ} {A : Type ℓ} where
  unfoldable pub new : ChangeBatch A
  new = record { updates = []; clean = 0 }

  unfoldable pub is_dirty : ChangeBatch A → Bool
  is_dirty b = ltb b.clean (length b.updates)

  unfoldable pub clear : ChangeBatch A → ChangeBatch A
  clear b = record { updates = []; clean = 0 }

  abbrev pub unstable_internal_updates : ChangeBatch A → Updates A
  unstable_internal_updates b = b.updates

  abbrev pub unstable_internal_clean : ChangeBatch A → ℕ
  unstable_internal_clean b = b.clean

module _ {ℓ} {A : Type ℓ} ⦃e : Eq A⦄ ⦃o : Ord A⦄ where
  -- The consolidated updates, or the updates as they are if all or all but one are clean.
  unfoldable pub compact_updates : ChangeBatch A → Updates A
  compact_updates b =
      if ltb b.clean (length b.updates) && ltb 1 (length b.updates)
      then consolidate b.updates
      else b.updates

  unfoldable pub compact : ChangeBatch A → ChangeBatch A
  unfolding compact_updates
  compact b = record { updates = compact_updates b; clean = length (compact_updates b) }

  -- With more than 32 updates of which at least half are not clean, compact.
  unfoldable pub maintain_bounds : ChangeBatch A → ChangeBatch A
  maintain_bounds b =
      if ltb 32 (length b.updates) && leb b.clean (length b.updates / 2) then compact b else b

  unfoldable pub update : ChangeBatch A → A → ℕ → ChangeBatch A
  unfolding maintain_bounds
  update b item value = maintain_bounds (record b { updates = b.updates ++ (item, value) ∷ [] })

  unfoldable pub extend : ChangeBatch A → Updates A → ChangeBatch A
  unfolding maintain_bounds
  extend b iterator = maintain_bounds (record b { updates = b.updates ++ iterator })

  unfoldable pub new_from : A → ℕ → ChangeBatch A
  unfolding new update
  new_from key val = update new key val

  unfoldable pub into_inner : ChangeBatch A → Updates A
  unfolding compact
  into_inner b = (compact b).updates

  -- The batch after the call, and what the iterator yields.
  unfoldable pub iter : ChangeBatch A → ChangeBatch A × Updates A
  unfolding compact
  iter b = (compact b, (compact b).updates)

  -- What is drained, once the iterator is done or dropped.
  unfoldable pub drain : ChangeBatch A → ChangeBatch A × Updates A
  unfolding compact
  drain b = (record { updates = []; clean = 0 }, (compact b).updates)

  unfoldable pub is_empty : ChangeBatch A → ChangeBatch A × Bool
  unfolding compact
  is_empty b =
      if ltb (length b.updates / 2) b.clean
      then (b, false)
      else (compact b, is_empty_list (compact b).updates)

  -- The batch that is drained and the other one, in that order.
  unfoldable pub drain_into : ChangeBatch A → ChangeBatch A → ChangeBatch A × ChangeBatch A
  unfolding extend
  drain_into b other =
      if is_empty_list other.updates
      then (other, b)
      else (record b { updates = []; clean = 0 }, extend other b.updates)
