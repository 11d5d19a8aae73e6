-- ===== src/MutableAntichain.antt =====
-- `MutableAntichain` of timely/src/progress/frontier.rs: the minimal elements of a collection of
-- times with counts, kept up to date under batches of changes to the counts.
pub mod Frontier
pub mod Scan
pub mod Changes
pub mod Refresh
pub mod Update
pub mod History
pub mod Queries
pub mod Reset
use timely_mirror.Prelude.{
  ℕ, ◌+◌, ◌-◌, Bool, true, false, List, [], ◌∷◌, ◌++◌, ◌||◌, ◌&&◌, not, if◌then◌else◌, any, retain,
  map, length, drop, is_empty_list,
}
use timely_mirror.Order.{Eq, PartialOrder, Ord}
use timely_mirror.Int64.{wrapping_add, is_negative, is_positive, minus_one}
use timely_mirror.Updates.{Updates, consolidate}
use timely_mirror.ChangeBatch.{ChangeBatch}
use timely_mirror.ChangeBatch
use timely_mirror.Antichain.Ref.{AntichainRef}
use timely_mirror.Antichain.Ref

pub record MutableAntichain {ℓ} (A : Type ℓ) : Type ℓ where
  -- How many of the last updates the frontier does not account for yet.
  pub dirty : ℕ
  pub updates : Updates A
  pub frontier : List A
  pub changes : ChangeBatch A

module _ {ℓ} {A : Type ℓ} where
  unfoldable pub new : MutableAntichain A
  unfolding ChangeBatch.new
  new = record { dirty = 0; updates = []; frontier = []; changes = ChangeBatch.new }

  unfoldable pub new_bottom : A → MutableAntichain A
  unfolding ChangeBatch.new
  new_bottom bottom = record {
    dirty = 0;
    updates = (bottom, 1) ∷ [];
    frontier = bottom ∷ [];
    changes = ChangeBatch.new;
  }

  unfoldable pub clear : MutableAntichain A → MutableAntichain A
  unfolding ChangeBatch.clear
  clear m = record { dirty = 0; updates = []; frontier = []; changes = ChangeBatch.clear m.changes }

  -- All values are set to zero, and all updates are dirty.
  unfoldable pub empty : MutableAntichain A → MutableAntichain A
  empty m = record m { dirty = length m.updates; updates = map (λ u. (u.0, 0)) m.updates }

  abbrev pub frontier : MutableAntichain A → AntichainRef A
  frontier m = Ref.new m.frontier

  abbrev pub is_empty : MutableAntichain A → Bool
  is_empty m = is_empty_list m.frontier

  unfoldable pub update_dirty : MutableAntichain A → A → ℕ → MutableAntichain A
  update_dirty m time delta = record m {
    dirty = m.dirty + 1;
    updates = m.updates ++ (time, delta) ∷ [];
  }

  -- The loop that pushes the new updates.
  pub push_updates : MutableAntichain A → Updates A → MutableAntichain A
  unfolding update_dirty
  push_updates m [] = m
  push_updates m ((time, delta) ∷ rest) = push_updates (update_dirty m time delta) rest

module _ {ℓ} {A : Type ℓ} ⦃p : PartialOrder A⦄ where
  abbrev pub less_than : MutableAntichain A → A → Bool
  less_than m time = Ref.less_than (frontier m) time

  abbrev pub less_equal : MutableAntichain A → A → Bool
  less_equal m time = Ref.less_equal (frontier m) time

  -- The `while` loop over the dirty updates: whether one of them calls for a rebuild.
  pub rebuild_required : List A → Updates A → Bool
  rebuild_required frontier [] = false
  rebuild_required frontier ((time, delta) ∷ rest) =
      let later = rebuild_required frontier rest in
      let beyond_frontier = any (λ f. p.less_than f time) frontier in
      let before_frontier = not (any (λ f. p.less_equal f time) frontier) in
      if not (beyond_frontier || (is_negative delta && before_frontier)) then true else later

  -- One round of the loop that builds the new frontier.
  abbrev pub add_minimal : List A → A → List A
  add_minimal frontier time =
      if not (any (λ f. p.less_equal f time) frontier) then frontier ++ time ∷ [] else frontier

  -- The loop that builds the new frontier from the times with a positive count.
  pub build_frontier : List A → Updates A → List A
  build_frontier frontier [] = frontier
  build_frontier frontier ((time, _) ∷ rest) = build_frontier (add_minimal frontier time) rest

module _ {ℓ} {A : Type ℓ} ⦃e : Eq A⦄ ⦃o : Ord A⦄ where
  -- The loops that report the frontier's elements with one value.
  pub record_all : ChangeBatch A → List A → ℕ → ChangeBatch A
  record_all changes [] value = changes
  record_all changes (time ∷ rest) value =
      record_all (ChangeBatch.update changes time value) rest value

  module _ ⦃p : PartialOrder A⦄ where
    pub rebuild : MutableAntichain A → MutableAntichain A
    unfolding build_frontier record_all
    rebuild m =
        let updates = if not (is_empty_list m.updates) then consolidate m.updates else m.updates in
        let withdrawn = record_all m.changes m.frontier minus_one in
        let frontier = build_frontier [] (retain (λ x. is_positive x.1) updates) in
        record {
          dirty = m.dirty;
          updates = updates;
          frontier = frontier;
          changes = record_all withdrawn frontier 1;
        }

    -- The part of `update_iter` behind its first loop.
    pub refresh : MutableAntichain A → MutableAntichain A
    unfolding rebuild rebuild_required
    refresh m =
        let recent = drop (length m.updates - m.dirty) m.updates in
        if rebuild_required m.frontier recent
        then rebuild (record m { dirty = 0 })
        else record m { dirty = 0 }

    -- The collection after the call, and the changes of the frontier.
    unfoldable pub update_iter : MutableAntichain A → Updates A → MutableAntichain A × Updates A
    unfolding push_updates refresh ChangeBatch.drain
    update_iter m updates =
        let refreshed = refresh (push_updates m updates) in
        let (changes, drained) = ChangeBatch.drain refreshed.changes in
        (record refreshed { changes = changes }, drained)

    -- `updates.into_iter()` of `MutableAntichainFilter`.
    abbrev pub filter_through : Updates A → MutableAntichain A → MutableAntichain A × Updates A
    filter_through updates antichain = update_iter antichain updates

module _ {ℓ} {A : Type ℓ} where
  unfoldable pub sum_values : ℕ → Updates A → ℕ
  sum_values total [] = total
  sum_values total (u ∷ us) = sum_values (wrapping_add total u.1) us

module _ {ℓ} {A : Type ℓ} ⦃e : Eq A⦄ where
  unfoldable pub count_for : MutableAntichain A → A → ℕ
  unfolding sum_values
  count_for m query_time = sum_values 0 (retain (λ td. e.eq td.0 query_time) m.updates)
