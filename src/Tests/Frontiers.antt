-- ===== src/Tests/Frontiers.antt =====
-- `MutableAntichain` at concrete inputs, over `usize` and over nested timestamps.
use timely_mirror.Prelude.{ℕ, ◌≡◌, ◌↔◌, refl, true, List, [], ◌∷◌, arith}
use mathlib.Core.List.{flatten}
use timely_mirror.Order.{nat_eq, nat_partial_order, nat_ord, nat-IsExtension}
use timely_mirror.Order.Product.{product_eq, product_partial_order, product_ord}
use timely_mirror.Int64.{wrapping_add, minus_one, is_positive, is_negative}
use timely_mirror.Updates.{Updates, consolidate, count}
use timely_mirror.ChangeBatch
use timely_mirror.MutableAntichain.{
  MutableAntichain, new, new_bottom, empty, update_dirty, update_iter, less_equal, less_than,
  count_for,
}
use timely_mirror.MutableAntichain.Frontier.{Tracks}
use timely_mirror.MutableAntichain.Scan.{AddsExactly}
use timely_mirror.MutableAntichain.Changes.{IsDifference}
use timely_mirror.MutableAntichain.Update.{
  IsUpdated, IsAccounted, update_iter-IsUpdated, update_iter-IsAccounted,
}
use timely_mirror.MutableAntichain.Refresh.{IsTracking}
use timely_mirror.MutableAntichain.History.{new_bottom-IsTracking, run, run-Tracks}
use timely_mirror.MutableAntichain.Queries.{queries_iff, update_dirty-IsTracking}
use timely_mirror.MutableAntichain.Reset.{update_iter-empty}

abbrev start : MutableAntichain ℕ
start = new_bottom 1

abbrev advance : Updates ℕ
advance = (1, minus_one) ∷ (2, 7) ∷ []

-- From the documentation of `update_iter`.
advance-changes : (update_iter start advance).1 ≡ (1, minus_one) ∷ (2, 1) ∷ []
unfolding update_iter new_bottom consolidate wrapping_add is_positive is_negative ChangeBatch.update
advance-changes = refl

advance-AddsExactly : AddsExactly ((1, 1) ∷ []) advance
unfolding count wrapping_add
advance-AddsExactly = (omega arith, (omega arith, tt))

update_iter-IsUpdated_example :
    IsUpdated start advance (update_iter start advance).0 (update_iter start advance).1
unfolding new_bottom
update_iter-IsUpdated_example =
    update_iter-IsUpdated nat-IsExtension start advance (new_bottom-IsTracking 1) (omega arith)
      advance-AddsExactly

-- The count goes below zero.
update_iter-IsAccounted_example :
    IsAccounted start
      ((1, minus_one) ∷ (1, minus_one) ∷ [])
      (update_iter start ((1, minus_one) ∷ (1, minus_one) ∷ [])).0
      (update_iter start ((1, minus_one) ∷ (1, minus_one) ∷ [])).1
unfolding new_bottom
update_iter-IsAccounted_example =
    update_iter-IsAccounted nat-IsExtension start ((1, minus_one) ∷ (1, minus_one) ∷ [])
      (omega arith, tt) (omega arith, (omega arith, tt)) refl

abbrev batches : List (Updates ℕ)
batches = ((1, 1) ∷ []) ∷ advance ∷ []

run-Tracks_example : Tracks (run new batches).frontier (flatten batches)
unfolding count wrapping_add flatten
run-Tracks_example =
    run-Tracks nat-IsExtension batches ((omega arith, tt), (omega arith, tt))
      (omega arith, (omega arith, (omega arith, tt)))

update_iter-empty_example :
    Tracks (update_iter (empty start) ((5, 2) ∷ [])).0.frontier ((5, 2) ∷ [])
    × IsTracking (update_iter (empty start) ((5, 2) ∷ [])).0
    × IsDifference start.frontier
        (update_iter (empty start) ((5, 2) ∷ [])).1
        (update_iter (empty start) ((5, 2) ∷ [])).0.frontier
unfolding new_bottom count wrapping_add
update_iter-empty_example =
    update_iter-empty nat-IsExtension start ((5, 2) ∷ []) refl (new_bottom-IsTracking 1)
      (omega arith, tt) (omega arith, tt)

queries_iff_example :
    ((less_equal start 3 ≡ true) ↔ (
      (s : ℕ) × (is_positive (count_for start s) ≡ true)
      × (nat_partial_order.less_equal s 3 ≡ true)))
    × ((less_than start 3 ≡ true) ↔ (
        (s : ℕ) × (is_positive (count_for start s) ≡ true)
        × (nat_partial_order.less_than s 3 ≡ true)))
unfolding new_bottom
queries_iff_example = queries_iff start 3 refl (new_bottom-IsTracking 1).tracks

update_dirty-IsTracking_example : IsTracking (update_dirty start 2 minus_one)
update_dirty-IsTracking_example =
    update_dirty-IsTracking start 2 minus_one (omega arith) (new_bottom-IsTracking 1)
