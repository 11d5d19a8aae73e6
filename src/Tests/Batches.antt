-- ===== src/Tests/Batches.antt =====
-- `ChangeBatch` at concrete inputs, most of them from the examples in change_batch.rs.
use timely_mirror.Prelude.{ℕ, ◌≡◌, ◌↔◌, refl, true, false, List, [], ◌∷◌, arith}
use timely_mirror.Order.{nat_eq, nat_ord}
use timely_mirror.Int64.{wrapping_add, minus_one}
use timely_mirror.Updates.{consolidate, count}
use timely_mirror.Updates.Compact.{IsCompact}
use timely_mirror.Updates.Canonical.{consolidate_of_IsCompact}
use timely_mirror.ChangeBatch.{
  ChangeBatch, new, new_from, update, extend, into_inner, drain, drain_into, is_empty,
}
use timely_mirror.ChangeBatch.Totals.{total, total-drain_into}
use timely_mirror.ChangeBatch.Valid.{IsValid, drain-IsCompact}
use timely_mirror.ChangeBatch.Empty.{is_empty_iff, is_empty-new_from_zero}
use timely_mirror.ChangeBatch.Bounds.{IsBounded, extend-IsBounded, into_inner-eq_of_totals}
use timely_mirror.ChangeBatch.History.{
  Call, updates, extends, compacts, drains, drains_from, tests_empty, run, run-IsValid, total-run,
  total_of_run,
}

-- Two updates at 17 that cancel, and one at 4.
abbrev cancelling : ChangeBatch ℕ
cancelling = record { updates = (17, 1) ∷ (4, 2) ∷ (17, minus_one) ∷ []; clean = 0 }

abbrev remaining : ChangeBatch ℕ
remaining = record { updates = (4, 2) ∷ []; clean = 1 }

cancelling-IsValid : IsValid cancelling
cancelling-IsValid = record { within = omega arith; prefix = tt; nonzero = omega arith }

remaining-IsValid : IsValid remaining
remaining-IsValid = record { within = omega arith; prefix = omega arith; nonzero = omega arith }

new_from-into_inner : into_inner (new_from {A = ℕ} 17 1) ≡ (17, 1) ∷ []
unfolding into_inner new_from consolidate
new_from-into_inner = refl

update-is_empty : (is_empty (update (new_from {A = ℕ} 17 1) 17 minus_one)).1 ≡ true
unfolding is_empty update new_from consolidate wrapping_add
update-is_empty = refl

cancelling-into_inner : into_inner cancelling ≡ (4, 2) ∷ []
unfolding into_inner consolidate wrapping_add
cancelling-into_inner = refl

is_empty_iff_example : ((is_empty cancelling).1 ≡ true) ↔ ((t : ℕ) → total t cancelling ≡ 0)
is_empty_iff_example = is_empty_iff cancelling cancelling-IsValid

same_totals : (t : ℕ) → total t cancelling ≡ total t remaining
unfolding count wrapping_add
same_totals t = ground arith

into_inner-eq_of_totals_example : into_inner cancelling ≡ into_inner remaining
into_inner-eq_of_totals_example =
    into_inner-eq_of_totals cancelling remaining cancelling-IsValid remaining-IsValid same_totals

total-drain_into_example :
    (total 4 (drain_into cancelling remaining).0 ≡ 0)
    × (total 4 (drain_into cancelling remaining).1
        ≡ wrapping_add (total 4 remaining) (total 4 cancelling))
total-drain_into_example = total-drain_into 4 cancelling remaining

extend-IsBounded_example : IsBounded (extend remaining cancelling.updates)
extend-IsBounded_example = extend-IsBounded remaining cancelling.updates

drain-IsCompact_example : IsCompact (drain cancelling).1
drain-IsCompact_example = drain-IsCompact cancelling cancelling-IsValid

is_empty-new_from_zero_example :
    ((is_empty (new_from {A = ℕ} 3 0)).1 ≡ false) × ((t : ℕ) → total t (new_from 3 0) ≡ 0)
is_empty-new_from_zero_example = is_empty-new_from_zero 3

abbrev history : List (Call ℕ)
history =
    updates 4 3
    ∷ extends ((4, minus_one) ∷ (9, 1) ∷ [])
    ∷ tests_empty
    ∷ drains
    ∷ drains_from remaining
    ∷ updates 2 1
    ∷ compacts
    ∷ []

run-IsValid_example : IsValid (run new history)
run-IsValid_example = run-IsValid history (
  (omega arith, omega arith, tt),
  ((omega arith, tt), (tt, (tt, (remaining-IsValid, ((omega arith, omega arith, tt), (tt, tt)))))),
)

total-run_example : total 4 (run new history) ≡ total_of_run 4 (total {A = ℕ} 4 new) history
total-run_example = total-run 4 new history

consolidate_of_IsCompact_example : consolidate {A = ℕ} ((4, 2) ∷ (9, 1) ∷ []) ≡ (4, 2) ∷ (9, 1) ∷ []
consolidate_of_IsCompact_example = consolidate_of_IsCompact ((4, 2) ∷ (9, 1) ∷ []) (omega arith) (
  omega arith,
  omega arith,
  ((refl, λ e. absurd (omega arith)), tt),
  (omega arith, omega arith, tt, tt),
)
