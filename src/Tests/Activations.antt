-- ===== src/Tests/Activations.antt =====
-- A scheduler with two paths activated, one received and one due.
use timely_mirror.Prelude.{
  ℕ, ◌≡◌, ◌⊎◌, ◌↔◌, refl, List, [], ◌∷◌, Memᴰ, drop, length, some, not, retain,
}
use timely_mirror.Order.Sequence.{list_eq, list_ord}
use timely_mirror.Sorting.Laws.{IsAscending}
use timely_mirror.Activations.{
  Activations, new, activate, activate_after, advance, paths, for_extensions, empty_for,
}
use timely_mirror.Activations.Paths.{IsValid, new-IsValid, activate-IsValid}
use timely_mirror.Activations.Timers.{IsTimed, is_due, due, activate_after-IsTimed}
use timely_mirror.Activations.Advance.{advance-refines}
use timely_mirror.Activations.Extensions.{for_extensions-advance}
use timely_mirror.Activations.Scan.{Extends}

abbrev postponed : Activations
postponed = activate_after (activate_after new (4 ∷ []) 9 1) (0 ∷ 7 ∷ []) 2 1

abbrev twice : Activations
twice = activate (activate postponed (0 ∷ 5 ∷ [])) (0 ∷ 3 ∷ 2 ∷ [])

abbrev sent : List (List ℕ)
sent = (0 ∷ 5 ∷ []) ∷ (1 ∷ []) ∷ []

new-IsTimed : IsTimed new.queue
unfolding new
new-IsTimed = tt

postponed-IsTimed : IsTimed postponed.queue
postponed-IsTimed =
    activate_after-IsTimed (activate_after new (4 ∷ []) 9 1) (0 ∷ 7 ∷ []) 2 1
      (activate_after-IsTimed new (4 ∷ []) 9 1 new-IsTimed)

postponed-IsValid : IsValid postponed
unfolding activate_after
postponed-IsValid = let v = new-IsValid in record { in_bounds = v.in_bounds; within = v.within }

twice-IsValid : IsValid twice
twice-IsValid =
    activate-IsValid (activate postponed (0 ∷ 5 ∷ [])) (0 ∷ 3 ∷ 2 ∷ [])
      (activate-IsValid postponed (0 ∷ 5 ∷ []) postponed-IsValid)

twice-IsTimed : IsTimed twice.queue
unfolding activate
twice-IsTimed = postponed-IsTimed

advance-refines_example :
    IsAscending (paths (advance sent 4 twice))
    × ((p : List ℕ)
        → Memᴰ p (paths (advance sent 4 twice))
          ↔ (Memᴰ p (drop twice.clean (paths twice)) ⊎ Memᴰ p sent ⊎ Memᴰ p (due 4 twice.queue)))
    × ((advance sent 4 twice).queue ≡ retain (λ x. not (is_due 4 x)) twice.queue)
    × ((advance sent 4 twice).clean ≡ length (paths (advance sent 4 twice)))
    × IsValid (advance sent 4 twice)
    × IsTimed (advance sent 4 twice).queue
advance-refines_example = advance-refines sent 4 twice twice-IsValid twice-IsTimed

for_extensions-advance_example : Memᴰ 5 (for_extensions (advance sent 4 twice) (0 ∷ [])) ↔ (
    (x : List ℕ) × (Memᴰ x (drop twice.clean (paths twice))
      ⊎ Memᴰ x sent
      ⊎ Memᴰ x (due 4 twice.queue))
    × Extends (0 ∷ []) 5 x)
for_extensions-advance_example =
    for_extensions-advance sent 4 twice (0 ∷ []) 5 twice-IsValid twice-IsTimed

advance_run :
    (paths (advance sent 4 twice) ≡ (0 ∷ 3 ∷ 2 ∷ []) ∷ (0 ∷ 5 ∷ []) ∷ (0 ∷ 7 ∷ []) ∷ (1 ∷ []) ∷ [])
    × ((advance sent 4 twice).queue ≡ (10, 4 ∷ []) ∷ [])
    × (for_extensions (advance sent 4 twice) (0 ∷ []) ≡ 3 ∷ 5 ∷ 7 ∷ [])
    × (empty_for (advance [] 4 postponed) 8 ≡ some 0)
    × (empty_for (advance [] 4 (advance [] 4 postponed)) 8 ≡ some 2)
unfolding new activate activate_after advance for_extensions empty_for
advance_run = (refl, refl, refl, refl, refl)
