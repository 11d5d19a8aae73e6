-- ===== src/Tests/Permits.antt =====
-- An operator with two outputs that mints, clones, delays and drops capabilities.
use timely_mirror.Prelude.{
  ℕ, ◌≡◌, ◌⊎◌, refl, Option, none, some, List, [], ◌∷◌, ◌++◌, map, all, true, false, arith,
}
use timely_mirror.Prelude.Picks.{first}
use timely_mirror.Order.{nat_eq, nat_ord, nat_partial_order}
use timely_mirror.Int64.{wrapping_add}
use timely_mirror.Capability.{Cells, Capability, mint, clone, delayed, drop_capability}
use timely_mirror.Capability.Counted.{total_at, held}
use timely_mirror.Capability.Steps.{
  Holdings, holdings, start, Reachable, IsBalanced, mint_step, clone_step, drop_step, at_start,
  by_step,
}
use timely_mirror.Capability.Balance.{Reachable-counts, Reachable-IsBalanced}
use timely_mirror.Capability.Set.{CapabilitySet, set_downgrade, insert}
use timely_mirror.Capability.Set.Downgrade.{is_beyond, set_downgrade-replaces}

abbrev no_changes : Cells ℕ
no_changes = (start {T = ℕ} 2).cells

abbrev permit : ℕ → Capability ℕ
permit time = record { time = time; internal = 1 }

-- One capability minted for output 1, and cloned.
abbrev cloned : Holdings ℕ
cloned = holdings (clone (permit 3) (mint 3 1 no_changes).0).0 no_changes (permit 3 ∷ permit 3 ∷ [])

cloned-Reachable : Reachable 2 cloned
unfolding mint clone
cloned-Reachable = by_step (by_step at_start (mint_step 3 1 (omega arith))) (clone_step first)

abbrev dropped : Holdings ℕ
dropped = holdings (drop_capability (permit 3) cloned.cells) no_changes (permit 3 ∷ [])

dropped-Reachable : Reachable 2 dropped
dropped-Reachable = by_step cloned-Reachable (drop_step first)

Reachable-counts_example :
    wrapping_add (total_at 1 3 dropped.told) (total_at 1 3 dropped.cells) ≡ held 1 3 dropped.live
Reachable-counts_example = Reachable-counts 2 dropped 1 3 dropped-Reachable

abbrev set_of : CapabilitySet ℕ
set_of = record { elements = permit 3 ∷ permit 3 ∷ [] }

set_downgrade-replaces_example :
    ((all (λ t. is_beyond t (permit 3 ∷ permit 3 ∷ [])) (4 ∷ 7 ∷ []) ≡ true)
      × ((next : Cells ℕ) × (after : CapabilitySet ℕ) × (set_downgrade set_of
              (4 ∷ 7 ∷ [])
              cloned.cells
            ≡ some (next, after))
          × (map (λ c. c.time) after.elements ≡ 4 ∷ 7 ∷ [])
          × IsBalanced (holdings next no_changes (after.elements ++ []))))
    ⊎ ((all (λ t. is_beyond t (permit 3 ∷ permit 3 ∷ [])) (4 ∷ 7 ∷ []) ≡ false)
        × (set_downgrade set_of (4 ∷ 7 ∷ []) cloned.cells ≡ none))
set_downgrade-replaces_example =
    set_downgrade-replaces set_of (4 ∷ 7 ∷ []) cloned.cells no_changes []
      (Reachable-IsBalanced 2 cloned-Reachable)

abbrev elements_of : Option (Cells ℕ × CapabilitySet ℕ) → List (Capability ℕ)
elements_of none = []
elements_of (some r) = r.1.elements

permits_run :
    (held 1 3 dropped.live ≡ 1)
    × (elements_of (set_downgrade set_of (4 ∷ 7 ∷ []) no_changes) ≡ permit 4 ∷ permit 7 ∷ [])
    × (elements_of (set_downgrade set_of (2 ∷ []) no_changes) ≡ [])
    × ((insert set_of (permit 1) no_changes).1.elements ≡ permit 1 ∷ [])
unfolding wrapping_add set_downgrade insert delayed mint
permits_run = (refl, refl, refl, refl)
