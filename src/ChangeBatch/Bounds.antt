-- ===== src/ChangeBatch/Bounds.antt =====
-- How many updates a `ChangeBatch` holds, and what its consolidated updates are determined by.
use timely_mirror.Prelude.{◌*◌, ◌≤◌, ◌<◌, ◌≡◌, ◌⊎◌, refl, sym, ◌∙◌, ◌++◌, arith, length}
use timely_mirror.Order.{Eq, Ord}
use timely_mirror.Updates.{Updates}
use timely_mirror.Updates.Canonical.{IsCompact-eq_of_SameCounts}
use timely_mirror.ChangeBatch.{ChangeBatch, compact, maintain_bounds, extend, into_inner}
use timely_mirror.ChangeBatch.Totals.{total, total-compact}
use timely_mirror.ChangeBatch.Valid.{IsValid, compact_updates-IsCompact}

module _ {ℓ} {A : Type ℓ} ⦃e : Eq A⦄ ⦃o : Ord A⦄ where
  -- Either the batch is small, or more than half of it is compact.
  abbrev pub IsBounded : ChangeBatch A → Type 0
  IsBounded b = (length b.updates ≤ 32) ⊎ (length b.updates < 2 * b.clean)

  clean-compact : (b : ChangeBatch A) → (compact b).clean ≡ length (compact b).updates
  unfolding compact
  clean-compact b = refl

  pub maintain_bounds-IsBounded : (b : ChangeBatch A) → IsBounded (maintain_bounds b)
  unfolding maintain_bounds
  maintain_bounds-IsBounded b = ground (arith, clean-compact b)

  -- Whatever is appended, at most 32 updates are held or more than half of them are clean.
  pub extend-IsBounded : (b : ChangeBatch A) (us : Updates A) → IsBounded (extend b us)
  unfolding extend
  extend-IsBounded b us = maintain_bounds-IsBounded (record b { updates = b.updates ++ us })

  -- Batches that add up to the same have the same contents, in the same order.
  pub into_inner-eq_of_totals :
      (b c : ChangeBatch A)
      → IsValid b
      → IsValid c
      → ((t : A) → total t b ≡ total t c)
      → into_inner b ≡ into_inner c
  unfolding into_inner compact
  into_inner-eq_of_totals b c v w s =
      IsCompact-eq_of_SameCounts _ _ (compact_updates-IsCompact b v) (compact_updates-IsCompact c w)
        (λ t. total-compact t b ∙ s t ∙ sym (total-compact t c))
