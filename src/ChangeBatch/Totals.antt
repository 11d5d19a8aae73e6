-- ===== src/ChangeBatch/Totals.antt =====
-- What the operations of a `ChangeBatch` do to the accumulated counts.
use timely_mirror.Prelude.{
  ℕ, ◌≡◌, refl, sym, ◌∙◌, true, [], ◌∷◌, arith, if◌then◌else◌, is_empty_list, Bool-cases, inl, inr,
}
use timely_mirror.Order.{Eq, Ord}
use timely_mirror.Int64.{wrapping_add, zero-wrapping_add}
use timely_mirror.Updates.{Updates, count}
use timely_mirror.Updates.Counts.{count-lt, count-append, count-consolidate}
use timely_mirror.ChangeBatch.{
  ChangeBatch, compact, maintain_bounds, update, extend, drain, is_empty, drain_into,
}

module _ {ℓ} {A : Type ℓ} ⦃e : Eq A⦄ where
  -- What the batch adds up to at a key.
  abbrev pub total : A → ChangeBatch A → ℕ
  total t b = count t b.updates

module _ {ℓ} {A : Type ℓ} ⦃e : Eq A⦄ ⦃o : Ord A⦄ (t : A) where
  pub total-compact : (b : ChangeBatch A) → total t (compact b) ≡ total t b
  unfolding compact
  total-compact b = ground (arith, count-consolidate t b.updates)

  total-maintain_bounds : (b : ChangeBatch A) → total t (maintain_bounds b) ≡ total t b
  unfolding maintain_bounds
  total-maintain_bounds b = ground (arith, total-compact b)

  -- `extend` adds what the iterator adds up to.
  pub total-extend :
      (b : ChangeBatch A) (us : Updates A)
      → total t (extend b us) ≡ wrapping_add (total t b) (count t us)
  unfolding extend
  total-extend b us = total-maintain_bounds _ ∙ count-append t b.updates us

  -- `update` adds the value at the key, and changes no other total.
  pub total-update :
      (b : ChangeBatch A) (k : A) (v : ℕ)
      → total t (update b k v) ≡ (if e.eq k t then wrapping_add (total t b) v else total t b)
  unfolding update extend count wrapping_add
  total-update b k v = total-extend b ((k, v) ∷ []) ∙ ground (arith, count-lt t b.updates)

  pub total-drain : (b : ChangeBatch A) → count t (drain b).1 ≡ total t b
  unfolding drain
  total-drain b = total-compact b

  pub total-is_empty : (b : ChangeBatch A) → total t (is_empty b).0 ≡ total t b
  unfolding is_empty
  total-is_empty b = ground (arith, total-compact b)

  -- `drain_into` moves every total over, on the branch that swaps as on the one that appends.
  pub total-drain_into :
      (b other : ChangeBatch A)
      → (total t (drain_into b other).0 ≡ 0)
        × (total t (drain_into b other).1 ≡ wrapping_add (total t other) (total t b))
  unfolding drain_into count
  total-drain_into b other = elim (Bool-cases (is_empty_list other.updates)) [
    | inl none_left ↦ rw none_left (swapped other.updates none_left)
    | inr some_left ↦ rw some_left (refl, total-extend other b.updates)
  ]
    where
      swapped :
          (us : Updates A)
          → is_empty_list us ≡ true
          → (count t us ≡ 0) × (total t b ≡ wrapping_add (count t us) (total t b))
      swapped [] h = (refl, sym (zero-wrapping_add (total t b) (count-lt t b.updates)))
      swapped (u ∷ us) h = absurd (ground arith)
