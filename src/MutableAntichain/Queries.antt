-- ===== src/MutableAntichain/Queries.antt =====
-- What the queries of a `MutableAntichain` answer, and the operations that leave updates dirty.
use timely_mirror.Prelude.{
  ℕ, ◌<◌, ◌≡◌, ◌↔◌, sym, subst, ◌∙◌, true, [], ◌∷◌, length-append, retain, any_of_elem, any-witness,
  arith, Bool-cases, inl, inr,
}
use timely_mirror.Order.{Eq, PartialOrder}
use timely_mirror.Int64.{
  wrapping_add, modulus, is_positive, wrapping_add-lt, wrapping_add_assoc, wrapping_add_comm,
  zero-wrapping_add,
}
use timely_mirror.Updates.{Updates, count}
use timely_mirror.Updates.Counts.{count-lt}
use timely_mirror.MutableAntichain.{
  MutableAntichain, less_equal, less_than, sum_values, count_for, update_dirty,
}
use timely_mirror.MutableAntichain.Frontier.{Tracks}
use timely_mirror.MutableAntichain.Refresh.{IsTracking, pushed, pushed-settled, pushed-InRange}

module _ {ℓ} {A : Type ℓ} ⦃e : Eq A⦄ where
  sum_values-retain :
      (t : A) (acc : ℕ) (us : Updates A)
      → acc < modulus
      → sum_values acc (retain (λ td. e.eq td.0 t) us) ≡ wrapping_add acc (count t us)
  unfolding sum_values count
  sum_values-retain t acc [] h = sym (wrapping_add_comm acc 0 ∙ zero-wrapping_add acc h)
  sum_values-retain t acc ((k, v) ∷ us) h = elim (Bool-cases (e.eq k t)) [
    | inl same ↦ rw same (
        sum_values-retain t (wrapping_add acc v) us (wrapping_add-lt acc v)
        ∙ wrapping_add_assoc acc v (count t us))
    | inr other ↦ rw other (sum_values-retain t acc us h)
  ]

  -- `count_for` returns what the updates add up to at the time.
  pub count_for-eq : (m : MutableAntichain A) (t : A) → count_for m t ≡ count t m.updates
  unfolding count_for
  count_for-eq m t =
      sum_values-retain t 0 m.updates (omega arith)
      ∙ zero-wrapping_add (count t m.updates) (count-lt t m.updates)

module _ {ℓ} {A : Type ℓ} ⦃e : Eq A⦄ ⦃p : PartialOrder A⦄ where
  -- With no dirty update, which the code asserts, and a frontier that tracks the updates,
  -- `less_equal` (and `less_than`) of a time is true exactly if some time with a positive count is
  -- less than or equal to (less than) it.
  pub queries_iff :
      (m : MutableAntichain A) (t : A)
      → m.dirty ≡ 0
      → Tracks m.frontier m.updates
      → ((less_equal m t ≡ true)
          ↔ ((s : A) × (is_positive (count_for m s) ≡ true) × (p.less_equal s t ≡ true)))
        × ((less_than m t ≡ true)
            ↔ ((s : A) × (is_positive (count_for m s) ≡ true) × (p.less_than s t ≡ true)))
  queries_iff m t clean h = (
    (
      λ below.
          let (f, k, le) = any-witness (λ f. p.less_equal f t) m.frontier below in
          (f, rw (count_for-eq m f) (h.counted f k), le),
      λ (s, c, le).
          let (f, k, le') =
            any-witness (λ f. p.less_equal f s) m.frontier
              (h.covers s (rw (count_for-eq m s) at c)) in
          any_of_elem (λ f. p.less_equal f t) f m.frontier k (p.less_equal_trans f s t le' le),
    ),
    (
      λ below.
          let (f, k, lt) = any-witness (λ f. p.less_than f t) m.frontier below in
          (f, rw (count_for-eq m f) (h.counted f k), lt),
      λ (s, c, lt).
          let (f, k, le) =
            any-witness (λ f. p.less_equal f s) m.frontier
              (h.covers s (rw (count_for-eq m s) at c)) in
          let (le', ne) = (p.less_than_iff s t).0 lt in
          any_of_elem (λ f. p.less_than f t) f m.frontier k
            ((p.less_than_iff f t).1 (
              p.less_equal_trans f s t le le',
              λ same.
                  ne (p.less_equal_antisymm s t le' (subst (λ x. p.less_equal x s ≡ true) same le)),
            )),
    ),
  )

  -- `update_dirty` leaves the frontier right for the updates that it accounts for.
  pub update_dirty-IsTracking :
      (m : MutableAntichain A) (t : A) (d : ℕ)
      → d < modulus
      → IsTracking m
      → IsTracking (update_dirty m t d)
  unfolding update_dirty pushed
  update_dirty-IsTracking m t d r v = record {
    within = omega (arith, v.within, length-append m.updates ((t, d) ∷ []));
    in_range = pushed-InRange m ((t, d) ∷ []) v.in_range (r, tt);
    tracks = subst (Tracks m.frontier) (sym (pushed-settled m ((t, d) ∷ []) v.within).0) v.tracks;
    quiet = v.quiet;
  }
