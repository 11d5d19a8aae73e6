-- ===== src/MutableAntichain/Reset.antt =====
-- `MutableAntichain::empty`, which zeroes all counts and leaves them dirty: the next `update_iter`
-- finds the frontier of the new updates alone.
use timely_mirror.Prelude.{
  ℕ, ◌-◌, ◌≡◌, ◌≢◌, refl, sym, subst, ◌∙◌, true, false, List, [], ◌∷◌, ◌++◌, ◌||◌, map, length, any,
  any-witness, All, All-elem, Memᴰ, here, there, arith, Bool-cases, inl, inr,
}
use timely_mirror.Order.{Eq, PartialOrder, Ord, IsExtension}
use timely_mirror.Int64.{is_negative, ne_zero_of_is_positive, zero-wrapping_add}
use timely_mirror.Updates.{Updates, count}
use timely_mirror.Updates.Counts.{count-lt, count-append}
use timely_mirror.Updates.Compact.{InRange}
use timely_mirror.Antichain.Compare.{AllIncomparable-eq}
use timely_mirror.MutableAntichain.{MutableAntichain, empty, rebuild_required, update_iter}
use timely_mirror.MutableAntichain.Frontier.{Tracks, Tracks-of_counts}
use timely_mirror.MutableAntichain.Scan.{AddsExactly, rebuild_required-Tracks}
use timely_mirror.MutableAntichain.Changes.{IsDifference}
use timely_mirror.MutableAntichain.Update.{update_iter-IsUpdated_of}
use timely_mirror.MutableAntichain.Refresh.{IsTracking, recent}
use timely_mirror.MutableAntichain.History.{nil-Tracks, settled_of_clean}

module _ {ℓ} {A : Type ℓ} where
  abbrev zeros : Updates A → Updates A
  zeros us = map (λ u. (u.0, 0)) us

  zeros-InRange : (us : Updates A) → InRange (zeros us)
  zeros-InRange [] = tt
  zeros-InRange (u ∷ us) = (omega arith, zeros-InRange us)

  length-zeros : (us : Updates A) → length (zeros us) ≡ length us
  length-zeros [] = refl
  length-zeros (u ∷ us) = omega (arith, length-zeros us)

module _ {ℓ} {A : Type ℓ} ⦃e : Eq A⦄ where
  count-zeros : (t : A) (us : Updates A) → count t (zeros us) ≡ 0
  unfolding count
  count-zeros t [] = refl
  count-zeros t ((k, v) ∷ us) = ground (arith, count-zeros t us, zero-wrapping_add 0 (omega arith))

  key_of_count : (t : A) (us : Updates A) → count t us ≢ 0 → (u : A × ℕ) × Memᴰ u us × (u.0 ≡ t)
  unfolding count
  key_of_count t [] ne = absurd (ne refl)
  key_of_count t ((k, v) ∷ us) ne = elim (Bool-cases (e.eq k t)) [
    | inl same ↦ ((k, v), here refl, (e.eq_iff k t).0 same)
    | inr other ↦ let (u, m, h) = key_of_count t us (λ z. ne (rw other z)) in (u, there m, h)
  ]

module _ {ℓ} {A : Type ℓ} ⦃e : Eq A⦄ ⦃p : PartialOrder A⦄ where
  rebuild_required-append :
      (xs : List A) (us vs : Updates A)
      → rebuild_required xs (us ++ vs) ≡ (rebuild_required xs us || rebuild_required xs vs)
  unfolding rebuild_required
  rebuild_required-append xs [] vs = refl
  rebuild_required-append xs ((t, d) ∷ us) vs = ground (arith, rebuild_required-append xs us vs)

  -- A zeroed update is passed over only beyond the frontier.
  zeros_beyond :
      (xs : List A) (us : Updates A)
      → rebuild_required xs (zeros us) ≡ false
      → All (λ u. any (λ f. p.less_than f u.0) xs ≡ true) us
  unfolding rebuild_required is_negative
  zeros_beyond xs [] h = tt
  zeros_beyond xs ((k, v) ∷ us) h = (ground arith, zeros_beyond xs us (ground arith))

  nothing_left :
      (xs : List A) (us : Updates A)
      → Tracks xs us
      → rebuild_required xs (zeros us) ≡ false
      → (xs ≡ []) × (us ≡ [])
  nothing_left [] [] h q = (refl, refl)
  nothing_left [] (u ∷ us) h q = absurd (ground (arith, (zeros_beyond [] (u ∷ us) q).0))
  nothing_left (f ∷ xs) us h q =
      let (u, m, same) = key_of_count f us (ne_zero_of_is_positive _ (h.counted f (here refl))) in
      let (g, k, lt) =
        any-witness (λ g. p.less_than g u.0) (f ∷ xs) (All-elem _ u us m (zeros_beyond _ us q)) in
      let (le, ne) = (p.less_than_iff g u.0).0 lt in
      absurd (
        ne (
          AllIncomparable-eq (f ∷ xs) g f h.incomparable k (here refl)
            (subst (λ x. p.less_equal g x ≡ true) same le)
          ∙ sym same))

module _ {ℓ} {A : Type ℓ} ⦃e : Eq A⦄ ⦃p : PartialOrder A⦄ ⦃o : Ord A⦄
    (extension : IsExtension A p o) where
  -- Over times whose total order extends the partial one: after `empty` on a tracking collection
  -- without dirty updates, and a batch of `i64` values whose running counts do not overflow, the
  -- frontier holds the minimal ones of the times with a positive count in that batch, and the
  -- returned changes turn the frontier before `empty` into it.
  pub update_iter-empty :
      (m : MutableAntichain A) (us : Updates A)
      → m.dirty ≡ 0
      → IsTracking m
      → InRange us
      → AddsExactly [] us
      → Tracks (update_iter (empty m) us).0.frontier us
        × IsTracking (update_iter (empty m) us).0
        × IsDifference m.frontier (update_iter (empty m) us).1 (update_iter (empty m) us).0.frontier
  unfolding empty
  update_iter-empty m us clean v r x =
      let u =
        update_iter-IsUpdated_of extension (empty m) us (omega (arith, length-zeros m.updates))
          (zeros-InRange m.updates) r v.quiet keeps in
      (
        Tracks-of_counts _ _ us
            (λ t.
              u.counts t
              ∙ count-append t (zeros m.updates) us
              ∙ rw (count-zeros t m.updates) (zero-wrapping_add _ (count-lt t us)))
            u.minimal,
        u.tracking,
        u.difference,
      )
    where
      all_recent : recent (empty m) ≡ zeros m.updates
      all_recent =
          let none_before : length (zeros m.updates) - length m.updates ≡ 0 =
            omega (arith, length-zeros m.updates) in
          rw none_before

      keeps :
          rebuild_required m.frontier (recent (empty m) ++ us) ≡ false
          → Tracks m.frontier (zeros m.updates ++ us)
      keeps q =
          let q' : (rebuild_required m.frontier (zeros m.updates) || rebuild_required m.frontier us)
              ≡ false =
            sym (rebuild_required-append m.frontier (zeros m.updates) us)
            ∙ subst (λ w. rebuild_required m.frontier (w ++ us) ≡ false) all_recent q in
          let (no_frontier, no_updates) =
            nothing_left m.frontier m.updates
              (subst (Tracks m.frontier) (settled_of_clean m clean).0 v.tracks) (ground arith) in
          let fresh : Tracks [] us =
            rebuild_required-Tracks [] [] us nil-Tracks r x
              (subst (λ w. rebuild_required w us ≡ false) no_frontier (ground arith)) in
          subst (λ w. Tracks w (zeros m.updates ++ us)) (sym no_frontier)
            (subst (λ w. Tracks [] (zeros w ++ us)) (sym no_updates) fresh)
