-- ===== src/MutableAntichain/History.antt =====
-- A `MutableAntichain` over a history of calls: how it starts, and what any sequence of batches and
-- of `empty` leaves.
use timely_mirror.Prelude.{
  ◌-◌, ◌≡◌, refl, sym, subst, ap, ◌∙◌, true, List, [], ◌∷◌, ◌++◌, length, take_of_le, drop_of_le,
  All, Memᴰ, here, there, any, arith, Bool-cases, inl, inr,
}
use mathlib.Core.List.{append_assoc, append-nil, flatten}
use timely_mirror.Order.{Eq, PartialOrder, Ord, IsExtension, eq_refl}
use timely_mirror.Int64.{wrapping_add, is_positive, NoOverflow}
use timely_mirror.Updates.{Updates, count}
use timely_mirror.Updates.Counts.{count-append}
use timely_mirror.Updates.Compact.{InRange}
use timely_mirror.MutableAntichain.{MutableAntichain, new, new_bottom, update_iter}
use timely_mirror.MutableAntichain.Frontier.{Tracks, Tracks-of_counts}
use timely_mirror.MutableAntichain.Scan.{AddsExactly}
use timely_mirror.MutableAntichain.Update.{update_iter-IsUpdated}
use timely_mirror.MutableAntichain.Refresh.{IsTracking, settled, recent}

not_positive_zero : is_positive 0 ≡ true → ⊥
unfolding is_positive
not_positive_zero h = ground arith

positive_one : is_positive (wrapping_add 1 0) ≡ true
unfolding is_positive wrapping_add
positive_one = refl

module _ {ℓ} {A : Type ℓ} ⦃e : Eq A⦄ ⦃p : PartialOrder A⦄ where
  pub nil-Tracks : Tracks {A = A} [] []
  unfolding count
  nil-Tracks = record {
    incomparable = tt;
    counted = λ f m. elim m [ ];
    covers = λ t h. absurd (not_positive_zero h);
  }

  pub new-IsTracking : IsTracking {A = A} new
  unfolding new
  new-IsTracking = record { within = omega arith; in_range = tt; tracks = nil-Tracks; quiet = refl }

  pub new_bottom-IsTracking : (bottom : A) → IsTracking (new_bottom bottom)
  unfolding new_bottom count
  new_bottom-IsTracking bottom = record {
    within = omega arith;
    in_range = (omega arith, tt);
    tracks = record {
      incomparable = (tt, tt);
      counted = λ f m. counted f m;
      covers = λ t h. elim (Bool-cases (e.eq bottom t)) [
        | inl same ↦
            subst (λ x. any (λ f. p.less_equal f x) (bottom ∷ []) ≡ true)
              ((e.eq_iff bottom t).0 same) (ground (arith, p.less_equal_refl bottom))
        | inr other ↦ absurd (not_positive_zero (rw other at h))
      ];
    };
    quiet = refl;
  }
    where
      counted : (f : A) → Memᴰ f (bottom ∷ []) → is_positive (count f ((bottom, 1) ∷ [])) ≡ true
      counted f (here same) = rw (same, eq_refl bottom) positive_one
      counted f (there m) = elim m [ ]

  -- Only the counts of the first sequence matter to whether the second adds exactly.
  pub AddsExactly-of_counts :
      (us vs ds : Updates A)
      → ((t : A) → count t us ≡ count t vs)
      → AddsExactly us ds
      → AddsExactly vs ds
  AddsExactly-of_counts us vs [] same x = tt
  AddsExactly-of_counts us vs (d ∷ ds) same x = (
    subst (λ n. NoOverflow n d.1) (same d.0) x.0,
    AddsExactly-of_counts (us ++ d ∷ []) (vs ++ d ∷ []) ds
        (λ t.
          count-append t us (d ∷ [])
          ∙ ap (λ n. wrapping_add n (count t (d ∷ []))) (same t)
          ∙ sym (count-append t vs (d ∷ [])))
        x.1,
  )

  AddsExactly-append :
      (us ds es : Updates A)
      → AddsExactly us (ds ++ es)
      → AddsExactly us ds × AddsExactly (us ++ ds) es
  AddsExactly-append us [] es x = (tt, subst (λ w. AddsExactly w es) (sym (append-nil us)) x)
  AddsExactly-append us (d ∷ ds) es x =
      let (y, z) = AddsExactly-append (us ++ d ∷ []) ds es x.1 in
      ((x.0, y), subst (λ w. AddsExactly w es) (append_assoc us (d ∷ []) ds) z)

module _ {ℓ} {A : Type ℓ} ⦃e : Eq A⦄ ⦃p : PartialOrder A⦄ ⦃o : Ord A⦄ where
  -- Calls of `update_iter` one after another.
  pub run : MutableAntichain A → List (Updates A) → MutableAntichain A
  run m [] = m
  run m (us ∷ batches) = run (update_iter m us).0 batches

  -- Between the calls no update is dirty.
  pub settled_of_clean :
      (m : MutableAntichain A) → m.dirty ≡ 0 → (settled m ≡ m.updates) × (recent m ≡ [])
  settled_of_clean m clean = (
    take_of_le (length m.updates - m.dirty) m.updates (omega arith),
    drop_of_le (length m.updates - m.dirty) m.updates (omega arith),
  )

  module _ (extension : IsExtension A p o) where
    run-Tracks_from :
        (m : MutableAntichain A) (batches : List (Updates A))
        → m.dirty ≡ 0
        → IsTracking m
        → All InRange batches
        → AddsExactly m.updates (flatten batches)
        → Tracks (run m batches).frontier (m.updates ++ flatten batches)
    unfolding run flatten
    run-Tracks_from m [] clean v r x =
        subst (Tracks m.frontier) ((settled_of_clean m clean).0 ∙ sym (append-nil m.updates))
          v.tracks
    run-Tracks_from m (us ∷ batches) clean v r x =
        let (first, later) = AddsExactly-append m.updates us (flatten batches) x in
        let (done, none_dirty) = settled_of_clean m clean in
        let x' : AddsExactly (settled m) (recent m ++ us) =
          subst (λ w. AddsExactly w (recent m ++ us)) (sym done)
            (subst (λ w. AddsExactly m.updates (w ++ us)) (sym none_dirty) first) in
        let u = update_iter-IsUpdated extension m us v r.0 x' in
        Tracks-of_counts _ ((update_iter m us).0.updates ++ flatten batches) _
          (λ t.
            count-append t (update_iter m us).0.updates (flatten batches)
            ∙ ap (λ n. wrapping_add n (count t (flatten batches))) (u.counts t)
            ∙ sym (count-append t (m.updates ++ us) (flatten batches))
            ∙ ap (count t) (append_assoc m.updates us (flatten batches)))
          (run-Tracks_from (update_iter m us).0 batches u.clean u.tracking r.1 (
            AddsExactly-of_counts (m.updates ++ us) (update_iter m us).0.updates (flatten batches)
              (λ t. sym (u.counts t)) later))

    -- Over times whose total order extends the partial one: after any history of batches of `i64`
    -- values whose running counts do not overflow, the frontier holds the minimal ones of the times
    -- with a positive count in all of the history.
    pub run-Tracks :
        (batches : List (Updates A))
        → All InRange batches
        → AddsExactly [] (flatten batches)
        → Tracks (run new batches).frontier (flatten batches)
    unfolding new
    run-Tracks batches r x = run-Tracks_from new batches refl new-IsTracking r x
