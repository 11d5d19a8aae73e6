-- ===== src/MutableAntichain/Update.antt =====
-- `update_iter` keeps the frontier: it holds the minimal times with a positive count, and the call
-- reports how it changed.
use timely_mirror.Prelude.{
  ◌-◌, ◌≤◌, ◌≡◌, refl, sym, subst, ap, ◌∙◌, false, ◌++◌, length, take-append-drop, take_of_le,
  All-drop, All-append, arith,
}
use mathlib.Core.List.{append_assoc}
use timely_mirror.Order.{Eq, PartialOrder, Ord, IsExtension}
use timely_mirror.Int64.{wrapping_add}
use timely_mirror.Updates.{Updates, count}
use timely_mirror.Updates.Compact.{InRange, IsCompact}
use timely_mirror.ChangeBatch.{ChangeBatch}
use timely_mirror.ChangeBatch
use timely_mirror.ChangeBatch.Totals.{total-drain}
use timely_mirror.ChangeBatch.Valid.{drain-IsCompact}
use timely_mirror.MutableAntichain.{MutableAntichain, rebuild_required, refresh, update_iter}
use timely_mirror.MutableAntichain.Frontier.{Tracks}
use timely_mirror.MutableAntichain.Scan.{AddsExactly, rebuild_required-Tracks}
use timely_mirror.MutableAntichain.Changes.{occurrences, IsDifference}
use timely_mirror.MutableAntichain.Refresh.{
  settled, recent, pushed, push_updates-eq, pushed-InRange, pushed-settled, IsTracking, IsRefreshed,
  KeptRight, refresh-IsRefreshed,
}

module _ {ℓ} {A : Type ℓ} ⦃e : Eq A⦄ ⦃p : PartialOrder A⦄ ⦃o : Ord A⦄ where
  -- What a call of `update_iter` does to the counts and reports of the frontier, whether the frontier
  -- was right or not.
  pub record IsAccounted (m : MutableAntichain A) (us : Updates A) (n : MutableAntichain A)
      (out : Updates A) : Type ℓ where
    pub clean : n.dirty ≡ 0
    pub in_range : InRange n.updates
    pub quiet : n.changes ≡ ChangeBatch.new
    pub counts : (t : A) → count t n.updates ≡ count t (m.updates ++ us)
    pub compact : IsCompact out
    pub difference : IsDifference m.frontier out n.frontier

  -- `m` before the call of `update_iter` with `us`, and what the call returns.
  pub record IsUpdated (m : MutableAntichain A) (us : Updates A) (n : MutableAntichain A)
      (out : Updates A) : Type ℓ where
    pub clean : n.dirty ≡ 0
    pub tracking : IsTracking n
    pub minimal : Tracks n.frontier n.updates
    pub counts : (t : A) → count t n.updates ≡ count t (m.updates ++ us)
    pub compact : IsCompact out
    pub difference : IsDifference m.frontier out n.frontier

module _ {ℓ} {A : Type ℓ} ⦃e : Eq A⦄ ⦃p : PartialOrder A⦄ ⦃o : Ord A⦄
    (extension : IsExtension A p o) where
  drained-IsAccounted :
      (m n : MutableAntichain A) (us : Updates A) (Q : Type ℓ)
      → IsRefreshed Q (pushed m us) n
      → IsAccounted m us
          (record n { changes = (ChangeBatch.drain n.changes).0 })
          (ChangeBatch.drain n.changes).1
  unfolding pushed ChangeBatch.drain ChangeBatch.new
  drained-IsAccounted m n us Q f = record {
    clean = f.clean;
    in_range = f.in_range;
    quiet = refl;
    counts = f.counts;
    compact = drain-IsCompact n.changes f.valid;
    difference = λ t.
        ap (wrapping_add (occurrences t m.frontier)) (total-drain t n.changes) ∙ f.difference t;
  }

  -- Over times whose total order extends the partial one, whether or not running counts overflow and
  -- the frontier was right: on `i64` values and with no change left to report, the call keeps the
  -- counts of all updates modulo 2^64, leaves no dirty update and no change to report, and returns
  -- compact changes that turn the old frontier into the new one.
  pub update_iter-IsAccounted :
      (m : MutableAntichain A) (us : Updates A)
      → InRange m.updates
      → InRange us
      → m.changes ≡ ChangeBatch.new
      → IsAccounted m us (update_iter m us).0 (update_iter m us).1
  unfolding update_iter pushed
  update_iter-IsAccounted m us r r' q = rw (push_updates-eq m us) (
      drained-IsAccounted m (refresh (pushed m us)) us (KeptRight (pushed m us)) (
        refresh-IsRefreshed extension (KeptRight (pushed m us)) (pushed m us)
          (pushed-InRange m us r r') q (λ k. k)))

  update_iter-minimal :
      (m : MutableAntichain A) (us : Updates A)
      → m.dirty ≤ length m.updates
      → InRange m.updates
      → InRange us
      → m.changes ≡ ChangeBatch.new
      → (rebuild_required m.frontier (recent m ++ us) ≡ false → Tracks m.frontier (m.updates ++ us))
      → Tracks (update_iter m us).0.frontier (update_iter m us).0.updates
  unfolding update_iter pushed
  update_iter-minimal m us w r r' q keeps = rw (push_updates-eq m us) (
      (refresh-IsRefreshed extension (KeptRight (pushed m us)) (pushed m us)
          (pushed-InRange m us r r') q (λ k. k)).tracks
        (subst (λ d. rebuild_required m.frontier d ≡ false → Tracks m.frontier (m.updates ++ us))
          (sym (pushed-settled m us w).1) keeps))

  -- The same, for a collection whose frontier is right once no rebuild is needed.
  pub update_iter-IsUpdated_of :
      (m : MutableAntichain A) (us : Updates A)
      → m.dirty ≤ length m.updates
      → InRange m.updates
      → InRange us
      → m.changes ≡ ChangeBatch.new
      → (rebuild_required m.frontier (recent m ++ us) ≡ false → Tracks m.frontier (m.updates ++ us))
      → IsUpdated m us (update_iter m us).0 (update_iter m us).1
  update_iter-IsUpdated_of m us w r r' q keeps =
      let a = update_iter-IsAccounted m us r r' q in
      let h = update_iter-minimal m us w r r' q keeps in
      let n = (update_iter m us).0 in
      record {
        clean = a.clean;
        tracking = record {
          within = omega (arith, a.clean);
          in_range = a.in_range;
          tracks =
              subst (Tracks n.frontier)
                (sym (take_of_le (length n.updates - n.dirty) n.updates (omega (arith, a.clean))))
                h;
          quiet = a.quiet;
        };
        minimal = h;
        counts = a.counts;
        compact = a.compact;
        difference = a.difference;
      }

  -- Over times whose total order extends the partial one: after `update_iter` on a tracking
  -- collection, with `i64` values whose running counts do not overflow, the frontier holds the
  -- minimal ones of the times with a positive count, the counts are those of all updates, and the
  -- returned changes turn the old frontier into the new.
  pub update_iter-IsUpdated :
      (m : MutableAntichain A) (us : Updates A)
      → IsTracking m
      → InRange us
      → AddsExactly (settled m) (recent m ++ us)
      → IsUpdated m us (update_iter m us).0 (update_iter m us).1
  update_iter-IsUpdated m us v r x =
      update_iter-IsUpdated_of m us v.within v.in_range r v.quiet λ unneeded.
        subst (Tracks m.frontier)
          (sym (append_assoc (settled m) (recent m) us)
            ∙ ap (λ w. w ++ us) (take-append-drop (length m.updates - m.dirty) m.updates))
          (rebuild_required-Tracks m.frontier (settled m) (recent m ++ us) v.tracks
            (All-append _ (recent m) us
              (All-drop _ (length m.updates - m.dirty) m.updates v.in_range) r)
            x unneeded)
