-- ===== src/MutableAntichain/Refresh.antt =====
-- The parts of `update_iter`: the loop that pushes, and `refresh`, which scans and rebuilds.
use timely_mirror.Prelude.{
  ◌+◌, ◌-◌, ◌≤◌, ◌≡◌, refl, sym, subst, ap, ap₂, ◌∙◌, false, List, [], ◌∷◌, ◌++◌, not, length,
  retain, length-append, take, drop, take-append, drop-append, is_empty_list, if◌then◌else◌,
  All-append, arith, Bool-cases, inl, inr,
}
use mathlib.Core.List.{append_assoc, append-nil}
use timely_mirror.Order.{Eq, PartialOrder, Ord, IsExtension}
use timely_mirror.Int64.{is_positive, minus_one, zero-wrapping_add, wrapping_add_comm}
use timely_mirror.Updates.{Updates, consolidate, count, each}
use timely_mirror.Updates.Counts.{count-lt, count-consolidate}
use timely_mirror.Updates.Compact.{
  InRange, IsCompact, consolidate-IsCompact, IsCompact-AllNonzero, AllNonzero-InRange,
}
use timely_mirror.ChangeBatch.{ChangeBatch}
use timely_mirror.ChangeBatch
use timely_mirror.ChangeBatch.Valid.{IsValid, new-IsValid}
use timely_mirror.MutableAntichain.{
  MutableAntichain, update_dirty, push_updates, rebuild_required, build_frontier, rebuild, refresh,
}
use timely_mirror.MutableAntichain.Frontier.{Tracks, build_frontier-Tracks}
use timely_mirror.MutableAntichain.Changes.{
  occurrences, IsDifference, record_all-IsValid, record_all-IsDifference,
}

module _ {ℓ} {A : Type ℓ} where
  -- The updates that the frontier accounts for, and the dirty ones.
  abbrev pub settled : MutableAntichain A → Updates A
  settled m = take (length m.updates - m.dirty) m.updates

  abbrev pub recent : MutableAntichain A → Updates A
  recent m = drop (length m.updates - m.dirty) m.updates

  unfoldable pub pushed : MutableAntichain A → Updates A → MutableAntichain A
  pushed m us = record m { dirty = m.dirty + length us; updates = m.updates ++ us }

  pub push_updates-eq : (m : MutableAntichain A) (us : Updates A) → push_updates m us ≡ pushed m us
  unfolding push_updates pushed
  push_updates-eq m [] =
      ap₂ (λ d u. record m { dirty = d; updates = u }) (omega arith) (sym (append-nil m.updates))
  push_updates-eq m ((t, v) ∷ us) =
      push_updates-eq (update_dirty m t v) us
      ∙ ap₂ (λ d u. record m { dirty = d; updates = u }) (omega arith)
          (append_assoc m.updates ((t, v) ∷ []) us)

  pub pushed-InRange :
      (m : MutableAntichain A) (us : Updates A)
      → InRange m.updates
      → InRange us
      → InRange (pushed m us).updates
  unfolding pushed
  pushed-InRange m us h k = All-append _ m.updates us h k

  pub pushed-settled :
      (m : MutableAntichain A) (us : Updates A)
      → m.dirty ≤ length m.updates
      → (settled (pushed m us) ≡ settled m) × (recent (pushed m us) ≡ recent m ++ us)
  unfolding pushed
  pushed-settled m us h =
      let k : length (m.updates ++ us) - (m.dirty + length us) ≡ length m.updates - m.dirty =
        omega (arith, length-append m.updates us) in
      (
        rw k (take-append (length m.updates - m.dirty) m.updates us (omega arith)),
        rw k (drop-append (length m.updates - m.dirty) m.updates us (omega arith)),
      )

module _ {ℓ} {A : Type ℓ} ⦃e : Eq A⦄ ⦃p : PartialOrder A⦄ where
  -- Between two calls: the frontier tracks all updates but the dirty ones, and no change of it is
  -- left to report.
  pub record IsTracking (m : MutableAntichain A) : Type ℓ where
    pub within : m.dirty ≤ length m.updates
    pub in_range : InRange m.updates
    pub tracks : Tracks m.frontier (settled m)
    pub quiet : m.changes ≡ ChangeBatch.new

module _ {ℓ} {A : Type ℓ} ⦃e : Eq A⦄ ⦃p : PartialOrder A⦄ ⦃o : Ord A⦄ where
  -- If no rebuild is needed, the old frontier has to be right.
  abbrev pub KeptRight : MutableAntichain A → Type ℓ
  KeptRight m = rebuild_required m.frontier (recent m) ≡ false → Tracks m.frontier m.updates

  -- What is left to do after `refresh`: to drain the changes. The frontier is right under `Q`.
  pub record IsRefreshed (Q : Type ℓ) (m n : MutableAntichain A) : Type ℓ where
    pub clean : n.dirty ≡ 0
    pub in_range : InRange n.updates
    pub tracks : Q → Tracks n.frontier n.updates
    pub counts : (t : A) → count t n.updates ≡ count t m.updates
    pub valid : IsValid n.changes
    pub difference : IsDifference m.frontier n.changes.updates n.frontier

module _ {ℓ} {A : Type ℓ} ⦃e : Eq A⦄ ⦃p : PartialOrder A⦄ ⦃o : Ord A⦄
    (extension : IsExtension A p o) where
  rebuilt_updates : Updates A → Updates A
  rebuilt_updates us = if not (is_empty_list us) then consolidate us else us

  rebuilt_frontier : Updates A → List A
  unfolding rebuilt_updates
  rebuilt_frontier us = build_frontier [] (retain (λ u. is_positive u.1) (rebuilt_updates us))

  rebuilt_updates-IsCompact : (us : Updates A) → InRange us → IsCompact (rebuilt_updates us)
  unfolding rebuilt_updates
  rebuilt_updates-IsCompact [] r = tt
  rebuilt_updates-IsCompact (u ∷ us) r = consolidate-IsCompact (u ∷ us) r

  count-rebuilt_updates : (t : A) (us : Updates A) → count t (rebuilt_updates us) ≡ count t us
  unfolding rebuilt_updates
  count-rebuilt_updates t [] = refl
  count-rebuilt_updates t (u ∷ us) = count-consolidate t (u ∷ us)

  -- The changes of a quiet collection.
  quiet-IsValid : (b : ChangeBatch A) → b ≡ ChangeBatch.new → IsValid b
  quiet-IsValid b q = subst (λ x. IsValid x) (sym q) new-IsValid

  quiet_total : (b : ChangeBatch A) → b ≡ ChangeBatch.new → (t : A) → count t b.updates ≡ 0
  unfolding ChangeBatch.new count
  quiet_total b q t = ap (λ (x : ChangeBatch A). count t x.updates) q

  rebuild-IsRefreshed :
      (Q : Type ℓ) (m : MutableAntichain A)
      → m.dirty ≡ 0
      → InRange m.updates
      → m.changes ≡ ChangeBatch.new
      → IsRefreshed Q m (rebuild m)
  unfolding rebuild rebuilt_frontier
  rebuild-IsRefreshed Q m d r q =
      let c = rebuilt_updates-IsCompact m.updates r in
      record {
        clean = d;
        in_range = AllNonzero-InRange _ (IsCompact-AllNonzero _ c);
        tracks = λ _. build_frontier-Tracks extension _ c;
        counts = λ t. count-rebuilt_updates t m.updates;
        valid = record_all-IsValid _ (rebuilt_frontier m.updates) 1 (omega arith) (omega arith) (
            record_all-IsValid m.changes m.frontier minus_one (omega arith) (omega arith)
              (quiet-IsValid m.changes q));
        difference =
            record_all-IsDifference m.changes m.frontier (rebuilt_frontier m.updates)
              (quiet_total m.changes q);
      }

  pub refresh-IsRefreshed :
      (Q : Type ℓ) (m : MutableAntichain A)
      → InRange m.updates
      → m.changes ≡ ChangeBatch.new
      → (Q → KeptRight m)
      → IsRefreshed Q m (refresh m)
  unfolding refresh
  refresh-IsRefreshed Q m r q keeps = elim (Bool-cases (rebuild_required m.frontier (recent m))) [
    | inl needed ↦ rw needed (again (rebuild-IsRefreshed Q (record m { dirty = 0 }) refl r q))
    | inr unneeded ↦ rw unneeded (record {
      clean = refl;
      in_range = r;
      tracks = λ k. keeps k unneeded;
      counts = λ t. refl;
      valid = quiet-IsValid m.changes q;
      difference = λ t. rw (quiet_total m.changes q t) (
          wrapping_add_comm (occurrences t m.frontier) 0
          ∙ zero-wrapping_add _ (count-lt t (each m.frontier 1)));
    })
  ]
    where
      again :
          {n : MutableAntichain A} → IsRefreshed Q (record m { dirty = 0 }) n → IsRefreshed Q m n
      again f = record {
        clean = f.clean;
        in_range = f.in_range;
        tracks = f.tracks;
        counts = f.counts;
        valid = f.valid;
        difference = f.difference;
      }
