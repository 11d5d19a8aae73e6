-- ===== src/Reachability/Propagate.antt =====
-- `propagate_all` as a whole, from the tracker that is allocated on.
use timely_mirror.Prelude.{
  ℕ, ◌≡◌, refl, subst, ap, ◌∙◌, fun_ext, some, List, [], All-mono, and_then, arith,
}
use timely_mirror.Order.{Eq, PartialOrder, Ord, IsExtension}
use timely_mirror.Order.Derived.{tuple_eq, tuple_ord}
use timely_mirror.Int64.{wrapping_add}
use timely_mirror.Updates.{count}
use timely_mirror.Updates.Counts.{count-lt}
use timely_mirror.Updates.Compact.{InRange, IsCompact-AllNonzero, AllNonzero-InRange}
use timely_mirror.Updates.Linear.{pass_on-eq_of_SameCounts}
use timely_mirror.ChangeBatch.Keys.{AllKeys, All-drain}
use timely_mirror.Timestamp.{PathSummary}
use timely_mirror.ChangeBatch.{ChangeBatch, drain, compact_updates}
use timely_mirror.ChangeBatch
use timely_mirror.ChangeBatch.Totals.{total-drain}
use timely_mirror.ChangeBatch.Valid.{IsValid, drain-IsCompact}
use timely_mirror.MutableAntichain.Changes.{occurrences}
use timely_mirror.Location.{
  Location, Source, Target, from_target, from_source, location_eq, location_ord, source_eq,
  source_ord, target_eq, target_ord,
}
use timely_mirror.Reachability.{Tracker}
use timely_mirror.Reachability.Loops.{
  apply_changes, apply_inputs, rounds, propagate_all, successors,
}
use timely_mirror.Reachability.Ports.{HasPort}
use timely_mirror.Reachability.Arrivals.{arrivals}
use timely_mirror.Reachability.Arrivals.Counts.{count-outflow}
use timely_mirror.Reachability.Shape.{implications_at, IsComplete-same}
use timely_mirror.Reachability.Balance.{implied, active, IsBalanced}
use timely_mirror.Reachability.Rounds.{rounds-IsBalanced}
use timely_mirror.Reachability.Apply.{relocate, with_changes, apply_changes-IsApplied}

module _ {ℓ} {A : Type ℓ} ⦃e : Eq A⦄ ⦃o : Ord A⦄ where
  drain-InRange : (b : ChangeBatch A) → IsValid b → InRange (ChangeBatch.drain b).1
  drain-InRange b v = AllNonzero-InRange _ (IsCompact-AllNonzero _ (drain-IsCompact b v))

module _ {κ ℓ} {S : Type κ} {T : Type ℓ} ⦃e : Eq T⦄ ⦃p : PartialOrder T⦄ ⦃o : Ord T⦄ where
  -- The buffered changes are valid batches that name ports of the graph.
  pub record IsReady (tr : Tracker S T) : Type (ℓ ⊔ κ) where
    pub targets : IsValid tr.target_changes
    pub targets_placed : AllKeys (λ x. HasPort tr.per_operator (from_target x.0)) tr.target_changes
    pub sources : IsValid tr.source_changes
    pub sources_placed : AllKeys (λ x. HasPort tr.per_operator (from_source x.0)) tr.source_changes

module _ {κ ℓ} {S : Type κ} {T : Type ℓ} ⦃e : Eq T⦄ where
  -- The pointstamps' counts with all buffered changes.
  abbrev pub with_inputs : Tracker S T → (Location → T → ℕ) → Location → T → ℕ
  with_inputs tr stamped =
      with_changes from_source tr.source_changes.updates
        (with_changes from_target tr.target_changes.updates stamped)

module _ {ℓ} {T : Type ℓ} ⦃e : Eq T⦄ ⦃o : Ord T⦄ where
  -- Draining a batch adds what the batch adds up to.
  with_drained {μ} :
      {K : Type μ} ⦃d : Eq K⦄ ⦃k : Ord K⦄ (location : K → Location) (b : ChangeBatch (K × T))
      (stamped : Location → T → ℕ)
      → IsValid b
      → with_changes location (ChangeBatch.drain b).1 stamped
        ≡ with_changes location b.updates stamped
  with_drained location b stamped v = fun_ext (λ l. fun_ext (λ t. ap (wrapping_add (stamped l t)) (
      pass_on-eq_of_SameCounts (relocate location) (l, t) (ChangeBatch.drain b).1 b.updates
        (drain-InRange b v) (AllNonzero-InRange b.updates v.nonzero) (λ x. total-drain x b))))

module _ {κ ℓ} {S : Type κ} {T : Type ℓ} ⦃e : Eq T⦄ ⦃p : PartialOrder T⦄ ⦃o : Ord T⦄
    (extension : IsExtension T p o) (path : PathSummary S T) (ls : List Location)
    (base : Location → List T) where
  emptied-IsBalanced :
      (stamped : Location → T → ℕ) (tr : Tracker S T) (targets : ChangeBatch (Target × T))
      (sources : ChangeBatch (Source × T))
      → IsBalanced path ls base stamped tr
      → IsBalanced path ls base stamped
          (record tr { target_changes = targets; source_changes = sources })
  unfolding successors
  emptied-IsBalanced stamped tr targets sources b = record {
    complete =
        IsComplete-same path ls tr
          (record tr { target_changes = targets; source_changes = sources }) refl refl b.complete;
    placed = b.placed;
    in_range = b.in_range;
    balanced = b.balanced;
    reported = b.reported;
    stamps = b.stamps;
    tally = b.tally;
  }

  -- Over times whose total order extends the partial one, the first step of `propagate_all` does not
  -- panic on a balanced tracker whose buffered changes are valid batches that name ports. It leaves a
  -- balanced one, in which the pointstamp counts have all buffered changes added, and no change
  -- buffered.
  pub apply_inputs-IsBalanced :
      (stamped : Location → T → ℕ) (tr : Tracker S T)
      → IsBalanced path ls base stamped tr
      → IsReady tr
      → (new : Tracker S T) × (apply_inputs path tr ≡ some new)
        × IsBalanced path ls base (with_inputs tr stamped) new
        × (new.target_changes ≡ ChangeBatch.new)
        × (new.source_changes ≡ ChangeBatch.new)
  unfolding apply_inputs ChangeBatch.drain ChangeBatch.new
  apply_inputs-IsBalanced stamped tr b r =
      let (mid, runs, first) =
        apply_changes-IsApplied extension path ls base from_target stamped
          (record tr { target_changes = ChangeBatch.new }) (ChangeBatch.drain tr.target_changes).1
          (drain-InRange tr.target_changes r.targets)
          (All-drain (λ x. HasPort tr.per_operator (from_target x.0)) tr.target_changes
            r.targets_placed)
          (emptied-IsBalanced stamped tr ChangeBatch.new tr.source_changes b) in
      let (new, later, second) =
        apply_changes-IsApplied extension path ls base from_source
          (with_changes from_target (ChangeBatch.drain tr.target_changes).1 stamped)
          (record mid { source_changes = ChangeBatch.new }) (ChangeBatch.drain tr.source_changes).1
          (drain-InRange tr.source_changes r.sources)
          (All-drain (λ x. HasPort mid.per_operator (from_source x.0)) tr.source_changes
            (All-mono _ _ tr.source_changes.updates (λ u q. first.ports (from_source u.0.0) q)
              r.sources_placed))
          (emptied-IsBalanced _ mid mid.target_changes ChangeBatch.new first.balance) in
      (
        new,
        ap
              (λ x. and_then x (λ found.
                apply_changes path from_source (record found { source_changes = ChangeBatch.new })
                  (ChangeBatch.drain found.source_changes).1))
              runs
            ∙ ap
                (λ b.
                  apply_changes path from_source (record mid { source_changes = ChangeBatch.new })
                    (ChangeBatch.drain b).1)
                first.sources
            ∙ later,
        subst (λ f. IsBalanced path ls base f new)
            (with_drained from_source tr.source_changes _ r.sources
              ∙ ap (with_changes from_source tr.source_changes.updates)
                  (with_drained from_target tr.target_changes stamped r.targets))
            second.balance,
        second.targets ∙ first.targets,
        second.sources,
      )

  -- Over times whose total order extends the partial one, `propagate_all`, cut off after any number
  -- of rounds, does not panic on a balanced tracker whose buffered changes are valid batches that name
  -- ports, and leaves a balanced one in which the pointstamp counts have all buffered changes added.
  pub propagate_all-IsBalanced :
      (n : ℕ) (stamped : Location → T → ℕ) (tr : Tracker S T)
      → IsBalanced path ls base stamped tr
      → IsReady tr
      → (new : Tracker S T) × (propagate_all path n tr ≡ some new)
        × IsBalanced path ls base (with_inputs tr stamped) new
  unfolding propagate_all
  propagate_all-IsBalanced n stamped tr b r =
      let (mid, runs, kept, _, _) = apply_inputs-IsBalanced stamped tr b r in
      let (new, later, still) =
        rounds-IsBalanced extension path ls base (with_inputs tr stamped) n mid kept in
      (new, ap (λ x. and_then x (rounds path n)) runs ∙ later, still)

  -- Over times whose total order extends the partial one: when `propagate_all` has run on a balanced
  -- tracker whose buffered changes are valid batches that name ports, and its worklist is empty, the
  -- count of the implications at every location and time is, modulo 2^64, how often the time is in the
  -- frontier of the pointstamps there, and how often the times in the frontiers of all implications lead
  -- to it: by a summary from an input to an output of one node, or along an edge from an output to an
  -- input.
  pub propagate_all-fixed_point :
      (n : ℕ) (stamped : Location → T → ℕ) (tr new : Tracker S T)
      → IsBalanced path ls base stamped tr
      → IsReady tr
      → propagate_all path n tr ≡ some new
      → new.worklist ≡ []
      → (t : T) (l : Location)
      → count t (implications_at new l).updates
        ≡ wrapping_add
            (occurrences t (active new l))
            (arrivals path new (implied new) ls l.node l.port t)
  unfolding wrapping_add count
  propagate_all-fixed_point n stamped tr new b r runs q t l =
      let (found, ran, kept) = propagate_all-IsBalanced n stamped tr b r in
      let same : found ≡ new = cc (runs, ran) in
      let balance = subst (IsBalanced path ls base (with_inputs tr stamped)) same kept in
      omega (
        arith,
        balance.balanced t l,
        count-outflow path new (implied new) ls l.node l.port t,
        ap (count {A = T × Location} (t, l)) q,
        count-lt t (implications_at new l).updates,
      )
