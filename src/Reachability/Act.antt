-- ===== src/Reachability/Act.antt =====
-- What a change of the implications at a location, and its passing on, does to the balance.
use timely_mirror.Prelude.{
  ℕ, ◌≡◌, ◌≢◌, refl, sym, subst, ap, ap₂, ◌∙◌, some, List, [], ◌∷◌, and_then, arith, Bool-cases,
  inl, inr,
}
use timely_mirror.Order.{Eq, PartialOrder, Ord}
use timely_mirror.Order.Derived.{tuple_eq, tuple_ord}
use timely_mirror.Int64.{wrapping_add, zero-wrapping_add, wrapping_add_comm}
use timely_mirror.Updates.{Updates, count}
use timely_mirror.Updates.Counts.{count-lt, count-append}
use timely_mirror.Updates.Compact.{IsCompact-AllNonzero, AllNonzero-InRange}
use timely_mirror.Updates.Linear.{pass_on}
use timely_mirror.Timestamp.{PathSummary}
use timely_mirror.ChangeBatch
use timely_mirror.MutableAntichain.{MutableAntichain, update_iter}
use timely_mirror.MutableAntichain.Changes.{occurrences, IsDifference}
use timely_mirror.MutableAntichain.Update.{IsAccounted}
use timely_mirror.Location.{Location, location_eq, location_ord}
use timely_mirror.Reachability.{PortInformation, Tracker, port_at, set_port}
use timely_mirror.Reachability.Loops.{successors, push_all, push_changes, act}
use timely_mirror.Reachability.Ports.{port_at-set_port_self, port_at-set_port_other}
use timely_mirror.Reachability.Outflow.{outflow, outflow-change}
use timely_mirror.Reachability.Work.{
  count-pending_same, count-pending_other, pushed_work, reported_changes, count-pushed_work,
  total-reported_same, total-reported_other,
}
use timely_mirror.Reachability.Shape.{
  implications_in, pointstamps_in, implications_at, pointstamps_at, next, IsComplete, read-set_port,
}
use timely_mirror.Reachability.Balance.{implied, Reports, Balances}

module _ {κ ℓ} {S : Type κ} {T : Type ℓ} ⦃e : Eq T⦄ ⦃p : PartialOrder T⦄ ⦃o : Ord T⦄
    (path : PathSummary S T) where
  pub push_changes-eq :
      (tr : Tracker S T) (l : Location) (us : Updates T)
      → ((t : T) → successors path tr l t ≡ some (next path tr l t))
      → push_changes path tr l us
        ≡ some (record tr {
          worklist = pushed_work (next path tr l) us tr.worklist;
          pushed_changes = reported_changes l us tr.pushed_changes;
        })
  unfolding push_changes pushed_work reported_changes successors
  push_changes-eq tr l [] h = refl
  push_changes-eq tr l ((t, d) ∷ us) h =
      ap
        (λ x. and_then x (λ found.
          push_changes path
            (record tr {
              worklist = push_all found d tr.worklist;
              pushed_changes = ChangeBatch.update tr.pushed_changes (l, t) d;
            })
            l us))
        (h t)
      ∙ push_changes-eq
          (record tr {
            worklist = push_all (next path tr l t) d tr.worklist;
            pushed_changes = ChangeBatch.update tr.pushed_changes (l, t) d;
          })
          l us h

  -- The tracker after a change of the implications at a location.
  unfoldable pub acted :
      Tracker S T → Location → PortInformation S T → MutableAntichain T → Updates T → Tracker S T
  acted tr l info n out = record tr {
    per_operator = set_port tr.per_operator l (record info { implications = n });
    worklist = pushed_work (next path tr l) out tr.worklist;
    pushed_changes = reported_changes l out tr.pushed_changes;
  }

  module _ (ls : List Location) (tr : Tracker S T) (l : Location) (info : PortInformation S T)
      (h : port_at tr.per_operator l ≡ some info) (c : IsComplete path ls tr) where
    pub act-eq :
        (t : T) (d : ℕ)
        → act path tr l t d
          ≡ some (
              acted tr l info
                (update_iter info.implications ((t, d) ∷ [])).0
                (update_iter info.implications ((t, d) ∷ [])).1)
    unfolding act acted successors
    act-eq t d = rw h (
        push_changes-eq
          (record tr {
            per_operator =
                set_port tr.per_operator l
                  (record info { implications = (update_iter info.implications ((t, d) ∷ [])).0 });
          })
          l (update_iter info.implications ((t, d) ∷ [])).1 (c.connected l (info, h)))

    module _ (n : MutableAntichain T) (out : Updates T) where
      implications-acted_self : implications_at (acted tr l info n out) l ≡ n
      unfolding acted
      implications-acted_self =
          ap implications_in
            (port_at-set_port_self tr.per_operator l (record info { implications = n }) info h)

      implications-acted_other :
          (k : Location) → l ≢ k → implications_at (acted tr l info n out) k ≡ implications_at tr k
      unfolding acted
      implications-acted_other k ne =
          ap implications_in
            (port_at-set_port_other tr.per_operator l k (record info { implications = n }) ne)

      pub pointstamps-acted :
          (k : Location) → pointstamps_at (acted tr l info n out) k ≡ pointstamps_at tr k
      unfolding acted
      pointstamps-acted k =
          read-set_port tr.per_operator l (record info { implications = n }) info h pointstamps_in
            refl k

      module _ (t : T) (d : ℕ) (a : IsAccounted info.implications ((t, d) ∷ []) n out) where
        -- The counts take up the pending entry.
        count-acted :
            (s : T) (k : Location)
            → count s (implications_at (acted tr l info n out) k).updates
              ≡ wrapping_add
                  (count s (implications_at tr k).updates)
                  (count {A = T × Location} (s, k) (((t, l), d) ∷ []))
        count-acted s k = elim (Bool-cases (location_eq.eq l k)) [
          | inl same ↦
              subst
                (λ x.
                  count s (implications_at (acted tr l info n out) x).updates
                  ≡ wrapping_add (count s (implications_at tr x).updates)
                      (count {A = T × Location} (s, x) (((t, l), d) ∷ [])))
                ((location_eq.eq_iff l k).0 same)
                (ap (λ (m : MutableAntichain T). count s m.updates) implications-acted_self
                  ∙ a.counts s
                  ∙ count-append s info.implications.updates ((t, d) ∷ [])
                  ∙ ap₂ wrapping_add (ap (λ x. count s (implications_in x).updates) (sym h))
                      (sym (count-pending_same s t l d)))
          | inr other ↦
              let ne : l ≢ k = λ same. ground (arith, (location_eq.eq_iff l k).1 same) in
              ap (λ (m : MutableAntichain T). count s m.updates) (implications-acted_other k ne)
              ∙ sym (
                  ap (wrapping_add (count s (implications_at tr k).updates))
                    (count-pending_other s t l k d ne)
                  ∙ wrapping_add_comm _ 0
                  ∙ zero-wrapping_add _ (count-lt s (implications_at tr k).updates))
        ]

        IsDifference-acted : IsDifference (implied tr l) out (implied (acted tr l info n out) l)
        IsDifference-acted =
            subst
              (λ x.
                IsDifference (implications_in x).frontier out (implied (acted tr l info n out) l))
              (sym h)
              (subst
                (λ (m : MutableAntichain T). IsDifference info.implications.frontier out m.frontier)
                (sym implications-acted_self) a.difference)

        outflow-acted :
            (y : T × Location)
            → count y
                (outflow (next path (acted tr l info n out)) (implied (acted tr l info n out)) ls)
              ≡ wrapping_add
                  (count y (outflow (next path tr) (implied tr) ls))
                  (count y (pass_on (next path tr l) out))
        unfolding acted successors
        outflow-acted y =
            outflow-change (next path tr) (implied tr) (implied (acted tr l info n out)) y l ls out
              c.distinct (c.listed l (info, h))
              (λ k ne. ap (λ (m : MutableAntichain T). m.frontier) (implications-acted_other k ne))
              (AllNonzero-InRange out (IsCompact-AllNonzero out a.compact)) IsDifference-acted

        work-acted :
            (y : T × Location)
            → count y (acted tr l info n out).worklist
              ≡ wrapping_add (count y (pass_on (next path tr l) out)) (count y tr.worklist)
        unfolding acted
        work-acted y = count-pushed_work y (next path tr l) out tr.worklist

        pub acted-Balances :
            Balances path ls tr (((t, l), d) ∷ tr.worklist)
            → Balances path ls (acted tr l info n out) (acted tr l info n out).worklist
        unfolding wrapping_add
        acted-Balances b s k = omega (
          arith,
          b s k,
          count-acted s k,
          outflow-acted (s, k),
          work-acted (s, k),
          count-append {A = T × Location} (s, k) (((t, l), d) ∷ []) tr.worklist,
          ap (λ (m : MutableAntichain T). occurrences s m.frontier) (pointstamps-acted k),
        )

        pub acted-Reports :
            (base : Location → List T) → Reports base tr → Reports base (acted tr l info n out)
        unfolding acted wrapping_add
        acted-Reports base r s k = elim (Bool-cases (location_eq.eq l k)) [
          | inl same ↦
              subst
                (λ x.
                  wrapping_add (occurrences s (base x))
                    (count (x, s) (acted tr l info n out).pushed_changes.updates)
                  ≡ occurrences s (implied (acted tr l info n out) x))
                ((location_eq.eq_iff l k).0 same)
                (omega (
                  arith,
                  r s l,
                  total-reported_same s l out tr.pushed_changes,
                  IsDifference-acted s,
                ))
          | inr other ↦
              let ne : l ≢ k = λ same. ground (arith, (location_eq.eq_iff l k).1 same) in
              omega (
                arith,
                r s k,
                total-reported_other s l k out tr.pushed_changes ne,
                ap (λ (m : MutableAntichain T). occurrences s m.frontier)
                    (implications-acted_other k ne),
              )
        ]
