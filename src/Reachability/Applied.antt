-- ===== src/Reachability/Applied.antt =====
-- What a change of the pointstamps at a location does to the balance.
use timely_mirror.Prelude.{
  ℕ, ◌%◌, ◌≡◌, ◌≢◌, refl, sym, subst, ap, ◌∙◌, fun_ext, some, List, [], ◌∷◌, arith, Bool-cases, inl,
  inr,
}
use timely_mirror.Order.{Eq, PartialOrder, Ord}
use timely_mirror.Order.Derived.{tuple_eq, tuple_ord}
use timely_mirror.Int64.{wrapping_add, modulus}
use timely_mirror.Updates.{Updates, count, each}
use timely_mirror.Updates.Counts.{count-lt}
use timely_mirror.Updates.Compact.{IsCompact-AllNonzero, AllNonzero-InRange}
use timely_mirror.Updates.Linear.{pass_on}
use timely_mirror.Timestamp.{PathSummary}
use timely_mirror.ChangeBatch.{ChangeBatch}
use timely_mirror.MutableAntichain.{MutableAntichain}
use timely_mirror.MutableAntichain.Changes.{occurrences, IsDifference}
use timely_mirror.MutableAntichain.Update.{IsAccounted}
use timely_mirror.Location.{Location, location_eq, location_ord}
use timely_mirror.Reachability.{PortInformation, Tracker, port_at}
use timely_mirror.Reachability.Loops.{successors}
use timely_mirror.Reachability.Ports.{port_at-set_port_self, port_at-set_port_other}
use timely_mirror.Reachability.Outflow.{
  outflow, outflow-change, total_size, one, count-outflow-one, sum_values-one,
}
use timely_mirror.Reachability.Work.{count-pushed_work}
use timely_mirror.Reachability.Shape.{
  implications_in, pointstamps_in, implications_at, pointstamps_at, next, IsComplete, read-set_port,
}
use timely_mirror.Reachability.Balance.{implied, active, Balances, Reports}
use timely_mirror.Reachability.Inputs.{count-self_same, count-self_other, self, applied}

module _ {κ ℓ} {S : Type κ} {T : Type ℓ} ⦃e : Eq T⦄ ⦃p : PartialOrder T⦄ ⦃o : Ord T⦄
    (path : PathSummary S T) where
  module _ (ls : List Location) (tr : Tracker S T) (l : Location) (info : PortInformation S T)
      (h : port_at tr.per_operator l ≡ some info) (c : IsComplete path ls tr)
      (n : MutableAntichain T) (out : Updates T) (outputs : List (ChangeBatch T)) where
    new_info : PortInformation S T
    new_info = record info { pointstamps = n }

    implications-applied :
        (k : Location) → implications_at (applied tr l info n out outputs) k ≡ implications_at tr k
    unfolding applied new_info
    implications-applied k =
        read-set_port tr.per_operator l (record info { pointstamps = n }) info h implications_in
          refl k

    pub pointstamps-applied_self : pointstamps_at (applied tr l info n out outputs) l ≡ n
    unfolding applied
    pointstamps-applied_self =
        ap pointstamps_in
          (port_at-set_port_self tr.per_operator l (record info { pointstamps = n }) info h)

    pub pointstamps-applied_other :
        (k : Location)
        → l ≢ k
        → pointstamps_at (applied tr l info n out outputs) k ≡ pointstamps_at tr k
    unfolding applied
    pointstamps-applied_other k ne =
        ap pointstamps_in
          (port_at-set_port_other tr.per_operator l k (record info { pointstamps = n }) ne)

    implied-applied : implied (applied tr l info n out outputs) ≡ implied tr
    implied-applied =
        fun_ext (λ k. ap (λ (m : MutableAntichain T). m.frontier) (implications-applied k))

    module _ (t : T) (d : ℕ) (a : IsAccounted info.pointstamps ((t, d) ∷ []) n out) where
      IsDifference-applied :
          IsDifference (active tr l) out (active (applied tr l info n out outputs) l)
      IsDifference-applied =
          subst
            (λ x.
              IsDifference (pointstamps_in x).frontier out
                (active (applied tr l info n out outputs) l))
            (sym h)
            (subst
              (λ (m : MutableAntichain T). IsDifference info.pointstamps.frontier out m.frontier)
              (sym pointstamps-applied_self) a.difference)

      -- The entries for the worklist are the difference of the pointstamps.
      active-applied :
          (s : T) (k : Location)
          → occurrences s (active (applied tr l info n out outputs) k)
            ≡ wrapping_add
                (occurrences s (active tr k))
                (count {A = T × Location} (s, k) (pass_on (self l) out))
      unfolding wrapping_add
      active-applied s k = elim (Bool-cases (location_eq.eq l k)) [
        | inl same ↦
            subst
              (λ x.
                occurrences s (active (applied tr l info n out outputs) x)
                ≡ wrapping_add (occurrences s (active tr x))
                    (count {A = T × Location} (s, x) (pass_on (self l) out)))
              ((location_eq.eq_iff l k).0 same)
              (omega (arith, IsDifference-applied s, count-self_same s l out))
        | inr other ↦
            let ne : l ≢ k = λ same. ground (arith, (location_eq.eq_iff l k).1 same) in
            omega (
              arith,
              count-self_other s l k out ne,
              ap (λ (m : MutableAntichain T). occurrences s m.frontier)
                  (pointstamps-applied_other k ne),
              count-lt s (each (active tr k) 1),
            )
      ]

      pub applied-Balances :
          Balances path ls tr tr.worklist
          → Balances path ls
              (applied tr l info n out outputs)
              (applied tr l info n out outputs).worklist
      unfolding wrapping_add applied successors
      applied-Balances b s k = omega (
        arith,
        b s k,
        active-applied s k,
        ap (λ (m : MutableAntichain T). count s m.updates) (implications-applied k),
        ap (λ F. count {A = T × Location} (s, k) (outflow (next path tr) F ls)) implied-applied,
        count-pushed_work (s, k) (self l) out tr.worklist,
      )

      pub applied-tally :
          tr.total_counts ≡ total_size (active tr) ls % modulus
          → (applied tr l info n out outputs).total_counts
            ≡ total_size (active (applied tr l info n out outputs)) ls % modulus
      unfolding applied wrapping_add
      applied-tally q = omega (
        arith,
        q,
        sum_values-one l tr.total_counts out (omega (arith, q)),
        count-outflow-one (active tr) ls,
        count-outflow-one (active (applied tr l info n out outputs)) ls,
        outflow-change one (active tr) (active (applied tr l info n out outputs)) 0 l ls out
            c.distinct (c.listed l (info, h))
            (λ k ne. ap (λ (m : MutableAntichain T). m.frontier) (pointstamps-applied_other k ne))
            (AllNonzero-InRange out (IsCompact-AllNonzero out a.compact)) IsDifference-applied,
      )

      pub applied-Reports :
          (base : Location → List T)
          → Reports base tr
          → Reports base (applied tr l info n out outputs)
      unfolding applied
      applied-Reports base r s k =
          r s k
          ∙ ap (λ (m : MutableAntichain T). occurrences s m.frontier) (sym (implications-applied k))
