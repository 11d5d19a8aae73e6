-- ===== src/Reachability/Apply.antt =====
-- Applying the buffered changes keeps a tracker balanced and adds them to the pointstamps.
use timely_mirror.Prelude.{
  ℕ, ◌<◌, ◌≡◌, ◌≢◌, refl, sym, subst, ap, ap₂, ◌∙◌, fun_ext, some, List, [], ◌∷◌, All, All-mono,
  length, and_then, arith, Bool-cases, inl, inr,
}
use timely_mirror.Order.{Eq, PartialOrder, Ord, IsExtension, eq_refl}
use timely_mirror.Order.Derived.{tuple_eq, tuple_ord}
use timely_mirror.Int64.{
  wrapping_add, modulus, wrapping_add_assoc, zero-wrapping_add, wrapping_add_comm,
}
use timely_mirror.Updates.{Updates, count}
use timely_mirror.Updates.Counts.{count-lt, count-append, count-cons_other}
use timely_mirror.Updates.Compact.{InRange, IsCompact-AllNonzero, AllNonzero-InRange}
use timely_mirror.Updates.Linear.{pass_on}
use timely_mirror.Timestamp.{PathSummary}
use timely_mirror.ChangeBatch.{ChangeBatch}
use timely_mirror.MutableAntichain.{MutableAntichain, update_iter}
use timely_mirror.MutableAntichain.Update.{IsAccounted, update_iter-IsAccounted}
use timely_mirror.Location.{Location, location_eq, location_ord}
use timely_mirror.Reachability.{PortInformation, Tracker, port_at, set_port}
use timely_mirror.Reachability.Loops.{apply_change, apply_changes}
use timely_mirror.Reachability.Ports.{HasPort}
use timely_mirror.Reachability.Work.{All-pushed_work}
use timely_mirror.Reachability.Shape.{
  pointstamps_in, pointstamps_at, IsComplete-set_port, IsComplete-same, HasPort-set_port,
}
use timely_mirror.Reachability.Balance.{IsBalanced}
use timely_mirror.Reachability.Rounds.{IsAccounted-IsSteady}
use timely_mirror.Reachability.Inputs.{self, report-eq, applied}
use timely_mirror.Reachability.Applied.{
  pointstamps-applied_self, pointstamps-applied_other, applied-Balances, applied-tally,
  applied-Reports,
}

-- The location and time of a change that names its place by a key.
abbrev pub relocate {ℓ μ} : {T : Type ℓ} {K : Type μ} → (K → Location) → K × T → List (Location × T)
relocate location x = (location x.0, x.1) ∷ []

module _ {ℓ} {T : Type ℓ} ⦃e : Eq T⦄ where
  -- The pointstamps' counts with a change at a location.
  abbrev pub with_change : (Location → T → ℕ) → Location → T → ℕ → Location → T → ℕ
  with_change stamped l t d k s =
      wrapping_add (stamped k s) (count {A = Location × T} (k, s) (((l, t), d) ∷ []))

  -- The pointstamps' counts with all of the changes.
  abbrev pub with_changes {μ} :
      {K : Type μ} → (K → Location) → Updates (K × T) → (Location → T → ℕ) → Location → T → ℕ
  with_changes location us stamped k s =
      wrapping_add (stamped k s) (count {A = Location × T} (k, s) (pass_on (relocate location) us))

module _ {κ ℓ} {S : Type κ} {T : Type ℓ} ⦃e : Eq T⦄ ⦃p : PartialOrder T⦄ ⦃o : Ord T⦄
    (extension : IsExtension T p o) (path : PathSummary S T) (ls : List Location)
    (base : Location → List T) where
  -- What one more change leaves of the tracker before it.
  pub record IsApplied (stamped : Location → T → ℕ) (tr new : Tracker S T) : Type (ℓ ⊔ κ) where
    pub balance : IsBalanced path ls base stamped new
    pub ports : (k : Location) → HasPort tr.per_operator k → HasPort new.per_operator k
    pub targets : new.target_changes ≡ tr.target_changes
    pub sources : new.source_changes ≡ tr.source_changes

  count-applied :
      (stamped : Location → T → ℕ) (tr : Tracker S T) (l : Location) (info : PortInformation S T)
      (n : MutableAntichain T) (out : Updates T) (outputs : List (ChangeBatch T)) (t : T) (d : ℕ)
      → port_at tr.per_operator l ≡ some info
      → IsBalanced path ls base stamped tr
      → IsAccounted info.pointstamps ((t, d) ∷ []) n out
      → (s : T) (k : Location)
      → count s (pointstamps_at (applied tr l info n out outputs) k).updates
        ≡ with_change stamped l t d k s
  unfolding count
  count-applied stamped tr l info n out outputs t d h b a s k =
      elim (Bool-cases (location_eq.eq l k)) [
        | inl same ↦
            subst
              (λ x.
                count s (pointstamps_at (applied tr l info n out outputs) x).updates
                ≡ with_change stamped l t d x s)
              ((location_eq.eq_iff l k).0 same)
              (ap (λ (m : MutableAntichain T). count s m.updates)
                  (pointstamps-applied_self path ls tr l info h b.complete n out outputs)
                ∙ a.counts s
                ∙ count-append s info.pointstamps.updates ((t, d) ∷ [])
                ∙ ap₂ wrapping_add
                    (ap (λ x. count s (pointstamps_in x).updates) (sym h) ∙ b.stamps s l)
                    (ground (arith, eq_refl l)))
        | inr other ↦
            let ne : l ≢ k = λ same. ground (arith, (location_eq.eq_iff l k).1 same) in
            ap (λ (m : MutableAntichain T). count s m.updates)
              (pointstamps-applied_other path ls tr l info h b.complete n out outputs k ne)
            ∙ sym (
                ap (wrapping_add (stamped k s)) (
                  count-cons_other {A = Location × T} (k, s) (l, t) d []
                    (λ q. ne (ap (λ (y : Location × T). y.0) q)))
                ∙ wrapping_add_comm _ 0
                ∙ ap (wrapping_add 0) (sym (b.stamps s k))
                ∙ zero-wrapping_add _ (count-lt s (pointstamps_at tr k).updates)
                ∙ refl)
      ]

  applied-IsApplied :
      (stamped : Location → T → ℕ) (tr : Tracker S T) (l : Location) (info : PortInformation S T)
      (n : MutableAntichain T) (out : Updates T) (outputs : List (ChangeBatch T)) (t : T) (d : ℕ)
      → port_at tr.per_operator l ≡ some info
      → IsBalanced path ls base stamped tr
      → IsAccounted info.pointstamps ((t, d) ∷ []) n out
      → length outputs ≡ length tr.output_changes
      → IsApplied (with_change stamped l t d) tr (applied tr l info n out outputs)
  unfolding applied
  applied-IsApplied stamped tr l info n out outputs t d h b a len =
      let st = b.complete.steady l info h in
      let r = AllNonzero-InRange out (IsCompact-AllNonzero out a.compact) in
      let new_info : PortInformation S T = record info { pointstamps = n } in
      let keeps = HasPort-set_port tr.per_operator l new_info info h in
      record {
        balance = record {
          complete =
              IsComplete-same path ls
                (record tr { per_operator = set_port tr.per_operator l new_info })
                (applied tr l info n out outputs) refl len
                (IsComplete-set_port path ls tr l new_info info h
                  (record {
                    implications = st.implications;
                    pointstamps = IsAccounted-IsSteady info.pointstamps n ((t, d) ∷ []) out a;
                  })
                  (b.complete.projected l info h) b.complete);
          placed =
              All-pushed_work _ (self l) out tr.worklist
                (All-mono _ _ out (λ u _. (keeps l (info, h), tt)) r)
                (All-mono _ _ tr.worklist (λ u q. keeps u.0.1 q) b.placed);
          in_range =
              All-pushed_work _ (self l) out tr.worklist (All-mono _ _ out (λ u q. (q, tt)) r)
                b.in_range;
          balanced = applied-Balances path ls tr l info h b.complete n out outputs t d a b.balanced;
          reported =
              applied-Reports path ls tr l info h b.complete n out outputs t d a base b.reported;
          stamps = count-applied stamped tr l info n out outputs t d h b a;
          tally = applied-tally path ls tr l info h b.complete n out outputs t d a b.tally;
        };
        ports = λ k q. keeps k q;
        targets = refl;
        sources = refl;
      }

  apply_change-IsApplied :
      (stamped : Location → T → ℕ) (tr : Tracker S T) (l : Location) (t : T) (d : ℕ)
      → d < modulus
      → HasPort tr.per_operator l
      → IsBalanced path ls base stamped tr
      → (new : Tracker S T) × (apply_change path tr l t d ≡ some new)
        × IsApplied (with_change stamped l t d) tr new
  unfolding apply_change applied
  apply_change-IsApplied stamped tr l t d r (info, h) b =
      let st = (b.complete.steady l info h).pointstamps in
      let (n, out) = update_iter info.pointstamps ((t, d) ∷ []) in
      let (outputs, runs, len) =
        report-eq path
          (record tr {
            per_operator = set_port tr.per_operator l (record info { pointstamps = n });
          })
          l info.output_summaries out (b.complete.projected l info h) in
      (
        applied tr l info n out outputs,
        rw h runs,
        applied-IsApplied stamped tr l info n out outputs t d h b
            (update_iter-IsAccounted extension info.pointstamps ((t, d) ∷ []) st.in_range (r, tt)
              st.quiet)
            len,
      )

  pub apply_changes-IsApplied {μ} :
      {K : Type μ} (location : K → Location) (stamped : Location → T → ℕ) (tr : Tracker S T)
      (us : Updates (K × T))
      → InRange us
      → All (λ u. HasPort tr.per_operator (location u.0.0)) us
      → IsBalanced path ls base stamped tr
      → (new : Tracker S T) × (apply_changes path location tr us ≡ some new)
        × IsApplied (with_changes location us stamped) tr new
  unfolding apply_changes pass_on count wrapping_add
  apply_changes-IsApplied location stamped tr [] r a b = (
    tr,
    refl,
    record {
      balance =
          subst (λ f. IsBalanced path ls base f tr)
            (fun_ext (λ k.
              fun_ext (λ s. omega (arith, b.stamps s k, count-lt s (pointstamps_at tr k).updates))))
            b;
      ports = λ k q. q;
      targets = refl;
      sources = refl;
    },
  )
  apply_changes-IsApplied location stamped tr (((key, t), d) ∷ us) r a b =
      let (mid, runs, first) = apply_change-IsApplied stamped tr (location key) t d r.0 a.0 b in
      let (new, later, rest) =
        apply_changes-IsApplied location (with_change stamped (location key) t d) mid us r.1
          (All-mono _ _ us (λ u q. first.ports (location u.0.0) q) a.1) first.balance in
      (
        new,
        ap (λ x. and_then x (λ next. apply_changes path location next us)) runs ∙ later,
        record {
          balance =
              subst (λ f. IsBalanced path ls base f new)
                (fun_ext (λ k. fun_ext (λ s.
                  wrapping_add_assoc (stamped k s)
                    (count {A = Location × T} (k, s) (((location key, t), d) ∷ []))
                    (count {A = Location × T} (k, s) (pass_on (relocate location) us))
                  ∙ ap (wrapping_add (stamped k s)) (
                      sym (
                        count-append {A = Location × T} (k, s) (((location key, t), d) ∷ [])
                          (pass_on (relocate location) us))))))
                rest.balance;
          ports = λ k q. rest.ports k (first.ports k q);
          targets = rest.targets ∙ first.targets;
          sources = rest.sources ∙ first.sources;
        },
      )
