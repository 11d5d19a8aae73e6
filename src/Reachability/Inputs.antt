-- ===== src/Reachability/Inputs.antt =====
-- The loops of the first step of `propagate_all`: what they push onto the worklist, project to the
-- scope outputs and add up.
use timely_mirror.Prelude.{
  ℕ, ◌≤◌, ◌≡◌, ◌≢◌, refl, ap, ◌∙◌, some, List, [], ◌∷◌, length, and_then, map_option, arith,
}
use timely_mirror.Order.{Eq, PartialOrder, Ord, eq-eq_of_ne}
use timely_mirror.Order.Derived.{tuple_eq, tuple_ord}
use timely_mirror.Int64.{wrapping_add}
use timely_mirror.Updates.{Updates, count, sort_insert}
use timely_mirror.Updates.Linear.{pass_on}
use timely_mirror.Timestamp.{PathSummary}
use timely_mirror.Antichain.{Antichain}
use timely_mirror.ChangeBatch.{ChangeBatch}
use timely_mirror.MutableAntichain.{MutableAntichain, sum_values}
use timely_mirror.Location.{Location, location_eq, location_ord}
use timely_mirror.Reachability.{PortInformation, Tracker, set_port}
use timely_mirror.Reachability.Loops.{push_all, update_all, results_of, project, report}
use timely_mirror.Reachability.Work.{pushed_work}

-- A time at a location is passed on to the worklist as it is.
abbrev pub self {ℓ} : {T : Type ℓ} → Location → T → List (T × Location)
self l t = (t, l) ∷ []

module _ {ℓ} {T : Type ℓ} ⦃e : Eq T⦄ where
  pub count-self_same :
      (s : T) (l : Location) (us : Updates T)
      → count {A = T × Location} (s, l) (pass_on (self l) us) ≡ count s us
  unfolding count pass_on
  count-self_same s l [] = refl
  count-self_same s l ((t, v) ∷ us) =
      ground (arith, count-self_same s l us, (location_eq.eq_iff l l).1 refl)

  pub count-self_other :
      (s : T) (l k : Location) (us : Updates T)
      → l ≢ k
      → count {A = T × Location} (s, k) (pass_on (self l) us) ≡ 0
  unfolding count pass_on
  count-self_other s l k [] ne = refl
  count-self_other s l k ((t, v) ∷ us) ne =
      ground (arith, count-self_other s l k us ne, eq-eq_of_ne l k ne)

module _ {κ ℓ} {S : Type κ} {T : Type ℓ} ⦃e : Eq T⦄ ⦃o : Ord T⦄ where
  abbrev pub reported_at : Tracker S T → Location → Updates T → List (ChangeBatch T) → Tracker S T
  reported_at tr l us outputs = record tr {
    total_counts = sum_values tr.total_counts us;
    output_changes = outputs;
    worklist = pushed_work (self l) us tr.worklist;
  }

  -- The tracker after a change of the pointstamps at a location.
  unfoldable pub applied :
      Tracker S T
      → Location
      → PortInformation S T
      → MutableAntichain T
      → Updates T
      → List (ChangeBatch T)
      → Tracker S T
  applied tr l info n out outputs =
      reported_at
        (record tr { per_operator = set_port tr.per_operator l (record info { pointstamps = n }) })
        l out outputs

module _ {κ ℓ} {S : Type κ} {T : Type ℓ} ⦃e : Eq T⦄ ⦃p : PartialOrder T⦄ ⦃o : Ord T⦄
    (path : PathSummary S T) where
  -- With a batch for every output, projecting does not panic.
  project-length :
      (outputs : List (ChangeBatch T)) (summaries : List (Antichain S)) (t : T) (d : ℕ)
      → length summaries ≤ length outputs
      → (new : List (ChangeBatch T)) × (project path outputs summaries t d ≡ some new)
        × (length new ≡ length outputs)
  unfolding project
  project-length outputs [] t d h = (outputs, refl, refl)
  project-length [] (x ∷ summaries) t d h = absurd (omega arith)
  project-length (b ∷ outputs) (x ∷ summaries) t d h =
      let (later, runs, len) = project-length outputs summaries t d (omega arith) in
      let first = update_all b (results_of path x.elements t) d in
      (
        first ∷ later,
        ap (map_option (λ (ys : List (ChangeBatch T)). first ∷ ys)) runs,
        omega (arith, len),
      )

  pub report-eq :
      (tr : Tracker S T) (l : Location) (summaries : List (Antichain S)) (us : Updates T)
      → length summaries ≤ length tr.output_changes
      → (outputs : List (ChangeBatch T)) × (report path tr l summaries us
          ≡ some (reported_at tr l us outputs))
        × (length outputs ≡ length tr.output_changes)
  unfolding report sum_values pushed_work push_all
  report-eq tr l summaries [] h = (tr.output_changes, refl, refl)
  report-eq tr l summaries ((t, d) ∷ us) h =
      let (first, runs, len) = project-length tr.output_changes summaries t d h in
      let (outputs, later, len') =
        report-eq
          (record tr {
            total_counts = wrapping_add tr.total_counts d;
            output_changes = first;
            worklist = sort_insert ((t, l), d) tr.worklist;
          })
          l summaries us (omega (arith, h, len)) in
      (
        outputs,
        ap
              (λ x. and_then x (λ found.
                report path
                  (record tr {
                    total_counts = wrapping_add tr.total_counts d;
                    output_changes = found;
                    worklist = sort_insert ((t, l), d) tr.worklist;
                  })
                  l summaries us))
              runs
            ∙ later,
        len' ∙ len,
      )
