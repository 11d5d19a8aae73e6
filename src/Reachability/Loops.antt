-- ===== src/Reachability/Loops.antt =====
-- The loops of `Tracker::propagate_all`, timely/src/progress/reachability.rs.
use timely_mirror.Prelude.{
  ℕ, zero, suc, Option, none, some, List, [], ◌∷◌, ◌++◌, ◌&&◌, if◌then◌else◌, ◌==◌, map, get_elem?,
  and_then, map_option,
}
use timely_mirror.Order.{Eq, PartialOrder, Ord, nat_eq, nat_ord}
use timely_mirror.Order.Derived.{tuple_eq, tuple_ord}
use timely_mirror.Int64.{wrapping_add}
use timely_mirror.Updates.{Updates, sort_insert}
use timely_mirror.Timestamp.{PathSummary}
use timely_mirror.ChangeBatch.{ChangeBatch}
use timely_mirror.ChangeBatch
use timely_mirror.Antichain.{Antichain}
use timely_mirror.MutableAntichain.{update_iter}
use timely_mirror.Location.{
  Port, target, source, Location, Target, new_source, from_target, from_source, location_eq,
  location_ord, source_eq, source_ord, target_eq, target_ord,
}
use timely_mirror.Reachability.{Worklist, Tracker, port_at, set_port}

module _ {ℓ} {T : Type ℓ} where
  abbrev pub edge_successors : List Target → T → List (T × Location)
  edge_successors targets time = map (λ new_target. (time, from_target new_target)) targets

module _ {ℓ} {T : Type ℓ} ⦃e : Eq T⦄ ⦃o : Ord T⦄ where
  -- `worklist.push` for each of the entries, with one `diff`.
  unfoldable pub push_all : List (T × Location) → ℕ → Worklist T → Worklist T
  push_all [] diff worklist = worklist
  push_all (entry ∷ rest) diff worklist = push_all rest diff (sort_insert (entry, diff) worklist)

  -- The `while` loop over the entries with the same time and location.
  unfoldable pub gather : T → Location → ℕ → Worklist T → ℕ × Worklist T
  gather time location diff [] = (diff, [])
  gather time location diff (((t, l), d) ∷ rest) =
      let more = gather time location (wrapping_add diff d) rest in
      if e.eq t time && location_eq.eq l location then more else (diff, ((t, l), d) ∷ rest)

  -- `output_changes.update(out_time, diff)` for the times.
  unfoldable pub update_all : ChangeBatch T → List T → ℕ → ChangeBatch T
  update_all batch [] diff = batch
  update_all batch (out_time ∷ rest) diff =
      update_all (ChangeBatch.update batch out_time diff) rest diff

module _ {κ ℓ} {S : Type κ} {T : Type ℓ} (path : PathSummary S T) where
  -- `summaries.iter().flat_map(|s| s.results_in(time))`.
  unfoldable pub results_of : List S → T → List T
  results_of [] time = []
  results_of (summary ∷ rest) time = elim (path.results_in summary time) [
    | none ↦ results_of rest time
    | some out_time ↦ out_time ∷ results_of rest time
  ]

  -- The loops over the output ports and their summaries, from the port with the given index.
  unfoldable pub node_successors : ℕ → ℕ → List (Antichain S) → T → List (T × Location)
  unfolding results_of
  node_successors node output_port [] time = []
  node_successors node output_port (summaries ∷ rest) time =
      map (λ new_time. (new_time, new_source node output_port)) (results_of summaries.elements time)
      ++ node_successors node (suc output_port) rest time

  -- Where a change at a port arrives next: across the operator, or along the edges.
  abbrev pub port_successors :
      List (List (List (Antichain S)))
      → List (List (List Target))
      → ℕ
      → Port
      → T
      → Option (List (T × Location))
  port_successors nodes edges node (target port) time =
      map_option (λ outputs. node_successors node 0 outputs time)
        (and_then (get_elem? nodes node) (λ inputs. get_elem? inputs port))
  port_successors nodes edges node (source port) time =
      map_option (λ targets. edge_successors targets time)
        (and_then (get_elem? edges node) (λ outputs. get_elem? outputs port))

  unfoldable pub successors : Tracker S T → Location → T → Option (List (T × Location))
  successors tr l time = port_successors tr.nodes tr.edges l.node l.port time

  module _ ⦃e : Eq T⦄ ⦃p : PartialOrder T⦄ ⦃o : Ord T⦄ where
    -- The loop over the changes of the implications at a location.
    unfoldable pub push_changes : Tracker S T → Location → Updates T → Option (Tracker S T)
    unfolding successors
    push_changes tr location [] = some tr
    push_changes tr location ((time, diff) ∷ rest) = and_then (successors tr location time) λ next.
        push_changes
          (record tr {
            worklist = push_all next diff tr.worklist;
            pushed_changes = ChangeBatch.update tr.pushed_changes (location, time) diff;
          })
          location rest

    -- What is done with a net change.
    unfoldable pub act : Tracker S T → Location → T → ℕ → Option (Tracker S T)
    unfolding push_changes
    act tr location time diff = and_then (port_at tr.per_operator location) λ info.
        let (implications, changes) = update_iter info.implications ((time, diff) ∷ []) in
        push_changes
          (record tr {
            per_operator =
                set_port tr.per_operator location (record info { implications = implications });
          })
          location changes

    -- One round of the loop that circulates the implications.
    unfoldable pub round : Tracker S T → Option (Tracker S T)
    unfolding act gather
    round tr = elim tr.worklist [
      | [] ↦ some tr
      | entry ∷ rest ↦
          let (diff, left) = gather entry.0.0 entry.0.1 entry.1 rest in
          if diff == 0
          then some (record tr { worklist = left })
          else act (record tr { worklist = left }) entry.0.1 entry.0.0 diff
    ]

    -- That many rounds; an empty worklist is left as it is.
    unfoldable pub rounds : ℕ → Tracker S T → Option (Tracker S T)
    unfolding round
    rounds zero tr = some tr
    rounds (suc n) tr = and_then (round tr) (rounds n)

    -- The loop over the summaries to the scope outputs.
    unfoldable pub project :
        List (ChangeBatch T) → List (Antichain S) → T → ℕ → Option (List (ChangeBatch T))
    unfolding update_all results_of
    project outputs [] time diff = some outputs
    project [] (summaries ∷ rest) time diff = none
    project (batch ∷ outputs) (summaries ∷ rest) time diff =
        map_option (λ later. update_all batch (results_of summaries.elements time) diff ∷ later)
          (project outputs rest time diff)

    -- The loop over the changes of the pointstamps at a location.
    unfoldable pub report :
        Tracker S T → Location → List (Antichain S) → Updates T → Option (Tracker S T)
    unfolding project
    report tr location summaries [] = some tr
    report tr location summaries ((time, diff) ∷ rest) =
        and_then (project tr.output_changes summaries time diff) λ outputs.
          report
            (record tr {
              total_counts = wrapping_add tr.total_counts diff;
              output_changes = outputs;
              worklist = sort_insert ((time, location), diff) tr.worklist;
            })
            location summaries rest

    -- The body of the loops over the drained changes.
    unfoldable pub apply_change : Tracker S T → Location → T → ℕ → Option (Tracker S T)
    unfolding report
    apply_change tr location time diff = and_then (port_at tr.per_operator location) λ info.
        let (pointstamps, changes) = update_iter info.pointstamps ((time, diff) ∷ []) in
        report
          (record tr {
            per_operator =
                set_port tr.per_operator location (record info { pointstamps = pointstamps });
          })
          location info.output_summaries changes

    unfoldable pub apply_changes {μ} :
        {K : Type μ} → (K → Location) → Tracker S T → Updates (K × T) → Option (Tracker S T)
    unfolding apply_change
    apply_changes location tr [] = some tr
    apply_changes location tr (((key, time), diff) ∷ rest) =
        and_then (apply_change tr (location key) time diff) λ next. apply_changes location next rest

    -- The first step of `propagate_all`.
    unfoldable pub apply_inputs : Tracker S T → Option (Tracker S T)
    unfolding apply_changes ChangeBatch.drain
    apply_inputs tr =
        let (target_changes, targets) = ChangeBatch.drain tr.target_changes in
        and_then (apply_changes from_target (record tr { target_changes = target_changes }) targets)
          λ next.
            let (source_changes, sources) = ChangeBatch.drain next.source_changes in
            apply_changes from_source (record next { source_changes = source_changes }) sources

    -- `propagate_all`, cut off after a number of rounds of its loop. `none` stands for a panic.
    unfoldable pub propagate_all : ℕ → Tracker S T → Option (Tracker S T)
    unfolding rounds apply_inputs
    propagate_all n tr = and_then (apply_inputs tr) (rounds n)
