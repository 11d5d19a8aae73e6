-- ===== src/Reachability/Arrivals/Outputs.antt =====
-- What `propagate_all` in timely/src/progress/reachability.rs adds to the changes at the scope outputs.
use timely_mirror.Prelude.{
  ℕ, zero, suc, ◌+◌, ◌*◌, ◌%◌, ◌≤◌, ◌≡◌, refl, ap, ◌∙◌, Option, none, some, List, [], ◌∷◌, length,
  get_elem?, arith, Bool-cases, inl, inr,
}
use timely_mirror.Order.{Eq, PartialOrder, Ord}
use timely_mirror.Int64.{wrapping_add, modulus}
use timely_mirror.Updates.{count}
use timely_mirror.Updates.Counts.{count-lt}
use timely_mirror.Timestamp.{PathSummary}
use timely_mirror.ChangeBatch.{ChangeBatch}
use timely_mirror.ChangeBatch
use timely_mirror.ChangeBatch.Totals.{total, total-update}
use timely_mirror.Antichain.{Antichain}
use timely_mirror.Reachability.Loops.{results_of, update_all, project}
use timely_mirror.Reachability.Arrivals.{one_if, elements_of, leads, ways}

module _ {κ ℓ} {S : Type κ} {T : Type ℓ} ⦃e : Eq T⦄ ⦃p : PartialOrder T⦄ ⦃o : Ord T⦄
    (path : PathSummary S T) where
  total-update_all :
      (summaries : List S) (batch : ChangeBatch T) (time : T) (diff : ℕ) (t : T)
      → total t (update_all batch (results_of path summaries time) diff)
        ≡ (total t batch + ways path summaries time t * diff) % modulus
  unfolding results_of update_all wrapping_add count
  total-update_all [] batch time diff t = omega (arith, count-lt t batch.updates)
  total-update_all (summary ∷ rest) batch time diff t =
      by_result (path.results_in summary time) (λ b. total-update_all rest b time diff t)
    where
      by_result :
          (found : Option T)
          → ((b : ChangeBatch T)
              → total t (update_all b (results_of path rest time) diff)
                ≡ (total t b + ways path rest time t * diff) % modulus)
          → total t (
              update_all batch
                (elim found [
                  | none ↦ results_of path rest time
                  | some out_time ↦ out_time ∷ results_of path rest time
                ])
                diff)
            ≡ (total t batch + (one_if (leads path found t) + ways path rest time t) * diff)
              % modulus
      by_result none h = omega (arith, h batch)
      by_result (some out_time) h = elim (Bool-cases (e.eq out_time t)) [
        | inl same ↦
            rw
              (h (ChangeBatch.update batch out_time diff), total-update t batch out_time diff, same)
              (omega arith)
        | inr other ↦
            rw
              (
                h (ChangeBatch.update batch out_time diff),
                total-update t batch out_time diff,
                other,
              )
              (omega arith)
      ]

  -- With at least as many scope outputs as there are lists of summaries, the loop over the summaries does not
  -- panic, and adds to the total of each time at each output the change, as often as the summaries to that
  -- output lead to the time, modulo 2^64. Outputs beyond the summaries keep their totals.
  pub total-project :
      (outputs : List (ChangeBatch T)) (summaries : List (Antichain S)) (time : T) (diff : ℕ)
      → length summaries ≤ length outputs
      → (new : List (ChangeBatch T)) × (project path outputs summaries time diff ≡ some new)
        × (length new ≡ length outputs)
        × ((j : ℕ) (batch : ChangeBatch T)
            → get_elem? outputs j ≡ some batch
            → (after : ChangeBatch T) × (get_elem? new j ≡ some after)
              × ((t : T)
                  → total t after
                    ≡ (total t batch
                        + ways path (elements_of (get_elem? summaries j)) time t * diff)
                      % modulus))
  unfolding project
  total-project outputs [] time diff h =
      (outputs, refl, refl, λ j batch at. (batch, at, λ t. omega (arith, count-lt t batch.updates)))
  total-project [] (summaries ∷ rest) time diff h = absurd (omega (arith, h))
  total-project (first ∷ outputs) (summaries ∷ rest) time diff h =
      let (new, runs, size, adds) = total-project outputs rest time diff (omega (arith, h)) in
      let done = update_all first (results_of path summaries.elements time) diff in
      (
        done ∷ new,
        rw runs refl,
        omega (arith, size),
        each_output done new adds (λ t. total-update_all summaries.elements first time diff t),
      )
    where
      each_output :
          (done : ChangeBatch T) (new : List (ChangeBatch T))
          → ((j : ℕ) (batch : ChangeBatch T)
              → get_elem? outputs j ≡ some batch
              → (after : ChangeBatch T) × (get_elem? new j ≡ some after)
                × ((t : T)
                    → total t after
                      ≡ (total t batch + ways path (elements_of (get_elem? rest j)) time t * diff)
                        % modulus))
          → ((t : T)
              → total t done
                ≡ (total t first + ways path summaries.elements time t * diff) % modulus)
          → (j : ℕ) (batch : ChangeBatch T) → get_elem? (first ∷ outputs) j ≡ some batch
          → (after : ChangeBatch T) × (get_elem? (done ∷ new) j ≡ some after)
            × ((t : T)
                → total t after
                  ≡ (total t batch
                      + ways path (elements_of (get_elem? (summaries ∷ rest) j)) time t * diff)
                    % modulus)
      each_output done new adds here_adds zero batch at =
          let same : first ≡ batch = cc at in
          (
            done,
            refl,
            λ t.
                here_adds t
                ∙ ap
                    (λ (b : ChangeBatch T).
                      (total t b + ways path summaries.elements time t * diff) % modulus)
                    same,
          )
      each_output done new adds here_adds (suc j) batch at = adds j batch at
