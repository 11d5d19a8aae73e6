-- ===== src/Reachability/Arrivals.antt =====
-- How often a time at one location leads to a time at another, read off the graph of a `Tracker`: by the
-- summaries between an input and an output of one node, and by the edges between an output and an
-- input. What the loops of `propagate_all` in timely/src/progress/reachability.rs pass on is this.
pub mod Nodes
pub mod Counts
pub mod Outputs
use timely_mirror.Prelude.{
  ℕ, zero, suc, ◌+◌, ◌%◌, ◌≤◌, ◌≡◌, ◌≢◌, refl, sym, subst, ap, ◌∙◌, Bool, true, false, Option, none,
  some, List, [], ◌∷◌, ◌++◌, ◌==◌, ==_iff, if◌then◌else◌, map, get_elem?, and_then, map_option,
  arith, Bool-cases, inl, inr,
}
use timely_mirror.Order.{Eq, nat_eq}
use timely_mirror.Order.Derived.{tuple_eq}
use timely_mirror.Int64.{wrapping_add, modulus}
use timely_mirror.Updates.{Updates, each, count}
use timely_mirror.Updates.Counts.{count-append, count-lt}
use timely_mirror.Updates.Linear.{pass_on}
use timely_mirror.Timestamp.{PathSummary}
use timely_mirror.Antichain.{Antichain}
use timely_mirror.Location.{
  Port, target, source, Location, Target, new_source, new_target, from_target, location_eq,
  target_eq, port_parts,
}
use timely_mirror.Reachability.{Tracker}
use timely_mirror.Reachability.Loops.{
  edge_successors, results_of, node_successors, port_successors, successors,
}
use timely_mirror.Reachability.Outflow.{outflow}
use timely_mirror.Reachability.Shape.{or_empty, next}

abbrev pub one_if : Bool → ℕ
one_if b = if b then 1 else 0

abbrev pub sum_of {ℓ} : {A : Type ℓ} → (A → ℕ) → List A → ℕ
sum_of f [] = 0
sum_of f (x ∷ xs) = f x + sum_of f xs

-- How many of the edges lead to the target.
abbrev pub edges_to : Option (List Target) → Target → ℕ
edges_to none goal = 0
edges_to (some targets) goal = sum_of (λ x. one_if (target_eq.eq x goal)) targets

abbrev pub elements_of {κ} : {S : Type κ} → Option (Antichain S) → List S
elements_of none = []
elements_of (some summaries) = summaries.elements

module _ {κ ℓ} {S : Type κ} {T : Type ℓ} ⦃e : Eq T⦄ (path : PathSummary S T) where
  -- Whether the summary leads from the one time to the other.
  abbrev pub leads : Option T → T → Bool
  leads none after = false
  leads (some reached) after = e.eq reached after

  -- How many of the summaries lead from the one time to the other.
  abbrev pub ways : List S → T → T → ℕ
  ways summaries before after =
      sum_of (λ summary. one_if (leads (path.results_in summary before) after)) summaries

  -- How often a time at a port of one node leads to a time at a port of another.
  abbrev pub ways_between : Tracker S T → ℕ → Port → T → ℕ → Port → T → ℕ
  ways_between tr m (target i) before n (source j) after =
      if m == n
      then ways
          (elements_of (
            and_then (and_then (get_elem? tr.nodes m) (λ inputs. get_elem? inputs i))
              (λ outputs. get_elem? outputs j)))
          before after
      else 0
  ways_between tr m (source i) before n (target j) after =
      if e.eq before after
      then edges_to (and_then (get_elem? tr.edges m) (λ outputs. get_elem? outputs i))
          (record { node = n; port = j })
      else 0
  ways_between tr m (target i) before n (target j) after = 0
  ways_between tr m (source i) before n (source j) after = 0

  -- How often the times at all the locations lead to the time at the port.
  abbrev pub arrivals : Tracker S T → (Location → List T) → List Location → ℕ → Port → T → ℕ
  arrivals tr times ls n port after =
      sum_of (λ l. sum_of (λ before. ways_between tr l.node l.port before n port after) (times l))
        ls
