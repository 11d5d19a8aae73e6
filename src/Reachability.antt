-- ===== src/Reachability.antt =====
-- timely/src/progress/reachability.rs: the `Tracker`, which propagates changes of pointstamp counts
-- along the paths of a dataflow graph.
pub mod Loops
pub mod Ports
pub mod Outflow
pub mod Arrivals
pub mod Work
pub mod Shape
pub mod Balance
pub mod Act
pub mod Rounds
pub mod Inputs
pub mod Applied
pub mod Apply
pub mod Propagate
pub mod Queries
pub mod Fresh
use timely_mirror.Prelude.{
  ℕ, zero, suc, ◌≡◌, Bool, true, false, Option, none, some, List, [], ◌∷◌, ◌++◌, ◌||◌, ◌&&◌, not,
  if◌then◌else◌, ◌==◌, ltb, map, any, get_elem?, set, and_then, map_option, is_empty_list,
}
use timely_mirror.Order.{Eq, PartialOrder, Ord, nat_eq, nat_ord}
use timely_mirror.Order.Derived.{tuple_eq, tuple_ord}
use timely_mirror.Int64.{wrapping_add, is_positive}
use timely_mirror.Updates.{Updates, sort_insert, each}
use timely_mirror.Timestamp.{PathSummary}
use timely_mirror.ChangeBatch.{ChangeBatch}
use timely_mirror.ChangeBatch
use timely_mirror.Antichain.{Antichain}
use timely_mirror.MutableAntichain.{MutableAntichain, update_iter, count_for, less_than}
use timely_mirror.MutableAntichain
use timely_mirror.Location.{
  Port, target, source, Location, Source, Target, new_source, new_target, from_target, from_source,
  location_eq, location_ord, source_eq, source_ord, target_eq, target_ord,
}

pub record PortInformation {κ ℓ} (S : Type κ) (T : Type ℓ) : Type (ℓ ⊔ κ) where
  pub pointstamps : MutableAntichain T
  pub implications : MutableAntichain T
  pub output_summaries : List (Antichain S)

pub record PerOperator {κ ℓ} (S : Type κ) (T : Type ℓ) : Type (ℓ ⊔ κ) where
  pub targets : List (PortInformation S T)
  pub sources : List (PortInformation S T)

-- The entries `(time, location, diff)` of the heap, in the order in which they are popped. Entries
-- with one time and location may stand in any order, since the loop pops and adds up all of them.
abbrev pub Worklist {ℓ} : Type ℓ → Type ℓ
Worklist T = Updates (T × Location)

pub record Tracker {κ ℓ} (S : Type κ) (T : Type ℓ) : Type (ℓ ⊔ κ) where
  pub nodes : List (List (List (Antichain S)))
  pub edges : List (List (List Target))
  pub per_operator : List (PerOperator S T)
  pub target_changes : ChangeBatch (Target × T)
  pub source_changes : ChangeBatch (Source × T)
  pub worklist : Worklist T
  pub pushed_changes : ChangeBatch (Location × T)
  pub output_changes : List (ChangeBatch T)
  pub total_counts : ℕ

module _ {κ ℓ} {S : Type κ} {T : Type ℓ} where
  -- `per_operator[node].targets[port]` or `.sources[port]`; `none` stands for a panic.
  abbrev pub port_of : PerOperator S T → Port → Option (PortInformation S T)
  port_of op (target port) = get_elem? op.targets port
  port_of op (source port) = get_elem? op.sources port

  unfoldable pub port_at : List (PerOperator S T) → Location → Option (PortInformation S T)
  port_at ops l = and_then (get_elem? ops l.node) (λ op. port_of op l.port)

  -- The assignment to the same place.
  abbrev pub set_port_of : PerOperator S T → Port → PortInformation S T → PerOperator S T
  set_port_of op (target port) info = record op { targets = set op.targets port info }
  set_port_of op (source port) info = record op { sources = set op.sources port info }

  abbrev pub set_if_some :
      List (PerOperator S T)
      → Location
      → PortInformation S T
      → Option (PerOperator S T)
      → List (PerOperator S T)
  set_if_some ops l info none = ops
  set_if_some ops l info (some op) = set ops l.node (set_port_of op l.port info)

  unfoldable pub set_port :
      List (PerOperator S T) → Location → PortInformation S T → List (PerOperator S T)
  set_port ops l info = set_if_some ops l info (get_elem? ops l.node)

  -- `PortInformation::is_global`.
  unfoldable pub is_global_at : ⦃e : Eq T⦄ ⦃p : PartialOrder T⦄ → PortInformation S T → T → Bool
  is_global_at info time =
      let dominated = less_than info.implications time in
      let count = count_for info.implications time in
      let redundant = is_positive count && not (count == 1) in not dominated && not redundant

module _ {κ ℓ} {S : Type κ} {T : Type ℓ} ⦃e : Eq T⦄ ⦃p : PartialOrder T⦄ ⦃o : Ord T⦄ where
  unfoldable pub update_target : Tracker S T → Target → T → ℕ → Tracker S T
  update_target tr place time value = record tr {
    target_changes = ChangeBatch.update tr.target_changes (place, time) value;
  }

  unfoldable pub update_source : Tracker S T → Source → T → ℕ → Tracker S T
  update_source tr place time value = record tr {
    source_changes = ChangeBatch.update tr.source_changes (place, time) value;
  }

  -- `Tracker::update`.
  abbrev pub update_at : Tracker S T → ℕ → Port → T → ℕ → Tracker S T
  update_at tr node (target port) time value =
      update_target tr (record { node = node; port = port }) time value
  update_at tr node (source port) time value =
      update_source tr (record { node = node; port = port }) time value

  -- The flag, and the tracker with its changes compacted; `||` does not test the later operands.
  unfoldable pub tracking_anything : Tracker S T → Tracker S T × Bool
  unfolding ChangeBatch.is_empty
  tracking_anything tr =
      let (source_changes, no_source) = ChangeBatch.is_empty tr.source_changes in
      let (target_changes, no_target) = ChangeBatch.is_empty tr.target_changes in
      if not no_source then (record tr { source_changes = source_changes }, true) else (
        record tr { source_changes = source_changes; target_changes = target_changes },
        not no_target || is_positive tr.total_counts,
      )

  unfoldable pub is_global : Tracker S T → Location → T → Option Bool
  is_global tr location time =
      map_option (λ info. is_global_at info time) (port_at tr.per_operator location)
