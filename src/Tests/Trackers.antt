-- ===== src/Tests/Trackers.antt =====
-- A `Tracker` over a graph of one edge, from the scope's input to an operator without outputs.
use timely_mirror.Prelude.{
  ◌+◌, ◌*◌, ◌%◌, get_elem?, ◌&&◌, ◌==◌, if◌then◌else◌, ℕ, zero, suc, ◌≤◌, ap, ◌≡◌, ◌↔◌, refl, subst,
  true, false, none, some, Option, List, [], ◌∷◌, All, Memᴰ, here, there, arith, length,
}
use timely_mirror.Order.{nat_eq, nat_partial_order, nat_ord, nat-IsExtension}
use timely_mirror.Order.Product.{product_eq, product_ord}
use timely_mirror.Order.Derived.{tuple_eq, tuple_ord}
use timely_mirror.Int64.{modulus, wrapping_add, is_positive, is_negative}
use timely_mirror.Updates.{count, consolidate, sort_insert}
use timely_mirror.Timestamp.{integer_summary}
use timely_mirror.ChangeBatch.{ChangeBatch}
use timely_mirror.ChangeBatch
use timely_mirror.ChangeBatch.Totals.{total}
use timely_mirror.ChangeBatch.Valid.{new-IsValid}
use timely_mirror.MutableAntichain.{MutableAntichain, update_iter}
use timely_mirror.MutableAntichain
use timely_mirror.MutableAntichain.Changes.{occurrences}
use timely_mirror.MutableAntichain.History.{new_bottom-IsTracking}
use timely_mirror.Location.{
  Location, Port, Source, Target, target, source, new_source, new_target, location_eq, location_ord,
  source_eq, source_ord, target_eq, target_ord, port_eq,
}
use timely_mirror.Reachability.{
  PortInformation, PerOperator, Tracker, port_at, set_port, update_source, update_at, is_global_at,
  tracking_anything,
}
use timely_mirror.Reachability.Loops.{
  successors, node_successors, results_of, push_all, push_changes, gather, act, round, rounds,
  update_all, project, report, apply_change, apply_changes, apply_inputs, propagate_all,
}
use timely_mirror.Reachability.Ports.{HasPort}
use timely_mirror.Antichain.{Antichain}
use timely_mirror.Antichain
use timely_mirror.Reachability.Arrivals.{arrivals, ways, elements_of}
use timely_mirror.Reachability.Arrivals.Outputs.{total-project}
use timely_mirror.Reachability.Shape.{
  IsSteadyPort, IsComplete, IsComplete-same, next, implications_at,
}
use timely_mirror.Reachability.Balance.{IsBalanced, active, implied}
use timely_mirror.Reachability.Rounds.{rounds-IsBalanced}
use timely_mirror.Reachability.Fresh.{IsFresh, fresh-IsBalanced}
use timely_mirror.Reachability.Propagate.{
  IsReady, with_inputs, apply_inputs-IsBalanced, propagate_all-IsBalanced,
  propagate_all-fixed_point,
}
use timely_mirror.Reachability.Queries.{
  buffered, update_at-IsReady, tracking_anything_iff, is_global_at_iff,
}

abbrev blank : PortInformation ℕ ℕ
blank = record {
  pointstamps = MutableAntichain.new;
  implications = MutableAntichain.new;
  output_summaries = [];
}

abbrev operators : List (PerOperator ℕ ℕ)
operators =
    record { targets = []; sources = blank ∷ [] }
    ∷ record { targets = blank ∷ []; sources = [] }
    ∷ []

abbrev idle : Tracker ℕ ℕ
idle = record {
  nodes = [] ∷ ([] ∷ []) ∷ [];
  edges = ((record { node = 1; port = 0 } ∷ []) ∷ []) ∷ [] ∷ [];
  per_operator = operators;
  target_changes = ChangeBatch.new;
  source_changes = ChangeBatch.new;
  worklist = [];
  pushed_changes = ChangeBatch.new;
  output_changes = [];
  total_counts = 0;
}

abbrev ports : List Location
ports = new_source 0 0 ∷ new_target 1 0 ∷ []

-- These two are all ports.
by_port {μ} :
    (P : Location → Type μ)
    → P (new_source 0 0)
    → P (new_target 1 0)
    → (node : ℕ) (port : Port) → HasPort operators (record { node = node; port = port })
    → P (record { node = node; port = port })
unfolding port_at
by_port P a b zero (source zero) h = a
by_port P a b zero (source (suc n)) (i, q) = absurd (cc q)
by_port P a b zero (target n) (i, q) = absurd (cc q)
by_port P a b (suc zero) (target zero) h = b
by_port P a b (suc zero) (target (suc n)) (i, q) = absurd (cc q)
by_port P a b (suc zero) (source n) (i, q) = absurd (cc q)
by_port P a b (suc (suc n)) port (i, q) = absurd (cc q)

blank-IsSteadyPort : IsSteadyPort blank
unfolding MutableAntichain.new
blank-IsSteadyPort = record {
  implications = record { in_range = tt; quiet = refl };
  pointstamps = record { in_range = tt; quiet = refl };
}

idle-IsComplete : IsComplete (integer_summary 64) ports idle
unfolding port_at successors node_successors
idle-IsComplete = record {
  distinct = (((λ h. absurd (omega (arith, ap (λ (l : Location). l.node) h))), tt), (tt, tt));
  listed = λ l. by_port (λ x. Memᴰ x ports) (here refl) (there (here refl)) l.node l.port;
  connected = λ l.
      by_port
        (λ x.
          (t : ℕ)
          → successors (integer_summary 64) idle x t ≡ some (next (integer_summary 64) idle x t))
        (λ t. refl) (λ t. refl) l.node l.port;
  arriving = λ l.
      by_port (λ x. (t : ℕ) → All (λ y. HasPort operators y.1) (next (integer_summary 64) idle x t))
        (λ t. ((blank, refl), tt)) (λ t. tt) l.node l.port;
  steady = λ l info q.
      by_port (λ x. (i : PortInformation ℕ ℕ) → port_at operators x ≡ some i → IsSteadyPort i)
        (λ i h. let same : blank ≡ i = cc h in subst IsSteadyPort same blank-IsSteadyPort)
        (λ i h. let same : blank ≡ i = cc h in subst IsSteadyPort same blank-IsSteadyPort) l.node
        l.port (info, q) info q;
  projected = λ l info q.
      by_port
        (λ x.
          (i : PortInformation ℕ ℕ) → port_at operators x ≡ some i → length i.output_summaries ≤ 0)
        (λ i h.
          let same : blank ≡ i = cc h in
          omega (arith, ap (λ (j : PortInformation ℕ ℕ). length j.output_summaries) same))
        (λ i h.
          let same : blank ≡ i = cc h in
          omega (arith, ap (λ (j : PortInformation ℕ ℕ). length j.output_summaries) same))
        l.node l.port (info, q) info q;
}

operators-IsFresh :
    (node : ℕ) (port : Port) → IsFresh (port_at operators (record { node = node; port = port }))
unfolding port_at
operators-IsFresh zero (source zero) = (refl, refl)
operators-IsFresh zero (source (suc n)) = (refl, refl)
operators-IsFresh zero (target n) = (refl, refl)
operators-IsFresh (suc zero) (target zero) = (refl, refl)
operators-IsFresh (suc zero) (target (suc n)) = (refl, refl)
operators-IsFresh (suc zero) (source n) = (refl, refl)
operators-IsFresh (suc (suc n)) port = (refl, refl)

idle-IsReady : IsReady idle
unfolding ChangeBatch.new
idle-IsReady = record {
  targets = new-IsValid;
  targets_placed = tt;
  sources = new-IsValid;
  sources_placed = tt;
}

-- A pointstamp at the scope's input.
abbrev busy : Tracker ℕ ℕ
busy = update_at idle 0 (source 0) 3 1

busy-IsReady : IsReady busy
unfolding port_at
busy-IsReady =
    (update_at-IsReady idle 0 (source 0) 3 1 (omega arith) (omega arith) (blank, refl)
      idle-IsReady).0

busy-IsBalanced : IsBalanced (integer_summary 64) ports (λ l. []) (λ l t. 0) busy
unfolding update_source
busy-IsBalanced =
    fresh-IsBalanced (integer_summary 64) ports busy
      (IsComplete-same (integer_summary 64) ports idle busy refl refl idle-IsComplete)
      (λ l. operators-IsFresh l.node l.port) refl refl refl

propagate_all-IsBalanced_example :
    (new : Tracker ℕ ℕ) × (propagate_all (integer_summary 64) 2 busy ≡ some new)
    × IsBalanced (integer_summary 64) ports (λ l. []) (with_inputs busy (λ l t. 0)) new
propagate_all-IsBalanced_example =
    propagate_all-IsBalanced nat-IsExtension (integer_summary 64) ports (λ l. []) 2 (λ l t. 0) busy
      busy-IsBalanced busy-IsReady

or_busy : Option (Tracker ℕ ℕ) → Tracker ℕ ℕ
or_busy none = busy
or_busy (some tr) = tr

finished : Tracker ℕ ℕ
finished = or_busy (propagate_all (integer_summary 64) 2 busy)

-- Two rounds carry the pointstamp from the input to the operator, and report both frontiers.
propagate-finished :
    (propagate_all (integer_summary 64) 2 busy ≡ some finished)
    × (finished.worklist ≡ [])
    × (finished.pushed_changes.updates ≡ ((new_source 0 0, 3), 1) ∷ ((new_target 1 0, 3), 1) ∷ [])
    × (finished.total_counts ≡ 1)
unfolding finished or_busy propagate_all update_source port_at set_port successors node_successors
    results_of push_all push_changes gather act round rounds update_all project report apply_change
    apply_changes apply_inputs ChangeBatch.new ChangeBatch.update ChangeBatch.maintain_bounds
    ChangeBatch.drain ChangeBatch.compact ChangeBatch.compact_updates MutableAntichain.new
    update_iter consolidate sort_insert wrapping_add is_positive is_negative
propagate-finished = (refl, refl, refl, refl)

propagate_all-fixed_point_example :
    count 3 (implications_at finished (new_target 1 0)).updates
    ≡ wrapping_add
        (occurrences 3 (active finished (new_target 1 0)))
        (arrivals (integer_summary 64) finished (implied finished) ports 1 (target 0) 3)
propagate_all-fixed_point_example =
    propagate_all-fixed_point nat-IsExtension (integer_summary 64) ports (λ l. []) 2 (λ l t. 0) busy
      finished busy-IsBalanced busy-IsReady propagate-finished.0 propagate-finished.1 3
      (new_target 1 0)

apply_inputs-IsBalanced_example :
    (new : Tracker ℕ ℕ) × (apply_inputs (integer_summary 64) busy ≡ some new)
    × IsBalanced (integer_summary 64) ports (λ l. []) (with_inputs busy (λ l t. 0)) new
    × (new.target_changes ≡ ChangeBatch.new)
    × (new.source_changes ≡ ChangeBatch.new)
apply_inputs-IsBalanced_example =
    apply_inputs-IsBalanced nat-IsExtension (integer_summary 64) ports (λ l. []) (λ l t. 0) busy
      busy-IsBalanced busy-IsReady

idle-IsBalanced : IsBalanced (integer_summary 64) ports (λ l. []) (λ l t. 0) idle
idle-IsBalanced =
    fresh-IsBalanced (integer_summary 64) ports idle idle-IsComplete
      (λ l. operators-IsFresh l.node l.port) refl refl refl

idle-rounds :
    (new : Tracker ℕ ℕ) × (rounds (integer_summary 64) 5 idle ≡ some new)
    × IsBalanced (integer_summary 64) ports (λ l. []) (λ l t. 0) new
idle-rounds =
    rounds-IsBalanced nat-IsExtension (integer_summary 64) ports (λ l. []) (λ l t. 0) 5 idle
      idle-IsBalanced

update_at-IsReady_example :
    IsReady (update_at idle 1 (target 0) 7 1)
    × ((m : ℕ) (other : Port) (s : ℕ)
        → buffered (update_at idle 1 (target 0) 7 1) m other s ≡ (
            if 1 == m && port_eq.eq (target 0) other && nat_eq.eq 7 s
            then wrapping_add (buffered idle m other s) 1
            else buffered idle m other s))
unfolding port_at
update_at-IsReady_example =
    update_at-IsReady idle 1 (target 0) 7 1 (omega arith) (omega arith) (blank, refl) idle-IsReady

tracking_anything_iff_example : ((tracking_anything busy).1 ≡ false) ↔ (
    ((x : Source × ℕ) → total x busy.source_changes ≡ 0)
    × ((x : Target × ℕ) → total x busy.target_changes ≡ 0)
    × (is_positive busy.total_counts ≡ false))
tracking_anything_iff_example = tracking_anything_iff busy busy-IsReady.sources busy-IsReady.targets

-- A port whose implications hold the time 1 once.
abbrev held : PortInformation ℕ ℕ
held = record blank { implications = MutableAntichain.new_bottom 1 }

is_global_at_iff_example :
    (is_global_at held 1 ≡ true)
    ↔ (Memᴰ 1 held.implications.frontier × (count 1 held.implications.updates ≡ 1))
unfolding MutableAntichain.new_bottom count wrapping_add is_positive
is_global_at_iff_example = is_global_at_iff held 1 refl (new_bottom-IsTracking 1).tracks refl

-- A summary that adds two, to the first of two scope outputs.
abbrev two_outputs : List (ChangeBatch ℕ)
two_outputs = ChangeBatch.new ∷ ChangeBatch.new_from 5 2 ∷ []

abbrev to_first : List (Antichain ℕ)
to_first = Antichain.from_elem 2 ∷ []

total-project_example :
    (new : List (ChangeBatch ℕ)) × (project (integer_summary 64) two_outputs to_first 3 1
      ≡ some new)
    × (length new ≡ length two_outputs)
    × ((j : ℕ) (batch : ChangeBatch ℕ)
        → get_elem? two_outputs j ≡ some batch
        → (after : ChangeBatch ℕ) × (get_elem? new j ≡ some after)
          × ((t : ℕ)
              → total t after
                ≡ (total t batch
                    + ways (integer_summary 64) (elements_of (get_elem? to_first j)) 3 t * 1)
                  % modulus))
total-project_example = total-project (integer_summary 64) two_outputs to_first 3 1 (omega arith)
