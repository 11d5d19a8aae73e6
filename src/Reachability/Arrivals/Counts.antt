-- ===== src/Reachability/Arrivals/Counts.antt =====
-- What the loops of `propagate_all` in timely/src/progress/reachability.rs pass on, counted at each port,
-- is what the graph of the tracker says.
use timely_mirror.Prelude.{
  ℕ, ◌%◌, ◌≡◌, refl, subst, ap, Option, none, some, List, [], ◌∷◌, ◌==◌, ==_iff, if◌then◌else◌,
  get_elem?, and_then, map_option, arith, Bool-cases, inl, inr,
}
use timely_mirror.Order.{Eq, nat_eq}
use timely_mirror.Order.Derived.{tuple_eq}
use timely_mirror.Int64.{wrapping_add, modulus}
use timely_mirror.Updates.{each, count}
use timely_mirror.Updates.Counts.{count-append}
use timely_mirror.Updates.Linear.{pass_on}
use timely_mirror.Timestamp.{PathSummary}
use timely_mirror.Antichain.{Antichain}
use timely_mirror.Location.{
  Port, target, source, Location, Target, new_source, new_target, from_target, location_eq,
  target_eq,
}
use timely_mirror.Reachability.{Tracker}
use timely_mirror.Reachability.Loops.{edge_successors, node_successors, port_successors, successors}
use timely_mirror.Reachability.Outflow.{outflow}
use timely_mirror.Reachability.Shape.{or_empty, next}
use timely_mirror.Reachability.Arrivals.{
  sum_of, edges_to, elements_of, ways, ways_between, arrivals,
}
use timely_mirror.Reachability.Arrivals.Nodes.{
  variant_of, count-miss, count-hits, count-node_successors_miss, count-node_successors,
}

module _ {κ ℓ} {S : Type κ} {T : Type ℓ} ⦃e : Eq T⦄ (path : PathSummary S T) where
  across_node :
      (m : ℕ) (before : T) (n j : ℕ) (after : T) (found : Option (List (Antichain S)))
      → count {A = T × Location}
          (after, new_source n j)
          (each
            (or_empty (map_option (λ outputs. node_successors path m 0 outputs before) found))
            1)
        ≡ (if m == n
            then ways path
                (elements_of (and_then found (λ outputs. get_elem? outputs j)))
                before
                after
            else 0)
          % modulus
  unfolding count
  across_node m before n j after none = ground arith
  across_node m before n j after (some outputs) = elim (Bool-cases (m == n)) [
    | inl same ↦ rw same (
        subst
          (λ x.
            count {A = T × Location} (after, new_source x j)
              (each (node_successors path m 0 outputs before) 1)
            ≡ ways path (elements_of (get_elem? outputs j)) before after % modulus)
          ((==_iff m n).0 same)
          (count-node_successors path m 0 j j outputs before after (omega arith)))
    | inr other ↦ rw other (
        count-node_successors_miss path m 0 outputs before after (new_source n j)
          (λ i le same. ground (arith, (==_iff m n).1 (ap (λ (l : Location). l.node) same))))
  ]

  across_to_target :
      (m : ℕ) (before : T) (n j : ℕ) (after : T) (found : Option (List (Antichain S)))
      → count {A = T × Location}
          (after, new_target n j)
          (each
            (or_empty (map_option (λ outputs. node_successors path m 0 outputs before) found))
            1)
        ≡ 0
  unfolding count
  across_to_target m before n j after none = refl
  across_to_target m before n j after (some outputs) =
      count-node_successors_miss path m 0 outputs before after (new_target n j)
        (λ i le same. absurd (omega (arith, variant_of same)))

  along_edges :
      (before : T) (n j : ℕ) (after : T) (found : Option (List Target))
      → count {A = T × Location}
          (after, new_target n j)
          (each (or_empty (map_option (λ targets. edge_successors targets before) found)) 1)
        ≡ (if e.eq before after then edges_to found (record { node = n; port = j }) else 0)
          % modulus
  unfolding count
  along_edges before n j after none = ground arith
  along_edges before n j after (some targets) = elim (Bool-cases (e.eq before after)) [
    | inl same ↦ rw same (
        count-hits {Y = T × Location} (after, new_target n j) (λ x. (before, from_target x))
          (λ x. target_eq.eq x (record { node = n; port = j })) targets (λ x. rw same refl))
    | inr other ↦ rw other (
        count-miss {Y = T × Location} (after, new_target n j) (λ x. (before, from_target x)) targets
          (λ x same.
            ground (arith, (e.eq_iff before after).1 (ap (λ (y : T × Location). y.0) same))))
  ]

  along_to_source :
      (before : T) (n j : ℕ) (after : T) (found : Option (List Target))
      → count {A = T × Location}
          (after, new_source n j)
          (each (or_empty (map_option (λ targets. edge_successors targets before) found)) 1)
        ≡ 0
  unfolding count
  along_to_source before n j after none = refl
  along_to_source before n j after (some targets) =
      count-miss {Y = T × Location} (after, new_source n j) (λ x. (before, from_target x)) targets
        (λ x same. omega (arith, variant_of (ap (λ (y : T × Location). y.1) same)))

  -- What a port leads to, by the summaries and edges that the graph has for it.
  count-port_successors :
      (tr : Tracker S T) (m : ℕ) (from : Port) (before : T) (n : ℕ) (to : Port) (after : T)
      → count {A = T × Location}
          (after, record { node = n; port = to })
          (each (or_empty (port_successors path tr.nodes tr.edges m from before)) 1)
        ≡ ways_between path tr m from before n to after % modulus
  count-port_successors tr m (target i) before n (source j) after =
      across_node m before n j after
        (and_then (get_elem? tr.nodes m) (λ inputs. get_elem? inputs i))
  count-port_successors tr m (target i) before n (target j) after =
      across_to_target m before n j after
        (and_then (get_elem? tr.nodes m) (λ inputs. get_elem? inputs i))
  count-port_successors tr m (source i) before n (target j) after =
      along_edges before n j after
        (and_then (get_elem? tr.edges m) (λ outputs. get_elem? outputs i))
  count-port_successors tr m (source i) before n (source j) after =
      along_to_source before n j after
        (and_then (get_elem? tr.edges m) (λ outputs. get_elem? outputs i))

  count-passed_on :
      (tr : Tracker S T) (l : Location) (times : List T) (n : ℕ) (port : Port) (after : T)
      → count {A = T × Location}
          (after, record { node = n; port = port })
          (pass_on (next path tr l) (each times 1))
        ≡ sum_of (λ before. ways_between path tr l.node l.port before n port after) times % modulus
  unfolding pass_on successors count wrapping_add
  count-passed_on tr l [] n port after = omega arith
  count-passed_on tr l (before ∷ rest) n port after = omega (
    arith,
    count-append {A = T × Location} (after, record { node = n; port = port })
        (each (next path tr l before) 1) (pass_on (next path tr l) (each rest 1)),
    count-port_successors tr l.node l.port before n port after,
    count-passed_on tr l rest n port after,
  )

  -- What arrives by the loops of the code is what the graph says.
  pub count-outflow :
      (tr : Tracker S T) (times : Location → List T) (ls : List Location) (n : ℕ) (port : Port)
      (after : T)
      → count {A = T × Location}
          (after, record { node = n; port = port })
          (outflow (next path tr) times ls)
        ≡ arrivals path tr times ls n port after % modulus
  unfolding outflow count wrapping_add
  count-outflow tr times [] n port after = omega arith
  count-outflow tr times (l ∷ ls) n port after = omega (
    arith,
    count-append {A = T × Location} (after, record { node = n; port = port })
        (pass_on (next path tr l) (each (times l) 1)) (outflow (next path tr) times ls),
    count-passed_on tr l (times l) n port after,
    count-outflow tr times ls n port after,
  )
