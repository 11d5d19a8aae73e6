-- ===== src/Reachability/Shape.antt =====
-- Trackers whose graph is complete: every port that a change can arrive at exists.
use timely_mirror.Prelude.{
  ◌≤◌, length, ◌≡◌, sym, subst, ap, ◌∙◌, Option, none, some, List, [], All, All-mono, Memᴰ, arith,
  Bool-cases, inl, inr,
}
use timely_mirror.Timestamp.{PathSummary}
use timely_mirror.Location.{Location, location_eq}
use timely_mirror.Distinct.{IsDistinct}
use timely_mirror.Updates.Compact.{InRange}
use timely_mirror.ChangeBatch
use timely_mirror.MutableAntichain.{MutableAntichain}
use timely_mirror.MutableAntichain
use timely_mirror.Reachability.{PortInformation, PerOperator, Tracker, port_at, set_port}
use timely_mirror.Reachability.Loops.{successors}
use timely_mirror.Reachability.Ports.{HasPort, port_at-set_port_self, port_at-set_port_other}

module _ {ℓ} {T : Type ℓ} where
  -- Its counts are those of an `i64`, and no change of its frontier is left to report.
  pub record IsSteady (m : MutableAntichain T) : Type ℓ where
    pub in_range : InRange m.updates
    pub quiet : m.changes ≡ ChangeBatch.new

  abbrev pub or_empty : Option (List (T × Location)) → List (T × Location)
  or_empty none = []
  or_empty (some next) = next

module _ {κ ℓ} {S : Type κ} {T : Type ℓ} where
  abbrev pub implications_in : Option (PortInformation S T) → MutableAntichain T
  implications_in none = MutableAntichain.new
  implications_in (some info) = info.implications

  abbrev pub pointstamps_in : Option (PortInformation S T) → MutableAntichain T
  pointstamps_in none = MutableAntichain.new
  pointstamps_in (some info) = info.pointstamps

  abbrev pub implications_at : Tracker S T → Location → MutableAntichain T
  implications_at tr l = implications_in (port_at tr.per_operator l)

  abbrev pub pointstamps_at : Tracker S T → Location → MutableAntichain T
  pointstamps_at tr l = pointstamps_in (port_at tr.per_operator l)

  pub record IsSteadyPort (info : PortInformation S T) : Type ℓ where
    pub implications : IsSteady info.implications
    pub pointstamps : IsSteady info.pointstamps

  module _ (path : PathSummary S T) where
    -- Where a time at a location arrives next.
    abbrev pub next : Tracker S T → Location → T → List (T × Location)
    next tr l t = or_empty (successors path tr l t)

    -- The list names every port once, paths lead from ports to ports, and every scope output that a
    -- port has summaries to has a batch of changes.
    pub record IsComplete (ls : List Location) (tr : Tracker S T) : Type (ℓ ⊔ κ) where
      pub distinct : IsDistinct ls
      pub listed : (l : Location) → HasPort tr.per_operator l → Memᴰ l ls
      pub connected :
          (l : Location)
          → HasPort tr.per_operator l
          → (t : T) → successors path tr l t ≡ some (next tr l t)
      pub arriving :
          (l : Location)
          → HasPort tr.per_operator l
          → (t : T) → All (λ y. HasPort tr.per_operator y.1) (next tr l t)
      pub steady :
          (l : Location) (info : PortInformation S T)
          → port_at tr.per_operator l ≡ some info
          → IsSteadyPort info
      pub projected :
          (l : Location) (info : PortInformation S T)
          → port_at tr.per_operator l ≡ some info
          → length info.output_summaries ≤ length tr.output_changes

  -- An assignment to a port keeps which ports there are.
  module _ (ops : List (PerOperator S T)) (l : Location) (info old : PortInformation S T)
      (h : port_at ops l ≡ some old) where
    pub HasPort-set_port : (k : Location) → HasPort ops k → HasPort (set_port ops l info) k
    HasPort-set_port k (i, q) = elim (Bool-cases (location_eq.eq l k)) [
      | inl same ↦
          subst (HasPort (set_port ops l info)) ((location_eq.eq_iff l k).0 same)
            (info, port_at-set_port_self ops l info old h)
      | inr other ↦ (
        i,
        port_at-set_port_other ops l k info
              (λ same. ground (arith, (location_eq.eq_iff l k).1 same))
            ∙ q,
      )
    ]

    pub HasPort_of_set_port : (k : Location) → HasPort (set_port ops l info) k → HasPort ops k
    HasPort_of_set_port k (i, q) = elim (Bool-cases (location_eq.eq l k)) [
      | inl same ↦ subst (HasPort ops) ((location_eq.eq_iff l k).0 same) (old, h)
      | inr other ↦ (
        i,
        sym (
              port_at-set_port_other ops l k info
                (λ same. ground (arith, (location_eq.eq_iff l k).1 same)))
            ∙ q,
      )
    ]

    -- What every port has, if the new information has it.
    pub every-set_port {μ} :
        (P : PortInformation S T → Type μ)
        → ((k : Location) (i : PortInformation S T) → port_at ops k ≡ some i → P i)
        → P info
        → (k : Location) (i : PortInformation S T) → port_at (set_port ops l info) k ≡ some i
        → P i
    every-set_port P all here_too k i q = elim (Bool-cases (location_eq.eq l k)) [
      | inl same ↦
          let at_l : port_at (set_port ops l info) l ≡ some i =
            subst (λ x. port_at (set_port ops l info) x ≡ some i)
              (sym ((location_eq.eq_iff l k).0 same)) q in
          let found = port_at-set_port_self ops l info old h in
          let the_same : info ≡ i = cc (at_l, found) in subst P the_same here_too
      | inr other ↦ all k i (
          sym (
            port_at-set_port_other ops l k info
              (λ same. ground (arith, (location_eq.eq_iff l k).1 same)))
          ∙ q)
    ]

    -- What the assignment leaves alone reads the same everywhere.
    pub read-set_port {μ} :
        {B : Type μ} (read : Option (PortInformation S T) → B)
        → read (some info) ≡ read (some old)
        → (k : Location) → read (port_at (set_port ops l info) k) ≡ read (port_at ops k)
    read-set_port read q k = elim (Bool-cases (location_eq.eq l k)) [
      | inl same ↦
          subst (λ x. read (port_at (set_port ops l info) x) ≡ read (port_at ops x))
            ((location_eq.eq_iff l k).0 same)
            (ap read (port_at-set_port_self ops l info old h) ∙ q ∙ sym (ap read h))
      | inr other ↦ ap read (
          port_at-set_port_other ops l k info
            (λ same. ground (arith, (location_eq.eq_iff l k).1 same)))
    ]

  pub IsComplete-set_port :
      (path : PathSummary S T) (ls : List Location) (tr : Tracker S T) (l : Location)
      (info old : PortInformation S T)
      → port_at tr.per_operator l ≡ some old
      → IsSteadyPort info
      → length info.output_summaries ≤ length tr.output_changes
      → IsComplete path ls tr
      → IsComplete path ls (record tr { per_operator = set_port tr.per_operator l info })
  unfolding successors
  IsComplete-set_port path ls tr l info old h st short c = record {
    distinct = c.distinct;
    listed = λ k q. c.listed k (HasPort_of_set_port tr.per_operator l info old h k q);
    connected = λ k q t. c.connected k (HasPort_of_set_port tr.per_operator l info old h k q) t;
    arriving = λ k q t.
        All-mono _ _ (next path tr k t) (λ y r. HasPort-set_port tr.per_operator l info old h y.1 r)
          (c.arriving k (HasPort_of_set_port tr.per_operator l info old h k q) t);
    steady = every-set_port tr.per_operator l info old h IsSteadyPort c.steady st;
    projected =
        every-set_port tr.per_operator l info old h
          (λ i. length i.output_summaries ≤ length tr.output_changes) c.projected short;
  }

  -- The rest of the tracker has no part in it.
  pub IsComplete-same :
      (path : PathSummary S T) (ls : List Location) (tr new : Tracker S T)
      → new ≡ record new { nodes = tr.nodes; edges = tr.edges; per_operator = tr.per_operator }
      → length new.output_changes ≡ length tr.output_changes
      → IsComplete path ls tr
      → IsComplete path ls new
  unfolding successors
  IsComplete-same path ls tr new q m c = subst (IsComplete path ls) (sym q) (record {
    distinct = c.distinct;
    listed = c.listed;
    connected = c.connected;
    arriving = c.arriving;
    steady = c.steady;
    projected = λ l info h. omega (arith, c.projected l info h, m);
  })
