-- ===== src/Reachability/Queries.antt =====
-- What a `Tracker` answers, and the calls that buffer changes.
use timely_mirror.Prelude.{
  ◌∙◌, if◌then◌else◌, ◌&&◌, ◌==◌, ℕ, ◌<◌, ◌≡◌, ◌↔◌, subst, true, false, any-witness, any_of_elem,
  Memᴰ, arith, Bool-cases, inl, inr,
}
use timely_mirror.Order.{Eq, PartialOrder, Ord}
use timely_mirror.Order.Derived.{tuple_eq, tuple_ord}
use timely_mirror.Int64.{wrapping_add, modulus, is_positive}
use timely_mirror.Updates.{count}
use timely_mirror.ChangeBatch.{is_empty}
use timely_mirror.ChangeBatch.Totals.{total, total-update}
use timely_mirror.ChangeBatch.Valid.{IsValid, update-IsValid}
use timely_mirror.ChangeBatch.Empty.{is_empty_iff}
use timely_mirror.ChangeBatch.Keys.{All-update}
use timely_mirror.Antichain.Compare.{AllIncomparable-eq}
use timely_mirror.MutableAntichain.{MutableAntichain, less_than}
use timely_mirror.MutableAntichain.Frontier.{Tracks}
use timely_mirror.MutableAntichain.Queries.{count_for-eq}
use timely_mirror.Location.{
  Port, Source, Target, target, source, port_eq, source_eq, source_ord, target_eq, target_ord,
}
use timely_mirror.Reachability.{
  PortInformation, Tracker, is_global_at, tracking_anything, update_at, update_target,
  update_source,
}
use timely_mirror.Reachability.Ports.{HasPort}
use timely_mirror.Reachability.Propagate.{IsReady}

module _ {ℓ} {T : Type ℓ} ⦃e : Eq T⦄ ⦃p : PartialOrder T⦄ where
  -- An element of the frontier has none before it.
  not_dominated :
      (m : MutableAntichain T) (t : T)
      → Tracks m.frontier m.updates
      → Memᴰ t m.frontier
      → less_than m t ≡ false
  not_dominated m t h k = elim (Bool-cases (less_than m t)) [
    | inl dominated ↦
        let (f, i, lt) = any-witness (λ f. p.less_than f t) m.frontier dominated in
        let (le, ne) = (p.less_than_iff f t).0 lt in
        absurd (ne (AllIncomparable-eq m.frontier f t h.incomparable i k le))
    | inr minimal ↦ minimal
  ]

  -- A counted time that none is before is an element.
  mem_of_not_dominated :
      (m : MutableAntichain T) (t : T)
      → Tracks m.frontier m.updates
      → is_positive (count t m.updates) ≡ true
      → less_than m t ≡ false
      → Memᴰ t m.frontier
  mem_of_not_dominated m t h c q =
      let (f, i, le) = any-witness (λ f. p.less_equal f t) m.frontier (h.covers t c) in
      elim (Bool-cases (e.eq f t)) [
        | inl same ↦ subst (λ x. Memᴰ x m.frontier) ((e.eq_iff f t).0 same) i
        | inr other ↦
            let lt = (p.less_than_iff f t).1 (le, λ same. ground (arith, (e.eq_iff f t).1 same)) in
            absurd (ground (arith, any_of_elem (λ g. p.less_than g t) f m.frontier i lt))
      ]

module _ {κ ℓ} {S : Type κ} {T : Type ℓ} ⦃e : Eq T⦄ ⦃p : PartialOrder T⦄ where
  -- With no dirty implication, which the code asserts, and a frontier of the implications that
  -- tracks their counts, `is_global` is true of a time with a positive count exactly if the time is
  -- an element of the frontier and counts one. So it is false of an element that counts more than
  -- one, although no time with a positive count is less.
  pub is_global_at_iff :
      (info : PortInformation S T) (t : T)
      → info.implications.dirty ≡ 0
      → Tracks info.implications.frontier info.implications.updates
      → is_positive (count t info.implications.updates) ≡ true
      → (is_global_at info t ≡ true)
        ↔ (Memᴰ t info.implications.frontier × (count t info.implications.updates ≡ 1))
  unfolding is_global_at
  is_global_at_iff info t clean h c = rw (count_for-eq info.implications t) (
    λ q. (mem_of_not_dominated info.implications t h c (ground (arith, c)), ground (arith, c)),
    λ q. rw (not_dominated info.implications t h q.0) (ground (arith, c, q.1)),
  )

module _ {κ ℓ} {S : Type κ} {T : Type ℓ} ⦃e : Eq T⦄ ⦃p : PartialOrder T⦄ ⦃o : Ord T⦄ where
  -- With valid batches, the tracker says that it tracks nothing exactly if the buffered changes add up
  -- to zero at every place and time and `total_counts` is not positive.
  pub tracking_anything_iff :
      (tr : Tracker S T)
      → IsValid tr.source_changes
      → IsValid tr.target_changes
      → ((tracking_anything tr).1 ≡ false) ↔ (
          ((x : Source × T) → total x tr.source_changes ≡ 0)
          × ((x : Target × T) → total x tr.target_changes ≡ 0)
          × (is_positive tr.total_counts ≡ false))
  unfolding tracking_anything
  tracking_anything_iff tr v w =
      let source_iff = is_empty_iff tr.source_changes v in
      let target_iff = is_empty_iff tr.target_changes w in
      elim (Bool-cases (is_empty tr.source_changes).1) [
        | inl no_source ↦ elim (Bool-cases (is_empty tr.target_changes).1) [
          | inl no_target ↦
              rw (no_source, no_target)
                (
                  λ q. (source_iff.0 no_source, target_iff.0 no_target, ground (arith, q)),
                  λ q. ground (arith, q.2),
                )
          | inr some_target ↦
              rw (no_source, some_target)
                (
                  λ q. absurd (ground (arith, q)),
                  λ q. absurd (ground (arith, some_target, target_iff.1 q.1)),
                )
        ]
        | inr some_source ↦ rw some_source (
          λ q. absurd (ground (arith, q)),
          λ q. absurd (ground (arith, some_source, source_iff.1 q.0)),
        )
      ]

  -- What the buffered changes add up to at a port and time.
  abbrev pub buffered : Tracker S T → ℕ → Port → T → ℕ
  buffered tr node (target port) t =
      total (record { node = node; port = port }, t) tr.target_changes
  buffered tr node (source port) t =
      total (record { node = node; port = port }, t) tr.source_changes

  IsReady-update_at :
      (tr : Tracker S T) (node : ℕ) (port : Port) (t : T) (v : ℕ)
      → 0 < v
      → v < modulus
      → HasPort tr.per_operator (record { node = node; port = port })
      → IsReady tr
      → IsReady (update_at tr node port t v)
  unfolding update_target update_source
  IsReady-update_at tr node (target port) t v h r q ready = record {
    targets =
        update-IsValid tr.target_changes (record { node = node; port = port }, t) v h r
          ready.targets;
    targets_placed =
        All-update _ tr.target_changes (record { node = node; port = port }, t) v q
          ready.targets_placed;
    sources = ready.sources;
    sources_placed = ready.sources_placed;
  }
  IsReady-update_at tr node (source port) t v h r q ready = record {
    targets = ready.targets;
    targets_placed = ready.targets_placed;
    sources =
        update-IsValid tr.source_changes (record { node = node; port = port }, t) v h r
          ready.sources;
    sources_placed =
        All-update _ tr.source_changes (record { node = node; port = port }, t) v q
          ready.sources_placed;
  }

  buffered-update_at :
      (tr : Tracker S T) (node : ℕ) (port : Port) (t : T) (v m : ℕ) (other : Port) (s : T)
      → buffered (update_at tr node port t v) m other s ≡ (
          if node == m && port_eq.eq port other && e.eq t s
          then wrapping_add (buffered tr m other s) v
          else buffered tr m other s)
  unfolding update_target update_source
  buffered-update_at tr node (target port) t v m (target other) s =
      total-update (record { node = m; port = other }, s) tr.target_changes
        (record { node = node; port = port }, t) v
      ∙ ground arith
  buffered-update_at tr node (source port) t v m (source other) s =
      total-update (record { node = m; port = other }, s) tr.source_changes
        (record { node = node; port = port }, t) v
      ∙ ground arith
  buffered-update_at tr node (target port) t v m (source other) s = ground arith
  buffered-update_at tr node (source port) t v m (target other) s = ground arith

  -- Buffering a change other than zero, at a port that exists, adds it to what is buffered at that port
  -- and time, modulo 2^64, and changes nothing of what is buffered elsewhere. The buffered changes
  -- stay valid batches that name ports of the graph.
  pub update_at-IsReady :
      (tr : Tracker S T) (node : ℕ) (port : Port) (t : T) (v : ℕ)
      → 0 < v
      → v < modulus
      → HasPort tr.per_operator (record { node = node; port = port })
      → IsReady tr
      → IsReady (update_at tr node port t v)
        × ((m : ℕ) (other : Port) (s : T)
            → buffered (update_at tr node port t v) m other s ≡ (
                if node == m && port_eq.eq port other && e.eq t s
                then wrapping_add (buffered tr m other s) v
                else buffered tr m other s))
  update_at-IsReady tr node port t v h r q ready =
      (IsReady-update_at tr node port t v h r q ready, buffered-update_at tr node port t v)
