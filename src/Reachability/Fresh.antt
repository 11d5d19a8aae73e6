-- ===== src/Reachability/Fresh.antt =====
-- A tracker with nothing in it is balanced.
use timely_mirror.Prelude.{◌≡◌, sym, subst, ap, fun_ext, Option, List, [], All, arith}
use timely_mirror.Order.{Eq, PartialOrder, Ord}
use timely_mirror.Order.Derived.{tuple_eq, tuple_ord}
use timely_mirror.Int64.{wrapping_add}
use timely_mirror.Updates.{count, each}
use timely_mirror.Updates.Compact.{InRange}
use timely_mirror.Timestamp.{PathSummary}
use timely_mirror.ChangeBatch
use timely_mirror.MutableAntichain.{MutableAntichain}
use timely_mirror.MutableAntichain
use timely_mirror.Location.{Location, location_eq, location_ord}
use timely_mirror.Reachability.{PortInformation, Tracker, port_at}
use timely_mirror.Reachability.Ports.{HasPort}
use timely_mirror.Reachability.Outflow.{outflow, outflow_nothing, total_size, total_size_nothing}
use timely_mirror.Reachability.Shape.{implications_in, pointstamps_in, next, IsComplete}
use timely_mirror.Reachability.Balance.{implied, active, IsBalanced}

module _ {κ ℓ} {S : Type κ} {T : Type ℓ} where
  -- No port counts anything.
  abbrev pub IsFresh : Option (PortInformation S T) → Type ℓ
  IsFresh found =
      (implications_in found ≡ MutableAntichain.new) × (pointstamps_in found ≡ MutableAntichain.new)

module _ {κ ℓ} {S : Type κ} {T : Type ℓ} ⦃e : Eq T⦄ ⦃p : PartialOrder T⦄ ⦃o : Ord T⦄
    (path : PathSummary S T) (ls : List Location) where
  -- A tracker over a complete graph whose ports have new pointstamps and implications, with an empty
  -- worklist, no pushed changes and `total_counts` zero, is balanced.
  pub fresh-IsBalanced :
      (tr : Tracker S T)
      → IsComplete path ls tr
      → ((l : Location) → IsFresh (port_at tr.per_operator l))
      → tr.worklist ≡ []
      → tr.pushed_changes ≡ ChangeBatch.new
      → tr.total_counts ≡ 0
      → IsBalanced path ls (λ l. []) (λ l t. 0) tr
  unfolding MutableAntichain.new ChangeBatch.new count wrapping_add
  fresh-IsBalanced tr c fresh no_work nothing zero_counts =
      let frontiers : implied tr ≡ (λ l. []) =
        fun_ext (λ l. ap (λ (m : MutableAntichain T). m.frontier) (fresh l).0) in
      let stamps : active tr ≡ (λ l. []) =
        fun_ext (λ l. ap (λ (m : MutableAntichain T). m.frontier) (fresh l).1) in
      record {
        complete = c;
        placed = subst (All (λ u. HasPort tr.per_operator u.0.1)) (sym no_work) tt;
        in_range = subst InRange (sym no_work) tt;
        balanced = λ t l. omega (
          arith,
          ap (λ (m : MutableAntichain T). count t m.updates) (fresh l).0,
          ap (count {A = T × Location} (t, l)) no_work,
          ap (λ (m : MutableAntichain T). count t (each m.frontier 1)) (fresh l).1,
          ap (λ F. count {A = T × Location} (t, l) (outflow (next path tr) F ls)) frontiers,
          ap (count {A = T × Location} (t, l)) (outflow_nothing (next path tr) ls),
        );
        reported = λ t l. omega (
          arith,
          ap (λ (m : MutableAntichain T). count t (each m.frontier 1)) (fresh l).0,
          ap (λ b. count {A = Location × T} (l, t) b.updates) nothing,
        );
        stamps = λ t l. ap (λ (m : MutableAntichain T). count t m.updates) (fresh l).1;
        tally =
            omega (arith, zero_counts, ap (λ F. total_size F ls) stamps, total_size_nothing T ls);
      }
