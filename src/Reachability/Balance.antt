-- ===== src/Reachability/Balance.antt =====
-- What the loop of `propagate_all` maintains: at each location, the counts of the implications and the
-- pending work make up for the pointstamps there and for what arrives from everywhere else.
use timely_mirror.Prelude.{ℕ, ◌%◌, ◌≡◌, List, All}
use timely_mirror.Order.{Eq, PartialOrder, Ord}
use timely_mirror.Order.Derived.{tuple_eq, tuple_ord}
use timely_mirror.Int64.{wrapping_add, modulus}
use timely_mirror.Updates.{count}
use timely_mirror.Updates.Compact.{InRange}
use timely_mirror.Timestamp.{PathSummary}
use timely_mirror.MutableAntichain.Changes.{occurrences}
use timely_mirror.Location.{Location, location_eq, location_ord}
use timely_mirror.Reachability.{Tracker, Worklist}
use timely_mirror.Reachability.Ports.{HasPort}
use timely_mirror.Reachability.Outflow.{outflow, total_size}
use timely_mirror.Reachability.Shape.{implications_at, pointstamps_at, next, IsComplete}

module _ {κ ℓ} {S : Type κ} {T : Type ℓ} where
  abbrev pub implied : Tracker S T → Location → List T
  implied tr k = (implications_at tr k).frontier

  abbrev pub active : Tracker S T → Location → List T
  active tr k = (pointstamps_at tr k).frontier

module _ {κ ℓ} {S : Type κ} {T : Type ℓ} ⦃e : Eq T⦄ where
  -- The reported changes turn the frontiers of the base into those of the tracker.
  abbrev pub Reports : (Location → List T) → Tracker S T → Type ℓ
  Reports base tr =
      (t : T) (l : Location)
      → wrapping_add (occurrences t (base l)) (count (l, t) tr.pushed_changes.updates)
        ≡ occurrences t (implied tr l)

module _ {κ ℓ} {S : Type κ} {T : Type ℓ} ⦃e : Eq T⦄ ⦃p : PartialOrder T⦄ ⦃o : Ord T⦄
    (path : PathSummary S T) (ls : List Location) where
  -- The balance, with the given work pending.
  abbrev pub Balances : Tracker S T → Worklist T → Type ℓ
  Balances tr w =
      (t : T) (l : Location)
      → wrapping_add (count t (implications_at tr l).updates) (count (t, l) w)
        ≡ wrapping_add (occurrences t (active tr l))
            (count (t, l) (outflow (next path tr) (implied tr) ls))

  -- Over a complete graph: the worklist names ports and holds `i64` values, the tracker balances, it
  -- reports the changes since the base, the counts of the pointstamps are the given ones, and
  -- `total_counts` is how many elements their frontiers have.
  pub record IsBalanced (base : Location → List T) (stamped : Location → T → ℕ) (tr : Tracker S T)
      : Type (ℓ ⊔ κ) where
    pub complete : IsComplete path ls tr
    pub placed : All (λ u. HasPort tr.per_operator u.0.1) tr.worklist
    pub in_range : InRange tr.worklist
    pub balanced : Balances tr tr.worklist
    pub reported : Reports base tr
    pub stamps : (t : T) (l : Location) → count t (pointstamps_at tr l).updates ≡ stamped l t
    pub tally : tr.total_counts ≡ total_size (active tr) ls % modulus
