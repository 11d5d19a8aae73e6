-- ===== src/Capability/Set.antt =====
-- `CapabilitySet` of timely/src/dataflow/operators/capability.rs.
pub mod Balance
pub mod Downgrade
pub mod Insert
use timely_mirror.Prelude.{
  ℕ, Bool, true, false, not, Option, none, some, List, [], ◌∷◌, ◌++◌, if◌then◌else◌, any, retain,
  length, take, drop, and_then, map_option,
}
use timely_mirror.Order.{Eq, Ord, PartialOrder}
use timely_mirror.Capability.{Cells, Capability, capability_less_equal, delayed, drop_capability}

pub record CapabilitySet {ℓ} (T : Type ℓ) : Type ℓ where
  pub elements : List (Capability T)

module _ {ℓ} {T : Type ℓ} where
  abbrev pub new : CapabilitySet T
  new = record { elements = [] }

  abbrev pub from_elem : Capability T → CapabilitySet T
  from_elem cap = record { elements = cap ∷ [] }

  abbrev pub find : (Capability T → Bool) → List (Capability T) → Option (Capability T)
  find test [] = none
  find test (c ∷ cs) = if test c then some c else find test cs

module _ {ℓ} {T : Type ℓ} ⦃e : Eq T⦄ ⦃o : Ord T⦄ where
  -- The capabilities that a vector gives up are dropped, in order.
  unfoldable pub drop_all : List (Capability T) → Cells T → Cells T
  drop_all [] cells = cells
  drop_all (c ∷ cs) cells = drop_all cs (drop_capability c cells)

  module _ ⦃p : PartialOrder T⦄ where
    unfoldable pub insert : CapabilitySet T → Capability T → Cells T → Cells T × CapabilitySet T
    unfolding drop_all
    insert s capability cells =
        if not (any (λ c. capability_less_equal c capability) s.elements)
        then (
          drop_all (retain (λ c. capability_less_equal capability c) s.elements) cells,
          record {
            elements =
                retain (λ c. not (capability_less_equal capability c)) s.elements
                ++ capability ∷ [];
          },
        )
        else (drop_capability capability cells, s)

    -- `none` is the panic of `unwrap` where no element is less or equal to the time.
    unfoldable pub set_delayed : CapabilitySet T → T → Cells T → Option (Cells T × Capability T)
    set_delayed s time cells =
        and_then (find (λ c. p.less_equal c.time time) s.elements) (λ c. delayed c time cells)

    -- The loop over the frontier, which appends to the elements.
    unfoldable pub push_delayed :
        List T → CapabilitySet T → Cells T → Option (Cells T × CapabilitySet T)
    unfolding set_delayed
    push_delayed [] s cells = some (cells, s)
    push_delayed (time ∷ frontier) s cells =
        and_then (set_delayed s time cells)
          (λ r. push_delayed frontier (record { elements = s.elements ++ r.1 ∷ [] }) r.0)

    unfoldable pub set_downgrade :
        CapabilitySet T → List T → Cells T → Option (Cells T × CapabilitySet T)
    unfolding push_delayed drop_all
    set_downgrade s frontier cells =
        let count = length s.elements in
        map_option
          (λ r.
            (drop_all (take count r.1.elements) r.0, record { elements = drop count r.1.elements }))
          (push_delayed frontier s cells)
