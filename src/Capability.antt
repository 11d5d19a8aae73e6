-- ===== src/Capability.antt =====
-- timely/src/dataflow/operators/capability.rs: the permits to send at a time, and the changes that
-- tell of them.
pub mod Counted
pub mod Steps
pub mod Balance
pub mod Set
use timely_mirror.Prelude.{
  ℕ, Bool, true, false, not, Option, none, some, List, [], ◌∷◌, ◌++◌, ◌==◌, ◌&&◌, if◌then◌else◌,
  any, modify, map_option, get_elem?,
}
use timely_mirror.Order.{Eq, Ord, PartialOrder}
use timely_mirror.Int64.{minus_one}
use timely_mirror.ChangeBatch.{ChangeBatch, update}

-- The cells `Rc<RefCell<ChangeBatch<T>>>`, known by their position.
abbrev pub Cells {ℓ} : Type ℓ → Type ℓ
Cells T = List (ChangeBatch T)

pub record Capability {ℓ} (T : Type ℓ) : Type ℓ where
  pub time : T
  pub internal : ℕ

module _ {ℓ} {T : Type ℓ} where
  -- `Rc::ptr_eq` with a cell.
  abbrev pub valid_for_output : Capability T → ℕ → Bool
  valid_for_output c query_buffer = c.internal == query_buffer

  abbrev pub capability_less_equal : ⦃p : PartialOrder T⦄ → Capability T → Capability T → Bool
  capability_less_equal ⦃p⦄ c d = p.less_equal c.time d.time && c.internal == d.internal

  abbrev pub capability_eq : ⦃e : Eq T⦄ → Capability T → Capability T → Bool
  capability_eq ⦃e⦄ c d = e.eq c.time d.time && c.internal == d.internal

module _ {ℓ} {T : Type ℓ} ⦃e : Eq T⦄ ⦃o : Ord T⦄ where
  unfoldable pub mint : T → ℕ → Cells T → Cells T × Capability T
  mint time internal cells =
      (modify (λ b. update b time 1) cells internal, record { time = time; internal = internal })

  unfoldable pub drop_capability : Capability T → Cells T → Cells T
  drop_capability c cells = modify (λ b. update b c.time minus_one) cells c.internal

  unfoldable pub clone : Capability T → Cells T → Cells T × Capability T
  unfolding mint
  clone c cells = mint c.time c.internal cells

  module _ ⦃p : PartialOrder T⦄ where
    -- `none` is the panic on a time that is not beyond that of the capability.
    unfoldable pub delayed : Capability T → T → Cells T → Option (Cells T × Capability T)
    unfolding mint
    delayed c new_time cells =
        if not (p.less_equal c.time new_time) then none else some (mint new_time c.internal cells)

    -- The assignment drops the old capability.
    unfoldable pub downgrade : Capability T → T → Cells T → Option (Cells T × Capability T)
    unfolding delayed drop_capability
    downgrade c new_time cells =
        map_option (λ r. (drop_capability c r.0, r.1)) (delayed c new_time cells)

-- A capability that is not owned: a time, and the cells of all outputs.
pub record CapabilityRef {ℓ} (T : Type ℓ) : Type ℓ where
  pub time : T
  pub internal : List ℕ

module _ {ℓ} {T : Type ℓ} where
  abbrev pub mint_ref : T → List ℕ → CapabilityRef T
  mint_ref time internal = record { time = time; internal = internal }

  abbrev pub ref_valid_for_output : CapabilityRef T → ℕ → Bool
  ref_valid_for_output c query_buffer = any (λ rc. rc == query_buffer) c.internal

  module _ ⦃e : Eq T⦄ ⦃o : Ord T⦄ where
    -- `none` is the panic on a port that does not exist.
    unfoldable pub retain_for_output :
        CapabilityRef T → ℕ → Cells T → Option (Cells T × Capability T)
    unfolding mint
    retain_for_output c output_port cells =
        map_option (λ rc. mint c.time rc cells) (get_elem? c.internal output_port)

    unfoldable pub delayed_for_output :
        ⦃p : PartialOrder T⦄ → CapabilityRef T → T → ℕ → Cells T → Option (Cells T × Capability T)
    unfolding mint
    delayed_for_output ⦃p⦄ c new_time output_port cells =
        if not (p.less_equal c.time new_time)
        then none
        else map_option (λ rc. mint new_time rc cells) (get_elem? c.internal output_port)
