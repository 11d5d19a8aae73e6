-- ===== src/Location.antt =====
-- `Location`, `Port`, `Source` and `Target` of timely/src/progress/mod.rs, with their derived orders.
use timely_mirror.Prelude.{ℕ, ◌≡◌, ap, Bool, true, false, arith}
use timely_mirror.Order.{Eq, Ord, nat_eq, nat_ord}
use timely_mirror.Order.Product.{Product, product_eq, product_ord}
use timely_mirror.Order.Derived.{eq_by, ord_by}

-- An operator's input or output, by its index.
pub data Port : Type 0 where
  target : ℕ → Port
  source : ℕ → Port

pub record Location : Type 0 where
  pub node : ℕ
  pub port : Port

pub record Source : Type 0 where
  pub node : ℕ
  pub port : ℕ

pub record Target : Type 0 where
  pub node : ℕ
  pub port : ℕ

abbrev pub new_target : ℕ → ℕ → Location
new_target node port = record { node = node; port = target port }

abbrev pub new_source : ℕ → ℕ → Location
new_source node port = record { node = node; port = source port }

is_target_port : Port → Bool
is_target_port (target _) = true
is_target_port (source _) = false

unfoldable pub is_target : Location → Bool
unfolding is_target_port
is_target l = is_target_port l.port

unfoldable pub is_source : Location → Bool
unfolding is_target_port
is_source l = elim l.port [ target _ ↦ false | source _ ↦ true ]

abbrev pub from_target : Target → Location
from_target t = record { node = t.node; port = target t.port }

abbrev pub from_source : Source → Location
from_source s = record { node = s.node; port = source s.port }

-- The derived orders compare the position of the variant, then its index.
abbrev pub port_parts : Port → Product ℕ ℕ
port_parts (target n) = record { outer = 0; inner = n }
port_parts (source n) = record { outer = 1; inner = n }

pub port_parts_injective : (x y : Port) → port_parts x ≡ port_parts y → x ≡ y
port_parts_injective (target n) (target m) h = ap (λ (z : Product ℕ ℕ). target z.inner) h
port_parts_injective (target n) (source m) h =
    absurd (omega (arith, ap (λ (z : Product ℕ ℕ). z.outer) h))
port_parts_injective (source n) (target m) h =
    absurd (omega (arith, ap (λ (z : Product ℕ ℕ). z.outer) h))
port_parts_injective (source n) (source m) h = ap (λ (z : Product ℕ ℕ). source z.inner) h

instance abbrev pub port_eq : Eq Port
port_eq = eq_by port_parts port_parts_injective product_eq

instance abbrev pub port_ord : Ord Port
port_ord = ord_by port_parts port_parts_injective product_ord

abbrev pub location_parts : Location → Product ℕ Port
location_parts l = record { outer = l.node; inner = l.port }

pub location_parts_injective : (x y : Location) → location_parts x ≡ location_parts y → x ≡ y
location_parts_injective x y h =
    ap (λ (z : Product ℕ Port). record { node = z.outer; port = z.inner }) h

instance abbrev pub location_eq : Eq Location
location_eq = eq_by location_parts location_parts_injective product_eq

instance abbrev pub location_ord : Ord Location
location_ord = ord_by location_parts location_parts_injective product_ord

abbrev pub source_parts : Source → Product ℕ ℕ
source_parts s = record { outer = s.node; inner = s.port }

pub source_parts_injective : (x y : Source) → source_parts x ≡ source_parts y → x ≡ y
source_parts_injective x y h =
    ap (λ (z : Product ℕ ℕ). let s : Source = record { node = z.outer; port = z.inner } in s) h

instance abbrev pub source_eq : Eq Source
source_eq = eq_by source_parts source_parts_injective product_eq

instance abbrev pub source_ord : Ord Source
source_ord = ord_by source_parts source_parts_injective product_ord

abbrev pub target_parts : Target → Product ℕ ℕ
target_parts t = record { outer = t.node; inner = t.port }

pub target_parts_injective : (x y : Target) → target_parts x ≡ target_parts y → x ≡ y
target_parts_injective x y h =
    ap (λ (z : Product ℕ ℕ). let t : Target = record { node = z.outer; port = z.inner } in t) h

instance abbrev pub target_eq : Eq Target
target_eq = eq_by target_parts target_parts_injective product_eq

instance abbrev pub target_ord : Ord Target
target_ord = ord_by target_parts target_parts_injective product_ord
