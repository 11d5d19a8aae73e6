-- ===== src/Tests/Antichains.antt =====
-- `Antichain` at concrete inputs.
use timely_mirror.Prelude.{ℕ, ◌≡◌, ◌↔◌, refl, true, [], ◌∷◌, here, there, ◌||◌, any, all, not}
use timely_mirror.Order.{nat_eq, nat_partial_order, nat_ord}
use timely_mirror.Order.Product.{Product, product_eq, product_partial_order, product_less_equal}
use timely_mirror.Distinct.{IsContained}
use timely_mirror.Antichain.{
  Antichain, extend, less_equal, antichain_less_equal, antichain_eq, from_vec,
}
use timely_mirror.Antichain.Insert.{IsAntichain, extend_lem}
use timely_mirror.Antichain.Compare.{
  antichain_eq_iff, antichain_less_equal_iff, antichain_less_equal_antisymm, from_vec-eq_of_same,
}

abbrev pair : ℕ → ℕ → Product ℕ ℕ
pair a b = record { outer = a; inner = b }

abbrev left : Antichain (Product ℕ ℕ)
left = record { elements = pair 0 3 ∷ pair 2 1 ∷ [] }

abbrev right : Antichain (Product ℕ ℕ)
right = record { elements = pair 2 1 ∷ pair 0 3 ∷ [] }

left-IsAntichain : IsAntichain left
left-IsAntichain = (((refl, refl), tt), (tt, tt))

right-IsAntichain : IsAntichain right
right-IsAntichain = (((refl, refl), tt), (tt, tt))

from_vec-pairs : from_vec (pair 2 5 ∷ pair 0 3 ∷ pair 2 1 ∷ []) ≡ left
unfolding from_vec
from_vec-pairs = refl

antichain_eq-left : antichain_eq left right ≡ true
unfolding antichain_eq
antichain_eq-left = refl

antichain_eq_iff_example :
    (antichain_eq left right ≡ true) ↔ ((t : Product ℕ ℕ) → less_equal left t ≡ less_equal right t)
antichain_eq_iff_example = antichain_eq_iff left right left-IsAntichain right-IsAntichain

antichain_less_equal_iff_example :
    (antichain_less_equal left right ≡ true)
    ↔ ((t : Product ℕ ℕ) → less_equal right t ≡ true → less_equal left t ≡ true)
antichain_less_equal_iff_example = antichain_less_equal_iff left right

antichain_less_equal_antisymm_example : antichain_eq left right ≡ true
unfolding antichain_less_equal
antichain_less_equal_antisymm_example =
    antichain_less_equal_antisymm left right left-IsAntichain right-IsAntichain refl refl

swapped : (x y : ℕ) → IsContained (x ∷ y ∷ []) (y ∷ x ∷ [])
swapped x y z (here h) = there (here h)
swapped x y z (there (here h)) = here h
swapped x y z (there (there m)) = elim m [ ]

from_vec-eq_of_same_example :
    antichain_eq {A = ℕ} (from_vec (5 ∷ 3 ∷ [])) (from_vec (3 ∷ 5 ∷ [])) ≡ true
from_vec-eq_of_same_example =
    from_vec-eq_of_same (5 ∷ 3 ∷ []) (3 ∷ 5 ∷ []) (swapped 5 3) (swapped 3 5)

extend_lem_example :
    IsAntichain (extend left (pair 1 1 ∷ [])).0
    × ((t : Product ℕ ℕ)
        → less_equal (extend left (pair 1 1 ∷ [])).0 t
          ≡ (less_equal left t || any (λ x. product_less_equal x t) (pair 1 1 ∷ [])))
    × ((extend left (pair 1 1 ∷ [])).1 ≡ not (all (less_equal left) (pair 1 1 ∷ [])))
extend_lem_example = extend_lem left (pair 1 1 ∷ []) left-IsAntichain
