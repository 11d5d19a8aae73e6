-- ===== src/Tests/Timestamps.antt =====
-- Timestamps and their summaries at concrete inputs.
use timely_mirror.Prelude.{ℕ, ◌≡◌, refl, none, and_then}
use timely_mirror.Order.{nat_eq, nat_partial_order, nat_ord, nat-IsExtension, IsExtension}
use timely_mirror.Order.Product.{Product, product_partial_order, product_ord, product-IsExtension}
use timely_mirror.Timestamp.{checked_add, integer_summary, product_summary, IsAction, IsMonotone}
use timely_mirror.Timestamp.Laws.{
  integer-IsAction, integer-IsMonotone, product-IsAction, product-IsMonotone,
}

checked_add-overflow : checked_add 8 200 100 ≡ none
unfolding checked_add
checked_add-overflow = refl

integer-IsAction_example :
    and_then (checked_add 8 3 4) (λ w. checked_add 8 w 250)
    ≡ and_then (checked_add 8 3 250) (checked_add 8 4)
integer-IsAction_example = integer-IsAction 8 3 4 250

product-IsAction_example : IsAction (product_summary (integer_summary 64) (integer_summary 32))
product-IsAction_example =
    product-IsAction (integer_summary 64) (integer_summary 32) (integer-IsAction 64)
      (integer-IsAction 32)

product-IsMonotone_example :
    IsMonotone
      (product_partial_order {A = ℕ} {B = ℕ})
      (product_summary (integer_summary 64) (integer_summary 32))
product-IsMonotone_example =
    product-IsMonotone (integer_summary 64) (integer_summary 32) (integer-IsMonotone 64)
      (integer-IsMonotone 32)

product-IsExtension_example : IsExtension (Product ℕ ℕ) product_partial_order product_ord
product-IsExtension_example = product-IsExtension nat-IsExtension nat-IsExtension
