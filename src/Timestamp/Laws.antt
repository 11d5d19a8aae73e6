-- ===== src/Timestamp/Laws.antt =====
-- The laws of path summaries, for the unsigned integers and for `Product`.
use timely_mirror.Prelude.{ℕ, ◌+◌, ◌≡◌, some, arith}
use timely_mirror.Order.{Eq, PartialOrder, nat_partial_order}
use timely_mirror.Order.Product.{Product, product_partial_order}
use timely_mirror.Timestamp.{
  PathSummary, checked_add, integer_summary, product_results_in, product_followed_by,
  product_summary, IsAction, IsMonotone,
}

-- For unsigned integers of any width: adding in two checked steps gives what adding the checked sum
-- gives, and both overflow together.
pub integer-IsAction : (w : ℕ) → IsAction (integer_summary w)
unfolding checked_add
integer-IsAction w s u t = ground arith

pub integer-IsMonotone : (w : ℕ) → IsMonotone nat_partial_order (integer_summary w)
unfolding checked_add
integer-IsMonotone w s t t' r' h k = (s + t, ground arith, ground arith)

module _ {ℓ κ μ ν} {S : Type ℓ} {T : Type κ} {S' : Type μ} {T' : Type ν} (p : PathSummary S T)
    (q : PathSummary S' T') where
  -- Summaries of nested scopes compose if those of the two scopes do.
  pub product-IsAction : IsAction p → IsAction q → IsAction (product_summary p q)
  unfolding product_results_in product_followed_by
  product-IsAction f g s u t = ground (arith, f s.outer u.outer t.outer, g s.inner u.inner t.inner)

  -- A result of the pair has the results of the parts for its parts.
  pub product_results_in-eq_some :
      (s : Product S S') (t r : Product T T')
      → product_results_in p q s t ≡ some r
      → (p.results_in s.outer t.outer ≡ some r.outer)
        × (q.results_in s.inner t.inner ≡ some r.inner)
  unfolding product_results_in
  product_results_in-eq_some s t r h = ground arith

  pub product-IsMonotone :
      ⦃a : Eq T⦄ ⦃b : Eq T'⦄ ⦃o : PartialOrder T⦄ ⦃o' : PartialOrder T'⦄
      → IsMonotone o p
      → IsMonotone o' q
      → IsMonotone product_partial_order (product_summary p q)
  unfolding product_results_in
  product-IsMonotone f g s t t' r' h k =
      let (kp, kq) = product_results_in-eq_some s t' r' k in
      let (x, ex, lx) = f s.outer t.outer t'.outer r'.outer (ground arith) kp in
      let (y, ey, ly) = g s.inner t.inner t'.inner r'.inner (ground arith) kq in
      (record { outer = x; inner = y }, rw (ex, ey), ground arith)
