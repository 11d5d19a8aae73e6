-- ===== src/Timestamp.antt =====
-- timely/src/progress/timestamp.rs: path summaries, for the unsigned integers and for `Product`
-- (whose implementation stands in timely/src/order.rs).
pub mod Laws
use timely_mirror.Prelude.{
  ℕ, ◌+◌, ◌^◌, ◌≡◌, Bool, true, Option, none, some, ltb, if◌then◌else◌, and_then, map_option,
}
use timely_mirror.Order.{PartialOrder}
use timely_mirror.Order.Product.{Product}

-- The trait `PathSummary<T>` of summaries `S`; `none` is the result of a path that ends, for one
-- because the time would overflow.
pub record PathSummary {ℓ κ} (S : Type ℓ) (T : Type κ) : Type (ℓ ⊔ κ) where
  pub results_in : S → T → Option T
  pub followed_by : S → S → Option S

-- `checked_add` on integers of `w` bits.
unfoldable pub checked_add : ℕ → ℕ → ℕ → Option ℕ
checked_add w a b = if ltb (a + b) (2 ^ w) then some (a + b) else none

abbrev pub integer_summary : ℕ → PathSummary ℕ ℕ
integer_summary w = record { results_in = checked_add w; followed_by = checked_add w }

module _ {ℓ κ μ ν} {S : Type ℓ} {T : Type κ} {S' : Type μ} {T' : Type ν} (p : PathSummary S T)
    (q : PathSummary S' T') where
  unfoldable pub product_results_in : Product S S' → Product T T' → Option (Product T T')
  product_results_in s t = and_then (p.results_in s.outer t.outer) λ outer.
      map_option (λ inner. record { outer = outer; inner = inner }) (q.results_in s.inner t.inner)

  unfoldable pub product_followed_by : Product S S' → Product S S' → Option (Product S S')
  product_followed_by s u = and_then (p.followed_by s.outer u.outer) λ outer.
      map_option (λ inner. record { outer = outer; inner = inner }) (q.followed_by s.inner u.inner)

  abbrev pub product_summary : PathSummary (Product S S') (Product T T')
  product_summary = record { results_in = product_results_in; followed_by = product_followed_by }

-- What progress tracking relies on. Composing summaries is composing the paths, whichever of the
-- steps overflows.
abbrev pub IsAction {ℓ κ} : {S : Type ℓ} {T : Type κ} → PathSummary S T → Type (ℓ ⊔ κ)
IsAction {S} {T} p =
    (s u : S) (t : T)
    → and_then (p.followed_by s u) (λ w. p.results_in w t)
      ≡ and_then (p.results_in s t) (p.results_in u)

-- A path that accepts a time accepts every earlier one, and keeps their order.
abbrev pub IsMonotone {ℓ κ} :
    {S : Type ℓ} {T : Type κ} → PartialOrder T → PathSummary S T → Type (ℓ ⊔ κ)
IsMonotone {S} {T} o p =
    (s : S) (t t' r' : T)
    → o.less_equal t t' ≡ true
    → p.results_in s t' ≡ some r'
    → (r : T) × (p.results_in s t ≡ some r) × (o.less_equal r r' ≡ true)
