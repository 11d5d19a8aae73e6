-- ===== src/Order/Product.antt =====
-- `Product` of timely/src/order.rs: a nested pair of timestamps under the product order, and the
-- lexicographic `Ord` that is derived for it.
use timely_mirror.Prelude.{
  ◌≡◌, ap, ◌↔◌, ◌⊎◌, inl, inr, Bool, true, ◌&&◌, arith, Bool-cases, if◌then◌else◌,
}
use timely_mirror.Order.{
  Eq, PartialOrder, Ord, IsExtension, default_less_than, default_less_than_iff,
}

pub record Product {ℓ κ} (A : Type ℓ) (B : Type κ) : Type (ℓ ⊔ κ) where
  pub outer : A
  pub inner : B

module _ {ℓ κ} {A : Type ℓ} {B : Type κ} where
  pub Product_path : (x y : Product A B) → x.outer ≡ y.outer → x.inner ≡ y.inner → x ≡ y
  Product_path x y p q = λ i. record { outer = p i; inner = q i }

module _ {ℓ κ} {A : Type ℓ} {B : Type κ} ⦃a : Eq A⦄ ⦃b : Eq B⦄ where
  abbrev pub product_beq : Product A B → Product A B → Bool
  product_beq x y = a.eq x.outer y.outer && b.eq x.inner y.inner

  pub product_beq_iff : (x y : Product A B) → (product_beq x y ≡ true) ↔ (x ≡ y)
  product_beq_iff x y = (
    λ h. Product_path x y ((a.eq_iff _ _).0 (ground arith)) ((b.eq_iff _ _).0 (ground arith)),
    λ e. ground (
      arith,
      (a.eq_iff x.outer y.outer).1 (ap (λ z. z.outer) e),
      (b.eq_iff x.inner y.inner).1 (ap (λ z. z.inner) e),
    ),
  )

  instance abbrev pub product_eq : Eq (Product A B)
  product_eq = record { eq = product_beq; eq_iff = product_beq_iff }

module _ {ℓ κ} {A : Type ℓ} {B : Type κ} ⦃p : PartialOrder A⦄ ⦃q : PartialOrder B⦄ where
  abbrev pub product_less_equal : Product A B → Product A B → Bool
  product_less_equal x y = p.less_equal x.outer y.outer && q.less_equal x.inner y.inner

  pub product_refl : (x : Product A B) → product_less_equal x x ≡ true
  product_refl x = ground (arith, p.less_equal_refl x.outer, q.less_equal_refl x.inner)

  pub product_trans :
      (x y z : Product A B)
      → product_less_equal x y ≡ true
      → product_less_equal y z ≡ true
      → product_less_equal x z ≡ true
  product_trans x y z h k = ground (
    arith,
    p.less_equal_trans x.outer y.outer z.outer,
    q.less_equal_trans x.inner y.inner z.inner,
  )

  pub product_antisymm :
      (x y : Product A B) → product_less_equal x y ≡ true → product_less_equal y x ≡ true → x ≡ y
  product_antisymm x y h k =
      Product_path x y (p.less_equal_antisymm _ _ (ground arith) (ground arith))
        (q.less_equal_antisymm _ _ (ground arith) (ground arith))

module _ {ℓ κ} {A : Type ℓ} {B : Type κ} ⦃a : Eq A⦄ ⦃b : Eq B⦄ ⦃p : PartialOrder A⦄
    ⦃q : PartialOrder B⦄ where
  -- `Product` keeps the trait's own `less_than`.
  instance abbrev pub product_partial_order : PartialOrder (Product A B)
  product_partial_order = record {
    less_equal = product_less_equal;
    less_than = default_less_than product_less_equal;
    less_equal_refl = product_refl;
    less_equal_trans = product_trans;
    less_equal_antisymm = product_antisymm;
    less_than_iff = default_less_than_iff product_less_equal;
  }

-- The derived `Ord`: the outer times decide, and the inner ones where those are equal.
module _ {ℓ κ} {A : Type ℓ} {B : Type κ} ⦃a : Eq A⦄ ⦃o : Ord A⦄ ⦃r : Ord B⦄ where
  abbrev pub product_le : Product A B → Product A B → Bool
  product_le x y = if a.eq x.outer y.outer then r.le x.inner y.inner else o.le x.outer y.outer

  pub product_le_total : (x y : Product A B) → (product_le x y ≡ true) ⊎ (product_le y x ≡ true)
  product_le_total x y = ground (
    arith,
    a.eq_iff x.outer y.outer,
    a.eq_iff y.outer x.outer,
    o.le_total x.outer y.outer,
    r.le_total x.inner y.inner,
  )

  pub product_le_trans :
      (x y z : Product A B) → product_le x y ≡ true → product_le y z ≡ true → product_le x z ≡ true
  product_le_trans x y z h k = ground (
    arith,
    a.eq_iff x.outer y.outer,
    a.eq_iff y.outer z.outer,
    a.eq_iff x.outer z.outer,
    o.le_antisymm x.outer y.outer,
    o.le_trans x.outer y.outer z.outer,
    r.le_trans x.inner y.inner z.inner,
  )

  pub product_le_antisymm :
      (x y : Product A B) → product_le x y ≡ true → product_le y x ≡ true → x ≡ y
  product_le_antisymm x y h k = elim (Bool-cases (a.eq x.outer y.outer)) [
    | inl same ↦
        let e = (a.eq_iff x.outer y.outer).0 same in
        Product_path x y e
          (r.le_antisymm _ _ (ground arith) (ground (arith, a.eq_iff y.outer x.outer)))
    | inr other ↦ absurd (
        ground (
          arith,
          a.eq_iff x.outer y.outer,
          a.eq_iff y.outer x.outer,
          o.le_antisymm x.outer y.outer,
        ))
  ]

  instance abbrev pub product_ord : Ord (Product A B)
  product_ord = record {
    le = product_le;
    le_total = product_le_total;
    le_trans = product_le_trans;
    le_antisymm = product_le_antisymm;
  }

-- The derived lexicographic order extends the product order, if the orders of the parts do: so
-- times that ascend by `Ord` never displace one another in an antichain.
module _ {ℓ κ} {A : Type ℓ} {B : Type κ} ⦃a : Eq A⦄ ⦃b : Eq B⦄ ⦃p : PartialOrder A⦄
    ⦃q : PartialOrder B⦄ ⦃o : Ord A⦄ ⦃r : Ord B⦄ where
  pub product-IsExtension :
      IsExtension A p o
      → IsExtension B q r
      → IsExtension (Product A B) product_partial_order product_ord
  product-IsExtension f g = record {
    extends = λ x y h. ground (arith, f.extends x.outer y.outer, g.extends x.inner y.inner);
  }
