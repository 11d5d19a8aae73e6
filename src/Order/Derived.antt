-- ===== src/Order/Derived.antt =====
-- Derived `Eq` and `Ord` of the standard library: a struct, an enum or a tuple compares as the tuple
-- of its parts, an enum after the position of its variant.
use timely_mirror.Prelude.{◌≡◌, ap}
use timely_mirror.Order.{Eq, Ord}
use timely_mirror.Order.Product.{Product, product_eq, product_ord}

module _ {ℓ κ} {A : Type ℓ} {B : Type κ} (f : A → B)
    (injective : (x y : A) → f x ≡ f y → x ≡ y) where
  abbrev pub eq_by : Eq B → Eq A
  eq_by e = record {
    eq = λ x y. e.eq (f x) (f y);
    eq_iff = λ x y.
        (λ h. injective x y ((e.eq_iff (f x) (f y)).0 h), λ h. (e.eq_iff (f x) (f y)).1 (ap f h));
  }

  abbrev pub ord_by : Ord B → Ord A
  ord_by o = record {
    le = λ x y. o.le (f x) (f y);
    le_total = λ x y. o.le_total (f x) (f y);
    le_trans = λ x y z. o.le_trans (f x) (f y) (f z);
    le_antisymm = λ x y h k. injective x y (o.le_antisymm (f x) (f y) h k);
  }

module _ {ℓ κ} {A : Type ℓ} {B : Type κ} where
  abbrev pub tuple_parts : A × B → Product A B
  tuple_parts x = record { outer = x.0; inner = x.1 }

  pub tuple_parts_injective : (x y : A × B) → tuple_parts x ≡ tuple_parts y → x ≡ y
  tuple_parts_injective x y h = ap (λ (z : Product A B). (z.outer, z.inner)) h

  instance abbrev pub tuple_eq : ⦃a : Eq A⦄ ⦃b : Eq B⦄ → Eq (A × B)
  tuple_eq ⦃a⦄ ⦃b⦄ = eq_by tuple_parts tuple_parts_injective product_eq

  instance abbrev pub tuple_ord : ⦃a : Eq A⦄ ⦃o : Ord A⦄ ⦃r : Ord B⦄ → Ord (A × B)
  tuple_ord ⦃a⦄ ⦃o⦄ ⦃r⦄ = ord_by tuple_parts tuple_parts_injective product_ord
