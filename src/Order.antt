-- ===== src/Order.antt =====
-- timely/src/order.rs: partially ordered types, and the product order of nested timestamps.
pub mod Product
pub mod Derived
pub mod Sequence
use timely_mirror.Prelude.{
  ℕ, ◌≡◌, refl, ◌↔◌, ◌⊎◌, inl, inr, ◌≢◌, Bool, true, false, ◌&&◌, not, leb, ltb, leb_iff, ltb_iff,
  ==_iff, arith, Bool-cases,
}
use timely_mirror.Prelude.{◌==◌ as nat_eq_test}

-- `PartialEq` and `Eq` of the standard library: a test that decides equality.
pub record Eq {ℓ} (A : Type ℓ) : Type ℓ where
  pub eq : A → A → Bool
  pub eq_iff : (a b : A) → (eq a b ≡ true) ↔ (a ≡ b)

-- The trait `PartialOrder`. An implementation may give its own `less_than`, so it is a method with
-- a law, and `default_less_than` is the body that the trait provides.
pub record PartialOrder {ℓ} (A : Type ℓ) : Type ℓ where
  pub less_equal : A → A → Bool
  pub less_than : A → A → Bool
  pub less_equal_refl : (a : A) → less_equal a a ≡ true
  pub less_equal_trans :
      (a b c : A) → less_equal a b ≡ true → less_equal b c ≡ true → less_equal a c ≡ true
  pub less_equal_antisymm : (a b : A) → less_equal a b ≡ true → less_equal b a ≡ true → a ≡ b
  pub less_than_iff : (a b : A) → (less_than a b ≡ true) ↔ ((less_equal a b ≡ true) × (a ≢ b))

-- `Ord` of the standard library, by the test `a.cmp(b) != Greater`.
pub record Ord {ℓ} (A : Type ℓ) : Type ℓ where
  pub le : A → A → Bool
  pub le_total : (a b : A) → (le a b ≡ true) ⊎ (le b a ≡ true)
  pub le_trans : (a b c : A) → le a b ≡ true → le b c ≡ true → le a c ≡ true
  pub le_antisymm : (a b : A) → le a b ≡ true → le b a ≡ true → a ≡ b

-- `Timestamp` asks for both orders, and sorted times are scanned as if the total order extended
-- the partial one.
pub record IsExtension {ℓ} (A : Type ℓ) (p : PartialOrder A) (o : Ord A) : Type ℓ where
  pub extends : (a b : A) → p.less_equal a b ≡ true → o.le a b ≡ true

module _ {ℓ} {A : Type ℓ} ⦃e : Eq A⦄ where
  abbrev pub default_less_than : (A → A → Bool) → A → A → Bool
  default_less_than less_equal a b = less_equal a b && not (e.eq a b)

  pub eq_refl : (a : A) → e.eq a a ≡ true
  eq_refl a = (e.eq_iff a a).1 refl

  pub eq-eq_of_ne : (a b : A) → a ≢ b → e.eq a b ≡ false
  eq-eq_of_ne a b h = elim (Bool-cases (e.eq a b)) [
    | inl same ↦ absurd (h ((e.eq_iff a b).0 same))
    | inr other ↦ other
  ]

  pub default_less_than_iff :
      (less_equal : A → A → Bool) (a b : A)
      → (default_less_than less_equal a b ≡ true) ↔ ((less_equal a b ≡ true) × (a ≢ b))
  default_less_than_iff less_equal a b = (
    λ h. (ground arith, λ same. ground (arith, (e.eq_iff a b).1 same)),
    λ h. ground (arith, h.0, eq-eq_of_ne a b h.1),
  )

-- The unsigned integers, by `implement_partial!` and `implement_total!`.
instance abbrev pub nat_eq : Eq ℕ
nat_eq = record { eq = nat_eq_test; eq_iff = ==_iff }

pub nat_trans : (a b c : ℕ) → leb a b ≡ true → leb b c ≡ true → leb a c ≡ true
nat_trans a b c h k = ground arith

pub nat_antisymm : (a b : ℕ) → leb a b ≡ true → leb b a ≡ true → a ≡ b
nat_antisymm a b h k = ground arith

pub nat_refl : (a : ℕ) → leb a a ≡ true
nat_refl a = ground arith

pub nat_lt : (a b : ℕ) → (ltb a b ≡ true) ↔ ((leb a b ≡ true) × (a ≢ b))
nat_lt a b = (λ h. (ground arith, λ e. ground arith), λ h. ground (arith, h.1))

pub nat_total : (a b : ℕ) → (leb a b ≡ true) ⊎ (leb b a ≡ true)
nat_total a b = ground arith

instance abbrev pub nat_partial_order : PartialOrder ℕ
nat_partial_order = record {
  less_equal = leb;
  less_than = ltb;
  less_equal_refl = nat_refl;
  less_equal_trans = nat_trans;
  less_equal_antisymm = nat_antisymm;
  less_than_iff = nat_lt;
}

instance abbrev pub nat_ord : Ord ℕ
nat_ord = record {
  le = leb;
  le_total = nat_total;
  le_trans = nat_trans;
  le_antisymm = nat_antisymm;
}

-- On the integers the two orders are one, so `TotalOrder` holds.
pub nat-IsExtension : IsExtension ℕ nat_partial_order nat_ord
nat-IsExtension = record { extends = λ a b h. h }
