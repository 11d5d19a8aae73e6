-- ===== src/Order/Sequence.antt =====
-- `Eq` and `Ord` of slices and vectors of integers, from the standard library: lexicographic.
use timely_mirror.Prelude.{
  ℕ, ◌≡◌, ◌⊎◌, ◌↔◌, refl, subst, ap₂, Bool, true, false, List, [], ◌∷◌, ◌&&◌, if◌then◌else◌, ltb,
  ◌==◌, ==_iff, arith, inl, inr,
}
use timely_mirror.Order.{Eq, Ord}

abbrev pub list_beq : List ℕ → List ℕ → Bool
list_beq [] [] = true
list_beq [] (y ∷ ys) = false
list_beq (x ∷ xs) [] = false
list_beq (x ∷ xs) (y ∷ ys) = x == y && list_beq xs ys

abbrev pub list_le : List ℕ → List ℕ → Bool
list_le [] ys = true
list_le (x ∷ xs) [] = false
list_le (x ∷ xs) (y ∷ ys) = if x == y then list_le xs ys else ltb x y

list_beq_sound : (xs ys : List ℕ) → list_beq xs ys ≡ true → xs ≡ ys
list_beq_sound [] [] h = refl
list_beq_sound [] (y ∷ ys) h = absurd (ground arith)
list_beq_sound (x ∷ xs) [] h = absurd (ground arith)
list_beq_sound (x ∷ xs) (y ∷ ys) h =
    ap₂ ◌∷◌ ((==_iff x y).0 (ground arith)) (list_beq_sound xs ys (ground arith))

list_beq_refl : (xs : List ℕ) → list_beq xs xs ≡ true
list_beq_refl [] = refl
list_beq_refl (x ∷ xs) = ground (arith, list_beq_refl xs)

pub list_beq_iff : (xs ys : List ℕ) → (list_beq xs ys ≡ true) ↔ (xs ≡ ys)
list_beq_iff xs ys =
    (list_beq_sound xs ys, λ h. subst (λ zs. list_beq xs zs ≡ true) h (list_beq_refl xs))

pub list_le_total : (xs ys : List ℕ) → (list_le xs ys ≡ true) ⊎ (list_le ys xs ≡ true)
list_le_total [] ys = inl refl
list_le_total (x ∷ xs) [] = inr refl
list_le_total (x ∷ xs) (y ∷ ys) = ground (arith, list_le_total xs ys)

pub list_le_trans :
    (xs ys zs : List ℕ) → list_le xs ys ≡ true → list_le ys zs ≡ true → list_le xs zs ≡ true
list_le_trans [] ys zs h k = refl
list_le_trans (x ∷ xs) [] zs h k = absurd (ground arith)
list_le_trans (x ∷ xs) (y ∷ ys) [] h k = absurd (ground arith)
list_le_trans (x ∷ xs) (y ∷ ys) (z ∷ zs) h k = ground (arith, list_le_trans xs ys zs)

pub list_le_antisymm : (xs ys : List ℕ) → list_le xs ys ≡ true → list_le ys xs ≡ true → xs ≡ ys
list_le_antisymm [] [] h k = refl
list_le_antisymm [] (y ∷ ys) h k = absurd (ground arith)
list_le_antisymm (x ∷ xs) [] h k = absurd (ground arith)
list_le_antisymm (x ∷ xs) (y ∷ ys) h k = ground (arith, list_le_antisymm xs ys)

instance abbrev pub list_eq : Eq (List ℕ)
list_eq = record { eq = list_beq; eq_iff = list_beq_iff }

instance abbrev pub list_ord : Ord (List ℕ)
list_ord = record {
  le = list_le;
  le_total = list_le_total;
  le_trans = list_le_trans;
  le_antisymm = list_le_antisymm;
}
