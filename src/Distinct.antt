-- ===== src/Distinct.antt =====
-- Lists without repetition, over a type with the test `eq`: one that is contained in another is no
-- longer than it.
use timely_mirror.Prelude.{
  ◌≤◌, ◌<◌, ◌≡◌, ◌≢◌, refl, sym, subst, Bool, true, List, [], ◌∷◌, arith, not, length, retain, All,
  Memᴰ, here, there, Memᴰ-retain_intro, All-elem, any, any-witness, any_of_elem, length-retain-le,
  Bool-cases, inl, inr,
}
use timely_mirror.Order.{Eq, eq_refl, eq-eq_of_ne}

module _ {ℓ} {A : Type ℓ} where
  abbrev pub IsDistinct : List A → Type ℓ
  IsDistinct [] = Unit
  IsDistinct (x ∷ xs) = All (λ y. x ≢ y) xs × IsDistinct xs

  abbrev pub IsContained : List A → List A → Type ℓ
  IsContained xs ys = (x : A) → Memᴰ x xs → Memᴰ x ys

module _ {ℓ} {A : Type ℓ} ⦃e : Eq A⦄ where
  remove : A → List A → List A
  remove a xs = retain (λ x. not (e.eq x a)) xs

  length-remove : (a : A) (xs : List A) → Memᴰ a xs → length (remove a xs) < length xs
  unfolding remove
  length-remove a [] m = elim m [ ]
  length-remove a (x ∷ xs) (here h) =
      let same : e.eq x a ≡ true = (e.eq_iff x a).1 (sym h) in
      rw same (omega (arith, length-retain-le (λ (y : A). not (e.eq y a)) xs))
  length-remove a (x ∷ xs) (there m) = elim (Bool-cases (e.eq x a)) [
    | inl same ↦ rw same (omega (arith, length-retain-le (λ (y : A). not (e.eq y a)) xs))
    | inr other ↦ rw other (omega (arith, length-remove a xs m))
  ]

  Memᴰ-remove : (a x : A) (xs : List A) → a ≢ x → Memᴰ x xs → Memᴰ x (remove a xs)
  unfolding remove
  Memᴰ-remove a x xs ne m =
      Memᴰ-retain_intro (λ y. not (e.eq y a)) x xs m (rw (eq-eq_of_ne x a (λ h. ne (sym h))))

  -- A contained list leaves room for every element that it lacks.
  pub length-le_of_IsContained :
      (xs ys : List A) → IsDistinct xs → IsContained xs ys → length xs ≤ length ys
  length-le_of_IsContained [] ys d c = omega arith
  length-le_of_IsContained (x ∷ xs) ys d c = omega (
    arith,
    length-le_of_IsContained xs (remove x ys) d.1
        (λ y m. Memᴰ-remove x y ys (All-elem (λ z. x ≢ z) y xs m d.0) (c y (there m))),
    length-remove x ys (c x (here refl)),
  )

  pub contains : List A → A → Bool
  contains xs a = any (λ x. e.eq a x) xs

  contains→Memᴰ : (xs : List A) (a : A) → contains xs a ≡ true → Memᴰ a xs
  unfolding contains
  contains→Memᴰ xs a h =
      let (x, m, same) = any-witness (λ x. e.eq a x) xs h in
      subst (λ y. Memᴰ y xs) (sym ((e.eq_iff a x).0 same)) m

  Memᴰ→contains : (xs : List A) (a : A) → Memᴰ a xs → contains xs a ≡ true
  unfolding contains
  Memᴰ→contains xs a m = any_of_elem (λ x. e.eq a x) a xs m (eq_refl a)

  -- If it is as long, it has every element.
  pub IsContained-of_length :
      (xs ys : List A)
      → IsDistinct xs
      → IsContained xs ys
      → length ys ≤ length xs
      → IsContained ys xs
  IsContained-of_length xs ys d c h y m = elim (Bool-cases (contains xs y)) [
    | inl held ↦ contains→Memᴰ xs y held
    | inr absent ↦ absurd (
        omega (
          arith,
          length-le_of_IsContained xs (remove y ys) d (λ x k.
              Memᴰ-remove y x ys
                (λ same. ground (arith, Memᴰ→contains xs y (subst (λ z. Memᴰ z xs) (sym same) k)))
                (c x k)),
          length-remove y ys m,
        ))
  ]
