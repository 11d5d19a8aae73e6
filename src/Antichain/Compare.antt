-- ===== src/Antichain/Compare.antt =====
-- The order and the equality of antichains are those of the sets of times that they are below.
use timely_mirror.Prelude.{
  ◌≡◌, ◌↔◌, refl, sym, subst, ap₂, ◌∙◌, Bool, true, List, [], ◌∷◌, any, all, All-mono, All-elem,
  Memᴰ, here, there, any-witness, any_of_elem, all_elem, all-intro, length, arith, Bool-cases,
  Bool-eq_of_iff, inl, inr,
}
use timely_mirror.Order.{Eq, PartialOrder, eq_refl}
use timely_mirror.Distinct.{
  IsDistinct, IsContained, length-le_of_IsContained, IsContained-of_length,
}
use timely_mirror.Antichain.{
  Antichain, less_equal, antichain_less_equal, from_vec, zip_all_eq, same_elements, antichain_eq,
}
use timely_mirror.Antichain.Insert.{
  IsIncomparable, AllIncomparable, IsAntichain, from_vec-IsAntichain, less_equal-from_vec,
}

module _ {ℓ} {A : Type ℓ} ⦃p : PartialOrder A⦄ where
  less_equal_of_mem :
      (a : Antichain A) (x t : A)
      → Memᴰ x a.elements
      → p.less_equal x t ≡ true
      → less_equal a t ≡ true
  unfolding less_equal
  less_equal_of_mem a x t m h = any_of_elem (λ y. p.less_equal y t) x a.elements m h

  less_equal-witness :
      (a : Antichain A) (t : A)
      → less_equal a t ≡ true
      → (x : A) × Memᴰ x a.elements × (p.less_equal x t ≡ true)
  unfolding less_equal
  less_equal-witness a t h = any-witness (λ y. p.less_equal y t) a.elements h

  -- One antichain is less than or equal to another exactly if it is below all that the other is below.
  pub antichain_less_equal_iff :
      (a b : Antichain A)
      → (antichain_less_equal a b ≡ true)
        ↔ ((t : A) → less_equal b t ≡ true → less_equal a t ≡ true)
  unfolding antichain_less_equal
  antichain_less_equal_iff a b = (
    λ h t below.
        let (y, m, le) = less_equal-witness b t below in
        let (x, k, le') =
          less_equal-witness a y (unfold less_equal in all_elem _ y b.elements m h) in
        less_equal_of_mem a x t k (p.less_equal_trans x y t le' le),
    λ f.
        all-intro _ b.elements
          (λ y m. unfold less_equal in f y (less_equal_of_mem b y y m (p.less_equal_refl y))),
  )

  AllIncomparable-IsDistinct : (xs : List A) → AllIncomparable xs → IsDistinct xs
  AllIncomparable-IsDistinct [] h = tt
  AllIncomparable-IsDistinct (x ∷ xs) h = (
    All-mono _ _ xs
        (λ y k same.
          let below = subst (λ z. p.less_equal x z ≡ true) same (p.less_equal_refl x) in
          ground (arith, below, k.0))
        h.0,
    AllIncomparable-IsDistinct xs h.1,
  )

  -- Comparable elements of an antichain are one element.
  pub AllIncomparable-eq :
      (xs : List A) (x y : A)
      → AllIncomparable xs
      → Memᴰ x xs
      → Memᴰ y xs
      → p.less_equal x y ≡ true
      → x ≡ y
  AllIncomparable-eq [] x y h m k le = elim m [ ]
  AllIncomparable-eq (z ∷ zs) x y h (here m) (here k) le = m ∙ sym k
  AllIncomparable-eq (z ∷ zs) x y h (here m) (there k) le =
      let (up, down) = All-elem (IsIncomparable z) y zs k h.0 in
      let le' = subst (λ w. p.less_equal w y ≡ true) m le in absurd (ground arith)
  AllIncomparable-eq (z ∷ zs) x y h (there m) (here k) le =
      let (up, down) = All-elem (IsIncomparable z) x zs m h.0 in
      let le' = subst (λ w. p.less_equal x w ≡ true) k le in absurd (ground arith)
  AllIncomparable-eq (z ∷ zs) x y h (there m) (there k) le = AllIncomparable-eq zs x y h.1 m k le

  -- The elements of an antichain are the minimal ones of what it is below.
  IsContained-of_below :
      (a b : Antichain A)
      → IsAntichain a
      → ((t : A) → less_equal a t ≡ less_equal b t)
      → IsContained a.elements b.elements
  IsContained-of_below a b h f x m =
      let above = less_equal_of_mem a x x m (p.less_equal_refl x) in
      let (y, k, le) = less_equal-witness b x (sym (f x) ∙ above) in
      let (z, n, le') =
        less_equal-witness a y (f y ∙ less_equal_of_mem b y y k (p.less_equal_refl y)) in
      let same : z ≡ x =
        AllIncomparable-eq a.elements z x h n m (p.less_equal_trans z y x le' le) in
      let back : p.less_equal x y ≡ true = subst (λ w. p.less_equal w y ≡ true) same le' in
      subst (λ w. Memᴰ w b.elements) (p.less_equal_antisymm y x le back) k

module _ {ℓ} {A : Type ℓ} ⦃e : Eq A⦄ where
  zip_all_eq-eq : (xs ys : List A) → length xs ≡ length ys → zip_all_eq xs ys ≡ true → xs ≡ ys
  unfolding zip_all_eq
  zip_all_eq-eq [] [] n h = refl
  zip_all_eq-eq [] (y ∷ ys) n h = absurd (omega arith)
  zip_all_eq-eq (x ∷ xs) [] n h = absurd (omega arith)
  zip_all_eq-eq (x ∷ xs) (y ∷ ys) n h =
      ap₂ ◌∷◌ ((e.eq_iff x y).0 (ground arith)) (zip_all_eq-eq xs ys (omega arith) (ground arith))

  -- The fast acceptance of identical lists accepts nothing else.
  same_elements-IsContained :
      (xs ys : List A) → same_elements xs ys ≡ true → (length xs ≡ length ys) × IsContained xs ys
  unfolding same_elements
  same_elements-IsContained xs ys h = (
    n,
    λ x m. elim (Bool-cases (zip_all_eq xs ys)) [
      | inl identical ↦ subst (λ zs. Memᴰ x zs) (zip_all_eq-eq xs ys n identical) m
      | inr other ↦
          let (y, k, same) =
            any-witness (λ y. e.eq x y) ys
              (all_elem (λ t. any (λ y. e.eq t y) ys) x xs m (ground arith)) in
          subst (λ z. Memᴰ z ys) (sym ((e.eq_iff x y).0 same)) k
    ],
  )
    where
      n : length xs ≡ length ys
      n = ground arith

  same_elements_intro :
      (xs ys : List A) → length xs ≡ length ys → IsContained xs ys → same_elements xs ys ≡ true
  unfolding same_elements
  same_elements_intro xs ys n c =
      let found : all (λ t. any (λ y. e.eq t y) ys) xs ≡ true =
        all-intro _ xs (λ x m. any_of_elem (λ y. e.eq x y) x ys (c x m) (eq_refl x)) in
      ground arith

module _ {ℓ} {A : Type ℓ} ⦃e : Eq A⦄ ⦃p : PartialOrder A⦄ where
  less_equal_of_IsContained :
      (a b : Antichain A) (t : A)
      → IsContained a.elements b.elements
      → less_equal a t ≡ true
      → less_equal b t ≡ true
  less_equal_of_IsContained a b t c h =
      let (x, m, le) = less_equal-witness a t h in less_equal_of_mem b x t (c x m) le

  -- Two antichains are equal by `==` exactly if they are below the same times.
  pub antichain_eq_iff :
      (a b : Antichain A)
      → IsAntichain a
      → IsAntichain b
      → (antichain_eq a b ≡ true) ↔ ((t : A) → less_equal a t ≡ less_equal b t)
  unfolding antichain_eq
  antichain_eq_iff a b h k = (
    λ same t.
        let (n, c) = same_elements-IsContained a.elements b.elements same in
        let d =
          IsContained-of_length a.elements b.elements (AllIncomparable-IsDistinct a.elements h) c
            (omega arith) in
        Bool-eq_of_iff _ _ (less_equal_of_IsContained a b t c) (less_equal_of_IsContained b a t d),
    λ f.
        let c = IsContained-of_below a b h f in
        let d = IsContained-of_below b a k (λ t. sym (f t)) in
        same_elements_intro a.elements b.elements
          (omega (
            arith,
            length-le_of_IsContained a.elements b.elements (AllIncomparable-IsDistinct a.elements h)
                c,
            length-le_of_IsContained b.elements a.elements (AllIncomparable-IsDistinct b.elements k)
                d,
          ))
          c,
  )

  -- `less_equal` both ways is `==`.
  pub antichain_less_equal_antisymm :
      (a b : Antichain A)
      → IsAntichain a
      → IsAntichain b
      → antichain_less_equal a b ≡ true
      → antichain_less_equal b a ≡ true
      → antichain_eq a b ≡ true
  antichain_less_equal_antisymm a b h k le ge = (antichain_eq_iff a b h k).1 (λ t.
      Bool-eq_of_iff _ _ ((antichain_less_equal_iff b a).0 ge t)
        ((antichain_less_equal_iff a b).0 le t))

  any_of_IsContained :
      (f : A → Bool) (xs ys : List A) → IsContained xs ys → any f xs ≡ true → any f ys ≡ true
  any_of_IsContained f xs ys c h =
      let (x, m, fx) = any-witness f xs h in any_of_elem f x ys (c x m) fx

  -- The order and the repetitions of a vector do not matter to its antichain.
  pub from_vec-eq_of_same :
      (xs ys : List A)
      → IsContained xs ys
      → IsContained ys xs
      → antichain_eq (from_vec xs) (from_vec ys) ≡ true
  from_vec-eq_of_same xs ys c d =
      (antichain_eq_iff _ _ (from_vec-IsAntichain xs) (from_vec-IsAntichain ys)).1 (λ t.
        less_equal-from_vec xs t
        ∙ Bool-eq_of_iff _ _ (any_of_IsContained (λ x. p.less_equal x t) xs ys c)
            (any_of_IsContained (λ x. p.less_equal x t) ys xs d)
        ∙ sym (less_equal-from_vec ys t))
